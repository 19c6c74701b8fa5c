-- ===== src/Scaleset/Tests.antt =====
-- The theorems of internal/scaleset at concrete inputs.
use incuse.Base.{
  ℕ, ℤ, pos, Text, text_eq, codes, to_lower, lower_rune, Bool, true, false, none, some, Result, ok,
  err, [], ◌∷◌, map, ◌≡◌, ◌↔◌, refl, if◌then◌else◌, leb,
}
use incuse.Scaleset.Labels.{to_labels, label_names_match}
use incuse.Scaleset.Labels.Match.{count, match-count}
use incuse.Scaleset.Reconcile.{RunnerScaleSet, ScaleSetRequest, keep, plan, reconcile_scale_set}
use incuse.Scaleset.Reconcile.Laws.{reconcile_settles}
use incuse.Scaleset.Session.{Ends, open_session_with_retry, retry-Ends, opened}

-- Two conflicts, and then a session.
abbrev open_third : ℕ → Result Text
open_third attempt = if leb attempt 2 then err (codes "status 409") else ok (codes "session")

abbrev never : ℕ → Bool
never _ = false

retry-Ends_example : Ends open_third never 1 (open_session_with_retry open_third never)
retry-Ends_example = retry-Ends open_third never

retry_test :
    open_session_with_retry open_third never ≡ some (opened (codes "session"), 30 ∷ 60 ∷ [])
unfolding open_session_with_retry
retry_test = refl

match-count_example :
    (label_names_match (to_labels (codes "A" ∷ codes "b" ∷ [])) (codes "B" ∷ codes "a" ∷ []) ≡ true)
    ↔ ((n : Text)
        → count n (map (λ l. to_lower l.name) (to_labels (codes "A" ∷ codes "b" ∷ [])))
          ≡ count n (map to_lower (codes "B" ∷ codes "a" ∷ [])))
match-count_example =
    match-count (to_labels (codes "A" ∷ codes "b" ∷ [])) (codes "B" ∷ codes "a" ∷ [])

match_test :
    label_names_match (to_labels (codes "A" ∷ codes "b" ∷ [])) (codes "B" ∷ codes "a" ∷ []) ≡ true
unfolding label_names_match text_eq lower_rune to_labels
match_test = refl

-- A server that stores what it is sent.
abbrev stored : ℤ → ScaleSetRequest → Result RunnerScaleSet
stored id r =
    ok (record { id = id; name = r.name; runner_group_id = r.runner_group_id; labels = r.labels })

stored-keeps :
    (id : ℤ) (r : ScaleSetRequest) (s : RunnerScaleSet)
    → stored id r ≡ ok s
    → map (λ l. l.name) s.labels ≡ map (λ l. l.name) r.labels
stored-keeps id r s h = cc

abbrev created : RunnerScaleSet
created = record {
  id = pos 7;
  name = codes "incuse-a";
  runner_group_id = pos 1;
  labels = record { name = codes "a"; kind = [] } ∷ [];
}

reconcile_settles_example :
    plan (codes "incuse-a") (pos 1) (some created) (codes "a" ∷ []) ≡ keep created
unfolding reconcile_scale_set
reconcile_settles_example =
    reconcile_settles (stored (pos 7)) stored (stored-keeps (pos 7)) stored-keeps (codes "incuse-a")
      (pos 1) none (codes "a" ∷ []) created refl
