-- ===== src/Scaleset/Reconcile/Laws.antt =====
-- `reconcileScaleSet` of internal/scaleset/scaleset.go leaves a scale set that needs no other call.
use incuse.Base.{
  ℤ, Text, text_eq, to_lower, true, false, Option, none, some, List, [], ◌∷◌, map, Result, ok, ◌≡◌,
  refl, ap, sym, ◌∙◌, subst, Bool-cases, inl, inr,
}
use incuse.Scaleset.Labels.{Label, to_labels, label_names_match}
use incuse.Scaleset.Labels.Match.{count, match-count}
use incuse.Scaleset.Reconcile.{
  RunnerScaleSet, ScaleSetRequest, keep, update_call, plan, run_call, reconcile_scale_set,
}

abbrev pub label_names : List Label → List Text
label_names ls = map (λ l. l.name) ls

lower-names : (ls : List Label) → map (λ l. to_lower l.name) ls ≡ map to_lower (label_names ls)
lower-names [] = refl
lower-names (l ∷ ls) = ap (λ ts. to_lower l.name ∷ ts) (lower-names ls)

names-to_labels : (names : List Text) → label_names (to_labels names) ≡ names
unfolding to_labels
names-to_labels [] = refl
names-to_labels (n ∷ ns) = ap (λ ts. n ∷ ts) (names-to_labels ns)

-- Labels with the names that are wanted match.
names-match :
    (ls : List Label) (want : List Text) → label_names ls ≡ want → label_names_match ls want ≡ true
names-match ls want e =
    (match-count ls want).1
      (λ n. ap (λ ts. count n ts) (lower-names ls ∙ ap (λ ts. map to_lower ts) e))

plan-keep :
    (name : Text) (group : ℤ) (s : RunnerScaleSet) (want : List Text)
    → label_names_match s.labels want ≡ true
    → plan name group (some s) want ≡ keep s
unfolding plan
plan-keep name group s want h = rw h refl

plan-update :
    (name : Text) (group : ℤ) (s : RunnerScaleSet) (want : List Text)
    → label_names_match s.labels want ≡ false
    → plan name group (some s) want ≡ update_call s group want
unfolding plan
plan-update name group s want h = rw h refl

ok-eq : {A : Type 0} (a b : A) → ok a ≡ ok b → a ≡ b
ok-eq a b h = cc

module _ (create_scale_set : ScaleSetRequest → Result RunnerScaleSet)
    (update_scale_set : ℤ → ScaleSetRequest → Result RunnerScaleSet) where
  -- GitHub answers with the labels that it was sent.
  abbrev pub CreateKeeps : Type 0
  CreateKeeps =
      (r : ScaleSetRequest) (s : RunnerScaleSet)
      → create_scale_set r ≡ ok s
      → label_names s.labels ≡ label_names r.labels

  abbrev pub UpdateKeeps : Type 0
  UpdateKeeps =
      (id : ℤ) (r : ScaleSetRequest) (s : RunnerScaleSet)
      → update_scale_set id r ≡ ok s
      → label_names s.labels ≡ label_names r.labels

  -- If GitHub answers a creation and an update with the names of the labels that it was sent, then a
  -- scale set that reconcileScaleSet returns needs no other call: reconciled again it is kept.
  pub reconcile_settles :
      CreateKeeps
      → UpdateKeeps
      → (name : Text) (group : ℤ) (existing : Option RunnerScaleSet) (want : List Text)
        (s : RunnerScaleSet)
      → reconcile_scale_set create_scale_set update_scale_set name group existing want ≡ ok s
      → plan name group (some s) want ≡ keep s
  unfolding reconcile_scale_set run_call plan update_call
  reconcile_settles created updated name group none want s h =
      plan-keep name group s want (names-match s.labels want (created _ s h ∙ names-to_labels want))
  reconcile_settles created updated name group (some e) want s h =
      elim (Bool-cases (label_names_match e.labels want)) [
        | inl m ↦
            let q = ok-eq e s (
              sym (
                ap (λ c. run_call create_scale_set update_scale_set c)
                  (plan-keep name group e want m))
              ∙ h) in
            plan-keep name group s want (subst (λ z. label_names_match z.labels want ≡ true) q m)
        | inr m ↦
            let q =
              sym (
                ap (λ c. run_call create_scale_set update_scale_set c)
                  (plan-update name group e want m))
              ∙ h in
            plan-keep name group s want
              (names-match s.labels want (updated e.id _ s q ∙ names-to_labels want))
      ]
