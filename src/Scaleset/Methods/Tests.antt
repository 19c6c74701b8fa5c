-- ===== src/Scaleset/Methods/Tests.antt =====
-- A run of the methods of internal/scaleset that is refused, a bootstrap and another run.
use incuse.Base.{ℕ, pos, Text, text_eq, codes, true, Result, ok, List, [], ◌∷◌, ◌≡◌, refl}
use incuse.Scaleset.Reconcile.{reconcile_scale_set}
use incuse.Scaleset.Session.{open_session_with_retry}
use incuse.Scaleset.Bootstrap.{ScaleSet, new_scale_set, bootstrap}
use incuse.Scaleset.Bootstrap.Tests.{options, api}
use incuse.Scaleset.Methods.{ListenerConfig}
use incuse.Scaleset.Methods.Laws.{
  Op, boots, begins, Answers, apply, some_succeeds, apply_all, methods_lem,
}

abbrev new_listener : ℕ → ListenerConfig → Result ℕ
new_listener session cfg = ok 5

abbrev ops : List (Op Text ℕ ℕ)
ops = begins new_listener ∷ boots api ∷ begins new_listener ∷ []

abbrev fresh : ScaleSet Text ℕ ℕ
fresh = new_scale_set options

methods_lem_example :
    Answers
      (codes "v1")
      new_listener
      (codes "runner")
      (codes "_work")
      (pos 3)
      (pos 2)
      (some_succeeds (codes "v1") ops fresh)
      (apply_all (codes "v1") ops fresh)
methods_lem_example =
    methods_lem (codes "v1") new_listener (codes "runner") (codes "_work") (pos 3) (pos 2) options
      ops

succeeds_test : some_succeeds (codes "v1") ops fresh ≡ true
unfolding some_succeeds apply bootstrap new_scale_set reconcile_scale_set open_session_with_retry
succeeds_test = refl
