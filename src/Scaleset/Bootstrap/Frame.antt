-- ===== src/Scaleset/Bootstrap/Frame.antt =====
-- What a `Bootstrap` of internal/scaleset changes of a scale set that has a client: nothing where it
-- fails, and the session and the id where it succeeds.
use incuse.Base.{ℕ, ℤ, ◌≡◌, refl, Text, Option, none, some, Result, ok, err, List}
use incuse.Scaleset.Reconcile.{RunnerScaleSet}
use incuse.Scaleset.Session.{Outcome, opened, failed, cancelled}
use incuse.Scaleset.Bootstrap.{
  Api, ScaleSet, BootstrapError, keep_session, open_for_owner, open_for, reconcile_found, look_up,
}

module _ {Client Session Listener : Type 0} (version : Text) where
  -- Where a bootstrap that has a client comes to.
  abbrev pub Leaves :
      ScaleSet Client Session Listener
      → Option BootstrapError
      → ScaleSet Client Session Listener
      → Type 0
  Leaves s none s' =
      (x : Session) × (id : ℤ) × (s' ≡ record s { msg_client = some x; scale_set_id = id })
  Leaves s (some e) s' = s' ≡ s

  module _ (api : Api Client Session) (s : ScaleSet Client Session Listener) where
    keep-Leaves :
        (id : ℤ) (r : Option (Outcome Session × List ℕ))
        → Leaves s (keep_session api version s id r).1 (keep_session api version s id r).0
    unfolding keep_session
    keep-Leaves id none = refl
    keep-Leaves id (some (opened session, ws)) = (session, id, refl)
    keep-Leaves id (some (failed e, ws)) = refl
    keep-Leaves id (some (cancelled, ws)) = refl

    owner-Leaves :
        (c : Client) (ss : RunnerScaleSet) (r : Result Text)
        → Leaves s (open_for_owner api version s c ss r).1 (open_for_owner api version s c ss r).0
    unfolding open_for_owner
    owner-Leaves c ss (err e) = refl
    owner-Leaves c ss (ok owner) = keep-Leaves ss.id _

    open-Leaves :
        (c : Client) (r : Result RunnerScaleSet)
        → Leaves s (open_for api version s c r).1 (open_for api version s c r).0
    unfolding open_for
    open-Leaves c (err e) = refl
    open-Leaves c (ok ss) = owner-Leaves c ss _

    found-Leaves :
        (c : Client) (group : ℤ) (r : Result (Option RunnerScaleSet))
        → Leaves s
            (reconcile_found api version s c group r).1
            (reconcile_found api version s c group r).0
    unfolding reconcile_found
    found-Leaves c group (err e) = refl
    found-Leaves c group (ok found) = open-Leaves c _

    pub group-Leaves :
        (c : Client) (r : Result ℤ)
        → Leaves s (look_up api version s c r).1 (look_up api version s c r).0
    unfolding look_up
    group-Leaves c (err e) = refl
    group-Leaves c (ok group) = found-Leaves c group _
