-- ===== src/Scaleset/Bootstrap/Endings.antt =====
-- How a `Bootstrap` of internal/scaleset may end.
use incuse.Base.{ℕ, ◌≤◌, ℤ, pos, ◌≡◌, Text, codes, Option, none, some, Result, ok, err}
use incuse.Scaleset.{Options}
use incuse.Scaleset.Reconcile.{RunnerScaleSet, reconcile_scale_set}
use incuse.Scaleset.Session.{Outcome, failed, cancelled, Explains}
use incuse.Scaleset.Bootstrap.{
  Api, ScaleSet, BootstrapError, client_error, group_error, lookup_error, reconcile_error,
  owner_error, session_error, session_cancelled, session_pending, session_owner, build_client,
}

module _ {Client Session : Type 0} (Listener : Type 0) (api : Api Client Session)
    (version : Text) where
  -- What stands behind a scale set that can be used: every call of GitHub succeeded, in order, the
  -- session is that of the scale set whose id is kept, and it was opened within 20 attempts.
  pub record Serves (o : Options) (s : ScaleSet Client Session Listener) : Type 0 where
    pub c : Client
    pub group : ℤ
    pub found : Option RunnerScaleSet
    pub ss : RunnerScaleSet
    pub owner : Text
    pub session : Session
    pub attempt : ℕ
    pub made :
        api.new_client (
          build_client o
            (record { system = codes "incuse"; version = version; subsystem = codes "listener" }))
        ≡ ok c
    pub resolved : api.get_runner_group_by_name c o.spec.runner_group ≡ ok group
    pub looked_up : api.get_runner_scale_set c group o.spec.name ≡ ok found
    pub reconciled :
        reconcile_scale_set
          (api.create_runner_scale_set c)
          (api.update_runner_scale_set c)
          o.spec.name
          group
          found
          o.spec.base_labels
        ≡ ok ss
    pub owned : session_owner api.hostname ≡ ok owner
    pub within : attempt ≤ 20
    pub opens : api.open_session c ss.id owner attempt ≡ ok session
    pub keeps_opts : s.opts ≡ o
    pub keeps_client : s.client ≡ some c
    pub keeps_session : s.msg_client ≡ some session
    pub keeps_id : s.scale_set_id ≡ ss.id
    pub no_listener : s.listener ≡ none

  -- Without a session: no id either, and no listener.
  pub record IsIdle (o : Options) (s : ScaleSet Client Session Listener) : Type 0 where
    pub keeps_opts : s.opts ≡ o
    pub no_session : s.msg_client ≡ none
    pub no_id : s.scale_set_id ≡ pos 0
    pub no_listener : s.listener ≡ none

  -- The calls of a bootstrap, in order: each is made with what the ones before gave.
  module _ (o : Options) where
    abbrev pub Makes : Result Client → Type 0
    Makes r =
        api.new_client (
          build_client o
            (record { system = codes "incuse"; version = version; subsystem = codes "listener" }))
        ≡ r

    abbrev pub Resolves : Client → Result ℤ → Type 0
    Resolves c r = api.get_runner_group_by_name c o.spec.runner_group ≡ r

    abbrev pub LooksUp : Client → ℤ → Result (Option RunnerScaleSet) → Type 0
    LooksUp c group r = api.get_runner_scale_set c group o.spec.name ≡ r

    abbrev pub Reconciles : Client → ℤ → Option RunnerScaleSet → Result RunnerScaleSet → Type 0
    Reconciles c group found r =
        reconcile_scale_set (api.create_runner_scale_set c) (api.update_runner_scale_set c)
          o.spec.name group found o.spec.base_labels
        ≡ r

    -- Up to the scale set that was reconciled.
    abbrev pub Reaches : Client → ℤ → Option RunnerScaleSet → RunnerScaleSet → Type 0
    Reaches c group found ss =
        Makes (ok c)
        × Resolves c (ok group)
        × LooksUp c group (ok found)
        × Reconciles c group found (ok ss)

    -- After at most 20 attempts, the last of which explains the outcome.
    abbrev pub SessionEnds : Client → ℤ → Text → Outcome Session → Type 0
    SessionEnds c id owner outcome =
        (attempt : ℕ) × (attempt ≤ 20)
        × Explains (api.open_session c id owner) api.is_over attempt outcome

    -- The error is that of a call that was made and failed, all those before it having succeeded.
    abbrev pub FailsWith : BootstrapError → Type 0
    FailsWith (client_error t) = Makes (err t)
    FailsWith (group_error t) = (c : Client) × Makes (ok c) × Resolves c (err t)
    FailsWith (lookup_error t) =
        (c : Client) × (group : ℤ) × Makes (ok c) × Resolves c (ok group) × LooksUp c group (err t)
    FailsWith (reconcile_error t) =
        (c : Client) × (group : ℤ) × (found : Option RunnerScaleSet) × Makes (ok c)
        × Resolves c (ok group)
        × LooksUp c group (ok found)
        × Reconciles c group found (err t)
    FailsWith (owner_error t) =
        (c : Client) × (group : ℤ) × (found : Option RunnerScaleSet) × (ss : RunnerScaleSet)
        × Reaches c group found ss
        × (session_owner api.hostname ≡ err t)
    FailsWith (session_error t) =
        (c : Client) × (group : ℤ) × (found : Option RunnerScaleSet) × (ss : RunnerScaleSet)
        × (owner : Text) × Reaches c group found ss
        × (session_owner api.hostname ≡ ok owner)
        × SessionEnds c ss.id owner (failed t)
    FailsWith session_cancelled =
        (c : Client) × (group : ℤ) × (found : Option RunnerScaleSet) × (ss : RunnerScaleSet)
        × (owner : Text) × Reaches c group found ss
        × (session_owner api.hostname ≡ ok owner)
        × SessionEnds c ss.id owner cancelled
    FailsWith session_pending = ⊥

  -- A bootstrap ends in one of two ways.
  abbrev pub Ends : Options → ScaleSet Client Session Listener → Option BootstrapError → Type 0
  Ends o s none = Serves o s
  Ends o s (some e) = IsIdle o s × FailsWith o e
