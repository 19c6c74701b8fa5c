-- ===== src/Scaleset/Bootstrap.antt =====
-- internal/scaleset/scaleset.go: the state of a `ScaleSet`, `Bootstrap`, and the methods that need it
-- to have succeeded. GitHub's client and its answers are parameters.
pub mod Frame
pub mod Endings
pub mod Laws
pub mod Tests
use incuse.Base.{
  ℕ, ℤ, pos, Text, codes, is_empty, Bool, true, false, Option, none, some, Result, ok, err, List,
  [], ◌∷◌, if◌then◌else◌,
}
use incuse.Scaleset.{Options}
use incuse.Scaleset.Reconcile.{RunnerScaleSet, ScaleSetRequest, reconcile_scale_set}
use incuse.Scaleset.Session.{Outcome, opened, failed, cancelled, open_session_with_retry}

-- `ssapi.SystemInfo`
pub record SystemInfo : Type 0 where
  pub system : Text
  pub version : Text
  pub subsystem : Text

-- The call that makes a client.
pub data ClientCall : Type 0 where
  with_personal_access_token : Text → Text → SystemInfo → ClientCall
  with_github_app : Text → Text → ℤ → Text → SystemInfo → ClientCall

-- What GitHub's client, the host and the context answer during a `Bootstrap`.
pub record Api (Client Session : Type 0) : Type 0 where
  pub new_client : ClientCall → Result Client
  pub get_runner_group_by_name : Client → Text → Result ℤ
  pub get_runner_scale_set : Client → ℤ → Text → Result (Option RunnerScaleSet)
  pub create_runner_scale_set : Client → ScaleSetRequest → Result RunnerScaleSet
  pub update_runner_scale_set : Client → ℤ → ScaleSetRequest → Result RunnerScaleSet
  pub hostname : Result Text
  -- each attempt to open a session for a scale set and an owner
  pub open_session : Client → ℤ → Text → ℕ → Result Session
  -- whether the context ends during the wait after an attempt
  pub is_over : ℕ → Bool

pub record ScaleSet (Client Session Listener : Type 0) : Type 0 where
  pub opts : Options
  pub client : Option Client
  pub msg_client : Option Session
  pub scale_set_id : ℤ
  pub listener : Option Listener

pub data BootstrapError : Type 0 where
  client_error group_error lookup_error reconcile_error owner_error session_error :
      Text → BootstrapError
  -- the context ended between two attempts
  session_cancelled : BootstrapError
  -- the loop of the session did not end: it always does (Session)
  session_pending : BootstrapError

-- `sessionOwner`
unfoldable pub session_owner : Result Text → Result Text
session_owner (err e) = err e
session_owner (ok h) = if is_empty h then ok (codes "incuse") else ok h

-- `buildClient`
unfoldable pub build_client : Options → SystemInfo → ClientCall
build_client o info =
    if is_empty o.pat
    then with_github_app o.configure_url o.app_client_id o.app_installation_id o.app_private_key_pem
        info
    else with_personal_access_token o.configure_url o.pat info

module _ {Client Session Listener : Type 0} where
  -- What `New` returns for options that it accepts.
  unfoldable pub new_scale_set : Options → ScaleSet Client Session Listener
  new_scale_set o = record {
    opts = o;
    client = none;
    msg_client = none;
    scale_set_id = pos 0;
    listener = none;
  }

-- The scale set after a `Bootstrap`, and its error, if it has one.
abbrev pub Bootstrapped : Type 0 → Type 0 → Type 0 → Type 0
Bootstrapped Client Session Listener = ScaleSet Client Session Listener × Option BootstrapError

module _ {Client Session Listener : Type 0} (api : Api Client Session) (version : Text) where
  -- `version` is `opts.Version`.
  -- The end of `Bootstrap`, over the outcome of the session.
  unfoldable pub keep_session :
      ScaleSet Client Session Listener
      → ℤ
      → Option (Outcome Session × List ℕ)
      → Bootstrapped Client Session Listener
  keep_session s id none = (s, some session_pending)
  keep_session s id (some (opened session, _)) =
      (record s { msg_client = some session; scale_set_id = id }, none)
  keep_session s id (some (failed e, _)) = (s, some (session_error e))
  keep_session s id (some (cancelled, _)) = (s, some session_cancelled)

  unfoldable pub open_for_owner :
      ScaleSet Client Session Listener
      → Client
      → RunnerScaleSet
      → Result Text
      → Bootstrapped Client Session Listener
  unfolding keep_session
  open_for_owner s c ss (err e) = (s, some (owner_error e))
  open_for_owner s c ss (ok owner) =
      keep_session s ss.id (open_session_with_retry (api.open_session c ss.id owner) api.is_over)

  unfoldable pub open_for :
      ScaleSet Client Session Listener
      → Client
      → Result RunnerScaleSet
      → Bootstrapped Client Session Listener
  unfolding open_for_owner session_owner
  open_for s c (err e) = (s, some (reconcile_error e))
  open_for s c (ok ss) = open_for_owner s c ss (session_owner api.hostname)

  unfoldable pub reconcile_found :
      ScaleSet Client Session Listener
      → Client
      → ℤ
      → Result (Option RunnerScaleSet)
      → Bootstrapped Client Session Listener
  unfolding open_for
  reconcile_found s c group (err e) = (s, some (lookup_error e))
  reconcile_found s c group (ok existing) = open_for s c (
      reconcile_scale_set (api.create_runner_scale_set c) (api.update_runner_scale_set c)
        s.opts.spec.name group existing s.opts.spec.base_labels)

  unfoldable pub look_up :
      ScaleSet Client Session Listener → Client → Result ℤ → Bootstrapped Client Session Listener
  unfolding reconcile_found
  look_up s c (err e) = (s, some (group_error e))
  look_up s c (ok group) =
      reconcile_found s c group (api.get_runner_scale_set c group s.opts.spec.name)

  -- The client is kept also where a later call fails.
  unfoldable pub with_client :
      ScaleSet Client Session Listener → Result Client → Bootstrapped Client Session Listener
  unfolding look_up
  with_client s (err e) = (s, some (client_error e))
  with_client s (ok c) =
      look_up (record s { client = some c }) c
        (api.get_runner_group_by_name c s.opts.spec.runner_group)

  unfoldable pub bootstrap : ScaleSet Client Session Listener → Bootstrapped Client Session Listener
  unfolding with_client build_client
  bootstrap s = with_client s (
      api.new_client (
        build_client s.opts
          (record { system = codes "incuse"; version = version; subsystem = codes "listener" })))
