-- ===== src/Scaleset/Bootstrap/Laws.antt =====
-- What a `Bootstrap` of internal/scaleset has done when it succeeds, and what it leaves when not.
use incuse.Base.{
  ℕ, ℤ, pos, ◌≡◌, ◌≢◌, refl, sym, ◌∙◌, subst, Text, Option, none, some, Result, ok, err, List,
}
use incuse.Scaleset.{Options}
use incuse.Scaleset.Reconcile.{RunnerScaleSet}
use incuse.Scaleset.Session.{
  Outcome, opened, failed, cancelled, open_session_with_retry, Explains, last_attempt, retry-Ends,
}
use incuse.Scaleset.Bootstrap.{
  Api, ScaleSet, session_owner, new_scale_set, keep_session, open_for_owner, open_for,
  reconcile_found, look_up, with_client, bootstrap,
}
use incuse.Scaleset.Bootstrap.Endings.{
  Makes, Resolves, LooksUp, Reconciles, SessionEnds, IsIdle, Ends,
}

outcome-eq :
    {S : Type 0} (o p : Outcome S) (ws vs : List ℕ)
    → ◌≡◌ {A = Option (Outcome S × List ℕ)} (some (o, ws)) (some (p, vs))
    → o ≡ p
outcome-eq o p ws vs e = cc

none-ne-some : {A : Type 0} (a : A) → none ≢ some a
none-ne-some a e = cc

module _ {Client Session : Type 0} (Listener : Type 0) (api : Api Client Session)
    (version : Text) where
  module _ (o : Options) (c : Client) (made : Makes Listener api version o (ok c)) where
    abbrev s : ScaleSet Client Session Listener
    s = record {
      opts = o;
      client = some c;
      msg_client = none;
      scale_set_id = pos 0;
      listener = none;
    }

    idle : IsIdle Listener api version o s
    idle = record { keeps_opts = refl; no_session = refl; no_id = refl; no_listener = refl }

    module _ (group : ℤ) (resolved : Resolves Listener api version o c (ok group))
        (found : Option RunnerScaleSet)
        (looked_up : LooksUp Listener api version o c group (ok found)) (ss : RunnerScaleSet)
        (reconciled : Reconciles Listener api version o c group found (ok ss)) (owner : Text)
        (owned : session_owner api.hostname ≡ ok owner) where
      abbrev outcome : Option (Outcome Session × List ℕ)
      outcome = open_session_with_retry (api.open_session c ss.id owner) api.is_over

      explained :
          (result : Outcome Session) (ws : List ℕ)
          → outcome ≡ some (result, ws)
          → SessionEnds Listener api version o c ss.id owner result
      explained result ws e =
          let (o', ws', q, le, x, b) = retry-Ends (api.open_session c ss.id owner) api.is_over in
          let last : ℕ = last_attempt (api.open_session c ss.id owner) api.is_over 1 ws' in
          (
            last,
            le,
            subst (λ z. Explains (api.open_session c ss.id owner) api.is_over last z)
                (outcome-eq o' result ws' ws (sym q ∙ e)) x,
          )

      keep-Ends :
          (r : Option (Outcome Session × List ℕ))
          → outcome ≡ r
          → Ends Listener api version o
              (keep_session api version s ss.id r).0
              (keep_session api version s ss.id r).1
      unfolding keep_session
      keep-Ends none e =
          let (o', ws, q, le, x, b) = retry-Ends (api.open_session c ss.id owner) api.is_over in
          absurd (none-ne-some (o', ws) (sym e ∙ q))
      keep-Ends (some (opened session, ws)) e =
          let (attempt, le, x) = explained (opened session) ws e in
          record {
            c = c;
            group = group;
            found = found;
            ss = ss;
            owner = owner;
            session = session;
            attempt = attempt;
            made = made;
            resolved = resolved;
            looked_up = looked_up;
            reconciled = reconciled;
            owned = owned;
            within = le;
            opens = x;
            keeps_opts = refl;
            keeps_client = refl;
            keeps_session = refl;
            keeps_id = refl;
            no_listener = refl;
          }
      keep-Ends (some (failed t, ws)) e = (
        idle,
        (
          c,
          group,
          found,
          ss,
          owner,
          (made, resolved, looked_up, reconciled),
          owned,
          explained (failed t) ws e,
        ),
      )
      keep-Ends (some (cancelled, ws)) e = (
        idle,
        (
          c,
          group,
          found,
          ss,
          owner,
          (made, resolved, looked_up, reconciled),
          owned,
          explained cancelled ws e,
        ),
      )

    owner-Ends :
        (group : ℤ)
        → Resolves Listener api version o c (ok group)
        → (found : Option RunnerScaleSet) → LooksUp Listener api version o c group (ok found)
        → (ss : RunnerScaleSet) → Reconciles Listener api version o c group found (ok ss)
        → (r : Result Text) → session_owner api.hostname ≡ r
        → Ends Listener api version o
            (open_for_owner api version s c ss r).0
            (open_for_owner api version s c ss r).1
    unfolding open_for_owner
    owner-Ends group e₁ found e₂ ss e₃ (err t) e₄ =
        (idle, (c, group, found, ss, (made, e₁, e₂, e₃), e₄))
    owner-Ends group e₁ found e₂ ss e₃ (ok owner) e₄ =
        keep-Ends group e₁ found e₂ ss e₃ owner e₄ _ refl

    open-Ends :
        (group : ℤ)
        → Resolves Listener api version o c (ok group)
        → (found : Option RunnerScaleSet) → LooksUp Listener api version o c group (ok found)
        → (r : Result RunnerScaleSet) → Reconciles Listener api version o c group found r
        → Ends Listener api version o (open_for api version s c r).0 (open_for api version s c r).1
    unfolding open_for
    open-Ends group e₁ found e₂ (err t) e₃ = (idle, (c, group, found, made, e₁, e₂, e₃))
    open-Ends group e₁ found e₂ (ok ss) e₃ = owner-Ends group e₁ found e₂ ss e₃ _ refl

    found-Ends :
        (group : ℤ)
        → Resolves Listener api version o c (ok group)
        → (r : Result (Option RunnerScaleSet)) → LooksUp Listener api version o c group r
        → Ends Listener api version o
            (reconcile_found api version s c group r).0
            (reconcile_found api version s c group r).1
    unfolding reconcile_found
    found-Ends group e₁ (err t) e₂ = (idle, (c, group, made, e₁, e₂))
    found-Ends group e₁ (ok found) e₂ = open-Ends group e₁ found e₂ _ refl

    group-Ends :
        (r : Result ℤ)
        → Resolves Listener api version o c r
        → Ends Listener api version o (look_up api version s c r).0 (look_up api version s c r).1
    unfolding look_up
    group-Ends (err t) e₁ = (idle, (c, made, e₁))
    group-Ends (ok group) e₁ = found-Ends group e₁ _ refl

  client-Ends :
      (o : Options) (r : Result Client)
      → Makes Listener api version o r
      → Ends Listener api version o
          (with_client api version (new_scale_set {Listener = Listener} o) r).0
          (with_client api version (new_scale_set {Listener = Listener} o) r).1
  unfolding with_client new_scale_set
  client-Ends o (err t) e =
      (record { keeps_opts = refl; no_session = refl; no_id = refl; no_listener = refl }, e)
  client-Ends o (ok c) e = group-Ends o c e _ refl

  -- A bootstrap of a new scale set ends, and in one of two ways: with no error, and then all its calls
  -- have succeeded, each with what the one before gave, the scale set holds the client, the session
  -- of one of at most 20 attempts and the id of the scale set that was reconciled; or with the error
  -- of a call that was made after all those before it had succeeded, and that failed with it (for the
  -- session: the last of at most 20 attempts, or the context, which ended in the wait before it), and
  -- then it holds no session and no id.
  pub bootstrap-Ends :
      (o : Options)
      → Ends Listener api version o
          (bootstrap api version (new_scale_set {Listener = Listener} o)).0
          (bootstrap api version (new_scale_set {Listener = Listener} o)).1
  unfolding bootstrap new_scale_set
  bootstrap-Ends o = client-Ends o _ refl
