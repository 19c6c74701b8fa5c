-- ===== src/Scaleset/Methods/Laws.antt =====
-- The life of a `ScaleSet` of internal/scaleset: any order of its methods, whatever GitHub answers.
use incuse.Base.{
  ℤ, pos, ◌≡◌, ◌≢◌, ◌⊎◌, inl, inr, refl, ap, subst, Text, Bool, true, false, ◌||◌, Option, none,
  some, Result, ok, err, List, [], ◌∷◌, arith,
}
use incuse.Scaleset.{Options}
use incuse.Scaleset.Bootstrap.Frame.{Leaves, group-Leaves}
use incuse.Scaleset.Bootstrap.{Api, ScaleSet, BootstrapError, new_scale_set, with_client, bootstrap}
use incuse.Scaleset.Methods.{
  MethodError, not_bootstrapped, ListenerConfig, begin_run, end_run, set_max_runners, close,
  generate_jit_config, remove_runner,
}

-- A `Bootstrap`, the beginning of a `Run`, and its end. The other methods change nothing.
pub data Op (Client Session Listener : Type 0) : Type 0 where
  boots : Api Client Session → Op Client Session Listener
  begins : (Session → ListenerConfig → Result Listener) → Op Client Session Listener
  ends : Op Client Session Listener

abbrev pub is_none : Option BootstrapError → Bool
is_none none = true
is_none (some e) = false

or-false : (b : Bool) → b ≡ (b || false)
or-false true = refl
or-false false = refl

or_assoc : (a b c : Bool) → ((a || b) || c) ≡ (a || (b || c))
or_assoc true b c = refl
or_assoc false b c = refl

module _ {Client Session Listener : Type 0} (version : Text) where
  abbrev begun :
      ScaleSet Client Session Listener
      → MethodError ⊎ ScaleSet Client Session Listener
      → ScaleSet Client Session Listener
  begun s (inl e) = s
  begun s (inr s') = s'

  unfoldable pub apply :
      Op Client Session Listener
      → ScaleSet Client Session Listener
      → ScaleSet Client Session Listener
  unfolding end_run
  apply (boots api) s = (bootstrap api version s).0
  apply (begins f) s = begun s (begin_run f s)
  apply ends s = end_run s

  -- A `Bootstrap` that succeeds.
  abbrev pub succeeds : Op Client Session Listener → ScaleSet Client Session Listener → Bool
  succeeds (boots api) s = is_none (bootstrap api version s).1
  succeeds _ s = false

  unfoldable pub apply_all :
      List (Op Client Session Listener)
      → ScaleSet Client Session Listener
      → ScaleSet Client Session Listener
  unfolding apply
  apply_all [] s = s
  apply_all (op ∷ ops) s = apply_all ops (apply op s)

  -- Whether some `Bootstrap` of a sequence succeeds.
  unfoldable pub some_succeeds :
      List (Op Client Session Listener) → ScaleSet Client Session Listener → Bool
  unfolding apply
  some_succeeds [] s = false
  some_succeeds (op ∷ ops) s = succeeds op s || some_succeeds ops (apply op s)

  -- Whether a session is there, what it comes with, and what is missing without it.
  pub record Sound (has : Bool) (s : ScaleSet Client Session Listener) : Type 0 where
    pub with_session : has ≡ true → (x : Session) × (s.msg_client ≡ some x)
    pub with_client : has ≡ true → (c : Client) × (s.client ≡ some c)
    pub no_session : has ≡ false → s.msg_client ≡ none
    pub no_id : has ≡ false → s.scale_set_id ≡ pos 0
    pub no_listener : has ≡ false → s.listener ≡ none

  kept-Sound :
      (has : Bool) (c : Client) (s s' : ScaleSet Client Session Listener)
      (e : Option BootstrapError)
      → Leaves version (record s { client = some c }) e s'
      → Sound has s
      → Sound (has || is_none e) s'
  kept-Sound has c s s' none (x, id, q) v = record {
    with_session = λ e. (x, ap (λ z. z.msg_client) q);
    with_client = λ e. (c, ap (λ z. z.client) q);
    no_session = λ e. ground arith;
    no_id = λ e. ground arith;
    no_listener = λ e. ground arith;
  }
  kept-Sound has c s s' (some e) q v = record {
    with_session = λ h. ground (arith, v.with_session);
    with_client = λ h. (c, ap (λ z. z.client) q);
    no_session = λ h. ground arith;
    no_id = λ h. ground arith;
    no_listener = λ h. ground arith;
  }

  new-Sound : (o : Options) → Sound false (new_scale_set o)
  unfolding new_scale_set
  new-Sound o = record {
    with_session = λ e. absurd (ground arith);
    with_client = λ e. absurd (ground arith);
    no_session = λ e. refl;
    no_id = λ e. refl;
    no_listener = λ e. refl;
  }

  client-Sound :
      (api : Api Client Session) (has : Bool) (s : ScaleSet Client Session Listener)
      (r : Result Client)
      → Sound has s
      → Sound (has || is_none (with_client api version s r).1) (with_client api version s r).0
  unfolding with_client
  client-Sound api has s (ok c) v =
      kept-Sound has c s _ _
        (group-Leaves version api (record s { client = some c }) c
          (api.get_runner_group_by_name c s.opts.spec.runner_group))
        v
  client-Sound api has s (err e) v = subst (λ b. Sound b s) (or-false has) v

  begins-Sound :
      (has : Bool) (f : Session → ListenerConfig → Result Listener)
      (s : ScaleSet Client Session Listener)
      → Sound has s
      → Sound (has || false) (apply (begins f) s)
  unfolding apply begin_run
  begins-Sound has f s v = record {
    with_session = λ e. ground (arith, v.with_session, or-false has);
    with_client = λ e. ground (arith, v.with_client, or-false has);
    no_session = λ e. ground (arith, v.no_session);
    no_id = λ e. ground (arith, v.no_id);
    no_listener = λ e. ground (arith, v.no_session, v.no_listener);
  }

  apply-Sound :
      (op : Op Client Session Listener) (has : Bool) (s : ScaleSet Client Session Listener)
      → Sound has s
      → Sound (has || succeeds op s) (apply op s)
  unfolding apply bootstrap
  apply-Sound (boots api) has s v = client-Sound api has s _ v
  apply-Sound (begins f) has s v = begins-Sound has f s v
  apply-Sound ends has s v =
      subst (λ b. Sound b (apply ends s)) (or-false has)
        (record {
          with_session = v.with_session;
          with_client = v.with_client;
          no_session = v.no_session;
          no_id = v.no_id;
          no_listener = λ e. refl;
        })

  apply_all-Sound :
      (ops : List (Op Client Session Listener)) (has : Bool) (s : ScaleSet Client Session Listener)
      → Sound has s
      → Sound (has || some_succeeds ops s) (apply_all ops s)
  unfolding apply_all some_succeeds
  apply_all-Sound [] has s v = subst (λ b. Sound b s) (or-false has) v
  apply_all-Sound (op ∷ ops) has s v =
      subst (λ b. Sound b (apply_all ops (apply op s))) (or_assoc has (succeeds op s) _)
        (apply_all-Sound ops (has || succeeds op s) (apply op s) (apply-Sound op has s v))

  module _ (f : Session → ListenerConfig → Result Listener) (name work_folder : Text)
      (id count : ℤ) where
    -- What the methods do without a bootstrap that succeeded, and with one.
    abbrev pub Answers : Bool → ScaleSet Client Session Listener → Type 0
    Answers false s =
        (begin_run f s ≡ inl not_bootstrapped) × (close s ≡ none) × (set_max_runners count s ≡ none)
    Answers true s =
        (c : Client) × (x : Session) × (close s ≡ some x)
        × (begin_run f s ≢ inl not_bootstrapped)
        × (remove_runner id s ≡ inr (c, id))
        × (generate_jit_config name work_folder s
            ≡ inr (
              c,
              record { name = name; work_folder = work_folder; scale_set_id = s.scale_set_id },
            ))

    Sound-Answers :
        (has : Bool) (s : ScaleSet Client Session Listener) → Sound has s → Answers has s
    unfolding begin_run close set_max_runners generate_jit_config remove_runner
    Sound-Answers false s v = (rw (v.no_session refl), v.no_session refl, rw (v.no_listener refl))
    Sound-Answers true s v =
        let (x, session) = v.with_session refl in
        let (c, client) = v.with_client refl in
        (c, x, session, λ e. ground arith, rw client, rw client)

    -- After any methods in any order, whatever GitHub answers: while no `Bootstrap` has succeeded,
    -- `Run` refuses, `Close` and `SetMaxRunners` do nothing; once one has, and whatever follows, even
    -- a `Bootstrap` that fails, `Close` closes a session, `Run` does not refuse for want of one, and
    -- runners are minted for the scale set whose id is kept, and removed, with a client.
    pub methods_lem :
        (o : Options) (ops : List (Op Client Session Listener))
        → Answers (some_succeeds ops (new_scale_set o)) (apply_all ops (new_scale_set o))
    methods_lem o ops =
        Sound-Answers _ _ (apply_all-Sound ops false (new_scale_set o) (new-Sound o))
