-- ===== src/Startup/Run/Laws.antt =====
-- What `run` of cmd/incuse/main.go leaves behind, on every path.
use mathlib.Core.List.{append_assoc, append-nil}
use incuse.Base.{
  ◌≡◌, refl, sym, ap, subst, ◌⊎◌, inl, inr, Text, text_eq, Bool, true, false, Option, none, some,
  List, [], ◌∷◌, ◌++◌, All, Bool-cases,
}
use incuse.Config.{Config, ScaleSetConfig}
use incuse.Config.Specs.{scale_set_specs}
use incuse.Incus.Connect.{ConnectError, RealClient, connect}
use incuse.Scaleset.{Options, OptionsError, new_error}
use incuse.Scaleset.Bootstrap.{ScaleSet, BootstrapError}
use incuse.Scaleset.Bootstrap.Endings.{Ends}
use incuse.Scaleset.Bootstrap.Laws.{bootstrap-Ends}
use incuse.Orchestrator.Setup
use incuse.Orchestrator.Setup.{SetupError, Built}
use incuse.Startup.{CredsError, scale_set_options, orchestrator_setup}
use incuse.Startup.Connection.{incus_config}
use incuse.Startup.Run.{
  Event, opens, marks_ready, waits, disconnects, World, RuntimeSet, Round, dropped, half, whole,
  session_events, with_orchestrator, bootstrapped, checked, start_class, Looped, after_round,
  start_classes, close_sets, start_sets, has_server, start_all, with_creds, with_client, run,
}
use incuse.Startup.Run.Monitor.{Follows, nothing_yet}
use incuse.Startup.Run.Sessions.{
  pair_of, during, pairs, HasSession, open-Follows, closing-Follows, starting-Follows,
}

module _ {Client Session : Type 0} where
  abbrev kept : Round Client Session → List (RuntimeSet Client Session)
  kept (dropped e) = []
  kept (half set e) = set ∷ []
  kept (whole set) = set ∷ []

  abbrev Served : Round Client Session → Type 0
  Served (whole set) = HasSession set
  Served _ = Unit

  -- The events of a round open the session of the set that is kept, if it has one, and no other.
  abbrev Opens : List (Event Session) × Round Client Session → Type 0
  Opens (evs, round) =
      (ps : List (Text × Session)) (es : List (Event Session))
      → Follows (during (ps ++ pairs (kept round)) false false) es
      → Follows (during ps false false) (evs ++ es)

  -- The same of the whole loop; without an error every set has its session.
  abbrev Loops : Looped Client Session → Type 0
  Loops (evs, sets, e) =
      ((ps : List (Text × Session)) (es : List (Event Session))
        → Follows (during (ps ++ pairs sets) false false) es
        → Follows (during ps false false) (evs ++ es))
      × (e ≡ none → All HasSession sets)

  after_round-Loops :
      (r : List (Event Session) × Round Client Session) (rest : Looped Client Session)
      → Opens r × Served r.1
      → Loops rest
      → Loops (after_round r rest)
  unfolding after_round
  after_round-Loops (evs, dropped e) rest (opened, _) h = (opened, λ q. cc)
  after_round-Loops (evs, half set e) rest (opened, _) h = (opened, λ q. cc)
  after_round-Loops (evs, whole set) rest (opened, here) h = (
    λ ps es f.
        let p = pair_of set.spec.name set.scale_set.msg_client in
        let q = ap (λ z. ps ++ z) (append-nil p) in
        subst (λ z. Follows (during ps false false) z) (sym (append_assoc evs rest.0 es))
          (opened ps (rest.0 ++ es) (
            subst (λ z. Follows (during z false false) (rest.0 ++ es)) (sym q)
              (h.0 (ps ++ p) es (
                subst (λ z. Follows (during z false false) es)
                  (sym (append_assoc ps p (pairs rest.1))) f)))),
    λ q. (here, h.1 q),
  )

module _ {Conn Client Session : Type 0} (w : World Conn Client Session) (c : Config) where
  bootstrapped-Opens :
      (spec : ScaleSetConfig) (o : Options) (s : ScaleSet Client Session (Unit {0}))
      (e : Option BootstrapError)
      → Ends (Unit {0}) (w.api spec) w.version o s e
      → Opens (bootstrapped w c spec (s, e)) × Served (bootstrapped w c spec (s, e)).1
  unfolding bootstrapped with_orchestrator
  bootstrapped-Opens spec o s (some e) (idle, _) = (
    λ ps es h.
        rw idle.no_session (subst (λ z. Follows (during z false false) es) (append-nil ps) h),
    tt,
  )
  bootstrapped-Opens spec o s none sv = go (Setup.new (orchestrator_setup c spec))
    where
      go :
          (r : SetupError ⊎ Built)
          → Opens (session_events opens spec.name s.msg_client, with_orchestrator w c spec s r)
            × Served (with_orchestrator w c spec s r)
      go (inl e) = (
        λ ps es h.
            open-Follows false spec.name s.msg_client ps es
              (subst (λ z. Follows (during (ps ++ z) false false) es) (append-nil _) h),
        tt,
      )
      go (inr b) = (
        λ ps es h.
            open-Follows false spec.name s.msg_client ps es
              (subst (λ z. Follows (during (ps ++ z) false false) es) (append-nil _) h),
        (sv.session, sv.keeps_session),
      )

  class-Opens :
      (pat key : Text) (spec : ScaleSetConfig)
      → Opens (start_class w c pat key spec) × Served (start_class w c pat key spec).1
  unfolding start_class checked
  class-Opens pat key spec = go (new_error (scale_set_options c pat key spec))
    where
      go :
          (r : Option OptionsError)
          → Opens (checked w c spec (scale_set_options c pat key spec) r)
            × Served (checked w c spec (scale_set_options c pat key spec) r).1
      go (some e) =
          (λ ps es h. subst (λ z. Follows (during z false false) es) (append-nil ps) h, tt)
      go none =
          let o = scale_set_options c pat key spec in
          bootstrapped-Opens spec o _ _ (bootstrap-Ends (Unit {0}) (w.api spec) w.version o)

  classes-Loops :
      (pat key : Text) (specs : List ScaleSetConfig) → Loops (start_classes w c pat key specs)
  unfolding start_classes
  classes-Loops pat key [] =
      (λ ps es h. subst (λ z. Follows (during z false false) es) (append-nil ps) h, λ q. tt)
  classes-Loops pat key (spec ∷ specs) =
      after_round-Loops (start_class w c pat key spec) (start_classes w c pat key specs)
        (class-Opens pat key spec) (classes-Loops pat key specs)

  -- What is started once every class is.
  all-Follows :
      (sets : List (RuntimeSet Client Session)) (es : List (Event Session))
      → All HasSession sets
      → ((healthy : Bool) → Follows (during (pairs sets) healthy true) es)
      → Follows (during (pairs sets) false false) ((start_all w c sets none).0 ++ es)
  unfolding start_all
  all-Follows sets es a h = elim (Bool-cases (has_server w c)) [
    | inl y ↦ rw y (
      refl,
      refl,
      subst (λ z. Follows (during (pairs sets) true false) z)
          (sym (append_assoc (start_sets sets) (marks_ready ∷ waits ∷ []) es))
          (starting-Follows sets [] true (marks_ready ∷ waits ∷ es) a (h true)),
    )
    | inr n ↦ rw n (
        subst (λ z. Follows (during (pairs sets) false false) z)
          (sym (append_assoc (start_sets sets) (waits ∷ []) es))
          (starting-Follows sets [] false (waits ∷ es) a (h false)))
  ]

  -- The rest of a run, after the loop.
  looped-Follows :
      (r : Looped Client Session)
      → Loops r
      → Follows
          (during [] false false)
          (r.0 ++ ((start_all w c r.1 r.2).0 ++ (close_sets r.1 ++ disconnects ∷ [])))
  unfolding start_all
  looped-Follows (evs, sets, some e) (opened, _) = opened [] _ (closing-Follows sets false false)
  looped-Follows (evs, sets, none) (opened, served) =
      opened [] _ (all-Follows sets _ (served refl) (λ healthy. closing-Follows sets healthy true))

  creds-Follows :
      (r : CredsError ⊎ (Text × Text)) → Follows (during [] false false) (with_creds w c r).0
  unfolding with_creds
  creds-Follows (inl e) = (refl, refl, (refl, refl))
  creds-Follows (inr (pat, key)) =
      looped-Follows (start_classes w c pat key (scale_set_specs c))
        (classes-Loops pat key (scale_set_specs c))

  client-Follows : (r : ConnectError ⊎ RealClient Conn) → Follows nothing_yet (with_client w c r).0
  unfolding with_client
  client-Follows (inl e) = (refl, refl)
  client-Follows (inr client) = (refl, creds-Follows _)

  -- Whatever Incus, GitHub and the files answer, a run leaves nothing behind and keeps an order: a
  -- session is opened over a connected client and before the goroutines have ended, a listener and an
  -- orchestrator are started over an open session of their class, the metrics server only once the
  -- health switch is on, and none of them after the wait; each session that was opened is closed
  -- exactly once, in the order of opening, before the client is disconnected, exactly once if it was
  -- connected.
  pub run-Follows : Follows nothing_yet (run w c).0
  unfolding run
  run-Follows = client-Follows (connect w.read_file w.dial (incus_config c.incus w.version))
