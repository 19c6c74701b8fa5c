-- ===== src/Startup/Run/Sessions.antt =====
-- The sessions that a run of cmd/incuse/main.go holds, and the events that open and close them.
use mathlib.Core.List.{append_assoc, append-nil}
use incuse.Base.{
  ◌≡◌, refl, sym, subst, Text, text_eq, eq_self, contains, Bool, true, false, Option, none, some,
  List, [], ◌∷◌, ◌++◌, All, arith,
}
use incuse.Scaleset.Methods.{close}
use incuse.Startup.Run.{
  Event, opens, closes, disconnects, RuntimeSet, session_events, close_sets, start_sets,
}
use incuse.Startup.Run.Monitor.{Seen, class_names, Follows}

module _ {Session : Type 0} where
  abbrev pub pair_of : Text → Option Session → List (Text × Session)
  pair_of name none = []
  pair_of name (some x) = (name, x) ∷ []

  abbrev pub during : List (Text × Session) → Bool → Bool → Seen Session
  during ps healthy waited = record {
    open_sessions = ps;
    connected = true;
    healthy = healthy;
    waited = waited;
  }

  close-Follows :
      (healthy waited : Bool) (name : Text) (m : Option Session) (ps : List (Text × Session))
      (es fs : List (Event Session))
      → Follows (during ps healthy waited) (es ++ fs)
      → Follows
          (during (pair_of name m ++ ps) healthy waited)
          ((session_events closes name m ++ es) ++ fs)
  close-Follows healthy waited name none ps es fs h = h
  close-Follows healthy waited name (some x) ps es fs h = (ps, refl, h)

  pub open-Follows :
      (healthy : Bool) (name : Text) (m : Option Session) (ps : List (Text × Session))
      (es : List (Event Session))
      → Follows (during (ps ++ pair_of name m) healthy false) es
      → Follows (during ps healthy false) (session_events opens name m ++ es)
  open-Follows healthy name none ps es h =
      subst (λ z. Follows (during z healthy false) es) (append-nil ps) h
  open-Follows healthy name (some x) ps es h = (refl, refl, h)

  -- The goroutines of the sets start over open sessions.
  known :
      (name : Text) (x : Session) (ps qs : List (Text × Session))
      → contains (class_names (ps ++ (name, x) ∷ qs)) name ≡ true
  known name x [] qs = ground (arith, eq_self name)
  known name x ((n, y) ∷ ps) qs = ground (arith, known name x ps qs)

module _ {Client Session : Type 0} where
  -- The open sessions of the sets that were bootstrapped.
  abbrev pub pairs : List (RuntimeSet Client Session) → List (Text × Session)
  pairs [] = []
  pairs (set ∷ sets) = pair_of set.spec.name set.scale_set.msg_client ++ pairs sets

  -- Every set has one.
  abbrev pub HasSession : RuntimeSet Client Session → Type 0
  HasSession set = (x : Session) × (set.scale_set.msg_client ≡ some x)

  -- The deferred calls close what is open.
  pub closing-Follows :
      (sets : List (RuntimeSet Client Session)) (healthy waited : Bool)
      → Follows (during (pairs sets) healthy waited) (close_sets sets ++ disconnects ∷ [])
  unfolding close_sets close
  closing-Follows [] healthy waited = (refl, refl, (refl, refl))
  closing-Follows (set ∷ sets) healthy waited =
      close-Follows healthy waited set.spec.name set.scale_set.msg_client (pairs sets)
        (close_sets sets) (disconnects ∷ []) (closing-Follows sets healthy waited)

  set-known :
      (set : RuntimeSet Client Session) (ps qs : List (Text × Session))
      → HasSession set
      → contains
          (class_names (ps ++ (pair_of set.spec.name set.scale_set.msg_client ++ qs)))
          set.spec.name
        ≡ true
  set-known set ps qs (x, e) = rw e (known set.spec.name x ps qs)

  pub starting-Follows :
      (sets : List (RuntimeSet Client Session)) (ps : List (Text × Session)) (healthy : Bool)
      (es : List (Event Session))
      → All HasSession sets
      → Follows (during (ps ++ pairs sets) healthy false) es
      → Follows (during (ps ++ pairs sets) healthy false) (start_sets sets ++ es)
  unfolding start_sets
  starting-Follows [] ps healthy es a h = h
  starting-Follows (set ∷ sets) ps healthy es (here, there) h =
      let p = pair_of set.spec.name set.scale_set.msg_client in
      let k = set-known set ps (pairs sets) here in
      let q = append_assoc ps p (pairs sets) in
      (
        k,
        refl,
        (
          k,
          refl,
          subst (λ z. Follows (during z healthy false) (start_sets sets ++ es)) q
              (starting-Follows sets (ps ++ p) healthy es there
                (subst (λ z. Follows (during z healthy false) es) (sym q) h)),
        ),
      )
