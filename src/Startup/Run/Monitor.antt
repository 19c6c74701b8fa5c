-- ===== src/Startup/Run/Monitor.antt =====
-- What a run of cmd/incuse/main.go may do in which order: an observer of its events.
use incuse.Base.{◌≡◌, Text, text_eq, contains, Bool, true, false, List, [], ◌∷◌, ◌++◌, map}
use incuse.Startup.Run.{
  Event, connects, opens, closes, marks_healthy, marks_ready, serves, listens, orchestrates, waits,
  disconnects,
}

-- The sessions that are open, by class, in the order of their opening; whether the client is
-- connected, the health switch is on, and all goroutines have returned.
pub record Seen (Session : Type 0) : Type 0 where
  pub open_sessions : List (Text × Session)
  pub connected : Bool
  pub healthy : Bool
  pub waited : Bool

module _ {Session : Type 0} where
  abbrev pub class_names : List (Text × Session) → List Text
  class_names = map (λ (name, _). name)

  -- A session is opened over a connected client before anything is started; a goroutine is started
  -- over an open session, and before the wait; the metrics server only after the health switch is on;
  -- a session is closed once it has been opened and no goroutine is left, in the order of opening; the
  -- client last; and at the end all is closed.
  abbrev pub Follows : Seen Session → List (Event Session) → Type 0
  Follows s [] = (s.open_sessions ≡ []) × (s.connected ≡ false)
  Follows s (connects ∷ es) = (s.connected ≡ false) × Follows (record s { connected = true }) es
  Follows s (opens name x ∷ es) =
      (s.connected ≡ true)
      × (s.waited ≡ false)
      × Follows (record s { open_sessions = s.open_sessions ++ (name, x) ∷ [] }) es
  Follows s (closes name x ∷ es) =
      (rest : List (Text × Session)) × (s.open_sessions ≡ (name, x) ∷ rest)
      × Follows (record s { open_sessions = rest }) es
  Follows s (marks_healthy ∷ es) = Follows (record s { healthy = true }) es
  Follows s (serves ∷ es) = (s.healthy ≡ true) × (s.waited ≡ false) × Follows s es
  Follows s (listens name ∷ es) =
      (contains (class_names s.open_sessions) name ≡ true) × (s.waited ≡ false) × Follows s es
  Follows s (orchestrates name ∷ es) =
      (contains (class_names s.open_sessions) name ≡ true) × (s.waited ≡ false) × Follows s es
  Follows s (marks_ready ∷ es) = Follows s es
  Follows s (waits ∷ es) = Follows (record s { waited = true }) es
  Follows s (disconnects ∷ es) =
      (s.open_sessions ≡ []) × (s.connected ≡ true) × Follows (record s { connected = false }) es

  abbrev pub nothing_yet : Seen Session
  nothing_yet = record { open_sessions = []; connected = false; healthy = false; waited = false }
