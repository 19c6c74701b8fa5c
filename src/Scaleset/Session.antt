-- ===== src/Scaleset/Session.antt =====
-- internal/scaleset/scaleset.go: `openSessionWithRetry` and its backoff.
use incuse.Base.{
  ℕ, zero, suc, ◌+◌, ◌*◌, ltb, leb, min, ◌≤◌, ◌≡◌, ◌⊎◌, inl, inr, refl, Bool-cases, arith, Option,
  none, some, Text, codes, Bool, true, false, not, ◌||◌, Result, ok, err, List, [], ◌∷◌,
  if◌then◌else◌,
}
use mathlib.Core.Option
use incuse.Base.{contains_text}

-- `attempt*30` seconds, 5 minutes at most
unfoldable pub session_retry_backoff : ℕ → ℕ
session_retry_backoff attempt = let wait = attempt * 30 in if ltb 300 wait then 300 else wait

abbrev pub max_attempts : ℕ
max_attempts = 20

-- How the loop ends: with a session, with an error of `open`, or with that of the context; and the
-- waits that it began before, in seconds.
pub data Outcome (S : Type 0) : Type 0 where
  opened : S → Outcome S
  failed : Text → Outcome S
  cancelled : Outcome S

module _ {S : Type 0} where
  abbrev pub add_wait : ℕ → Outcome S × List ℕ → Outcome S × List ℕ
  add_wait wait (o, waits) = (o, wait ∷ waits)

  -- The rest of a round, over the answer of `open`, whether the attempt is the last, whether the
  -- context ends during the wait, and the rounds that follow.
  unfoldable pub after_open :
      Result S → Bool → Bool → ℕ → Option (Outcome S × List ℕ) → Option (Outcome S × List ℕ)
  unfolding contains_text
  after_open (ok session) is_last is_over wait rest = some (opened session, [])
  after_open (err e) is_last is_over wait rest =
      if not (contains_text e (codes "409")) || is_last
      then some (failed e, [])
      else if is_over
      then some (cancelled, wait ∷ [])
      else Option.map (add_wait wait) rest

-- What each call of `open` answers, and whether the context ends during the wait after it.
module _ {S : Type 0} (open_session : ℕ → Result S) (is_over : ℕ → Bool) where
  -- `none` is a loop that has not ended after so many rounds.
  unfoldable pub retry_loop : ℕ → ℕ → Option (Outcome S × List ℕ)
  unfolding session_retry_backoff after_open
  retry_loop zero attempt = none
  retry_loop (suc rounds) attempt =
      after_open (open_session attempt) (leb max_attempts attempt) (is_over attempt)
        (session_retry_backoff attempt) (retry_loop rounds (suc attempt))

  unfoldable pub open_session_with_retry : Option (Outcome S × List ℕ)
  unfolding retry_loop
  open_session_with_retry = retry_loop max_attempts 1

  -- What the outcome of attempt `k` says of the calls of `open`, or of the wait before it.
  abbrev pub Explains : ℕ → Outcome S → Type 0
  Explains k (opened session) = open_session k ≡ ok session
  Explains k (failed e) =
      (open_session k ≡ err e) × ((contains_text e (codes "409") ≡ false) ⊎ (k ≡ 20))
  Explains k cancelled = (j : ℕ) × (k ≡ suc j) × (is_over j ≡ true)

  -- The wait after attempt `a`, and so on, each after a conflict.
  abbrev pub Backoffs : ℕ → List ℕ → Type 0
  Backoffs a [] = Unit
  Backoffs a (w ∷ ws) =
      (w ≡ min (a * 30) 300)
      × ((e : Text) × (open_session a ≡ err e) × (contains_text e (codes "409") ≡ true))
      × Backoffs (suc a) ws

  -- The number of the last attempt, from `a` on and after some waits.
  abbrev pub last_attempt : ℕ → List ℕ → ℕ
  last_attempt a [] = a
  last_attempt a (_ ∷ ws) = last_attempt (suc a) ws

  abbrev pub Ends : ℕ → Option (Outcome S × List ℕ) → Type 0
  Ends a r =
      (o : Outcome S) × (ws : List ℕ) × (r ≡ some (o, ws))
      × (last_attempt a ws ≤ 20)
      × Explains (last_attempt a ws) o
      × Backoffs a ws

  backoff-min : (a : ℕ) → session_retry_backoff a ≡ min (a * 30) 300
  unfolding session_retry_backoff
  backoff-min a = ground arith

  after_open-Ends :
      (a : ℕ) (r : Result S) (rest : Option (Outcome S × List ℕ))
      → open_session a ≡ r
      → a ≤ 20
      → (a + 1 ≤ 20 → Ends (suc a) rest)
      → Ends a (after_open r (leb max_attempts a) (is_over a) (session_retry_backoff a) rest)
  unfolding after_open
  after_open-Ends a (ok session) rest e le h = (opened session, [], refl, omega arith, e, tt)
  after_open-Ends a (err t) rest e le h = elim (Bool-cases (contains_text t (codes "409"))) [
    | inr other ↦ rw other (failed t, [], refl, omega arith, (e, inl other), tt)
    | inl conflict ↦ elim (Bool-cases (leb max_attempts a)) [
      | inl last ↦
          rw (conflict, last) (failed t, [], refl, omega arith, (e, inr (ground arith)), tt)
      | inr more ↦ elim (Bool-cases (is_over a)) [
        | inl over ↦
            rw (conflict, more, over)
              (
                cancelled,
                session_retry_backoff a ∷ [],
                refl,
                ground arith,
                (a, refl, over),
                (backoff-min a, (t, e, conflict), tt),
              )
        | inr on ↦
            let (o, ws, q, n, x, b) = h (ground arith) in
            rw (conflict, more, on, q)
              (o, session_retry_backoff a ∷ ws, refl, n, x, (backoff-min a, (t, e, conflict), b))
      ]
    ]
  ]

  loop-Ends : (f a : ℕ) → f + a ≡ 20 → Ends a (retry_loop (suc f) a)
  unfolding retry_loop
  loop-Ends zero a q =
      after_open-Ends a (open_session a) none refl (omega arith) (λ h. ground arith)
  loop-Ends (suc f) a q =
      after_open-Ends a (open_session a) (retry_loop (suc f) (suc a)) refl (omega arith)
        (λ h. loop-Ends f (suc a) (omega arith))

  -- The loop ends within 20 attempts, whatever `open` answers: with the session of the last attempt,
  -- with the error of the last attempt, which is no conflict unless it is the 20th, or as the context
  -- ends during a wait. Each wait follows a conflict; it is 30 seconds for each attempt so far, 5
  -- minutes at most.
  pub retry-Ends : Ends 1 open_session_with_retry
  unfolding open_session_with_retry
  retry-Ends = loop-Ends 19 1 refl
