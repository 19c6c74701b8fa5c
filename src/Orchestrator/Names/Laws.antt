-- ===== src/Orchestrator/Names/Laws.antt =====
-- Alphabet, length and suffix of the names that internal/orchestrator/orchestrator.go makes, and
-- the inputs at which it panics.
use incuse.Base.{
  ℕ, ◌≤◌, ◌<◌, nat_eqb, ◌≡◌, refl, Text, to_lower, byte_len, is_empty, length, trim, trim_left,
  trim_right, All, Bool, true, false, ◌&&◌, ◌||◌, [], ◌∷◌, ◌++◌, arith, Bool-cases, inl, inr,
}
use incuse.Orchestrator.Names.{dash, is_name_rune, squeeze, sanitize_name_part}

-- A lower-case letter, a digit or a dash.
abbrev pub IsPlain : ℕ → Type 0
IsPlain c = (is_name_rune c || nat_eqb c dash) ≡ true

IsPlain-ascii : (c : ℕ) → IsPlain c → c < 0x80
unfolding is_name_rune
IsPlain-ascii c h = ground arith

pub byte_len-plain : (s : Text) → All IsPlain s → byte_len s ≡ length s
byte_len-plain [] h = refl
byte_len-plain (c ∷ s) (hc, h) = ground (arith, IsPlain-ascii c hc, byte_len-plain s h)

squeeze-IsPlain : (last : Bool) (s : Text) → All IsPlain (squeeze last s)
unfolding squeeze
squeeze-IsPlain last [] = tt
squeeze-IsPlain last (c ∷ s) = elim (Bool-cases (is_name_rune c)) [
  | inl v ↦ rw v (rw v, squeeze-IsPlain false s)
  | inr v ↦ elim (Bool-cases last) [
    | inl d ↦ rw (v, d) (squeeze-IsPlain true s)
    | inr d ↦ rw (v, d) (ground arith, squeeze-IsPlain true s)
  ]
]

module _ {ℓ} (P : ℕ → Type ℓ) (c : ℕ) where
  trim_left-All : (s : Text) → All P s → All P (trim_left c s)
  trim_left-All [] h = tt
  trim_left-All (x ∷ s) h = elim (Bool-cases (nat_eqb x c)) [
    | inl e ↦ rw e (trim_left-All s h.1)
    | inr e ↦ rw e h
  ]

  pub trim_right-All : (s : Text) → All P s → All P (trim_right c s)
  trim_right-All [] h = tt
  trim_right-All (x ∷ s) h = elim (Bool-cases (nat_eqb x c && is_empty (trim_right c s))) [
    | inl e ↦ rw e tt
    | inr e ↦ rw e (h.0, trim_right-All s h.1)
  ]

  trim-All : (s : Text) → All P s → All P (trim c s)
  trim-All s h = trim_right-All (trim_left c s) (trim_left-All s h)

pub length-trim_left-le : (c : ℕ) (s : Text) → length (trim_left c s) ≤ length s
length-trim_left-le c [] = omega arith
length-trim_left-le c (x ∷ s) = ground (arith, length-trim_left-le c s)

pub length-trim_right-le : (c : ℕ) (s : Text) → length (trim_right c s) ≤ length s
length-trim_right-le c [] = omega arith
length-trim_right-le c (x ∷ s) = ground (arith, length-trim_right-le c s)

pub sanitize-IsPlain : (s : Text) → All IsPlain (sanitize_name_part s)
unfolding sanitize_name_part
sanitize-IsPlain s = trim-All IsPlain dash _ (squeeze-IsPlain false (to_lower s))

trim_right_idem : (c : ℕ) (s : Text) → trim_right c (trim_right c s) ≡ trim_right c s
trim_right_idem c [] = refl
trim_right_idem c (x ∷ s) = elim (Bool-cases (nat_eqb x c && is_empty (trim_right c s))) [
  | inl e ↦ rw e
  | inr e ↦ rw e (rw (trim_right_idem c s) (rw e))
]

is_empty-append : (xs ys : Text) → is_empty ys ≡ false → is_empty (xs ++ ys) ≡ false
is_empty-append [] ys e = e
is_empty-append (x ∷ xs) ys e = refl

-- What ends without `c` is left alone, whatever stands before it.
pub trim_right-append :
    (c : ℕ) (xs ys : Text)
    → trim_right c ys ≡ ys
    → is_empty ys ≡ false
    → trim_right c (xs ++ ys) ≡ xs ++ ys
trim_right-append c [] ys h e = h
trim_right-append c (x ∷ xs) ys h e =
    rw (trim_right-append c xs ys h e) (ground (arith, is_empty-append xs ys e))

unfoldable pub starts : ℕ → Text → Bool
starts c [] = false
starts c (x ∷ _) = nat_eqb x c

starts-trim_left : (c : ℕ) (s : Text) → starts c (trim_left c s) ≡ false
unfolding starts
starts-trim_left c [] = refl
starts-trim_left c (x ∷ s) = ground (arith, starts-trim_left c s)

pub starts-trim_right : (c : ℕ) (s : Text) → starts c s ≡ false → starts c (trim_right c s) ≡ false
unfolding starts
starts-trim_right c [] h = refl
starts-trim_right c (x ∷ s) h = rw h h

trim_left-append :
    (c : ℕ) (s ys : Text)
    → starts c s ≡ false
    → is_empty s ≡ false
    → trim_left c (s ++ ys) ≡ s ++ ys
unfolding starts
trim_left-append c [] ys h e = cc
trim_left-append c (x ∷ s) ys h e = rw h

pub sanitize-starts : (s : Text) → starts dash (sanitize_name_part s) ≡ false
unfolding sanitize_name_part
sanitize-starts s = starts-trim_right dash _ (starts-trim_left dash (squeeze false (to_lower s)))

pub sanitize-ends : (s : Text) → trim_right dash (sanitize_name_part s) ≡ sanitize_name_part s
unfolding sanitize_name_part
sanitize-ends s = trim_right_idem dash (trim_left dash (squeeze false (to_lower s)))

-- Two parts that are not empty are joined as they are.
pub trim-join :
    (a b : Text)
    → is_empty (sanitize_name_part a) ≡ false
    → is_empty (sanitize_name_part b) ≡ false
    → trim dash (sanitize_name_part a ++ dash ∷ sanitize_name_part b)
      ≡ sanitize_name_part a ++ dash ∷ sanitize_name_part b
trim-join a b ha hb =
    rw
      (trim_left-append dash (sanitize_name_part a) (dash ∷ sanitize_name_part b)
        (sanitize-starts a) ha)
      (trim_right-append dash (sanitize_name_part a) (dash ∷ sanitize_name_part b)
        (trim_right-append dash (dash ∷ []) (sanitize_name_part b) (sanitize-ends b) hb) refl)
