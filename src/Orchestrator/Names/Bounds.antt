-- ===== src/Orchestrator/Names/Bounds.antt =====
-- The names that `makeRunnerName` of internal/orchestrator/orchestrator.go returns, and the inputs
-- at which it panics.
use incuse.Base.{
  ℕ, suc, ◌+◌, ◌-◌, ◌≤◌, pos, sub_ℕ, ltb, leb, ◌≡◌, refl, ap, ◌∙◌, Text, codes, byte_len, is_empty,
  length, take, trim_right, All, All-append, All-take, length-append, length-take, true, false,
  none, some, [], ◌∷◌, ◌++◌, arith, Bool-cases, inl, inr, if◌then◌else◌, lower_rune,
}
use incuse.Orchestrator.Names.{
  dash, is_name_rune, max_name_len, sanitize_name_part, shorten_to, shorten_name, make_runner_name,
}
use incuse.Orchestrator.Names.Laws.{
  IsPlain, byte_len-plain, sanitize-IsPlain, trim_right-All, length-trim_right-le,
  trim_right-append, trim-join, starts, starts-trim_right, sanitize-starts, sanitize-ends,
}

make_test : make_runner_name (codes "Team A/_x") (codes "00FF") ≡ some (codes "team-a-x-00ff")
unfolding make_runner_name sanitize_name_part shorten_name shorten_to lower_rune
make_test = refl

-- A name that Incus takes as a host name: at most 63 bytes of lower-case letters, digits and dashes,
-- with no dash at either end.
pub record IsHostName (n : Text) : Type 0 where
  pub short : byte_len n ≤ 63
  pub plain : All IsPlain n
  pub no_dash_first : starts dash n ≡ false
  pub no_dash_last : trim_right dash n ≡ n

starts-append :
    (c : ℕ) (p q : Text) → is_empty p ≡ false → starts c p ≡ false → starts c (p ++ q) ≡ false
unfolding starts
starts-append c [] q full h = cc
starts-append c (x ∷ p) q full h = h

pub trim_right-full :
    (c : ℕ) (s : Text) → is_empty s ≡ false → starts c s ≡ false → is_empty (trim_right c s) ≡ false
unfolding starts
trim_right-full c [] full h = full
trim_right-full c (x ∷ s) full h = rw h refl

length-full : (s : Text) → is_empty s ≡ false → 1 ≤ length s
length-full [] full = cc
length-full (x ∷ s) full = omega arith

-- The first `k + 1` of a text that is not empty.
take-full :
    (c k : ℕ) (s : Text)
    → is_empty s ≡ false
    → starts c s ≡ false
    → (is_empty (take (suc k) s) ≡ false) × (starts c (take (suc k) s) ≡ false)
unfolding starts
take-full c k [] full h = cc
take-full c k (x ∷ s) full h = (refl, h)

-- Two non-empty parts that keep their ends free of dashes.
module _ (p b : Text) (plain_p : All IsPlain p) (plain_b : All IsPlain b) where
  joined-IsHostName :
      length p + length b ≤ 62
      → starts dash p ≡ false
      → is_empty p ≡ false
      → trim_right dash b ≡ b
      → is_empty b ≡ false
      → IsHostName (p ++ dash ∷ b)
  unfolding is_name_rune
  joined-IsHostName room first full_p last full_b = record {
    short = omega (arith, byte_len-plain (p ++ dash ∷ b) plain, length-append p (dash ∷ b));
    plain = plain;
    no_dash_first = starts-append dash p (dash ∷ b) full_p first;
    no_dash_last =
        trim_right-append dash p (dash ∷ b) (trim_right-append dash (dash ∷ []) b last full_b) refl;
  }
    where
      plain : All IsPlain (p ++ dash ∷ b)
      plain = All-append IsPlain p (dash ∷ b) plain_p (refl, plain_b)

-- The scale set's part in front of a suffix of `k` bytes: all of it if the name fits, or else what
-- `k` leaves room for, less dashes at its end.
abbrev pub prefix_for : Text → ℕ → Text
prefix_for a k =
    if ltb max_name_len (length a + 1 + k) then trim_right dash (take (62 - k) a) else a

module _ (scale_set suffix : Text) where
  abbrev a : Text
  a = sanitize_name_part scale_set

  abbrev b : Text
  b = sanitize_name_part suffix

  prefix-facts :
      length b ≤ 61
      → is_empty a ≡ false
      → let p = prefix_for a (length b) in
        All IsPlain p × (length p + length b ≤ 62) × (starts dash p ≡ false) × (is_empty p ≡ false)
  prefix-facts small full = elim (Bool-cases (ltb max_name_len (length a + 1 + length b))) [
    | inl long ↦
        let k : ℕ = 61 - length b in
        let e : 62 - length b ≡ suc k = omega arith in
        let (f, st) = take-full dash k a full (sanitize-starts scale_set) in
        rw (long, e)
          (
            trim_right-All IsPlain dash (take (suc k) a)
                (All-take IsPlain (suc k) a (sanitize-IsPlain scale_set)),
            omega (arith, length-trim_right-le dash (take (suc k) a), length-take (suc k) a),
            starts-trim_right dash (take (suc k) a) st,
            trim_right-full dash (take (suc k) a) f st,
          )
    | inr fits ↦ rw fits (sanitize-IsPlain scale_set, ground arith, sanitize-starts scale_set, full)
  ]

  byte_len-joined : byte_len (a ++ dash ∷ b) ≡ length a + 1 + length b
  unfolding is_name_rune
  byte_len-joined =
      byte_len-plain (a ++ dash ∷ b) (
        All-append IsPlain a (dash ∷ b) (sanitize-IsPlain scale_set)
          (refl, sanitize-IsPlain suffix))
      ∙ omega (arith, length-append a (dash ∷ b))

  room-eq : length b ≤ 61 → sub_ℕ max_name_len (byte_len b + 1) ≡ pos (suc (61 - length b))
  room-eq small = ground (arith, byte_len-plain b (sanitize-IsPlain suffix))

  shorten-eq :
      length b ≤ 61
      → 62 ≤ length a + length b
      → shorten_name a b ≡ some (trim_right dash (take (62 - length b) a) ++ dash ∷ b)
  unfolding shorten_name shorten_to
  shorten-eq small long =
      let n : ℕ = suc (61 - length b) in
      let e : 62 - length b ≡ n = omega arith in
      let room : leb n (length a) ≡ true = ground arith in
      ap (λ z. shorten_to z a b) (room-eq small) ∙ rw (e, room) (ground arith)

  pub make-eq :
      length b ≤ 61
      → is_empty a ≡ false
      → is_empty b ≡ false
      → make_runner_name scale_set suffix ≡ some (prefix_for a (length b) ++ dash ∷ b)
  unfolding make_runner_name
  make-eq small full_a full_b =
      rw (trim-join scale_set suffix full_a full_b, byte_len-joined)
        (elim (Bool-cases (ltb max_name_len (length a + 1 + length b))) [
          | inl long ↦ rw long (shorten-eq small (ground arith))
          | inr fits ↦ rw fits refl
        ])

-- For a scale set and a suffix that are not empty once sanitized, and a suffix of at most 61 bytes
-- (the program's own has 8), a name is returned and not a panic; it ends with a dash and the whole
-- suffix, and Incus takes it as a host name.
pub runner_name_valid :
    (scale_set suffix : Text)
    → is_empty (sanitize_name_part scale_set) ≡ false
    → is_empty (sanitize_name_part suffix) ≡ false
    → length (sanitize_name_part suffix) ≤ 61
    → (p : Text) × (make_runner_name scale_set suffix
        ≡ some (p ++ dash ∷ sanitize_name_part suffix))
      × IsHostName (p ++ dash ∷ sanitize_name_part suffix)
runner_name_valid scale_set suffix full_a full_b small =
    let b : Text = sanitize_name_part suffix in
    let p : Text = prefix_for (sanitize_name_part scale_set) (length b) in
    let (plain, room, first, full) = prefix-facts scale_set suffix small full_a in
    (
      p,
      make-eq scale_set suffix small full_a full_b,
      joined-IsHostName p b plain (sanitize-IsPlain suffix) room first full (sanitize-ends suffix)
          full_b,
    )

-- With a sanitized suffix of exactly 62 bytes and a scale set that is not empty once sanitized,
-- makeRunnerName panics: it slices the suffix from index -1.
pub runner_name_panics :
    (scale_set suffix : Text)
    → is_empty (sanitize_name_part scale_set) ≡ false
    → length (sanitize_name_part suffix) ≡ 62
    → make_runner_name scale_set suffix ≡ none
unfolding make_runner_name shorten_name shorten_to
runner_name_panics scale_set suffix full_a long =
    rw
      (
        trim-join scale_set suffix full_a full_b,
        byte_len-joined scale_set suffix,
        byte_len-plain (sanitize_name_part suffix) (sanitize-IsPlain suffix),
        long,
      )
      (ground (arith, length-full (sanitize_name_part scale_set) full_a))
  where
    full_b : is_empty (sanitize_name_part suffix) ≡ false
    full_b = ground arith
