-- ===== src/Orchestrator/Names/Suffix.antt =====
-- internal/orchestrator/orchestrator.go: `randomNameSuffix`, and the names of the runners of a class
-- that `Validate` of internal/config/config.go accepts.
use incuse.Base.{
  ℕ, suc, zero, ◌+◌, ◌-◌, ◌/◌, ◌%◌, ◌^◌, ◌<◌, nat_eqb, ltb, leb, lower_rune, Text, to_lower,
  is_empty, length, Result, ok, err, true, false, ◌&&◌, List, [], ◌∷◌, ◌++◌, All, ◌≡◌, refl, arith,
  if◌then◌else◌,
}
use incuse.Config.{RunnerClassConfig}
use incuse.Config.Labels.{scale_set_name}
use incuse.Config.Patterns.{valid_name_prefix}
use incuse.Orchestrator.Names.{dash, is_name_rune, squeeze, sanitize_name_part}
use incuse.Orchestrator.Names.Laws.{starts}
use incuse.Orchestrator.Names.Bounds.{trim_right-full}

-- A hexadecimal digit.
abbrev nibble : ℕ → ℕ
nibble n = if ltb n 10 then b'0' + n else b'a' + (n - 10)

-- `hex.EncodeToString`
unfoldable pub encode_hex : List ℕ → Text
encode_hex [] = []
encode_hex (b ∷ bs) = nibble (b / 16) ∷ nibble (b % 16) ∷ encode_hex bs

-- `%0kx` of a number of at most `k` digits
unfoldable pub pad_hex : ℕ → ℕ → Text
pad_hex zero n = []
pad_hex (suc k) n = pad_hex k (n / 16) ++ nibble (n % 16) ∷ []

-- Over the bytes that were read, or the error of the reader, and the clock in nanoseconds since 1970.
unfoldable pub random_name_suffix : Result (List ℕ) → ℕ → Text
unfolding encode_hex pad_hex
random_name_suffix (err e) nanos = pad_hex 8 (nanos % 2 ^ 32)
random_name_suffix (ok bytes) nanos = encode_hex bytes

-- What the source of random bytes gives for a buffer of four.
abbrev pub FillsFour : Result (List ℕ) → Type 0
FillsFour (err e) = Unit
FillsFour (ok bytes) = (length bytes ≡ 4) × All (λ b. b < 256) bytes

abbrev IsRune : ℕ → Type 0
IsRune c = is_name_rune c ≡ true

-- What begins with a lower-case letter is not empty once sanitized.
letter-full :
    (c : ℕ) (t : Text)
    → (leb b'a' c && leb c b'z') ≡ true
    → is_empty (sanitize_name_part (c ∷ t)) ≡ false
unfolding sanitize_name_part is_name_rune lower_rune starts squeeze
letter-full c t h =
    let low : lower_rune c ≡ c = ground arith in
    let rune : is_name_rune c ≡ true = ground arith in
    let other : nat_eqb c dash ≡ false = ground arith in
    rw (low, rune, other) (trim_right-full dash (c ∷ squeeze false (to_lower t)) refl other)

prefix-full :
    (p t : Text) → valid_name_prefix p ≡ true → is_empty (sanitize_name_part (p ++ t)) ≡ false
unfolding valid_name_prefix
prefix-full [] t h = cc
prefix-full (c ∷ p) t h = letter-full c (p ++ t) (ground arith)

pub class-full :
    (k : RunnerClassConfig) (prefix : Text)
    → valid_name_prefix prefix ≡ true
    → is_empty (sanitize_name_part (scale_set_name k prefix)) ≡ false
unfolding scale_set_name
class-full k prefix h = prefix-full prefix _ h
