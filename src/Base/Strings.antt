-- ===== src/Base/Strings.antt =====
-- Go strings as lists of code points, which `range` walks. `byte_len` is `len`, in UTF-8.
pub mod Decimal
use Prim.Native.Nat.{ℕ, zero, suc, ◌+◌, ◌-◌, ◌/◌, ◌%◌}
use Prim.Native.Char.{code}
use Prim.Native.String.{String}
use mathlib.Core.Path.{◌≡◌, refl}
use mathlib.Core.Bool.{Bool, true, false, ◌&&◌, ◌||◌, not}
use mathlib.Core.Option
use mathlib.Core.Option.{Option, none, some}
use mathlib.Core.List.{List, [], ◌∷◌, ◌++◌, map, reverse}
use native.Mathlib.Decide.{ℕ_discrete}
use incuse.Base.Tests.{ltb, leb, nat_eqb, if◌then◌else◌}
use incuse.Base.Int.{ℤ, pos, negsuc}
use incuse.Base.Equality.{Eq, ◌==◌}

abbrev pub Text : Type 0
Text = List ℕ

-- The code points of a literal.
abbrev pub codes : String → Text
codes String.[] = []
codes (String.◌∷◌ c s) = code c ∷ codes s

text_discrete : Discrete Text
unfolding ℕ_discrete
text_discrete = hlevel ℕ_discrete

instance unfoldable pub text_eq : Eq Text
unfolding text_discrete
text_eq = record { dec = text_discrete }

abbrev pub is_empty : Text → Bool
is_empty [] = true
is_empty (_ ∷ _) = false

abbrev rune_len : ℕ → ℕ
rune_len c = if ltb c 0x80 then 1 else if ltb c 0x800 then 2 else if ltb c 0x10000 then 3 else 4

-- `len(s)`
abbrev pub byte_len : Text → ℕ
byte_len [] = 0
byte_len (c ∷ s) = rune_len c + byte_len s

-- `unicode.ToLower` on ASCII and on the two other code points whose lower case is ASCII, the dotted
-- capital I and the Kelvin sign. The case of all other letters is left as it is.
unfoldable pub lower_rune : ℕ → ℕ
lower_rune c =
    if leb b'A' c && leb c b'Z'
    then c + 32
    else if nat_eqb c 0x130
    then b'i'
    else if nat_eqb c 0x212a
    then b'k'
    else c

-- `strings.ToLower`
abbrev pub to_lower : Text → Text
to_lower = map lower_rune

-- `strings.TrimLeft(s, c)` for one code point
abbrev pub trim_left : ℕ → Text → Text
trim_left c [] = []
trim_left c (x ∷ s) = let rest = trim_left c s in if nat_eqb x c then rest else x ∷ s

-- `strings.TrimRight(s, c)`
abbrev pub trim_right : ℕ → Text → Text
trim_right c [] = []
trim_right c (x ∷ s) =
    let rest = trim_right c s in if nat_eqb x c && is_empty rest then [] else x ∷ rest

-- `strings.Trim(s, c)`
abbrev pub trim : ℕ → Text → Text
trim c s = trim_right c (trim_left c s)

-- `strings.HasPrefix(s, p)`
unfoldable pub has_prefix : Text → Text → Bool
has_prefix s [] = true
has_prefix [] (d ∷ p) = false
has_prefix (c ∷ s) (d ∷ p) = nat_eqb c d && has_prefix s p

-- `strings.Contains(s, p)`
unfoldable pub contains_text : Text → Text → Bool
unfolding has_prefix
contains_text [] p = has_prefix [] p
contains_text (c ∷ s) p = has_prefix (c ∷ s) p || contains_text s p

-- `strings.CutPrefix(s, p)`: the rest, if the text begins with the prefix.
unfoldable pub cut_prefix : Text → Text → Option Text
cut_prefix s [] = some s
cut_prefix [] (d ∷ p) = none
cut_prefix (c ∷ s) (d ∷ p) = let rest = cut_prefix s p in if nat_eqb c d then rest else none

-- `strings.TrimPrefix(s, p)`
unfoldable pub trim_prefix : Text → Text → Text
unfolding cut_prefix
trim_prefix s p = Option.get_or (cut_prefix s p) s

-- `strings.HasSuffix(s, p)`
unfoldable pub has_suffix : Text → Text → Bool
unfolding has_prefix
has_suffix s p = has_prefix (reverse s) (reverse p)

-- The decimal digits of a number, most significant first. Each round takes off a digit, so a number
-- has at most as many as itself plus one.
decimal_digits : ℕ → ℕ → Text → Text
decimal_digits zero n acc = acc
decimal_digits (suc f) n acc =
    let rest = decimal_digits f (n / 10) ((b'0' + n % 10) ∷ acc) in
    if ltb n 10 then (b'0' + n) ∷ acc else rest

unfoldable pub print_ℕ : ℕ → Text
unfolding decimal_digits
print_ℕ n = decimal_digits (suc n) n []

-- `strconv.Itoa`, and `%d`
unfoldable pub itoa : ℤ → Text
unfolding print_ℕ
itoa (pos n) = print_ℕ n
itoa (negsuc n) = b'-' ∷ print_ℕ (suc n)

lower_test : to_lower (codes "X-Y9") ≡ codes "x-y9"
unfolding lower_rune
lower_test = refl

itoa_test : itoa (negsuc 1023) ++ itoa (pos 0) ≡ codes "-10240"
unfolding itoa
itoa_test = refl

trim_test : trim b'-' (codes "--a-b--") ≡ codes "a-b"
trim_test = refl

eq_test : (codes "ab" == codes "ab") ≡ true
unfolding text_eq
eq_test = refl
