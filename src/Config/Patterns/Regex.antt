-- ===== src/Config/Patterns/Regex.antt =====
-- Regular expressions with what they match, and the two patterns of internal/config/config.go. `^` and
-- `$` of Go are the ends of the text, so that a pattern is matched by the whole text.
use incuse.Base.{ℕ, nat_eqb, leb, Text, Bool, true, ◌||◌, ◌&&◌, [], ◌∷◌, ◌++◌, ◌≡◌, ◌⊎◌}

pub data Regex : Type 0 where
  one_of : (ℕ → Bool) → Regex
  seq alt : Regex → Regex → Regex
  many : Regex → Regex

-- A text in pieces, each of which matches.
pub data Pieces (P : Text → Type 0) : Text → Type 0 where
  no_more : (t : Text) → t ≡ [] → Pieces P t
  more : (u v t : Text) → t ≡ u ++ v → P u → Pieces P v → Pieces P t

-- The whole text matches.
abbrev pub Matches : Regex → Text → Type 0
Matches (one_of p) t = (c : ℕ) × (t ≡ c ∷ []) × (p c ≡ true)
Matches (seq r s) t = (u v : Text) × (t ≡ u ++ v) × Matches r u × Matches s v
Matches (alt r s) t = Matches r t ⊎ Matches s t
Matches (many r) t = Pieces (Matches r) t

-- `+`
abbrev pub some_of : Regex → Regex
some_of r = seq r (many r)

abbrev range : ℕ → ℕ → ℕ → Bool
range a b c = leb a c && leb c b

abbrev letter : Regex
letter = one_of (range b'a' b'z')

abbrev letter_or_digit : Regex
letter_or_digit = one_of (λ c. range b'a' b'z' c || range b'0' b'9' c)

-- `^[a-z][a-z0-9-]*[a-z0-9]$|^[a-z]$`
abbrev pub name_prefix_pattern : Regex
name_prefix_pattern =
    alt
      (seq letter (
        seq (many (one_of (λ c. range b'a' b'z' c || range b'0' b'9' c || nat_eqb c b'-')))
          letter_or_digit))
      letter

-- `[A-Za-z0-9._-]`
abbrev pub folder_rune : Regex
folder_rune = one_of (λ c.
    range b'A' b'Z' c
    || range b'a' b'z' c
    || range b'0' b'9' c
    || nat_eqb c b'.'
    || nat_eqb c b'_'
    || nat_eqb c b'-')

-- `^[A-Za-z0-9._-]+(?:/[A-Za-z0-9._-]+)*$`
abbrev pub work_folder_pattern : Regex
work_folder_pattern =
    seq (some_of folder_rune) (many (seq (one_of (λ c. nat_eqb c b'/')) (some_of folder_rune)))
