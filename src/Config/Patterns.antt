-- ===== src/Config/Patterns.antt =====
-- internal/config/config.go: `validNamePrefix` and `validWorkFolder`, with their regular
-- expressions as recognisers by clauses.
pub mod Regex
pub mod Laws
use incuse.Base.{
  has_prefix, contains_text, ℕ, Text, codes, is_empty, nat_eqb, leb, Bool, true, false, not, ◌&&◌,
  ◌||◌, [], ◌∷◌, ◌≡◌, refl,
}

abbrev pub is_lower : ℕ → Bool
is_lower c = leb b'a' c && leb c b'z'

abbrev pub is_digit : ℕ → Bool
is_digit c = leb b'0' c && leb c b'9'

-- `[a-z0-9-]*[a-z0-9]`, or nothing, up to the end of the text
unfoldable pub is_name_rest : Text → Bool
is_name_rest [] = true
is_name_rest (c ∷ []) = is_lower c || is_digit c
is_name_rest (c ∷ d ∷ s) = (is_lower c || is_digit c || nat_eqb c b'-') && is_name_rest (d ∷ s)

-- `^[a-z][a-z0-9-]*[a-z0-9]$|^[a-z]$`
unfoldable pub valid_name_prefix : Text → Bool
unfolding is_name_rest
valid_name_prefix [] = false
valid_name_prefix (c ∷ s) = is_lower c && is_name_rest s

-- `[A-Za-z0-9._-]`
abbrev pub is_folder_rune : ℕ → Bool
is_folder_rune c =
    (leb b'A' c && leb c b'Z')
    || is_lower c
    || is_digit c
    || nat_eqb c b'.'
    || nat_eqb c b'_'
    || nat_eqb c b'-'

-- `[A-Za-z0-9._-]+(?:/[A-Za-z0-9._-]+)*` up to the end of the text. The flag says whether the part
-- between two slashes has begun.
unfoldable pub are_parts : Bool → Text → Bool
are_parts begun [] = begun
are_parts begun (c ∷ s) =
    (is_folder_rune c && are_parts true s) || (begun && nat_eqb c b'/' && are_parts false s)

unfoldable pub valid_work_folder : Text → Bool
unfolding are_parts contains_text has_prefix
valid_work_folder s =
    not (is_empty s)
    && not (has_prefix s (codes "/"))
    && not (contains_text s (codes ".."))
    && are_parts false s

name_prefix_test : valid_name_prefix (codes "a--1") ≡ true
unfolding valid_name_prefix is_name_rest
name_prefix_test = refl

name_prefix_dash_test : valid_name_prefix (codes "ab-") ≡ false
unfolding valid_name_prefix is_name_rest
name_prefix_dash_test = refl

work_folder_test : valid_work_folder (codes "_work/a.b") ≡ true
unfolding valid_work_folder
work_folder_test = refl

work_folder_up_test : valid_work_folder (codes "a/../b") ≡ false
unfolding valid_work_folder
work_folder_up_test = refl

work_folder_slash_test : valid_work_folder (codes "a//b") ≡ false
unfolding valid_work_folder
work_folder_slash_test = refl
