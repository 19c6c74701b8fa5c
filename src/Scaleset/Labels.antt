-- ===== src/Scaleset/Labels.antt =====
-- internal/scaleset/scaleset.go: `labelNamesMatch`, over `sort.Strings`.
pub mod Match
use incuse.Base.{
  ℕ, length, nat_eqb, ltb, Text, text_eq, ◌==◌, to_lower, Bool, true, false, not, ◌&&◌, ◌||◌, List,
  [], ◌∷◌, map, if◌then◌else◌,
}

-- The name and the type of `ssapi.Label`.
pub record Label : Type 0 where
  pub name : Text
  pub kind : Text

-- Type is left to the library.
unfoldable pub to_labels : List Text → List Label
to_labels names = map (λ n. record { name = n; kind = [] }) names

-- The order of Go's strings. That of the code points is that of their bytes in UTF-8.
unfoldable pub text_leb : Text → Text → Bool
text_leb [] t = true
text_leb (c ∷ s) [] = false
text_leb (c ∷ s) (d ∷ t) = let rest = text_leb s t in if nat_eqb c d then rest else ltb c d

module _ {ℓ} {A : Type ℓ} (leq : A → A → Bool) where
  unfoldable pub insert_sorted : A → List A → List A
  insert_sorted x [] = x ∷ []
  insert_sorted x (y ∷ ys) =
      let rest = insert_sorted x ys in if leq x y then x ∷ y ∷ ys else y ∷ rest

  -- The sorted list; equal strings cannot be told apart, so it does not matter how it is found.
  unfoldable pub sort : List A → List A
  unfolding insert_sorted
  sort [] = []
  sort (x ∷ xs) = insert_sorted x (sort xs)

-- The loop that compares two lists of one length.
unfoldable pub are_equal : List Text → List Text → Bool
are_equal (x ∷ xs) (y ∷ ys) = x == y && are_equal xs ys
are_equal _ _ = true

unfoldable pub label_names_match : List Label → List Text → Bool
unfolding sort text_leb are_equal
label_names_match existing want =
    nat_eqb (length existing) (length want)
    && are_equal (sort text_leb (map (λ l. to_lower l.name) existing))
        (sort text_leb (map to_lower want))
