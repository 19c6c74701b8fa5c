-- ===== src/Runner/CloudInit/Lines.antt =====
-- The lines of a payload that internal/runner/cloudinit.go renders.
use incuse.Base.{
  ℕ, nat_eqb, Text, cut_prefix, Bool, true, not, ◌&&◌, none, some, List, [], ◌∷◌, ◌++◌, All,
  All-parts, ◌≡◌, refl, Bool-cases, inl, inr, ap, if◌then◌else◌, arith,
}
use incuse.Runner.{CloudInitSpec}
use incuse.Runner.CloudInit.Template.{
  Field, Piece, literal, field, unless_container, Line, line, line_unless_container,
}
use incuse.Runner.CloudInit.Execute.{field_text, pieces_text, lines_text}

-- A text without a line break.
unfoldable pub is_one_line : Text → Bool
is_one_line [] = true
is_one_line (c ∷ t) = not (nat_eqb c b'\n') && is_one_line t

push : ℕ → List Text → List Text
push c [] = (c ∷ []) ∷ []
push c (l ∷ ls) = (c ∷ l) ∷ ls

-- The lines of a file as its readers take them: the break after the last one starts no other.
unfoldable pub split_lines : Text → List Text
unfolding push
split_lines [] = []
split_lines (c ∷ t) = let rest = split_lines t in if nat_eqb c b'\n' then [] ∷ rest else push c rest

-- What follows the prefix, on each line that begins with it.
unfoldable pub values_of : Text → List Text → List Text
unfolding cut_prefix
values_of p [] = []
values_of p (l ∷ ls) =
    let rest = values_of p ls in elim (cut_prefix l p) [ none ↦ rest | some v ↦ v ∷ rest ]

-- The lines of a template with their fields filled in.
unfoldable pub filled : CloudInitSpec → List Line → List Text
unfolding pieces_text
filled s [] = []
filled s (line ps ∷ ls) = pieces_text s ps ∷ filled s ls
filled s (line_unless_container t ∷ ls) =
    let rest = filled s ls in if s.container then rest else t ∷ rest

-- The fields that a template prints, and whether its own text breaks no line.
unfoldable pub piece_fields : List Piece → List Field
piece_fields [] = []
piece_fields (field f ∷ ps) = f ∷ piece_fields ps
piece_fields (_ ∷ ps) = piece_fields ps

unfoldable pub fields : List Line → List Field
unfolding piece_fields
fields [] = []
fields (line ps ∷ ls) = piece_fields ps ++ fields ls
fields (line_unless_container _ ∷ ls) = fields ls

unfoldable pub are_plain : List Piece → Bool
unfolding is_one_line
are_plain [] = true
are_plain (literal t ∷ ps) = is_one_line t && are_plain ps
are_plain (unless_container t ∷ ps) = is_one_line t && are_plain ps
are_plain (field _ ∷ ps) = are_plain ps

unfoldable pub lines_are_plain : List Line → Bool
unfolding are_plain
lines_are_plain [] = true
lines_are_plain (line ps ∷ ls) = are_plain ps && lines_are_plain ls
lines_are_plain (line_unless_container t ∷ ls) = is_one_line t && lines_are_plain ls

is_one_line-append :
    (t u : Text) → is_one_line t ≡ true → is_one_line u ≡ true → is_one_line (t ++ u) ≡ true
unfolding is_one_line
is_one_line-append [] u ht hu = hu
is_one_line-append (c ∷ t) u ht hu = ground (arith, is_one_line-append t u)

split-line : (t u : Text) → is_one_line t ≡ true → split_lines (t ++ b'\n' ∷ u) ≡ t ∷ split_lines u
unfolding split_lines is_one_line
split-line [] u h = refl
split-line (c ∷ t) u h = elim (Bool-cases (nat_eqb c b'\n')) [
  | inl e ↦ ground arith
  | inr e ↦ rw (e, split-line t u (ground arith)) refl
]

module _ (s : CloudInitSpec) where
  -- The fields break no line.
  abbrev pub Fits : List Field → Type 0
  Fits fs = All (λ f. is_one_line (field_text s f) ≡ true) fs

  pieces-one_line :
      (ps : List Piece)
      → are_plain ps ≡ true
      → Fits (piece_fields ps)
      → is_one_line (pieces_text s ps) ≡ true
  unfolding are_plain piece_fields pieces_text is_one_line
  pieces-one_line [] p h = refl
  pieces-one_line (literal t ∷ ps) p h =
      is_one_line-append t _ (ground arith) (pieces-one_line ps (ground arith) h)
  pieces-one_line (field f ∷ ps) p (hf, h) =
      is_one_line-append (field_text s f) _ hf (pieces-one_line ps p h)
  pieces-one_line (unless_container t ∷ ps) p h =
      let rest = pieces-one_line ps (ground arith) h in
      elim (Bool-cases s.container) [
        | inl e ↦ rw e rest
        | inr e ↦ rw e (is_one_line-append t _ (ground arith) rest)
      ]

  -- Read line by line, a payload is the template with its fields filled in: no field ends its line
  -- or starts another.
  pub split-lines_text :
      (ls : List Line)
      → lines_are_plain ls ≡ true
      → Fits (fields ls)
      → split_lines (lines_text s ls) ≡ filled s ls
  unfolding lines_are_plain fields lines_text filled split_lines
  split-lines_text [] p h = refl
  split-lines_text (line ps ∷ ls) p h =
      let (hp, hl) =
        All-parts (λ f. is_one_line (field_text s f) ≡ true) (piece_fields ps) (fields ls) h in
      rw (split-line (pieces_text s ps) (lines_text s ls) (pieces-one_line ps (ground arith) hp))
        (ap (λ z. pieces_text s ps ∷ z) (split-lines_text ls (ground arith) hl))
  split-lines_text (line_unless_container t ∷ ls) p h =
      let rest = split-lines_text ls (ground arith) h in
      elim (Bool-cases s.container) [
        | inl e ↦ rw e rest
        | inr e ↦ rw (e, split-line t (lines_text s ls) (ground arith)) (ap (λ z. t ∷ z) rest)
      ]
