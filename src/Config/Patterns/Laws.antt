-- ===== src/Config/Patterns/Laws.antt =====
-- The recognisers of internal/config/config.go against the regular expressions that they stand for.
use incuse.Base.{
  ℕ, nat_eqb, Text, codes, is_empty, has_prefix, contains_text, Bool, true, false, ◌&&◌, ◌||◌,
  Bool-cases, [], ◌∷◌, ◌++◌, All, ◌≡◌, ◌⊎◌, ◌↔◌, inl, inr, refl, sym, ap, ◌∙◌, subst, arith,
}
use incuse.Config.Patterns.{
  is_lower, is_digit, is_name_rest, valid_name_prefix, is_folder_rune, are_parts, valid_work_folder,
}
use incuse.Config.Patterns.Regex.{
  Regex, one_of, seq, many, some_of, folder_rune, no_more, more, Matches, name_prefix_pattern,
  work_folder_pattern,
}

module _ (p : ℕ → Bool) where
  abbrev AllAre : Text → Type 0
  AllAre t = All (λ c. p c ≡ true) t

  all_many : (t : Text) → AllAre t → Matches (many (one_of p)) t
  all_many [] h = no_more [] refl
  all_many (c ∷ t) (hc, h) = more (c ∷ []) t (c ∷ t) refl (c, refl, hc) (all_many t h)

  many_all : (t : Text) → Matches (many (one_of p)) t → AllAre t
  many_all t (no_more _ e) = subst AllAre (sym e) tt
  many_all t (more u v _ e (c, eu, hc) rest) =
      subst AllAre (sym (e ∙ ap (λ z. z ++ v) eu)) (hc, many_all v rest)

abbrev is_inner : ℕ → Bool
is_inner c = is_lower c || is_digit c || nat_eqb c b'-'

abbrev is_end : ℕ → Bool
is_end c = is_lower c || is_digit c

rest-split :
    (c : ℕ) (t : Text)
    → is_name_rest (c ∷ t) ≡ true
    → (m : Text) × (l : ℕ) × (c ∷ t ≡ m ++ l ∷ []) × AllAre is_inner m × (is_end l ≡ true)
unfolding is_name_rest
rest-split c [] h = ([], c, refl, tt, h)
rest-split c (d ∷ t) h =
    let (m, l, e, a, x) = rest-split d t (ground arith) in
    (c ∷ m, l, ap (λ z. c ∷ z) e, (ground arith, a), x)

rest-join :
    (m : Text) (l : ℕ) → AllAre is_inner m → is_end l ≡ true → is_name_rest (m ++ l ∷ []) ≡ true
unfolding is_name_rest
rest-join [] l a x = x
rest-join (c ∷ []) l (hc, a) x = rw (hc, x) refl
rest-join (c ∷ d ∷ m) l (hc, a) x = rw (hc, rest-join (d ∷ m) l a x) refl

name_prefix-join :
    (c l : ℕ) (m : Text)
    → is_lower c ≡ true
    → AllAre is_inner m
    → is_end l ≡ true
    → valid_name_prefix (c ∷ (m ++ l ∷ [])) ≡ true
unfolding valid_name_prefix
name_prefix-join c l m hc a x = rw (hc, rest-join m l a x) refl

name_prefix-Matches : (s : Text) → valid_name_prefix s ≡ true → Matches name_prefix_pattern s
unfolding valid_name_prefix
name_prefix-Matches [] h = absurd (ground arith)
name_prefix-Matches (c ∷ []) h = inr (c, refl, ground arith)
name_prefix-Matches (c ∷ d ∷ t) h =
    let (m, l, e, a, x) = rest-split d t (ground arith) in
    inl (
      c ∷ [],
      d ∷ t,
      refl,
      (c, refl, ground arith),
      (m, l ∷ [], e, all_many is_inner m a, (l, refl, x)),
    )

Matches-name_prefix : (s : Text) → Matches name_prefix_pattern s → valid_name_prefix s ≡ true
unfolding valid_name_prefix is_name_rest
Matches-name_prefix s (inr (c, e, h)) = rw (e, h) refl
Matches-name_prefix s (inl (u, v, e, (c, eu, hc), (m, w, ev, inner, (l, ew, x)))) =
    subst (λ z. valid_name_prefix z ≡ true)
      (sym (e ∙ (ap (λ z. z ++ v) eu ∙ ap (λ z. c ∷ z) (ev ∙ ap (λ z. m ++ z) ew))))
      (name_prefix-join c l m hc (many_all is_inner m inner) x)

-- A slash and a part.
abbrev slash_part : Regex
slash_part = seq (one_of (λ c. nat_eqb c b'/')) (some_of folder_rune)

some_Matches :
    (u : Text) → AllAre is_folder_rune u → is_empty u ≡ false → Matches (some_of folder_rune) u
some_Matches [] a full = absurd (ground arith)
some_Matches (c ∷ u) (hc, a) full = (c ∷ [], u, refl, (c, refl, hc), all_many is_folder_rune u a)

Matches-some :
    (u : Text) → Matches (some_of folder_rune) u → AllAre is_folder_rune u × (is_empty u ≡ false)
Matches-some u (x, y, e, (c, ex, hc), ps) =
    subst (λ z. AllAre is_folder_rune z × (is_empty z ≡ false)) (sym (e ∙ ap (λ z. z ++ y) ex))
      ((hc, many_all is_folder_rune y ps), refl)

-- The rest of a part, if one has begun, or a part, and then parts behind slashes.
abbrev Parts : Bool → Text → Type 0
Parts begun s =
    (u rest : Text) × (s ≡ u ++ rest)
    × AllAre is_folder_rune u
    × ((begun ≡ true) ⊎ (is_empty u ≡ false))
    × Matches (many slash_part) rest

begins-full : (u : Text) → (false ≡ true) ⊎ (is_empty u ≡ false) → is_empty u ≡ false
begins-full u (inl f) = absurd (ground arith)
begins-full u (inr f) = f

rune-Parts :
    (begun : Bool) (c : ℕ) (s : Text) → is_folder_rune c ≡ true → Parts true s → Parts begun (c ∷ s)
rune-Parts begun c s hc (u, rest, e, a, begins, ps) =
    (c ∷ u, rest, ap (λ z. c ∷ z) e, (hc, a), inr refl, ps)

slash-Parts :
    (begun : Bool) (c : ℕ) (s : Text)
    → begun ≡ true
    → nat_eqb c b'/' ≡ true
    → Parts false s
    → Parts begun (c ∷ s)
slash-Parts begun c s b hc (u, rest, e, a, begins, ps) = (
  [],
  c ∷ s,
  refl,
  tt,
  inl b,
  more (c ∷ u) rest (c ∷ s) (ap (λ z. c ∷ z) e)
      (c ∷ [], u, refl, (c, refl, hc), some_Matches u a (begins-full u begins)) ps,
)

are_parts-Parts : (begun : Bool) (s : Text) → are_parts begun s ≡ true → Parts begun s
unfolding are_parts
are_parts-Parts begun [] h = ([], [], refl, tt, inl h, no_more [] refl)
are_parts-Parts begun (c ∷ s) h = elim (Bool-cases (is_folder_rune c && are_parts true s)) [
  | inl x ↦ rune-Parts begun c s (ground arith) (are_parts-Parts true s (ground arith))
  | inr x ↦
      slash-Parts begun c s (ground arith) (ground arith) (are_parts-Parts false s (ground arith))
]

Parts-are_parts :
    (begun : Bool) (u rest : Text)
    → Matches (many slash_part) rest
    → AllAre is_folder_rune u
    → (begun ≡ true) ⊎ (is_empty u ≡ false)
    → are_parts begun (u ++ rest) ≡ true
unfolding are_parts
Parts-are_parts begun (c ∷ u) rest ps (hc, a) b =
    rw (hc, Parts-are_parts true u rest ps a (inl refl)) refl
Parts-are_parts begun [] rest ps a (inr f) = absurd (ground arith)
Parts-are_parts begun [] rest (no_more _ e) a (inl b) = rw (e, b) refl
Parts-are_parts begun [] rest (more w v _ e (x, y, ew, (c, ex, hc), my) ps) a (inl b) =
    let (runes, full) = Matches-some y my in
    let tail : are_parts false (y ++ v) ≡ true = Parts-are_parts false y v ps runes (inr full) in
    subst (λ z. are_parts begun z ≡ true) (sym (e ∙ ap (λ z. z ++ v) (ew ∙ ap (λ z. z ++ y) ex)))
      (ground (arith, hc, b, tail))

-- A text is accepted as a prefix of names exactly if the regular expression of name prefixes matches
-- it; and as a work folder exactly if it is not empty, does not begin with a slash, does not contain
-- two dots in a row, and the regular expression of work folders matches it.
pub patterns_lem :
    (s : Text)
    → ((valid_name_prefix s ≡ true) ↔ Matches name_prefix_pattern s)
      × ((valid_work_folder s ≡ true) ↔ (
          (is_empty s ≡ false)
          × (has_prefix s (codes "/") ≡ false)
          × (contains_text s (codes "..") ≡ false)
          × Matches work_folder_pattern s))
unfolding valid_work_folder
patterns_lem s = (
  (name_prefix-Matches s, Matches-name_prefix s),
  (
    (λ h.
        let (u, rest, e, a, begins, ps) = are_parts-Parts false s (ground arith) in
        (
          ground arith,
          ground arith,
          ground arith,
          (u, rest, e, some_Matches u a (begins-full u begins), ps),
        )),
    (λ (full, absolute, up, (u, rest, e, mu, ps)).
        let (a, nonempty) = Matches-some u mu in
        let parts : are_parts false s ≡ true =
          subst (λ z. are_parts false z ≡ true) (sym e)
            (Parts-are_parts false u rest ps a (inr nonempty)) in
        rw (full, absolute, up, parts) refl),
  ),
)
