-- ===== src/Scaleset/Labels/Match.antt =====
-- `labelNamesMatch` of internal/scaleset/scaleset.go compares the labels as multisets of names
-- without regard to case.
use incuse.Base.{
  ℕ, ◌+◌, ◌<◌, length, length-map, total, ◌≡◌, refl, ap, sym, ◌∙◌, subst, ◌↔◌, Text, text_eq, ◌==◌,
  Eq, eq_self, eq_of_true, to_lower, Bool, true, false, List, [], ◌∷◌, map, All, Bool-cases, inl,
  inr, arith, if◌then◌else◌,
}
use incuse.Scaleset.Labels.{Label, text_leb, insert_sorted, sort, are_equal, label_names_match}

-- How often a member occurs.
module _ {ℓ} {A : Type ℓ} ⦃e : Eq A⦄ where
  abbrev pub count : A → List A → ℕ
  count a xs = total (λ x. if a == x then 1 else 0) xs

text_leb-total : (s t : Text) → text_leb s t ≡ false → text_leb t s ≡ true
unfolding text_leb
text_leb-total [] t h = cc
text_leb-total (c ∷ s) [] h = refl
text_leb-total (c ∷ s) (d ∷ t) h = ground (arith, text_leb-total s t)

text_leb-antisym : (s t : Text) → text_leb s t ≡ true → text_leb t s ≡ true → s ≡ t
unfolding text_leb
text_leb-antisym [] [] h k = refl
text_leb-antisym [] (d ∷ t) h k = cc
text_leb-antisym (c ∷ s) [] h k = cc
text_leb-antisym (c ∷ s) (d ∷ t) h k = ground (arith, text_leb-antisym s t)

text_leb-trans : (s t u : Text) → text_leb s t ≡ true → text_leb t u ≡ true → text_leb s u ≡ true
unfolding text_leb
text_leb-trans [] t u h k = refl
text_leb-trans (c ∷ s) [] u h k = cc
text_leb-trans (c ∷ s) (d ∷ t) [] h k = cc
text_leb-trans (c ∷ s) (d ∷ t) (e ∷ u) h k = ground (arith, text_leb-trans s t u)

-- Sorting by an order of which two members are equal if each is below the other.
module _ {A : Type 0} ⦃e : Eq A⦄ (leq : A → A → Bool)
    (leq-total : (x y : A) → leq x y ≡ false → leq y x ≡ true)
    (leq-antisym : (x y : A) → leq x y ≡ true → leq y x ≡ true → x ≡ y)
    (leq-trans : (x y z : A) → leq x y ≡ true → leq y z ≡ true → leq x z ≡ true) where
  abbrev Below : A → List A → Type 0
  Below x xs = All (λ y. leq x y ≡ true) xs

  abbrev IsSorted : List A → Type 0
  IsSorted [] = Unit
  IsSorted (x ∷ xs) = Below x xs × IsSorted xs

  count-insert : (a x : A) (xs : List A) → count a (insert_sorted leq x xs) ≡ count a (x ∷ xs)
  unfolding insert_sorted
  count-insert a x [] = refl
  count-insert a x (y ∷ xs) = ground (arith, count-insert a x xs)

  count-sort : (a : A) (xs : List A) → count a (sort leq xs) ≡ count a xs
  unfolding sort
  count-sort a [] = refl
  count-sort a (x ∷ xs) = count-insert a x (sort leq xs) ∙ omega (arith, count-sort a xs)

  Below-insert :
      (z x : A) (xs : List A) → leq z x ≡ true → Below z xs → Below z (insert_sorted leq x xs)
  unfolding insert_sorted
  Below-insert z x [] h b = (h, tt)
  Below-insert z x (y ∷ xs) h b = elim (Bool-cases (leq x y)) [
    | inl l ↦ rw l (h, b)
    | inr l ↦ rw l (b.0, Below-insert z x xs h b.1)
  ]

  Below-trans : (x y : A) (xs : List A) → leq x y ≡ true → Below y xs → Below x xs
  Below-trans x y [] h b = tt
  Below-trans x y (z ∷ xs) h b = (leq-trans x y z h b.0, Below-trans x y xs h b.1)

  insert-IsSorted : (x : A) (xs : List A) → IsSorted xs → IsSorted (insert_sorted leq x xs)
  unfolding insert_sorted
  insert-IsSorted x [] s = (tt, tt)
  insert-IsSorted x (y ∷ xs) s = elim (Bool-cases (leq x y)) [
    | inl l ↦ rw l ((l, Below-trans x y xs l s.0), s)
    | inr l ↦ rw l (Below-insert y x xs (leq-total x y l) s.0, insert-IsSorted x xs s.1)
  ]

  sort-IsSorted : (xs : List A) → IsSorted (sort leq xs)
  unfolding sort
  sort-IsSorted [] = tt
  sort-IsSorted (x ∷ xs) = insert-IsSorted x (sort leq xs) (sort-IsSorted xs)

  -- What occurs in a list is above what is below the whole list.
  Below-count : (x y : A) (xs : List A) → Below x xs → 0 < count y xs → leq x y ≡ true
  Below-count x y [] b h = ground arith
  Below-count x y (z ∷ xs) b h = elim (Bool-cases (y == z)) [
    | inl q ↦ subst (λ w. leq x w ≡ true) (sym (eq_of_true y z q)) b.0
    | inr q ↦ Below-count x y xs b.1 (ground arith)
  ]

  leq_refl : (x : A) → leq x x ≡ true
  leq_refl x = elim (Bool-cases (leq x x)) [ inl h ↦ h | inr h ↦ leq-total x x h ]

  -- Sorted lists with the same members, each as often, are equal.
  sorted_unique :
      (xs ys : List A) → IsSorted xs → IsSorted ys → ((a : A) → count a xs ≡ count a ys) → xs ≡ ys
  sorted_unique [] [] s t h = refl
  sorted_unique [] (y ∷ ys) s t h = ground (arith, h y, eq_self y)
  sorted_unique (x ∷ xs) [] s t h = ground (arith, h x, eq_self x)
  sorted_unique (x ∷ xs) (y ∷ ys) s t h =
      let here_x : 0 < count x (y ∷ ys) = ground (arith, h x, eq_self x) in
      let here_y : 0 < count y (x ∷ xs) = ground (arith, h y, eq_self y) in
      let above = Below-count y x (y ∷ ys) (leq_refl y, t.0) here_x in
      let below = Below-count x y (x ∷ xs) (leq_refl x, s.0) here_y in
      let q = leq-antisym x y below above in
      let rest = sorted_unique xs ys s.1 t.1 (λ a. tails q a) in
      subst (λ z. x ∷ xs ≡ z ∷ ys) q (ap (λ zs. x ∷ zs) rest)
    where
      tails : x ≡ y → (a : A) → count a xs ≡ count a ys
      tails q a = ground (arith, h a)

are_equal-eq : (xs ys : List Text) → length xs ≡ length ys → are_equal xs ys ≡ true → xs ≡ ys
unfolding are_equal
are_equal-eq [] [] l h = refl
are_equal-eq [] (y ∷ ys) l h = ground arith
are_equal-eq (x ∷ xs) [] l h = ground arith
are_equal-eq (x ∷ xs) (y ∷ ys) l h = ground (arith, are_equal-eq xs ys, eq_of_true x y)

are_equal_self : (xs : List Text) → are_equal xs xs ≡ true
unfolding are_equal
are_equal_self [] = refl
are_equal_self (x ∷ xs) = ground (arith, eq_self x, are_equal_self xs)

length-insert_sorted :
    (x : Text) (xs : List Text) → length (insert_sorted text_leb x xs) ≡ length xs + 1
unfolding insert_sorted
length-insert_sorted x [] = refl
length-insert_sorted x (y ∷ xs) = ground (arith, length-insert_sorted x xs)

length-sort : (xs : List Text) → length (sort text_leb xs) ≡ length xs
unfolding sort
length-sort [] = refl
length-sort (x ∷ xs) = ground (arith, length-insert_sorted x (sort text_leb xs), length-sort xs)

abbrev existing_names : List Label → List Text
existing_names ls = map (λ l. to_lower l.name) ls

-- The counts of a list of texts decide its sorted list, and the other way round.
module _ (xs ys : List Text) where
  count-sort_text : (n : Text) (zs : List Text) → count n (sort text_leb zs) ≡ count n zs
  count-sort_text n zs = count-sort text_leb text_leb-total text_leb-antisym text_leb-trans n zs

  sort_text-IsSorted :
      (zs : List Text)
      → IsSorted text_leb text_leb-total text_leb-antisym text_leb-trans (sort text_leb zs)
  sort_text-IsSorted zs = sort-IsSorted text_leb text_leb-total text_leb-antisym text_leb-trans zs

  sorts-eq : ((n : Text) → count n xs ≡ count n ys) → sort text_leb xs ≡ sort text_leb ys
  sorts-eq h =
      sorted_unique text_leb text_leb-total text_leb-antisym text_leb-trans (sort text_leb xs)
        (sort text_leb ys) (sort_text-IsSorted xs) (sort_text-IsSorted ys)
        (λ n. count-sort_text n xs ∙ h n ∙ sym (count-sort_text n ys))

  counts-eq :
      length xs ≡ length ys
      → are_equal (sort text_leb xs) (sort text_leb ys) ≡ true
      → (n : Text) → count n xs ≡ count n ys
  counts-eq l h n =
      let e =
        are_equal-eq (sort text_leb xs) (sort text_leb ys)
          (length-sort xs ∙ l ∙ sym (length-sort ys)) h in
      sym (count-sort_text n xs) ∙ ap (λ zs. count n zs) e ∙ count-sort_text n ys

  lengths-eq : ((n : Text) → count n xs ≡ count n ys) → length xs ≡ length ys
  lengths-eq h = sym (length-sort xs) ∙ ap (λ zs. length zs) (sorts-eq h) ∙ length-sort ys

  equal-sorts :
      ((n : Text) → count n xs ≡ count n ys)
      → are_equal (sort text_leb xs) (sort text_leb ys) ≡ true
  equal-sorts h = rw (sorts-eq h) (are_equal_self (sort text_leb ys))

-- Two lists of labels match exactly if each name, without regard to case, occurs as often in the one
-- as in the other: the order of the labels does not matter.
pub match-count :
    (existing : List Label) (want : List Text)
    → (label_names_match existing want ≡ true)
      ↔ ((n : Text) → count n (map (λ l. to_lower l.name) existing) ≡ count n (map to_lower want))
unfolding label_names_match
match-count existing want = (
  (λ h. counts-eq xs ys (lens (ground arith)) (ground arith)),
  (λ h. ground (arith, lengths-eq xs ys h, len_xs, len_ys, equal-sorts xs ys h)),
)
  where
    xs : List Text
    xs = map (λ l. to_lower l.name) existing

    ys : List Text
    ys = map to_lower want

    len_xs : length xs ≡ length existing
    len_xs = length-map existing (λ l. to_lower l.name)

    len_ys : length ys ≡ length want
    len_ys = length-map want to_lower

    lens : length existing ≡ length want → length xs ≡ length ys
    lens e = len_xs ∙ e ∙ sym len_ys
