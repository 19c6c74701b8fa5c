-- ===== src/Config/Labels/Laws.antt =====
-- `ScaleSetLabels` of internal/config/labels.go: the labels that it keeps.
use incuse.Base.{
  refl, ◌⊎◌, lower_rune, Text, text_eq, eq_self, eq_of_true, ◌==◌, ap, subst, to_lower, is_empty,
  contains, ◌≡◌, List, [], ◌∷◌, ◌++◌, map, true, false, ◌||◌, All, All-imp, Nodup, Fresh,
  Fresh-Nodup, Bool-cases, inl, inr, arith,
}
use incuse.Config.{arch_amd64, arch_arm64}
use incuse.Config.Labels.{add_labels, scale_set_labels}

-- A label is left out if it is empty or seen; otherwise it is kept.
add_labels-Fresh : (seen ls : List Text) → Fresh seen (map to_lower (add_labels seen ls))
unfolding add_labels
add_labels-Fresh seen [] = tt
add_labels-Fresh seen (l ∷ ls) = elim (Bool-cases (is_empty l)) [
  | inl e ↦ rw e (add_labels-Fresh seen ls)
  | inr f ↦ elim (Bool-cases (contains seen (to_lower l))) [
    | inl s ↦ rw (f, s) (add_labels-Fresh seen ls)
    | inr n ↦ rw (f, n) (n, add_labels-Fresh (to_lower l ∷ seen) ls)
  ]
]

abbrev Kept : List Text → List Text → Text → Type 0
Kept seen out l = (contains seen (to_lower l) || contains (map to_lower out) (to_lower l)) ≡ true

add_labels-Kept :
    (seen ls : List Text) (m : Text)
    → contains ls m ≡ true
    → is_empty m ≡ false
    → Kept seen (add_labels seen ls) m
unfolding add_labels
add_labels-Kept seen [] m h g = cc
add_labels-Kept seen (l ∷ ls) m h g =
    let eq = λ (q : (m == l) ≡ true). eq_of_true m l q in
    let same = λ (q : (m == l) ≡ true). ap (λ z. contains seen (to_lower z)) (eq q) in
    let lower = λ (q : (m == l) ≡ true).
      subst (λ z. (to_lower m == to_lower z) ≡ true) (eq q) (eq_self (to_lower m)) in
    let full = λ (q : (m == l) ≡ true). ap is_empty (eq q) in
    elim (Bool-cases (is_empty l)) [
      | inl e ↦ rw e (ground (arith, full, add_labels-Kept seen ls m))
      | inr f ↦ elim (Bool-cases (contains seen (to_lower l))) [
        | inl s ↦ rw (f, s) (ground (arith, same, add_labels-Kept seen ls m))
        | inr n ↦ rw (f, n) (ground (arith, lower, add_labels-Kept (to_lower l ∷ seen) ls m))
      ]
    ]

add_labels-All :
    (P : Text → Type 0) (seen ls : List Text)
    → All P ls
    → All (λ l. P l × (is_empty l ≡ false)) (add_labels seen ls)
unfolding add_labels
add_labels-All P seen [] h = tt
add_labels-All P seen (l ∷ ls) h = elim (Bool-cases (is_empty l)) [
  | inl e ↦ rw e (add_labels-All P seen ls h.1)
  | inr f ↦ elim (Bool-cases (contains seen (to_lower l))) [
    | inl s ↦ rw (f, s) (add_labels-All P seen ls h.1)
    | inr n ↦ rw (f, n) ((h.0, f), add_labels-All P (to_lower l ∷ seen) ls h.1)
  ]
]

contains_self : (xs : List Text) → All (λ x. contains xs x ≡ true) xs
contains_self [] = tt
contains_self (x ∷ xs) = (
  ground (arith, eq_self x),
  All-imp (λ y. contains xs y ≡ true) (λ y. contains (x ∷ xs) y ≡ true) (λ y h. ground arith) xs
      (contains_self xs),
)

-- The labels of a scale set: no two are equal without regard to case; each is one of the base labels
-- or the class name, and not empty; and each of those that is not empty, the class name included, is
-- among them without regard to case.
pub scale_set_labels_lem :
    (base : List Text) (name : Text)
    → Nodup (map to_lower (scale_set_labels base name))
      × All
          (λ l. (contains (base ++ name ∷ []) l ≡ true) × (is_empty l ≡ false))
          (scale_set_labels base name)
      × ((l : Text)
          → contains (base ++ name ∷ []) l ≡ true
          → is_empty l ≡ false
          → contains (map to_lower (scale_set_labels base name)) (to_lower l) ≡ true)
unfolding scale_set_labels
scale_set_labels_lem base name =
    let given : List Text = base ++ name ∷ [] in
    (
      Fresh-Nodup (map to_lower (add_labels [] given)) (add_labels-Fresh [] given),
      add_labels-All (λ l. contains given l ≡ true) [] given (contains_self given),
      add_labels-Kept [] given,
    )

-- The architecture that `RunnerSpec` puts in lower case, of a class with a known one.
pub arch-known :
    (arch : Text)
    → (arch ≡ arch_amd64) ⊎ (arch ≡ arch_arm64)
    → (to_lower arch == arch_amd64 || to_lower arch == arch_arm64) ≡ true
unfolding lower_rune text_eq
arch-known arch (inl e) = rw e refl
arch-known arch (inr e) = rw e refl
