-- ===== src/Base/Checks.antt =====
-- Lists of conditions with what is reported where one fails, and lists without repeats.
use mathlib.Core.Path.{◌≡◌, refl}
use mathlib.Core.Logic.{◌≢◌}
use mathlib.Core.Bool.{Bool, true, false}
use mathlib.Core.Option.{Option, none, some}
use mathlib.Core.List.{List, [], ◌∷◌, ◌++◌}
use native.Mathlib.Omega.{arith}
use incuse.Base.Tests.{if◌then◌else◌}
use incuse.Base.Equality.{Eq, contains, eq_self}
use incuse.Base.Lists.{All}

module _ {ℓ} {A : Type ℓ} where
  -- What the failed conditions report, in order.
  abbrev pub failed : List (Bool × A) → List A
  failed [] = []
  failed ((b, a) ∷ cs) = let rest = failed cs in if b then rest else a ∷ rest

  abbrev pub Passes : Bool × A → Type 0
  Passes (b, a) = b ≡ true

  pub failed-All : (cs : List (Bool × A)) → failed cs ≡ [] → All Passes cs
  failed-All [] h = tt
  failed-All ((true, a) ∷ cs) h = (refl, failed-All cs h)
  failed-All ((false, a) ∷ cs) h = cc

  pub All-failed : (cs : List (Bool × A)) → All Passes cs → failed cs ≡ []
  All-failed [] h = refl
  All-failed ((true, a) ∷ cs) h = All-failed cs h.1
  All-failed ((false, a) ∷ cs) h = cc

  pub All-parts {κ} : (P : A → Type κ) (xs ys : List A) → All P (xs ++ ys) → All P xs × All P ys
  All-parts P [] ys h = (tt, h)
  All-parts P (x ∷ xs) ys h = let (hx, hy) = All-parts P xs ys h.1 in ((h.0, hx), hy)

  -- No two members are equal.
  abbrev pub Nodup : List A → Type ℓ
  Nodup [] = Unit
  Nodup (x ∷ xs) = All (λ y. x ≢ y) xs × Nodup xs

  module _ ⦃e : Eq A⦄ where
    -- The members are not among those seen, and each joins them in turn.
    abbrev pub Fresh : List A → List A → Type 0
    Fresh seen [] = Unit
    Fresh seen (x ∷ xs) = (contains seen x ≡ false) × Fresh (x ∷ seen) xs

    -- The test of it.
    abbrev pub is_fresh : List A → List A → Bool
    is_fresh seen [] = true
    is_fresh seen (x ∷ xs) =
        let rest = is_fresh (x ∷ seen) xs in if contains seen x then false else rest

    pub is_fresh-Fresh : (seen xs : List A) → is_fresh seen xs ≡ true → Fresh seen xs
    is_fresh-Fresh seen [] h = tt
    is_fresh-Fresh seen (x ∷ xs) h = ground (arith, is_fresh-Fresh (x ∷ seen) xs)

    abbrev Unseen : List A → List A → Type 0
    Unseen seen xs = All (λ x. contains seen x ≡ false) xs

    Unseen-cons :
        (x : A) (seen xs : List A) → Unseen (x ∷ seen) xs → Unseen seen xs × All (λ y. x ≢ y) xs
    Unseen-cons x seen [] h = (tt, tt)
    Unseen-cons x seen (y ∷ xs) h =
        let (u, d) = Unseen-cons x seen xs h.1 in
        ((ground arith, u), (λ q. ground (arith, eq_self y), d))

    Fresh-Unseen : (seen xs : List A) → Fresh seen xs → Unseen seen xs × Nodup xs
    Fresh-Unseen seen [] h = (tt, tt)
    Fresh-Unseen seen (x ∷ xs) h =
        let (u, n) = Fresh-Unseen (x ∷ seen) xs h.1 in
        let (v, d) = Unseen-cons x seen xs u in ((h.0, v), (d, n))

    pub Fresh-Nodup : (xs : List A) → Fresh [] xs → Nodup xs
    Fresh-Nodup xs h = (Fresh-Unseen [] xs h).1

    cons-Unseen :
        (x : A) (seen xs : List A) → Unseen seen xs → All (λ y. x ≢ y) xs → Unseen (x ∷ seen) xs
    cons-Unseen x seen [] h d = tt
    cons-Unseen x seen (y ∷ xs) h d = (ground arith, cons-Unseen x seen xs h.1 d.1)

    Unseen-Fresh : (seen xs : List A) → Unseen seen xs → Nodup xs → Fresh seen xs
    Unseen-Fresh seen [] h n = tt
    Unseen-Fresh seen (x ∷ xs) h n =
        (h.0, Unseen-Fresh (x ∷ seen) xs (cons-Unseen x seen xs h.1 n.0) n.1)

    Unseen-nil : (xs : List A) → Unseen [] xs
    Unseen-nil [] = tt
    Unseen-nil (x ∷ xs) = (refl, Unseen-nil xs)

    pub Nodup-Fresh : (xs : List A) → Nodup xs → Fresh [] xs
    Nodup-Fresh xs n = Unseen-Fresh [] xs (Unseen-nil xs) n

-- A chain of `if … { return err }`: what the first failed condition reports.
module _ {ℓ} {A : Type ℓ} where
  abbrev pub first_failed : List (Bool × A) → Option A
  first_failed [] = none
  first_failed ((b, a) ∷ cs) = let rest = first_failed cs in if b then rest else some a

  pub first_failed-none : (cs : List (Bool × A)) → All Passes cs → first_failed cs ≡ none
  first_failed-none [] h = refl
  first_failed-none ((b, a) ∷ cs) h = rw h.0 (first_failed-none cs h.1)

  pub none-first_failed : (cs : List (Bool × A)) → first_failed cs ≡ none → All Passes cs
  none-first_failed [] h = tt
  none-first_failed ((true, a) ∷ cs) h = (refl, none-first_failed cs h)
  none-first_failed ((false, a) ∷ cs) h = cc
