-- ===== src/Prelude/Lists.antt =====
-- Lists measured by native numbers, and tests over the items of a list.
use Prim.Native.Nat.{ℕ, zero, suc, ◌+◌, ◌-◌, ◌≤◌}
use mathlib.Core.Path.{◌≡◌, refl, ap, ◌∙◌}
use mathlib.Core.Logic.{◌↔◌, ◌⊎◌, inl, inr}
use mathlib.Core.Bool.{Bool, true, false, ◌&&◌, ◌||◌}
use mathlib.Core.List.{List, [], ◌∷◌, ◌++◌}
use native.Mathlib.Omega.{arith}
use snapdog_os_installer.Prelude.Tests.{◌==◌}

module _ {ℓ} {A : Type ℓ} where
  abbrev pub length : List A → ℕ
  length [] = 0
  length (x ∷ xs) = suc (length xs)

  abbrev pub take : ℕ → List A → List A
  take zero xs = []
  take (suc n) [] = []
  take (suc n) (x ∷ xs) = x ∷ take n xs

  abbrev pub is_empty : List A → Bool
  is_empty [] = true
  is_empty (x ∷ xs) = false

  abbrev pub all : (A → Bool) → List A → Bool
  all p [] = true
  all p (x ∷ xs) = p x && all p xs

  abbrev pub any : (A → Bool) → List A → Bool
  any p [] = false
  any p (x ∷ xs) = p x || any p xs

  abbrev pub All {κ} : (A → Type κ) → List A → Type κ
  All P [] = Unit
  All P (x ∷ xs) = P x × All P xs

module _ {ℓ} {A : Type ℓ} where
  pub length-append : (xs ys : List A) → length (xs ++ ys) ≡ length xs + length ys
  length-append [] ys = omega arith
  length-append (x ∷ xs) ys = omega (arith, length-append xs ys)

  pub all-append : (p : A → Bool) (xs ys : List A) → all p (xs ++ ys) ≡ (all p xs && all p ys)
  all-append p [] ys = refl
  all-append p (x ∷ xs) ys = ground (arith, all-append p xs ys)

module _ {ℓ} {A : Type ℓ} where
  pub take-append :
      (n : ℕ) (xs ys : List A) → take n (xs ++ ys) ≡ take n xs ++ take (n - length (take n xs)) ys
  take-append zero xs ys = ap (λ (k : ℕ). take k ys) (let e : 0 ≡ 0 - 0 = refl in e)
  take-append (suc n) [] ys = let e : suc n ≡ suc n - 0 = omega arith in ap (λ (k : ℕ). take k ys) e
  take-append (suc n) (x ∷ xs) ys =
      let e : n - length (take n xs) ≡ suc n - suc (length (take n xs)) = omega arith in
      ap (λ (l : List A). x ∷ l) (take-append n xs ys)
      ∙ ap (λ (k : ℕ). x ∷ (take n xs ++ take k ys)) e

  pub length-take_le : (n : ℕ) (xs : List A) → length (take n xs) ≤ n
  length-take_le zero xs = omega arith
  length-take_le (suc n) [] = omega arith
  length-take_le (suc n) (x ∷ xs) = omega (arith, length-take_le n xs)

  pub take_all : (n : ℕ) (xs : List A) → length xs ≤ n → take n xs ≡ xs
  take_all zero [] h = refl
  take_all zero (x ∷ xs) h = absurd (omega arith)
  take_all (suc n) [] h = refl
  take_all (suc n) (x ∷ xs) h = ap (λ (l : List A). x ∷ l) (take_all n xs (omega arith))

-- Equality of byte strings, as `==` on `String`, `&str` and `[u8]` decides it.
infix 50 ◌=ᵗ◌
abbrev pub ◌=ᵗ◌ : List ℕ → List ℕ → Bool
[] =ᵗ [] = true
[] =ᵗ (y ∷ ys) = false
(x ∷ xs) =ᵗ [] = false
(x ∷ xs) =ᵗ (y ∷ ys) = x == y && xs =ᵗ ys

pub eqt_iff : (xs ys : List ℕ) → ((xs =ᵗ ys) ≡ true) ↔ (xs ≡ ys)
eqt_iff [] [] = ground arith
eqt_iff [] (y ∷ ys) = ground arith
eqt_iff (x ∷ xs) [] = ground arith
eqt_iff (x ∷ xs) (y ∷ ys) = ground (arith, eqt_iff xs ys)

pub eqt_refl : (xs : List ℕ) → (xs =ᵗ xs) ≡ true
eqt_refl xs = (eqt_iff xs xs).1 refl

pub append_cancel {ℓ} :
    {A : Type ℓ} (xs ys a b : List A)
    → length xs ≡ length ys
    → xs ++ a ≡ ys ++ b
    → (xs ≡ ys) × (a ≡ b)
append_cancel [] [] a b l h = (refl, h)
append_cancel [] (y ∷ ys) a b l h = absurd (omega arith)
append_cancel (x ∷ xs) [] a b l h = absurd (omega arith)
append_cancel (x ∷ xs) (y ∷ ys) a b l h =
    let rest = append_cancel xs ys a b (omega arith) (cc (h)) in (cc (h, rest.0), rest.1)

pub All-map {ℓ} :
    {A : Type ℓ} {P Q : A → Type 0} (f : (a : A) → P a → Q a) (xs : List A) → All P xs → All Q xs
All-map f [] a = tt
All-map f (x ∷ xs) a = (f x a.0, All-map f xs a.1)

-- The predicate holds of some item.
abbrev pub Any {ℓ} : {A : Type ℓ} → (A → Type 0) → List A → Type 0
Any P [] = ⊥
Any P (x ∷ xs) = P x ⊎ Any P xs

-- To prove `Q` of each item, it may be assumed that what the item has is found in the list.
pub All-found {ℓ} :
    {A : Type ℓ} (P : A → A → Type 0) (Q : A → Type 0) (xs : List A)
    → ((a : A) → P a a)
    → ((a : A) → Any (P a) xs → Q a)
    → All Q xs
All-found P Q [] r f = tt
All-found P Q (x ∷ xs) r f = (f x (inl (r x)), All-found P Q xs r (λ a i. f a (inr i)))

pub Any-map {ℓ} :
    {A : Type ℓ} {P Q : A → Type 0} (f : (a : A) → P a → Q a) (xs : List A) → Any P xs → Any Q xs
Any-map f [] i = elim i [ ]
Any-map f (x ∷ xs) (inl p) = inl (f x p)
Any-map f (x ∷ xs) (inr i) = inr (Any-map f xs i)

-- A fact about every item, at the item where the predicate holds.
pub All-Any {ℓ} :
    {A : Type ℓ} {P Q R : A → Type 0} (f : (a : A) → P a → Q a → R a) (xs : List A)
    → All P xs
    → Any Q xs
    → Any R xs
All-Any f [] a i = elim i [ ]
All-Any f (x ∷ xs) a (inl q) = inl (f x a.0 q)
All-Any f (x ∷ xs) a (inr i) = inr (All-Any f xs a.1 i)
