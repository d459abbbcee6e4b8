-- ===== src/Prelude/Slices.antt =====
-- Slices of lists, and division rounded up.
use Prim.Native.Nat.{ℕ, zero, suc, ◌+◌, ◌-◌, ◌*◌, ◌/◌, ◌%◌, ◌≤◌, ◌<◌}
use mathlib.Core.Path.{◌≡◌, refl, sym, ap, ◌∙◌}
use mathlib.Core.Bool.{Bool, false}
use mathlib.Core.List.{List, [], ◌∷◌, ◌++◌}
use native.Mathlib.Omega.{arith}
use native.Mathlib.Nat.{
  mod-lt, div-add-mod, mul_comm, add-mul, lt_of_mul-lt-mul_left, mul-le-mul_left,
}
use snapdog_os_installer.Prelude.Tests.{◌==◌, if◌then◌else◌}
use snapdog_os_installer.Prelude.Lists.{length, take}

module _ {ℓ} {A : Type ℓ} where
  abbrev pub drop : ℕ → List A → List A
  drop zero xs = xs
  drop (suc n) [] = []
  drop (suc n) (x ∷ xs) = drop n xs

  pub length-drop : (n : ℕ) (xs : List A) → length (drop n xs) ≡ length xs - n
  length-drop zero xs = omega arith
  length-drop (suc n) [] = omega arith
  length-drop (suc n) (x ∷ xs) = omega (arith, length-drop n xs)

  pub length-take_eq : (n : ℕ) (xs : List A) → n ≤ length xs → length (take n xs) ≡ n
  length-take_eq zero xs h = refl
  length-take_eq (suc n) [] h = absurd (omega arith)
  length-take_eq (suc n) (x ∷ xs) h = ap suc (length-take_eq n xs (omega arith))

  drop-nil : (n : ℕ) → drop n [] ≡ []
  drop-nil zero = refl
  drop-nil (suc n) = refl

  pub drop-drop : (m n : ℕ) (xs : List A) → drop m (drop n xs) ≡ drop (n + m) xs
  drop-drop m zero xs = ap (λ (k : ℕ). drop k xs) (let e : m ≡ 0 + m = omega arith in e)
  drop-drop m (suc n) [] = drop-nil m ∙ sym (drop-nil (suc n + m))
  drop-drop m (suc n) (x ∷ xs) =
      let e : suc (n + m) ≡ suc n + m = omega arith in
      drop-drop m n xs ∙ ap (λ (k : ℕ). drop k (x ∷ xs)) e

  pub take-drop-take :
      (c p k : ℕ) (xs : List A) → p + c ≤ k → take c (drop p (take k xs)) ≡ take c (drop p xs)
  take-drop-take zero p k xs h = refl
  take-drop-take (suc c) zero zero xs h = absurd (omega arith)
  take-drop-take (suc c) zero (suc k) [] h = refl
  take-drop-take (suc c) zero (suc k) (x ∷ xs) h =
      ap (λ (l : List A). x ∷ l) (take-drop-take c zero k xs (omega arith))
  take-drop-take (suc c) (suc p) zero xs h = absurd (omega arith)
  take-drop-take (suc c) (suc p) (suc k) [] h = refl
  take-drop-take (suc c) (suc p) (suc k) (x ∷ xs) h = take-drop-take (suc c) p k xs (omega arith)

  pub take-drop_append : (n : ℕ) (xs : List A) → take n xs ++ drop n xs ≡ xs
  take-drop_append zero xs = refl
  take-drop_append (suc n) [] = refl
  take-drop_append (suc n) (x ∷ xs) = ap (λ (l : List A). x ∷ l) (take-drop_append n xs)

-- `usize::div_ceil`
abbrev pub div_ceil : ℕ → ℕ → ℕ
div_ceil a b = if (a % b) == 0 then a / b else suc (a / b)

round_up :
    (q r s : ℕ)
    → r < s
    → (q * s + r ≤ (if r == 0 then q else suc q) * s)
      × ((if r == 0 then q else suc q) * s < q * s + r + s)
round_up q zero s h = (omega arith, omega arith)
round_up q (suc r) s h =
    let z : (suc r == 0) ≡ false = ground arith in
    let m : (if suc r == 0 then q else suc q) * s ≡ suc q * s =
      ap (λ (b : Bool). (if b then q else suc q) * s) z in
    (omega arith, omega arith)

pub div_ceil_lem : (a s : ℕ) → 0 < s → (a ≤ div_ceil a s * s) × (div_ceil a s * s < a + s)
div_ceil_lem a s h =
    let e : s * (a / s) + a % s ≡ a = div-add-mod a s in
    let c : (a / s) * s ≡ s * (a / s) = mul_comm (a / s) s in
    let (lo, hi) = round_up (a / s) (a % s) s (mod-lt a h) in (omega arith, omega arith)

-- Whole sectors from a sector's start stay below a bound in whole sectors.
pub sectors_le : (i k c s n : ℕ) → s * i + n ≤ s * c → k * s < n + s → s * i + k * s ≤ s * c
sectors_le i k c s n h g =
    let d : s * (i + k) ≡ s * i + k * s =
      mul_comm s (i + k) ∙ add-mul i k s ∙ ap (λ (x : ℕ). x + k * s) (mul_comm i s) in
    let l : i + k < suc c = lt_of_mul-lt-mul_left s (omega arith) in
    let m : s * (i + k) ≤ s * c = mul-le-mul_left s (omega arith) in omega arith
