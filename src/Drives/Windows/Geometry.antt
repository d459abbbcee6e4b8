-- ===== src/Drives/Windows/Geometry.antt =====
-- What `valid_sector_geometry` of src/drives.rs, and of src/worker/windows.rs, accepts.
use snapdog_os_installer.Prelude.{
  ℕ, zero, suc, ◌+◌, ◌-◌, ◌*◌, ◌%◌, ◌^◌, ◌≤◌, ◌≡◌, refl, sym, ap, ◌∙◌, Bool, true, false, ◌&&◌,
  ◌==◌, ==_iff, and_iff, leb, Bool-cases, inl, inr, arith,
}
use native.Mathlib.Nat.{pow-zero, pow-succ', mul_assoc, one-mul, mul-mod_left, pow-le-pow_right}
use snapdog_os_installer.Drives.Windows.{power_within, is_power_of_two, valid_sector_geometry}

power_within_lem : (fuel n : ℕ) → power_within fuel n ≡ true → (e : ℕ) × (n ≡ 2 ^ e)
unfolding power_within
power_within_lem zero n h = cc
power_within_lem (suc fuel) n h = elim (Bool-cases (n == 2 ^ fuel)) [
  | inl e ↦ (fuel, (==_iff n (2 ^ fuel)).0 e)
  | inr e ↦ power_within_lem fuel n (ground arith)
]

-- A valid sector size divides the size of the buffer.
pub record IsGeometry (size logical physical : ℕ) : Type 0 where
  pub least : 512 ≤ logical
  pub most : logical ≤ 65536
  pub larger : logical ≤ physical
  pub whole : size % logical ≡ 0
  pub divides : 2 ^ 20 % logical ≡ 0

pow_add : (n a b : ℕ) → n ^ (a + b) ≡ n ^ a * n ^ b
pow_add n zero b =
    let e : 0 + b ≡ b = omega arith in
    ap (λ (k : ℕ). n ^ k) e ∙ sym (one-mul (n ^ b)) ∙ ap (λ (x : ℕ). x * n ^ b) (sym (pow-zero n))
pow_add n (suc a) b =
    let e : suc a + b ≡ suc (a + b) = omega arith in
    ap (λ (k : ℕ). n ^ k) e
    ∙ pow-succ' n (a + b)
    ∙ ap (λ (k : ℕ). n * k) (pow_add n a b)
    ∙ sym (mul_assoc n (n ^ a) (n ^ b))
    ∙ ap (λ (k : ℕ). k * n ^ b) (sym (pow-succ' n a))

small_power : (e : ℕ) → 2 ^ e ≤ 65536 → e ≤ 20
small_power e h = elim (Bool-cases (leb e 20)) [
  | inl l ↦ ground arith
  | inr g ↦
      let m : 21 ≤ e = ground arith in
      let u : 2 ^ 21 ≤ 2 ^ e = pow-le-pow_right {n = 2} (omega arith) m in absurd (omega arith)
]

divides_lem : (n e : ℕ) → n ≤ 65536 → n ≡ 2 ^ e → 2 ^ 20 % n ≡ 0
divides_lem n e h p =
    let l : e ≤ 20 = small_power e (omega arith) in
    let s : (20 - e) + e ≡ 20 = omega arith in
    ap (λ (m : ℕ). 2 ^ 20 % m) p
    ∙ ap (λ (k : ℕ). 2 ^ k % 2 ^ e) (sym s)
    ∙ ap (λ (x : ℕ). x % 2 ^ e) (pow_add 2 (20 - e) e)
    ∙ mul-mod_left (2 ^ (20 - e)) (2 ^ e)

all_five :
    (a b c d e : Bool)
    → (a && b && c && d && e) ≡ true
    → (a ≡ true) × (b ≡ true) × (c ≡ true) × (d ≡ true) × (e ≡ true)
all_five true true true true true h = (refl, refl, refl, refl, refl)
all_five true true true true false h = cc
all_five true true true false e h = cc
all_five true true false d e h = cc
all_five true false c d e h = cc
all_five false b c d e h = cc

pub valid_sector_geometry-IsGeometry :
    (size logical physical : ℕ)
    → valid_sector_geometry size logical physical ≡ true
    → IsGeometry size logical physical
unfolding valid_sector_geometry is_power_of_two
valid_sector_geometry-IsGeometry size logical physical h =
    let (range, power, larger, _, whole) =
      all_five (leb 512 logical && leb logical 65536) (is_power_of_two logical)
        (leb logical physical && leb physical 65536) (is_power_of_two physical)
        (size % logical == 0) h in
    let (lo, hi) = (and_iff (leb 512 logical) (leb logical 65536)).0 range in
    let (above, _) = (and_iff (leb logical physical) (leb physical 65536)).0 larger in
    let (e, p) = power_within_lem 32 logical power in
    let least : 512 ≤ logical = ground arith in
    let most : logical ≤ 65536 = ground arith in
    let above_least : logical ≤ physical = ground arith in
    record {
      least = least;
      most = most;
      larger = above_least;
      whole = (==_iff (size % logical) 0).0 whole;
      divides = divides_lem logical e most p;
    }
