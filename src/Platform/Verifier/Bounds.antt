-- ===== src/Platform/Verifier/Bounds.antt =====
-- The transfers that the verifiers of src/worker/linux.rs and src/worker/windows.rs ask for.
use snapdog_os_installer.Prelude.{
  ℕ, ◌+◌, ◌-◌, ◌*◌, ◌%◌, ◌/◌, ◌≤◌, ◌<◌, ◌≡◌, ap, ◌∙◌, min, Bool, true, false, div_ceil,
  div_ceil_lem, sectors_le, ltb, lt→ltb, checked_add, u64_mod, arith, ◌||◌,
}
use native.Mathlib.Nat.{
  mul-add, mul-one, mul-zero, mod-lt, mod-le, div-add-mod, mul-mod_left, mul-mod_right,
}
use snapdog_os_installer.Drives.Windows.{valid_sector_geometry}
use snapdog_os_installer.Drives.Windows.Geometry.{valid_sector_geometry-IsGeometry}
use snapdog_os_installer.Prelude.Result.{ok}
use snapdog_os_installer.Platform.Verifier.Transfer.{
  Limits, Transfer, transfer, verification_buffer_size, linux_limits, windows_limits, exceeds,
}

-- Sectors that hold what lies at the position, up to the capacity and to the size of the output.
pub record IsSound (s capacity position output : ℕ) (t : Transfer) : Type 0 where
  pub aligned_start : t.start % s ≡ 0
  pub aligned_length : t.length % s ≡ 0
  pub at : t.start + t.prefix ≡ position
  pub prefix : t.prefix < s
  pub covers : t.prefix + t.available ≤ t.length
  pub progress : 0 < t.available
  pub room : t.available ≤ output
  pub inside : position + t.available ≤ capacity
  pub short : t.length < 2 * s + verification_buffer_size

abbrev available : ℕ → ℕ → ℕ → ℕ
available capacity position output = min (capacity - position) (min output verification_buffer_size)

abbrev whole : ℕ → ℕ → ℕ → ℕ → Transfer
whole s capacity position output = record {
  start = position - position % s;
  prefix = position - (position - position % s);
  available = available capacity position output;
  length =
      div_ceil (position - (position - position % s) + available capacity position output) s * s;
}

start-aligned : (p s : ℕ) → (p - p % s) % s ≡ 0
start-aligned p s =
    let e : s * (p / s) + p % s ≡ p = div-add-mod p s in
    let d : p - p % s ≡ s * (p / s) = omega arith in
    ap (λ (n : ℕ). n % s) d ∙ mul-mod_right s (p / s)

whole-IsSound :
    (s capacity position output : ℕ)
    → 0 < s
    → position < capacity
    → 0 < output
    → IsSound s capacity position output (whole s capacity position output)
whole-IsSound s capacity position output z p o =
    let t = whole s capacity position output in
    let l : position % s ≤ position = mod-le position s in
    let k : position % s < s = mod-lt position z in
    let (lo, hi) = div_ceil_lem (t.prefix + t.available) s z in
    record {
      aligned_start = start-aligned position s;
      aligned_length = mul-mod_left (div_ceil (t.prefix + t.available) s) s;
      at = omega arith;
      prefix = omega arith;
      covers = lo;
      progress = omega arith;
      room = omega arith;
      inside = omega arith;
      short = omega arith;
    }

transfer_lem :
    (limits : Limits) (capacity position output : ℕ)
    → 0 < limits.sector_size
    → limits.sector_size ≤ 65536
    → limits.refuses capacity
        (whole limits.sector_size capacity position output).start
        (whole limits.sector_size capacity position output).length
      ≡ false
    → transfer limits capacity position output
      ≡ ok (whole limits.sector_size capacity position output)
unfolding transfer
transfer_lem limits capacity position output z h r =
    let t = whole limits.sector_size capacity position output in
    let l : position % limits.sector_size ≤ position = mod-le position limits.sector_size in
    let k : position % limits.sector_size < limits.sector_size = mod-lt position z in
    let (lo, hi) = div_ceil_lem (t.prefix + t.available) limits.sector_size z in
    let n : ltb (t.prefix + t.available) u64_mod ≡ true = lt→ltb _ _ (omega arith) in
    let m : ltb t.length u64_mod ≡ true = lt→ltb _ _ (omega arith) in simp (n, m, r)

-- A transfer that is never refused.
abbrev pub Serves : Limits → ℕ → ℕ → ℕ → Type 0
Serves limits capacity position output =
    (t : Transfer) × (transfer limits capacity position output ≡ ok t)
    × IsSound limits.sector_size capacity position output t

-- On Linux, where an output of some bytes is to be filled from a position before the end, `read` asks
-- for whole sectors from a sector's start that hold bytes of the disk from the position on, not more
-- than the output takes or the disk has; none of its tests of the sizes refuses.
pub linux_transfer :
    (capacity position output : ℕ)
    → position < capacity
    → 0 < output
    → Serves linux_limits capacity position output
unfolding linux_limits
linux_transfer capacity position output p o =
    let sound = whole-IsSound 512 capacity position output (omega arith) p o in
    let l : (whole 512 capacity position output).length < 2 * 512 + verification_buffer_size =
      sound.short in
    let r : ltb (verification_buffer_size + 4096) (whole 512 capacity position output).length
        ≡ false =
      ground arith in
    (
      whole 512 capacity position output,
      transfer_lem linux_limits capacity position output (omega arith) (omega arith) r,
      sound,
    )

-- The sectors of a transfer end before the end of a disk of whole sectors, and fit a buffer of
-- whole sectors and one more.
whole_inside :
    (s capacity position output : ℕ)
    → 0 < s
    → position < capacity
    → 0 < output
    → capacity % s ≡ 0
    → (whole s capacity position output).start + (whole s capacity position output).length
      ≤ capacity
whole_inside s capacity position output z p o w =
    let t = whole s capacity position output in
    let sound = whole-IsSound s capacity position output z p o in
    let (lo, hi) = div_ceil_lem (t.prefix + t.available) s z in
    let e : s * (capacity / s) + capacity % s ≡ capacity = div-add-mod capacity s in
    let f : s * (t.start / s) + t.start % s ≡ t.start = div-add-mod t.start s in
    let a : t.start % s ≡ 0 = sound.aligned_start in
    let b : t.start + t.prefix ≡ position = sound.at in
    let c : position + t.available ≤ capacity = sound.inside in
    let d =
      sectors_le (t.start / s) (div_ceil (t.prefix + t.available) s) (capacity / s) s
        (t.prefix + t.available) (omega arith) hi in
    omega arith

whole_fits :
    (s capacity position output : ℕ)
    → 0 < s
    → position < capacity
    → 0 < output
    → verification_buffer_size % s ≡ 0
    → (whole s capacity position output).length ≤ verification_buffer_size + s
whole_fits s capacity position output z p o w =
    let t = whole s capacity position output in
    let sound = whole-IsSound s capacity position output z p o in
    let (lo, hi) = div_ceil_lem (t.prefix + t.available) s z in
    let e : s * (verification_buffer_size / s) + verification_buffer_size % s
        ≡ verification_buffer_size =
      div-add-mod verification_buffer_size s in
    let u : s * (verification_buffer_size / s + 1) ≡ s * (verification_buffer_size / s) + s * 1 =
      mul-add s _ 1 in
    let v : s * 1 ≡ s = mul-one s in
    let b : t.prefix < s = sound.prefix in
    let z0 : s * 0 ≡ 0 = mul-zero s in
    let d =
      sectors_le 0 (div_ceil (t.prefix + t.available) s) (verification_buffer_size / s + 1) s
        (t.prefix + t.available) (omega arith) hi in
    omega arith

exceeds_lem :
    (capacity start length : ℕ)
    → start + length ≤ capacity
    → capacity < u64_mod
    → exceeds capacity (checked_add start length) ≡ false
exceeds_lem capacity start length h b =
    let n : ltb (start + length) u64_mod ≡ true = lt→ltb _ _ (omega arith) in
    let m : ltb capacity (start + length) ≡ false = ground arith in simp (n, m)

refused_neither : (a b : Bool) → a ≡ false → b ≡ false → (a || b) ≡ false
refused_neither a b h k = ground arith

-- On Windows, for a disk of whole sectors whose geometry was found valid and whose capacity has 64
-- bits, where an output of some bytes is to be filled from a position before the end: `read` asks for
-- whole sectors from a sector's start that hold bytes of the disk from the position on, not more than
-- the output takes or the disk has; none of its tests of the sizes refuses.
pub windows_transfer :
    (capacity logical physical position output : ℕ)
    → valid_sector_geometry capacity logical physical ≡ true
    → capacity < u64_mod
    → position < capacity
    → 0 < output
    → Serves (windows_limits logical physical) capacity position output
unfolding windows_limits
windows_transfer capacity logical physical position output g b p o =
    let geometry = valid_sector_geometry-IsGeometry capacity logical physical g in
    let least : 512 ≤ logical = geometry.least in
    let larger : logical ≤ physical = geometry.larger in
    let inside = whole_inside logical capacity position output (omega arith) p o geometry.whole in
    let fits = whole_fits logical capacity position output (omega arith) p o geometry.divides in
    let m : ltb (verification_buffer_size + physical)
          (whole logical capacity position output).length
        ≡ false =
      ground arith in
    let n =
      exceeds_lem capacity (whole logical capacity position output).start
        (whole logical capacity position output).length inside b in
    (
      whole logical capacity position output,
      transfer_lem (windows_limits logical physical) capacity position output (omega arith)
          geometry.most (refused_neither _ _ m n),
      whole-IsSound logical capacity position output (omega arith) p o,
    )
