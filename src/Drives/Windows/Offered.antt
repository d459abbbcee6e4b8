-- ===== src/Drives/Windows/Offered.antt =====
-- What the Windows build offers: drives that its own worker accepts.
use snapdog_os_installer.Prelude.{
  ℕ, ◌^◌, ◌<◌, ◌≡◌, refl, sym, ap, subst, Bool, true, false, Option, none, some, List, [], ◌∷◌,
  ◌++◌, Bytes, Text, show, parse_below-show, show-digits, show-nonempty, is_ascii_hexdigit,
  rsplit_once-append, strip_prefix, strip_prefix-append, lacks, all, All, length, eqt_refl,
  if◌then◌else◌, arith, inl, inr, ◌⊎◌, All-map, some-injective, option_map,
}
use snapdog_os_installer.Flash.Types.{Crypto}
use snapdog_os_installer.Model.{Drive}
use snapdog_os_installer.Pipeline.Job.{worker_drive}
use snapdog_os_installer.Drives.Windows.{
  WindowsDisk, at_sign, physical_drive_prefix, normalize, safe_removable, fingerprint, device_of,
  offer, inspect, push_if, removable_drives, matches_number, valid_worker_drive, feed, fields,
}

-- A SHA-256 digest has 32 bytes, and `hex::encode` writes two digits for each.
abbrev pub WritesDigests : Crypto → Type 0
WritesDigests c =
    (b : Bytes)
    → (length (c.hex_encode (c.sha256 b)) ≡ 64)
      × (all is_ascii_hexdigit (c.hex_encode (c.sha256 b)) ≡ true)

hex-lacks : (s : Text) → all is_ascii_hexdigit s ≡ true → lacks at_sign s ≡ true
hex-lacks [] h = refl
hex-lacks (x ∷ xs) h = ground (arith, hex-lacks xs)

-- The disk passed the tests, after its texts were trimmed; and the worker accepts the drive.
pub record IsOffer (disk : WindowsDisk) (d : Drive) : Type 0 where
  pub safe : safe_removable (normalize disk) ≡ true
  pub device : d.device ≡ device_of disk.number
  pub capacity : d.capacity ≡ disk.size
  pub valid : valid_worker_drive (worker_drive d) ≡ true

number_lem : (number : ℕ) → number < 2 ^ 32 → matches_number (device_of number) (show number) ≡ true
unfolding device_of
number_lem number h = rw (show-nonempty number) (
    rw (show-digits number) (
      rw (parse_below-show (2 ^ 32) number h)
        (rw (eqt_refl (physical_drive_prefix ++ show number)) refl)))

strip_device :
    (number : ℕ) → strip_prefix physical_drive_prefix (device_of number) ≡ some (show number)
unfolding device_of
strip_device number = strip_prefix-append physical_drive_prefix (show number)

parts_lem :
    (number capacity : ℕ) (t : Text)
    → number < 2 ^ 32
    → 0 < capacity
    → length t ≡ 64
    → all is_ascii_hexdigit t ≡ true
    → valid_worker_drive (record {
      id = device_of number ++ (at_sign ∷ t);
      device = device_of number;
      capacity = capacity;
    })
      ≡ true
unfolding valid_worker_drive
parts_lem number capacity t small cap l digits =
    rw (rsplit_once-append at_sign (device_of number) t (hex-lacks t digits)) (
      rw (strip_device number) (
        rw (number_lem number small)
          (rw l (rw digits (rw (eqt_refl (device_of number)) (ground arith))))))

safe-positive : (disk : WindowsDisk) → safe_removable disk ≡ true → 0 < disk.size
unfolding safe_removable
safe-positive disk h = ground arith

digest_lem :
    (c : Crypto) (o : Option Bytes) (t : Text)
    → WritesDigests c
    → option_map (λ (b : Bytes). c.hex_encode (c.sha256 b)) o ≡ some t
    → (length t ≡ 64) × (all is_ascii_hexdigit t ≡ true)
digest_lem c none t w h = cc
digest_lem c (some b) t w h =
    subst (λ (x : Text). (length x ≡ 64) × (all is_ascii_hexdigit x ≡ true)) (some-injective _ _ h)
      (w b)

offer_lem :
    (c : Crypto) (disk : WindowsDisk) (o : Option Text) (d : Drive)
    → WritesDigests c
    → disk.number < 2 ^ 32
    → safe_removable (normalize disk) ≡ true
    → fingerprint c (normalize disk) ≡ o
    → offer (normalize disk) o ≡ some d
    → IsOffer disk d
unfolding normalize fingerprint
offer_lem c disk none d w small safe e h = cc
offer_lem c disk (some t) d w small safe e h =
    let same = some-injective _ _ h in
    let digits = digest_lem c (feed (fields (normalize disk))) t w e in
    record {
      safe = safe;
      device = sym (ap (λ (x : Drive). x.device) same);
      capacity = sym (ap (λ (x : Drive). x.capacity) same);
      valid =
          subst (λ (x : Drive). valid_worker_drive (worker_drive x) ≡ true) same
            (parts_lem disk.number disk.size t small (safe-positive (normalize disk) safe) digits.0
              digits.1);
    }

inspect_lem :
    (c : Crypto) (disk : WindowsDisk) (d : Drive) (safe : Bool)
    → WritesDigests c
    → disk.number < 2 ^ 32
    → safe_removable (normalize disk) ≡ safe
    → (if safe then offer (normalize disk) (fingerprint c (normalize disk)) else none) ≡ some d
    → IsOffer disk d
inspect_lem c disk d true w small e h =
    offer_lem c disk (fingerprint c (normalize disk)) d w small e refl h
inspect_lem c disk d false w small e h = cc

-- The drive is an offer of one of the disks.
abbrev pub Offered : List WindowsDisk → Drive → Type 0
Offered [] d = ⊥
Offered (disk ∷ rest) d = IsOffer disk d ⊎ Offered rest d

push_if_lem :
    (c : Crypto) (disk : WindowsDisk) (rest : List WindowsDisk) (found : Option Drive)
    (drives : List Drive)
    → WritesDigests c
    → disk.number < 2 ^ 32
    → inspect c disk ≡ found
    → All (Offered rest) drives
    → All (Offered (disk ∷ rest)) (push_if found drives)
unfolding inspect
push_if_lem c disk rest none drives w small h a = All-map (λ d o. inr o) drives a
push_if_lem c disk rest (some d) drives w small h a = (
  inl (inspect_lem c disk d (safe_removable (normalize disk)) w small refl h),
  All-map (λ x o. inr o) drives a,
)

-- Given that digests are written as 64 hexadecimal digits and that disk numbers have 32 bits, every
-- drive that the Windows build lists stems from a disk that passed the safety tests after its texts
-- were trimmed, has that disk's device and size, and is one that the worker's own check accepts.
pub windows_drives-Offered :
    (c : Crypto) (disks : List WindowsDisk)
    → WritesDigests c
    → All (λ (disk : WindowsDisk). disk.number < 2 ^ 32) disks
    → All (Offered disks) (removable_drives c disks)
unfolding removable_drives
windows_drives-Offered c [] w small = tt
windows_drives-Offered c (disk ∷ rest) w small =
    push_if_lem c disk rest (inspect c disk) (removable_drives c rest) w small.0 refl
      (windows_drives-Offered c rest w small.1)
