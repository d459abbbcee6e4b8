-- ===== src/Drives/Linux/Offered.antt =====
-- What the Linux build offers: drives that its own worker accepts.
use snapdog_os_installer.Prelude.{
  ℕ, ◌<◌, ◌≡◌, refl, sym, ap, Bool, true, false, Option, none, some, List, [], ◌∷◌, ◌++◌, Text,
  text, show, parse_below, parse_below-show, parse_below-lt, show-digits, show-nonempty, is_empty,
  split_once-append, lacks, all, All, length, ◌==◌, eqt_refl, leb, u64_mod, checked_mul,
  if◌then◌else◌, arith, inl, inr, ◌⊎◌, subst, All-map,
}
use snapdog_os_installer.Prelude.Result.{Result, ok, err, map_err, ok_or, >>=-eq-ok, ok-injective}
use snapdog_os_installer.Model.{Drive}
use snapdog_os_installer.Flash.Types.{IoError}
use snapdog_os_installer.Pipeline.Job.{worker_drive}
use snapdog_os_installer.Drives.Linux.{
  BlockEntry, DriveError, at_sign, id_byte, is_safe_id, passed_over, drive_of, sized, identified,
  inspect, push_if, inspect_all, removable_drives, valid_worker_drive, trimmed, read_trimmed,
  sector_size,
}

safe-lacks : (s : Text) → all id_byte s ≡ true → lacks at_sign s ≡ true
safe-lacks [] h = refl
safe-lacks (x ∷ xs) h = ground (arith, safe-lacks xs)

safe_parts :
    (s : Text)
    → is_safe_id s ≡ true
    → (is_empty s ≡ false) × (leb (length s) 128 ≡ true) × (all id_byte s ≡ true)
unfolding is_safe_id
safe_parts s h = ground arith

-- A drive made of an entry with a safe name is one that the worker accepts.
drive_of-valid :
    (entry : BlockEntry) (diskseq capacity : ℕ)
    → is_safe_id entry.name ≡ true
    → 0 < diskseq
    → diskseq < u64_mod
    → 0 < capacity
    → valid_worker_drive (worker_drive (drive_of entry diskseq capacity)) ≡ true
unfolding drive_of valid_worker_drive is_safe_id
drive_of-valid entry diskseq capacity safe pos small cap =
    rw
      (split_once-append at_sign entry.name (show diskseq)
        (safe-lacks entry.name (safe_parts entry.name safe).2))
      (rw ((safe_parts entry.name safe).0) (
        rw ((safe_parts entry.name safe).1) (
          rw ((safe_parts entry.name safe).2) (
            rw (show-nonempty diskseq) (
              rw (show-digits diskseq) (
                rw (parse_below-show u64_mod diskseq small)
                  (rw (eqt_refl (text "/dev/" ++ entry.name)) (ground arith))))))))

-- What the loop has checked of an entry before it offers a drive.
pub record IsOffer (entry : BlockEntry) (d : Drive) : Type 0 where
  pub not_skipped : passed_over entry ≡ ok false
  pub device : d.device ≡ text "/dev/" ++ entry.name
  pub capacity : (0 < d.capacity) × (d.capacity < u64_mod)
  pub valid : valid_worker_drive (worker_drive d) ≡ true

pub passed_over-safe :
    (entry : BlockEntry) → passed_over entry ≡ ok false → is_safe_id entry.name ≡ true
unfolding passed_over
passed_over-safe entry h = ground arith

-- A drive is made of a positive sequence number and a positive capacity, both of 64 bits.
record Made (entry : BlockEntry) (d : Drive) : Type 0 where
  diskseq : ℕ
  capacity : ℕ
  made : drive_of entry diskseq capacity ≡ d
  diskseq_fits : (0 < diskseq) × (diskseq < u64_mod)
  capacity_fits : (0 < capacity) × (capacity < u64_mod)

sized_lem :
    (entry : BlockEntry) (diskseq capacity : ℕ) (d : Drive) (empty : Bool)
    → (capacity == 0) ≡ empty
    → (0 < diskseq) × (diskseq < u64_mod)
    → capacity < u64_mod
    → ◌≡◌ {A = Result DriveError (Option Drive)}
        (ok (if empty then none else some (drive_of entry diskseq capacity)))
        (ok (some d))
    → Made entry d
sized_lem entry diskseq capacity d true e fits small h = cc
sized_lem entry diskseq capacity d false e fits small h = record {
  diskseq = diskseq;
  capacity = capacity;
  made = cc (h);
  diskseq_fits = fits;
  capacity_fits = (ground arith, small);
}

ok_or-some : {A : Type 0} (o : Option A) (e : DriveError) {a : A} → ok_or o e ≡ ok a → o ≡ some a
ok_or-some none e h = cc
ok_or-some (some x) e h = cc (h)

checked_mul-lt : (a b : ℕ) {n : ℕ} → checked_mul a b ≡ some n → n < u64_mod
checked_mul-lt a b h = ground arith

counted :
    (entry : BlockEntry) (diskseq : ℕ) (d : Drive) (empty : Bool)
    → (diskseq == 0) ≡ empty
    → diskseq < u64_mod
    → (if empty then err DriveError.zero_diskseq else sized entry diskseq) ≡ ok (some d)
    → Made entry d
unfolding sized
counted entry diskseq d true e small h = cc
counted entry diskseq d false e small h =
    let (size_text, read, e1) = >>=-eq-ok (read_trimmed entry.size) _ h in
    let (sectors, parsed, e2) =
      >>=-eq-ok (ok_or (parse_below u64_mod size_text) DriveError.invalid_size) _ e1 in
    let (capacity, fits, e3) =
      >>=-eq-ok (ok_or (checked_mul sectors sector_size) DriveError.capacity_overflow) _ e2 in
    sized_lem entry diskseq capacity d (capacity == 0) refl (ground arith, small)
      (checked_mul-lt sectors sector_size (ok_or-some _ _ fits)) e3

identified_lem : (entry : BlockEntry) (d : Drive) → identified entry ≡ ok (some d) → Made entry d
unfolding identified
identified_lem entry d h =
    let (diskseq_text, read, e1) =
      >>=-eq-ok (map_err DriveError.no_diskseq (trimmed entry.diskseq)) _ h in
    let (diskseq, parsed, e2) =
      >>=-eq-ok (ok_or (parse_below u64_mod diskseq_text) DriveError.invalid_diskseq) _ e1 in
    counted entry diskseq d (diskseq == 0) refl
      (parse_below-lt u64_mod diskseq_text (ok_or-some _ _ parsed)) e2

Made-IsOffer :
    (entry : BlockEntry) (d : Drive) → passed_over entry ≡ ok false → Made entry d → IsOffer entry d
unfolding drive_of
Made-IsOffer entry d passed m = record {
  not_skipped = passed;
  device = sym (ap (λ (x : Drive). x.device) m.made);
  capacity =
      subst (λ (x : Drive). (0 < x.capacity) × (x.capacity < u64_mod)) m.made m.capacity_fits;
  valid =
      subst (λ (x : Drive). valid_worker_drive (worker_drive x) ≡ true) m.made
        (drive_of-valid entry m.diskseq m.capacity (passed_over-safe entry passed) m.diskseq_fits.0
          m.diskseq_fits.1 m.capacity_fits.0);
}

settled :
    (entry : BlockEntry) (d : Drive) (skipped : Bool)
    → passed_over entry ≡ ok skipped
    → (if skipped then ok none else identified entry) ≡ ok (some d)
    → IsOffer entry d
settled entry d true p h = cc
settled entry d false p h = Made-IsOffer entry d p (identified_lem entry d h)

inspect_lem : (entry : BlockEntry) (d : Drive) → inspect entry ≡ ok (some d) → IsOffer entry d
unfolding inspect
inspect_lem entry d h =
    let (skipped, passed, e) = >>=-eq-ok (passed_over entry) _ h in settled entry d skipped passed e

-- The drive is an offer of one of the entries.
abbrev pub Offered : List (Result IoError BlockEntry) → Drive → Type 0
Offered [] d = ⊥
Offered (err e ∷ rest) d = Offered rest d
Offered (ok entry ∷ rest) d = IsOffer entry d ⊎ Offered rest d

push_if_lem :
    (entry : BlockEntry) (rest : List (Result IoError BlockEntry)) (found : Option Drive)
    (drives : List Drive)
    → inspect entry ≡ ok found
    → All (Offered rest) drives
    → All (Offered (ok entry ∷ rest)) (push_if found drives)
push_if_lem entry rest none drives h a = All-map (λ d o. inr o) drives a
push_if_lem entry rest (some d) drives h a =
    (inl (inspect_lem entry d h), All-map (λ x o. inr o) drives a)

inspect_all_lem :
    (entries : List (Result IoError BlockEntry)) (drives : List Drive)
    → inspect_all entries ≡ ok drives
    → All (Offered entries) drives
unfolding inspect_all
inspect_all_lem [] drives h = subst (λ (x : List Drive). All (Offered []) x) (ok-injective h) tt
inspect_all_lem (err e ∷ rest) drives h = cc
inspect_all_lem (ok entry ∷ rest) drives h =
    let (found, seen, e1) = >>=-eq-ok (inspect entry) _ h in
    let (others, rec, e2) = >>=-eq-ok (inspect_all rest) _ e1 in
    subst (λ (x : List Drive). All (Offered (ok entry ∷ rest)) x) (ok-injective e2)
      (push_if_lem entry rest found others seen (inspect_all_lem rest others rec))

-- Every drive that the Linux build lists stems from an entry of /sys/block that passed the safety
-- tests, has a positive 64-bit capacity, and is one that the worker's own check accepts.
pub linux_drives-Offered :
    (entries : List (Result IoError BlockEntry)) (drives : List Drive)
    → removable_drives (ok entries) ≡ ok drives
    → All (Offered entries) drives
unfolding removable_drives
linux_drives-Offered entries drives h = inspect_all_lem entries drives h
