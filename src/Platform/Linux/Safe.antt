-- ===== src/Platform/Linux/Safe.antt =====
-- What each check of src/worker/linux.rs has found when it passes.
use snapdog_os_installer.Prelude.{
  ℕ, ◌≡◌, refl, sym, ap, ◌∙◌, ◌⊎◌, inl, inr, Bool, true, false, not, ◌&&◌, ◌||◌, List, [], ◌∷◌,
  Text, text, trim, split_whitespace, All, any, is_empty, ◌=ᵗ◌, eqt_iff, ◌==◌, ==_iff, and_iff,
  or_false, checked_mul, is_some_and, ltb, u64_mod, none, some, ◌*◌, if◌then◌else◌,
}
use snapdog_os_installer.Prelude.Result.{
  Result, ok, err, map_err, ◌>>=◌, >>=-eq-ok, reject_if, reject_if-eq-ok, ok_or, ok-injective,
}
use snapdog_os_installer.Worker.Types.{
  WorkerDrive, WorkerError, unsafe_target, target_missing, compare_drive, same_drive,
}
use snapdog_os_installer.Platform.Linux.Types.{
  DeviceNumber, same_device, CurrentDrive, Mount, FileError, BlockRoot, NodeMetadata, Kernel,
}
use snapdog_os_installer.Platform.Linux.Names.{
  file_error, platform, valid_block_name, read_positive_u64, read_trimmed, read_device_number,
  decode_linux_device,
}
use snapdog_os_installer.Platform.Linux.Mountinfo.{
  contains, parse_mountinfo, protected_mount_point, decode_mountinfo_field,
}
use snapdog_os_installer.Platform.Linux.Related.Sets.{same_device_iff}
use snapdog_os_installer.Platform.Linux.Target.{
  sector_size, unsafe_flags, inspect_current_drive, validate_device_node, is_protected,
  reject_protected_mounts, source_device, check_swap, check_swaps, first_word,
}

pub not-false : (b : Bool) → not b ≡ false → b ≡ true
not-false true h = refl
not-false false h = cc

-- What is found behind the file of a device in /dev.
pub record IsNode (node : Result FileError NodeMetadata) (device : DeviceNumber) : Type 0 where
  pub metadata : NodeMetadata
  pub found : node ≡ ok metadata
  pub no_symlink : metadata.is_symlink ≡ false
  pub block_device : metadata.is_block_device ≡ true
  pub right_device : decode_linux_device metadata.rdev ≡ device

node_found :
    (node : Result FileError NodeMetadata) (m : NodeMetadata)
    → map_err file_error node ≡ ok m
    → node ≡ ok m
node_found (err e) m h = cc
node_found (ok x) m h = ap ok (ok-injective h)

pub validate_device_node-IsNode :
    (node : Result FileError NodeMetadata) (device : DeviceNumber)
    → validate_device_node node device ≡ ok tt
    → IsNode node device
unfolding validate_device_node
validate_device_node-IsNode node device h =
    let (m, r, k) = >>=-eq-ok (map_err file_error node) _ h in
    let (_, q, n) =
      >>=-eq-ok (reject_if (m.is_symlink || not m.is_block_device) unsafe_target) _ k in
    let t = reject_if-eq-ok (m.is_symlink || not m.is_block_device) unsafe_target q in
    let (s, b) = or_false m.is_symlink (not m.is_block_device) t in
    let d = reject_if-eq-ok (not (same_device (decode_linux_device m.rdev) device)) _ n in
    record {
      metadata = m;
      found = node_found node m r;
      no_symlink = s;
      block_device = not-false m.is_block_device b;
      right_device = (same_device_iff (decode_linux_device m.rdev) device).0 (not-false _ d);
    }

-- A removable disk that may be written, of this number, capacity and sequence: its files say so.
pub record IsInspected (block_name : Text) (root : BlockRoot) (current : CurrentDrive)
    : Type 0 where
  pub same_name : current.name ≡ block_name
  pub removable : read_trimmed root.removable ≡ ok (text "1")
  pub writable : read_trimmed root.ro ≡ ok (text "0")
  pub device : read_device_number root.dev ≡ ok current.device_number
  pub sequence : read_positive_u64 root.diskseq (text "diskseq") ≡ ok current.diskseq
  pub sectors : ℕ
  pub size : read_positive_u64 root.size (text "device size") ≡ ok sectors
  pub capacity : current.capacity ≡ sectors * 512

flags_lem :
    (root : BlockRoot)
    → unsafe_flags root ≡ ok false
    → (read_trimmed root.removable ≡ ok (text "1")) × (read_trimmed root.ro ≡ ok (text "0"))
flags_lem root h =
    let (removable, r, k) = >>=-eq-ok (read_trimmed root.removable) _ h in
    let (e, f) = by_test root (removable =ᵗ text "1") k in
    (r ∙ ap ok ((eqt_iff removable (text "1")).0 e), f)
  where
    by_test :
        (root : BlockRoot) (b : Bool)
        → (if not b then ok true else read_trimmed root.ro >>= λ ro. ok (not (ro =ᵗ text "0")))
          ≡ ok false
        → (b ≡ true) × (read_trimmed root.ro ≡ ok (text "0"))
    by_test root false k = cc
    by_test root true k =
        let (ro, r, n) = >>=-eq-ok (read_trimmed root.ro) _ k in
        (refl, r ∙ ap ok ((eqt_iff ro (text "0")).0 (not-false (ro =ᵗ text "0") (ok-injective n))))

product_lem :
    (sectors capacity : ℕ)
    → ok_or (checked_mul sectors sector_size) (platform (text "target capacity overflow"))
      ≡ ok capacity
    → capacity ≡ sectors * 512
product_lem sectors capacity h = by_test (ltb (sectors * 512) u64_mod) h
  where
    by_test :
        (b : Bool)
        → ok_or
            (if b then some (sectors * 512) else none)
            (platform (text "target capacity overflow"))
          ≡ ok capacity
        → capacity ≡ sectors * 512
    by_test true h = sym (ok-injective h)
    by_test false h = cc

pub inspect_current_drive-IsInspected :
    (block_name : Text) (root : BlockRoot) (current : CurrentDrive)
    → inspect_current_drive block_name root ≡ ok current
    → IsInspected block_name root current
unfolding inspect_current_drive
inspect_current_drive-IsInspected block_name root current h =
    let (_, _, h1) = >>=-eq-ok (reject_if (not (valid_block_name block_name)) unsafe_target) _ h in
    let (_, _, h2) = >>=-eq-ok (reject_if (not root.exists) target_missing) _ h1 in
    let (f, r, h3) = >>=-eq-ok (unsafe_flags root) _ h2 in
    let (_, s, h4) = >>=-eq-ok (reject_if f unsafe_target) _ h3 in
    let (diskseq, u, h5) = >>=-eq-ok (read_positive_u64 root.diskseq (text "diskseq")) _ h4 in
    let (sectors, v, h6) = >>=-eq-ok (read_positive_u64 root.size (text "device size")) _ h5 in
    let (capacity, p, h7) =
      >>=-eq-ok
        (ok_or (checked_mul sectors sector_size) (platform (text "target capacity overflow"))) _
        h6 in
    let (number, q, h8) = >>=-eq-ok (read_device_number root.dev) _ h7 in
    let e = ok-injective h8 in
    let (a, b) = flags_lem root (r ∙ ap ok (reject_if-eq-ok f unsafe_target s)) in
    record {
      same_name = sym (ap (λ (c : CurrentDrive). c.name) e);
      removable = a;
      writable = b;
      device = q ∙ ap (λ (c : CurrentDrive). ok c.device_number) e;
      sequence = u ∙ ap (λ (c : CurrentDrive). ok c.diskseq) e;
      sectors = sectors;
      size = v;
      capacity = sym (ap (λ (c : CurrentDrive). c.capacity) e) ∙ product_lem sectors capacity p;
    }

any-false : {A : Type 0} (p : A → Bool) (xs : List A) → any p xs ≡ false → All (λ x. p x ≡ false) xs
any-false p [] h = tt
any-false p (x ∷ xs) h = let (a, b) = or_false (p x) (any p xs) h in (a, any-false p xs b)

-- No device of the set is mounted outside the roots for removable media.
pub record IsUnused (mountinfo : Text) (ds : List DeviceNumber) : Type 0 where
  pub mounts : List Mount
  pub parsed : parse_mountinfo mountinfo ≡ ok mounts
  pub unprotected : All (λ m. (contains ds m.device && protected_mount_point m.path) ≡ false) mounts

pub reject_protected_mounts-IsUnused :
    (mountinfo : Text) (ds : List DeviceNumber)
    → reject_protected_mounts mountinfo ds ≡ ok tt
    → IsUnused mountinfo ds
unfolding reject_protected_mounts is_protected
reject_protected_mounts-IsUnused mountinfo ds h =
    let (mounts, r, k) = >>=-eq-ok (parse_mountinfo mountinfo) _ h in
    record {
      mounts = mounts;
      parsed = r;
      unprotected =
          any-false (is_protected ds) mounts
            (reject_if-eq-ok (any (is_protected ds) mounts) unsafe_target k);
    }

-- The source of a swap lies on no device of the set.
pub record IsElsewhere (kernel : Kernel) (ds : List DeviceNumber) (line : Text) : Type 0 where
  pub word : Text
  pub path : Text
  pub metadata : NodeMetadata
  pub first : first_word (split_whitespace line) ≡ ok word
  pub decoded : decode_mountinfo_field word ≡ ok path
  pub found : kernel.metadata path ≡ ok metadata
  pub elsewhere : is_some_and (source_device metadata) (contains ds) ≡ false

metadata_found :
    (r : Result Text NodeMetadata) (m : NodeMetadata) → map_err platform r ≡ ok m → r ≡ ok m
metadata_found (err e) m h = cc
metadata_found (ok x) m h = ap ok (ok-injective h)

check_swap-IsElsewhere :
    (kernel : Kernel) (ds : List DeviceNumber) (line : Text)
    → check_swap kernel ds line ≡ ok tt
    → IsElsewhere kernel ds line
unfolding check_swap
check_swap-IsElsewhere kernel ds line h =
    let (word, r, k) = >>=-eq-ok (first_word (split_whitespace line)) _ h in
    let (path, q, m) = >>=-eq-ok (decode_mountinfo_field word) _ k in
    let (metadata, s, n) = >>=-eq-ok (map_err platform (kernel.metadata path)) _ m in
    record {
      word = word;
      path = path;
      metadata = metadata;
      first = r;
      decoded = q;
      found = metadata_found (kernel.metadata path) metadata s;
      elsewhere =
          reject_if-eq-ok (is_some_and (source_device metadata) (contains ds)) unsafe_target n;
    }

-- A line is blank, or its swap lies elsewhere.
abbrev pub IsHarmless : Kernel → List DeviceNumber → Text → Type 0
IsHarmless kernel ds line = (is_empty (trim line) ≡ true) ⊎ IsElsewhere kernel ds line

pub check_swaps_lem :
    (kernel : Kernel) (ds : List DeviceNumber) (rest : List Text)
    → check_swaps kernel ds rest ≡ ok tt
    → All (IsHarmless kernel ds) rest
unfolding check_swaps
check_swaps_lem kernel ds [] h = tt
check_swaps_lem kernel ds (line ∷ rest) h =
    let (_, r, k) =
      >>=-eq-ok (if is_empty (trim line) then ok tt else check_swap kernel ds line) _ h in
    (by_test (is_empty (trim line)) refl r, check_swaps_lem kernel ds rest k)
  where
    by_test :
        (b : Bool)
        → is_empty (trim line) ≡ b
        → (if b then ok tt else check_swap kernel ds line) ≡ ok tt
        → IsHarmless kernel ds line
    by_test true e r = inl e
    by_test false e r = inr (check_swap-IsElsewhere kernel ds line r)

same_drive_eq : (a b : WorkerDrive) → same_drive a b ≡ true → a ≡ b
unfolding same_drive
same_drive_eq a b h =
    let (more, g) =
      (and_iff (a.id =ᵗ b.id && a.device =ᵗ b.device) (a.capacity == b.capacity)).0 h in
    let (e, f) = (and_iff (a.id =ᵗ b.id) (a.device =ᵗ b.device)).0 more in
    let i : a.id ≡ b.id = (eqt_iff a.id b.id).0 e in
    let j : a.device ≡ b.device = (eqt_iff a.device b.device).0 f in
    let k : a.capacity ≡ b.capacity = (==_iff a.capacity b.capacity).0 g in
    ap (λ (x : Text). record { id = x; device = a.device; capacity = a.capacity }) i
    ∙ ap (λ (x : Text). record { id = b.id; device = x; capacity = a.capacity }) j
    ∙ ap (λ (x : ℕ). record { id = b.id; device = b.device; capacity = x }) k

pub compare_drive_eq : (a b : WorkerDrive) → compare_drive a b ≡ ok tt → a ≡ b
unfolding compare_drive
compare_drive_eq a b h = by_test (same_drive a b) refl h
  where
    by_test :
        (t : Bool)
        → same_drive a b ≡ t
        → (if t then ok tt else err WorkerError.target_changed) ≡ ok tt
        → a ≡ b
    by_test true e k = same_drive_eq a b e
    by_test false e k = cc
