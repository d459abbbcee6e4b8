-- ===== src/Platform/Linux/Validated.antt =====
-- The targets that `validate_target_at` of src/worker/linux.rs accepts.
use snapdog_os_installer.Prelude.{
  ℕ, suc, ◌+◌, ◌≤◌, ◌≡◌, refl, sym, ap, ◌∙◌, not, Option, some, List, Text, lines, length, All,
  ◌=ᵗ◌, option_map, subst,
}
use snapdog_os_installer.Prelude.Result.{
  Result, ok, err, map_err, >>=-eq-ok, reject_if, ok-injective,
}
use snapdog_os_installer.Flash.Types.{IoError}
use snapdog_os_installer.Worker.Types.{WorkerDrive, WorkerError, unsafe_target, compare_drive}
use snapdog_os_installer.Platform.Linux.Types.{DeviceNumber, CurrentDrive, Kernel}
use snapdog_os_installer.Platform.Linux.Names.{platform, split_stable_identifier}
use snapdog_os_installer.Platform.Linux.Related.{collect_related_device_numbers}
use snapdog_os_installer.Platform.Linux.Related.Closure.{Names}
use snapdog_os_installer.Platform.Linux.Related.Collected.{
  IsRelated, IsRelatedResult, entries_count, collect_related_lem,
}
use snapdog_os_installer.Platform.Linux.Target.{
  in_dev, inspect_current_drive, validate_device_node, reject_protected_mounts, after_first,
  reject_related_swap, drive_of, check_drive, check_use, finish, validate_target_at,
}
use snapdog_os_installer.Platform.Linux.Safe.{
  IsNode, validate_device_node-IsNode, IsInspected, inspect_current_drive-IsInspected, IsUnused,
  reject_protected_mounts-IsUnused, IsHarmless, check_swaps_lem, compare_drive_eq,
}

-- The disk behind the target, under its name, and the file of the device in /dev.
pub record IsDrive (kernel : Kernel) (selected : WorkerDrive) (block_name : Text)
    (current : CurrentDrive) : Type 0 where
  pub same : selected ≡ drive_of current
  pub inspected : IsInspected block_name (kernel.block_root block_name) current
  pub node : IsNode (kernel.symlink_metadata (in_dev block_name)) current.device_number

check_drive-IsDrive :
    (kernel : Kernel) (selected : WorkerDrive) (block_name : Text) (current : CurrentDrive)
    → check_drive kernel selected ≡ ok (block_name, current)
    → IsDrive kernel selected block_name current
unfolding check_drive
check_drive-IsDrive kernel selected block_name current h =
    let (split, _, h1) = >>=-eq-ok (split_stable_identifier selected.id) _ h in
    let (_, _, h2) =
      >>=-eq-ok (reject_if (not (selected.device =ᵗ in_dev split.0)) unsafe_target) _ h1 in
    let (found, r, h3) =
      >>=-eq-ok (inspect_current_drive split.0 (kernel.block_root split.0)) _ h2 in
    let (_, q, h4) = >>=-eq-ok (compare_drive selected (drive_of found)) _ h3 in
    let (_, s, h5) =
      >>=-eq-ok
        (validate_device_node (kernel.symlink_metadata (in_dev split.0)) found.device_number) _
        h4 in
    subst (λ (x : Text × CurrentDrive). IsDrive kernel selected x.0 x.1) (ok-injective h5)
      (record {
        same = compare_drive_eq selected (drive_of found) q;
        inspected = inspect_current_drive-IsInspected split.0 (kernel.block_root split.0) found r;
        node =
            validate_device_node-IsNode (kernel.symlink_metadata (in_dev split.0))
              found.device_number s;
      })

-- Nothing of these devices is in use.
pub record IsIdle (kernel : Kernel) (ds : List DeviceNumber) : Type 0 where
  pub mountinfo : Text
  pub swaps : Text
  pub mountinfo_read : kernel.mountinfo ≡ ok mountinfo
  pub swaps_read : kernel.swaps ≡ ok swaps
  pub unmounted : IsUnused mountinfo ds
  pub no_swap : All (IsHarmless kernel ds) (after_first (lines swaps))

text_found : (r : Result IoError Text) (s : Text) → map_err platform r ≡ ok s → r ≡ ok s
text_found (err e) s h = cc
text_found (ok x) s h = ap ok (ok-injective h)

check_use-IsIdle :
    (kernel : Kernel) (ds : List DeviceNumber) → check_use kernel ds ≡ ok tt → IsIdle kernel ds
unfolding check_use reject_related_swap
check_use-IsIdle kernel ds h =
    let (mountinfo, r, k) = >>=-eq-ok (map_err platform kernel.mountinfo) _ h in
    let (_, q, m) = >>=-eq-ok (reject_protected_mounts mountinfo ds) _ k in
    let (swaps, s, n) = >>=-eq-ok (map_err platform kernel.swaps) _ m in
    record {
      mountinfo = mountinfo;
      swaps = swaps;
      mountinfo_read = text_found kernel.mountinfo mountinfo r;
      swaps_read = text_found kernel.swaps swaps s;
      unmounted = reject_protected_mounts-IsUnused mountinfo ds q;
      no_swap = check_swaps_lem kernel ds (after_first (lines swaps)) n;
    }

-- The selected drive is there, removable and writable, its file in /dev is the device itself, and
-- neither it nor anything that stands on it is in use.
pub record IsSafeTarget (kernel : Kernel) (selected : WorkerDrive) : Type 0 where
  pub block_name : Text
  pub current : CurrentDrive
  pub drive : IsDrive kernel selected block_name current
  pub devices : List DeviceNumber
  pub related : IsRelated kernel (kernel.block_root block_name) devices
  pub idle : IsIdle kernel devices

abbrev pub IsValidated : Kernel → WorkerDrive → Result WorkerError WorkerDrive → Type 0
IsValidated kernel selected (err e) = Unit
IsValidated kernel selected (ok drive) = (drive ≡ selected) × IsSafeTarget kernel selected

abbrev pub Validates : Kernel → WorkerDrive → Option (Result WorkerError WorkerDrive) → Type 0
Validates kernel selected o =
    (r : Result WorkerError WorkerDrive) × (o ≡ some r) × IsValidated kernel selected r

finish_lem :
    (kernel : Kernel) (selected : WorkerDrive) (block_name : Text) (current : CurrentDrive)
    → IsDrive kernel selected block_name current
    → (r : Result WorkerError (List DeviceNumber))
    → IsRelatedResult kernel (kernel.block_root block_name) r
    → (final : Result WorkerError WorkerDrive) → finish kernel current r ≡ final
    → IsValidated kernel selected final
finish_lem kernel selected block_name current d r c (err e) h = tt
finish_lem kernel selected block_name current d (err e) c (ok drive) h = cc
finish_lem kernel selected block_name current d (ok devices) c (ok drive) h =
    let (_, q, e) = >>=-eq-ok (check_use kernel devices) _ h in
    (
      sym (d.same ∙ ok-injective e),
      record {
        block_name = block_name;
        current = current;
        drive = d;
        devices = devices;
        related = c;
        idle = check_use-IsIdle kernel devices q;
      },
    )

checked_lem :
    (kernel : Kernel) (us : List DeviceNumber) (fuel : ℕ) (selected : WorkerDrive)
    → Names kernel us
    → ((name : Text) → length us + suc (entries_count (kernel.block_root name).entries) ≤ fuel)
    → (c : Result WorkerError (Text × CurrentDrive)) → check_drive kernel selected ≡ c
    → Validates kernel selected (elim c [
      | err e ↦ some (err e)
      | ok (block_name, current) ↦
          option_map
            (finish kernel current)
            (collect_related_device_numbers kernel fuel (kernel.block_root block_name))
    ])
checked_lem kernel us fuel selected names l (err e) h = (err e, refl, tt)
checked_lem kernel us fuel selected names l (ok (block_name, current)) h =
    let (r, e, c) =
      collect_related_lem kernel us fuel (kernel.block_root block_name) names (l block_name) in
    (
      finish kernel current r,
      ap (option_map (finish kernel current)) e,
      finish_lem kernel selected block_name current
          (check_drive-IsDrive kernel selected block_name current h) r c _ refl,
    )

-- Under the bound on the device numbers that makes the collection end: the check of a target returns,
-- and when it accepts, it returns the selected drive itself; this is the removable, writable disk of
-- that name, capacity and sequence number, its file in /dev is that very block device, and of the disk,
-- its partitions and all that stands on them nothing is mounted outside the roots for removable media
-- and nothing holds a swap.
pub validate_target-IsSafe :
    (kernel : Kernel) (us : List DeviceNumber) (fuel : ℕ) (selected : WorkerDrive)
    → Names kernel us
    → ((name : Text) → length us + suc (entries_count (kernel.block_root name).entries) ≤ fuel)
    → Validates kernel selected (validate_target_at kernel fuel selected)
unfolding validate_target_at
validate_target-IsSafe kernel us fuel selected names l =
    checked_lem kernel us fuel selected names l (check_drive kernel selected) refl
