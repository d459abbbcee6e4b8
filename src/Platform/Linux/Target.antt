-- ===== src/Platform/Linux/Target.antt =====
-- `validate_target_at` of src/worker/linux.rs and what it calls.
use snapdog_os_installer.Prelude.{
  ℕ, Bool, true, not, ◌&&◌, ◌||◌, Option, none, some, List, [], ◌∷◌, ◌++◌, Text, text, trim, lines,
  split_whitespace, is_empty, any, ◌=ᵗ◌, option_map, is_some_and, checked_mul, if◌then◌else◌,
}
use snapdog_os_installer.Prelude.Result.{Result, ok, err, ◌>>=◌, ◌>>◌, ok_or, reject_if, map_err}
use snapdog_os_installer.Worker.Types.{
  WorkerDrive, WorkerError, target_missing, target_changed, unsafe_target, compare_drive,
}
use snapdog_os_installer.Platform.Linux.Types.{
  DeviceNumber, same_device, CurrentDrive, Mount, FileError, BlockRoot, NodeMetadata, Kernel,
}
use snapdog_os_installer.Platform.Linux.Names.{
  platform, file_error, valid_block_name, split_stable_identifier, format_stable_identifier,
  read_trimmed, read_positive_u64, read_device_number, decode_linux_device,
}
use snapdog_os_installer.Platform.Linux.Mountinfo.{
  contains, decode_mountinfo_field, parse_mountinfo, protected_mount_point,
}
use snapdog_os_installer.Platform.Linux.Related.{collect_related_device_numbers}

abbrev pub sector_size : ℕ
sector_size = 512

-- `/dev` joined with a name.
abbrev pub in_dev : Text → Text
in_dev name = text "/dev/" ++ name

-- The second file is read only if the first has the right content.
abbrev pub unsafe_flags : BlockRoot → Result WorkerError Bool
unsafe_flags root = do
  removable ← read_trimmed root.removable
  if not (removable =ᵗ text "1")
      then ok true
      else read_trimmed root.ro >>= λ ro. ok (not (ro =ᵗ text "0"))

unfoldable pub inspect_current_drive : Text → BlockRoot → Result WorkerError CurrentDrive
unfolding text valid_block_name read_trimmed read_positive_u64 read_device_number
inspect_current_drive block_name root = do
  reject_if (not (valid_block_name block_name)) unsafe_target
  reject_if (not root.exists) target_missing
  is_unsafe ← unsafe_flags root
  reject_if is_unsafe unsafe_target
  diskseq ← read_positive_u64 root.diskseq (text "diskseq")
  sectors ← read_positive_u64 root.size (text "device size")
  capacity ← ok_or (checked_mul sectors sector_size) (platform (text "target capacity overflow"))
  device_number ← read_device_number root.dev
  ok (record {
    name = block_name;
    diskseq = diskseq;
    capacity = capacity;
    device_number = device_number;
  })

unfoldable pub validate_device_node :
    Result FileError NodeMetadata → DeviceNumber → Result WorkerError Unit
unfolding decode_linux_device
validate_device_node node expected = do
  metadata ← map_err file_error node
  reject_if (metadata.is_symlink || not metadata.is_block_device) unsafe_target
  reject_if (not (same_device (decode_linux_device metadata.rdev) expected)) target_changed

unfoldable pub is_protected : List DeviceNumber → Mount → Bool
unfolding contains protected_mount_point
is_protected devices mount = contains devices mount.device && protected_mount_point mount.path

unfoldable pub reject_protected_mounts : Text → List DeviceNumber → Result WorkerError Unit
unfolding parse_mountinfo is_protected
reject_protected_mounts mountinfo devices = do
  mounts ← parse_mountinfo mountinfo
  reject_if (any (is_protected devices) mounts) unsafe_target

abbrev pub source_device : NodeMetadata → Option DeviceNumber
source_device metadata =
    if metadata.is_block_device
    then some (decode_linux_device metadata.rdev)
    else if metadata.is_file
    then some (decode_linux_device metadata.dev)
    else none

abbrev pub first_word : List Text → Result WorkerError Text
first_word [] = err (platform (text "kernel swap list contained an invalid record"))
first_word (word ∷ words) = ok word

-- One line of the list of swaps that is not blank.
unfoldable pub check_swap : Kernel → List DeviceNumber → Text → Result WorkerError Unit
unfolding split_whitespace text decode_mountinfo_field decode_linux_device contains
check_swap kernel devices line = do
  encoded_path ← first_word (split_whitespace line)
  path ← decode_mountinfo_field encoded_path
  metadata ← map_err platform (kernel.metadata path)
  reject_if (is_some_and (source_device metadata) (contains devices)) unsafe_target

-- The lines after the first.
unfoldable pub check_swaps : Kernel → List DeviceNumber → List Text → Result WorkerError Unit
unfolding trim check_swap
check_swaps kernel devices [] = ok tt
check_swaps kernel devices (line ∷ rest) =
    (if is_empty (trim line) then ok tt else check_swap kernel devices line)
    >> check_swaps kernel devices rest

abbrev pub after_first : List Text → List Text
after_first [] = []
after_first (line ∷ rest) = rest

unfoldable pub reject_related_swap : Kernel → Text → List DeviceNumber → Result WorkerError Unit
unfolding lines check_swaps
reject_related_swap kernel swaps devices = check_swaps kernel devices (after_first (lines swaps))

abbrev pub drive_of : CurrentDrive → WorkerDrive
drive_of current = record {
  id = format_stable_identifier current.name current.diskseq;
  device = in_dev current.name;
  capacity = current.capacity;
}

-- The checks before the related devices are collected, and those after.
unfoldable pub check_drive : Kernel → WorkerDrive → Result WorkerError (Text × CurrentDrive)
unfolding text split_stable_identifier inspect_current_drive format_stable_identifier compare_drive
    validate_device_node
check_drive kernel selected = do
  (block_name, _) ← split_stable_identifier selected.id
  reject_if (not (selected.device =ᵗ in_dev block_name)) unsafe_target
  current ← inspect_current_drive block_name (kernel.block_root block_name)
  compare_drive selected (drive_of current)
  validate_device_node (kernel.symlink_metadata (in_dev block_name)) current.device_number
  ok (block_name, current)

unfoldable pub check_use : Kernel → List DeviceNumber → Result WorkerError Unit
unfolding reject_protected_mounts reject_related_swap
check_use kernel related = do
  mountinfo ← map_err platform kernel.mountinfo
  reject_protected_mounts mountinfo related
  swaps ← map_err platform kernel.swaps
  reject_related_swap kernel swaps related

abbrev pub finish :
    Kernel → CurrentDrive → Result WorkerError (List DeviceNumber) → Result WorkerError WorkerDrive
finish kernel current (err e) = err e
finish kernel current (ok related) = check_use kernel related >> ok (drive_of current)

unfoldable pub validate_target_at :
    Kernel → ℕ → WorkerDrive → Option (Result WorkerError WorkerDrive)
unfolding check_drive collect_related_device_numbers check_use
validate_target_at kernel fuel selected = elim (check_drive kernel selected) [
  | err e ↦ some (err e)
  | ok (block_name, current) ↦
      option_map (finish kernel current)
        (collect_related_device_numbers kernel fuel (kernel.block_root block_name))
]
