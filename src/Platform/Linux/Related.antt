-- ===== src/Platform/Linux/Related.antt =====
-- `collect_related_device_numbers` of src/worker/linux.rs.
pub mod Sets
pub mod Closure
pub mod Collected
use snapdog_os_installer.Prelude.{
  ℕ, zero, suc, Bool, true, false, Option, none, some, List, [], ◌∷◌, ◌++◌, Text, if◌then◌else◌,
}
use snapdog_os_installer.Prelude.Result.{Result, ok, err, map_err, ◌>>=◌, ◌>>◌}
use snapdog_os_installer.Flash.Types.{IoError}
use snapdog_os_installer.Worker.Types.{WorkerError, target_missing}
use snapdog_os_installer.Platform.Linux.Types.{
  DeviceNumber, same_device, device_before, FileError, not_found, other, SysEntry, Entries,
  BlockRoot, Kernel,
}
use snapdog_os_installer.Platform.Linux.Names.{
  platform, file_error, read_device_number, format_device_number,
}
use snapdog_os_installer.Platform.Linux.Mountinfo.{contains}

-- A `BTreeSet`, as the list of its items in their order.
unfoldable pub insert : DeviceNumber → List DeviceNumber → List DeviceNumber
insert device [] = device ∷ []
insert device (d ∷ ds) =
    let rest = insert device ds in
    if same_device d device
    then d ∷ ds
    else if device_before device d
    then device ∷ d ∷ ds
    else d ∷ rest

abbrev pub map_ok :
    (DeviceNumber → List DeviceNumber)
    → Result WorkerError DeviceNumber
    → Result WorkerError (List DeviceNumber)
map_ok f (ok device) = ok (f device)
map_ok f (err e) = err e

abbrev pub add_partition : SysEntry → List DeviceNumber → Result WorkerError (List DeviceNumber)
add_partition entry devices =
    if entry.is_partition
    then map_ok (λ device. insert device devices) (read_device_number entry.dev)
    else ok devices

-- The partitions among the entries of the disk's directory.
unfoldable pub add_partitions :
    List (Result IoError SysEntry) → List DeviceNumber → Result WorkerError (List DeviceNumber)
unfolding read_device_number insert
add_partitions [] devices = ok devices
add_partitions (err e ∷ rest) devices = err (platform e)
add_partitions (ok entry ∷ rest) devices = do
  found ← add_partition entry devices
  add_partitions rest found

-- The devices and the stack of those whose holders are still to be seen, the next one first.
pub record Work : Type 0 where
  pub devices : List DeviceNumber
  pub pending : List DeviceNumber

abbrev pub add_device : DeviceNumber → Work → Work
add_device holder work =
    if contains work.devices holder
    then work
    else record { devices = insert holder work.devices; pending = holder ∷ work.pending }

unfoldable pub add_holders : List (Result IoError SysEntry) → Work → Result WorkerError Work
unfolding read_device_number insert contains
add_holders [] work = ok work
add_holders (err e ∷ rest) work = err (platform e)
add_holders (ok entry ∷ rest) work = do
  holder ← read_device_number entry.dev
  add_holders rest (add_device holder work)

-- The holders of one device, where a missing directory is none.
unfoldable pub visit : Entries → Work → Result WorkerError Work
unfolding add_holders
visit (err not_found) work = ok work
visit (err (other e)) work = err (platform e)
visit (ok entries) work = add_holders entries work

-- The loop, with fuel for its rounds; `none`: it ran out.
unfoldable pub close :
    Kernel
    → ℕ
    → List DeviceNumber
    → List DeviceNumber
    → Option (Result WorkerError (List DeviceNumber))
unfolding visit format_device_number
close kernel fuel devices [] = some (ok devices)
close kernel zero devices (device ∷ pending) = none
close kernel (suc fuel) devices (device ∷ pending) =
    elim (visit (kernel.holders (format_device_number device))
      (record { devices = devices; pending = pending })) [
        | err e ↦ some (err e)
        | ok work ↦ close kernel fuel work.devices work.pending
      ]

unfoldable pub whole_and_partitions : BlockRoot → Result WorkerError (List DeviceNumber)
unfolding read_device_number insert add_partitions
whole_and_partitions root = do
  whole ← read_device_number root.dev
  entries ← map_err file_error root.entries
  add_partitions entries (insert whole [])

-- The items of the set, the last one on top.
abbrev pub stack_of : List DeviceNumber → List DeviceNumber → List DeviceNumber
stack_of [] below = below
stack_of (device ∷ devices) below = stack_of devices (device ∷ below)

unfoldable pub collect_related_device_numbers :
    Kernel → ℕ → BlockRoot → Option (Result WorkerError (List DeviceNumber))
unfolding whole_and_partitions close
collect_related_device_numbers kernel fuel root = elim (whole_and_partitions root) [
  | err e ↦ some (err e)
  | ok devices ↦ close kernel fuel devices (stack_of devices [])
]
