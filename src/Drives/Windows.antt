-- ===== src/Drives/Windows.antt =====
-- The Windows `platform` module of src/drives.rs, and its `valid_worker_drive` of src/worker.rs.
pub mod Fingerprint
pub mod Geometry
pub mod Offered
use snapdog_os_installer.Prelude.{
  ℕ, ◌+◌, ◌-◌, option_map, ◌*◌, ◌/◌, ◌%◌, ◌^◌, zero, suc, Bool, true, false, not, ◌&&◌, ◌||◌,
  Option, none, some, List, [], ◌∷◌, ◌++◌, Bytes, Text, text, show, parse_below, digits_only,
  is_empty, is_ascii_hexdigit, rsplit_once, strip_prefix, trim, all, length, ◌==◌, ◌=ᵗ◌, leb, ltb,
  is_some_and, u64_mod, if◌then◌else◌,
}
use snapdog_os_installer.Flash.Types.{Crypto}
use snapdog_os_installer.Model.{Drive}
use snapdog_os_installer.Worker.Types.{WorkerDrive}

-- `DiskRecord` of the native layer, and `WindowsDisk`, which copies it.
pub record WindowsDisk : Type 0 where
  pub number : ℕ
  pub friendly_name : Text
  pub path : Text
  pub unique_id : Text
  pub serial_number : Text
  pub size : ℕ
  pub logical_sector_size : ℕ
  pub physical_sector_size : ℕ
  pub is_boot : Bool
  pub is_system : Bool
  pub is_offline : Bool
  pub is_read_only : Bool
  pub bus_type : Text
  pub supports_removable_media : Bool

abbrev pub at_sign : ℕ
at_sign = b'@'

-- `\\.\PHYSICALDRIVE`; the first bytes are two backslashes, a dot and a backslash.
unfoldable pub physical_drive_prefix : Text
unfolding text
physical_drive_prefix = 92 ∷ 92 ∷ 46 ∷ 92 ∷ text "PHYSICALDRIVE"

unfoldable pub stable_id_version : Text
unfolding text
stable_id_version = text "windows-disk-v2"

abbrev upper : ℕ → ℕ
upper b = if leb b'a' b && leb b b'z' then b - 32 else b

unfoldable pub to_ascii_uppercase : Text → Text
to_ascii_uppercase [] = []
to_ascii_uppercase (b ∷ bs) = upper b ∷ to_ascii_uppercase bs

unfoldable pub normalize : WindowsDisk → WindowsDisk
unfolding trim to_ascii_uppercase
normalize disk = record disk {
  friendly_name = trim disk.friendly_name;
  path = trim disk.path;
  unique_id = trim disk.unique_id;
  serial_number = trim disk.serial_number;
  bus_type = to_ascii_uppercase (trim disk.bus_type);
}

-- `u32::is_power_of_two`: some shift of 1 below 32 bits.
unfoldable pub power_within : ℕ → ℕ → Bool
power_within zero n = false
power_within (suc fuel) n = n == 2 ^ fuel || power_within fuel n

unfoldable pub is_power_of_two : ℕ → Bool
unfolding power_within
is_power_of_two n = power_within 32 n

-- `logical` is not zero when the remainder is taken: the range is tested first.
unfoldable pub valid_sector_geometry : ℕ → ℕ → ℕ → Bool
unfolding is_power_of_two
valid_sector_geometry size logical physical =
    (leb 512 logical && leb logical 65536)
    && is_power_of_two logical
    && (leb logical physical && leb physical 65536)
    && is_power_of_two physical
    && size % logical == 0

unfoldable pub removable_bus : WindowsDisk → Bool
unfolding text
removable_bus disk =
    if disk.bus_type =ᵗ text "SD" || disk.bus_type =ᵗ text "MMC"
    then true
    else if disk.bus_type =ᵗ text "USB"
    then disk.supports_removable_media
    else false

unfoldable pub safe_removable : WindowsDisk → Bool
unfolding valid_sector_geometry removable_bus
safe_removable disk =
    not disk.is_boot
    && not disk.is_system
    && not disk.is_offline
    && not disk.is_read_only
    && ltb 0 disk.size
    && valid_sector_geometry disk.size disk.logical_sector_size disk.physical_sector_size
    && not (is_empty disk.path)
    && (not (is_empty disk.unique_id) || not (is_empty disk.serial_number))
    && removable_bus disk

-- `u64::to_le_bytes`, the low `n` bytes.
unfoldable pub to_le_bytes : ℕ → ℕ → Bytes
to_le_bytes zero x = []
to_le_bytes (suc n) x = x % 256 ∷ to_le_bytes n (x / 256)

unfoldable pub bool_text : Bool → Text
unfolding text
bool_text true = text "true"
bool_text false = text "false"

abbrev pub fields : WindowsDisk → List Text
fields disk =
    stable_id_version
    ∷ show disk.number
    ∷ show disk.size
    ∷ show disk.logical_sector_size
    ∷ show disk.physical_sector_size
    ∷ disk.bus_type
    ∷ disk.path
    ∷ disk.unique_id
    ∷ disk.serial_number
    ∷ bool_text disk.supports_removable_media
    ∷ []

-- The loop over the fields; `none` when a length does not fit in 64 bits.
unfoldable pub feed : List Text → Option Bytes
unfolding to_le_bytes
feed [] = some []
feed (field ∷ rest) =
    let fed = feed rest in
    if ltb (length field) u64_mod
    then option_map (λ (b : Bytes). to_le_bytes 8 (length field) ++ field ++ b) fed
    else none

unfoldable pub fingerprint : Crypto → WindowsDisk → Option Text
unfolding feed show stable_id_version bool_text
fingerprint c disk = option_map (λ (b : Bytes). c.hex_encode (c.sha256 b)) (feed (fields disk))

abbrev pub named : Text → Text
named name = if is_empty name then text "Removable drive" else name

unfoldable pub device_of : ℕ → Text
unfolding show physical_drive_prefix
device_of number = physical_drive_prefix ++ show number

abbrev pub offer : WindowsDisk → Option Text → Option Drive
offer disk none = none
offer disk (some fingerprint) = some (record {
  id = device_of disk.number ++ (at_sign ∷ fingerprint);
  device = device_of disk.number;
  name = named disk.friendly_name;
  capacity = disk.size;
})

-- One round of the loop of `removable_drives`.
unfoldable pub inspect : Crypto → WindowsDisk → Option Drive
unfolding normalize safe_removable fingerprint device_of text
inspect c disk =
    if safe_removable (normalize disk)
    then offer (normalize disk) (fingerprint c (normalize disk))
    else none

abbrev pub push_if : Option Drive → List Drive → List Drive
push_if none drives = drives
push_if (some d) drives = d ∷ drives

unfoldable pub removable_drives : Crypto → List WindowsDisk → List Drive
unfolding inspect
removable_drives c [] = []
removable_drives c (disk ∷ rest) = push_if (inspect c disk) (removable_drives c rest)

abbrev pub matches_number : Text → Text → Bool
matches_number device number =
    not (is_empty number)
    && digits_only number
    && is_some_and (parse_below (2 ^ 32) number)
        (λ value. device =ᵗ (physical_drive_prefix ++ show value))

abbrev pub matches_parts : WorkerDrive → Option (Text × Text) → Bool
matches_parts drive none = false
matches_parts drive (some (device, fingerprint)) =
    is_some_and (strip_prefix physical_drive_prefix device) (matches_number device)
    && length fingerprint == 64
    && all is_ascii_hexdigit fingerprint
    && drive.device =ᵗ device
    && ltb 0 drive.capacity

-- `valid_worker_drive` of the Windows build.
unfoldable pub valid_worker_drive : WorkerDrive → Bool
unfolding rsplit_once strip_prefix parse_below show physical_drive_prefix
valid_worker_drive drive = matches_parts drive (rsplit_once at_sign drive.id)
