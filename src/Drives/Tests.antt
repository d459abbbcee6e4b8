-- ===== src/Drives/Tests.antt =====
-- Small machines of each kind, and the drives that are offered there.
use snapdog_os_installer.Prelude.{
  ℕ, zero, suc, ◌<◌, ◌≡◌, refl, ◌⊎◌, true, false, Option, none, some, List, [], ◌∷◌, Text, text,
  All, Any, length, u64_mod, arith,
}
use snapdog_os_installer.Prelude.Result.{Result, ok, err}
use snapdog_os_installer.Model.{Drive}
use snapdog_os_installer.Flash.Types.{Crypto, IoError}
use snapdog_os_installer.Drives.Linux
use snapdog_os_installer.Drives.Linux.Offered as LinuxOffered
use snapdog_os_installer.Drives.MacOs
use snapdog_os_installer.Drives.MacOs.Identity.{split-format, split_sound}
use snapdog_os_installer.Drives.MacOs.Offered as MacOsOffered
use snapdog_os_installer.Drives.Windows
use snapdog_os_installer.Drives.Windows.Fingerprint.{
  IsSameMedium, Collision, fingerprint-IsSameMedium,
}
use snapdog_os_installer.Drives.Windows.Offered as WindowsOffered

abbrev card_entry : Linux.BlockEntry
card_entry = record {
  name = text "sdb";
  removable = ok (text "1\n");
  ro = ok (text "0\n");
  diskseq = ok (text "7\n");
  size = ok (text "100\n");
  vendor = ok (text "Acme ");
  model = err [];
}

abbrev card_drive : Drive
card_drive = record {
  id = text "sdb@7";
  device = text "/dev/sdb";
  name = text "Acme";
  capacity = 51200;
}

abbrev block_entries : List (Result IoError Linux.BlockEntry)
block_entries =
    ok card_entry ∷ ok (record card_entry { name = text "sda"; removable = ok (text "0\n") }) ∷ []

card_listed : Linux.removable_drives (ok block_entries) ≡ ok (card_drive ∷ [])
unfolding Linux.removable_drives text
card_listed = refl

linux_drives_example : All (LinuxOffered.Offered block_entries) (card_drive ∷ [])
linux_drives_example = LinuxOffered.linux_drives-Offered block_entries (card_drive ∷ []) card_listed

abbrev disk_record : MacOs.DiskRecord
disk_record = record {
  bsd_name = text "disk4";
  name = none;
  registry_entry_id = 77;
  size = 1000;
  whole = true;
  writable = true;
  removable = true;
  ejectable = true;
  physical = true;
}

abbrev disk_records : List MacOs.DiskRecord
disk_records = record disk_record { bsd_name = text "disk0"; removable = false } ∷ disk_record ∷ []

abbrev disk_drive : Drive
disk_drive = record {
  id = text "disk4@77";
  device = text "/dev/disk4";
  name = text "Removable drive";
  capacity = 1000;
}

disk_listed : MacOs.removable_drives disk_records ≡ ok (disk_drive ∷ [])
unfolding MacOs.removable_drives text
disk_listed = refl

macos_drives_example :
    All (λ (d : Drive). Any (λ r. MacOsOffered.IsOffer d r) disk_records) (disk_drive ∷ [])
macos_drives_example =
    MacOsOffered.macos_drives-Offered disk_records (disk_drive ∷ [])
      (omega arith, (omega arith, tt)) disk_listed

disk4_valid : MacOs.valid_identifier (text "disk4") ≡ true
unfolding MacOs.valid_identifier text
disk4_valid = refl

split-format_example :
    MacOs.split_stable_identifier (MacOs.format_stable_identifier (text "disk4") 77)
    ≡ some (text "disk4", 77)
split-format_example = split-format (text "disk4") 77 disk4_valid (omega arith) (omega arith)

disk4_split : MacOs.split_stable_identifier (text "disk4@77") ≡ some (text "disk4", 77)
unfolding MacOs.split_stable_identifier text
disk4_split = refl

split_sound_example : (MacOs.valid_identifier (text "disk4") ≡ true) × (0 < 77) × (77 < u64_mod)
split_sound_example = split_sound (text "disk4@77") (text "disk4") 77 disk4_split

abbrev windows_disk : Windows.WindowsDisk
windows_disk = record {
  number = 3;
  friendly_name = text " Card ";
  path = text "path";
  unique_id = text "id";
  serial_number = [];
  size = 1024;
  logical_sector_size = 512;
  physical_sector_size = 4096;
  is_boot = false;
  is_system = false;
  is_offline = false;
  is_read_only = false;
  bus_type = text "usb";
  supports_removable_media = true;
}

abbrev repeat : ℕ → ℕ → Text
repeat zero x = []
repeat (suc n) x = x ∷ repeat n x

-- A digest that is the text itself, in an encoding that says nothing.
abbrev plain_crypto : Crypto
plain_crypto = record {
  sha256 = λ b. b;
  hex_encode = λ b. repeat 64 b'a';
  hex_decode = λ t. some t;
}

-- Disk 4 is the boot disk, and is not listed.
abbrev windows_disks : List Windows.WindowsDisk
windows_disks = windows_disk ∷ record windows_disk { number = 4; is_boot = true } ∷ []

windows_listed : length (Windows.removable_drives plain_crypto windows_disks) ≡ 1
unfolding Windows.removable_drives text
windows_listed = refl

windows_drives_example :
    All (WindowsOffered.Offered windows_disks) (Windows.removable_drives plain_crypto windows_disks)
windows_drives_example =
    WindowsOffered.windows_drives-Offered plain_crypto windows_disks (λ b. (refl, refl))
      (omega arith, (omega arith, tt))

-- What is hashed, as the fingerprint itself.
abbrev bare_crypto : Crypto
bare_crypto = record { sha256 = λ b. b; hex_encode = λ b. b; hex_decode = λ t. some t }

-- The same medium under another name, after it went offline.
abbrev renamed_disk : Windows.WindowsDisk
renamed_disk = record windows_disk { friendly_name = text "Other"; is_offline = true }

abbrev hashed : Option Text → Text
hashed none = []
hashed (some t) = t

windows_fingerprint :
    Windows.fingerprint bare_crypto windows_disk
    ≡ some (hashed (Windows.fingerprint bare_crypto windows_disk))
unfolding Windows.fingerprint text
windows_fingerprint = refl

renamed_fingerprint :
    Windows.fingerprint bare_crypto renamed_disk
    ≡ some (hashed (Windows.fingerprint bare_crypto windows_disk))
unfolding Windows.fingerprint text
renamed_fingerprint = refl

fingerprint_example :
    IsSameMedium windows_disk renamed_disk ⊎ Collision bare_crypto windows_disk renamed_disk
fingerprint_example =
    fingerprint-IsSameMedium bare_crypto windows_disk renamed_disk
      (hashed (Windows.fingerprint bare_crypto windows_disk)) windows_fingerprint
      renamed_fingerprint
