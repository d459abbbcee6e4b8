-- ===== src/Platform/Linux/Tests.antt =====
-- A card with one partition, which carries a mapped device.
use snapdog_os_installer.Prelude.{
  ℕ, suc, ◌≡◌, ◌≤◌, ◌+◌, refl, Bool, true, false, some, List, [], ◌∷◌, Text, text, All, ◌=ᵗ◌, ◌==◌,
  arith, subst, sym, ◌∙◌, ◌||◌,
}
use snapdog_os_installer.Prelude.Result.{Result, ok, err, ok-injective}
use snapdog_os_installer.Flash.Types.{IoError}
use snapdog_os_installer.Worker.Types.{WorkerDrive, WorkerError}
use snapdog_os_installer.Platform.Linux.Types.{
  DeviceNumber, not_found, SysEntry, Entries, BlockRoot, NodeMetadata, Kernel,
}
use snapdog_os_installer.Platform.Linux.Names.{
  valid_block_name, split_stable_identifier, format_stable_identifier, parse_device_number,
  format_device_number, read_device_number, decode_linux_device,
}
use snapdog_os_installer.Platform.Linux.Mountinfo.{contains, decode_mountinfo_field}
use snapdog_os_installer.Platform.Linux.Related.{collect_related_device_numbers}
use snapdog_os_installer.Platform.Linux.Related.Closure.{EntryIn, Names}
use snapdog_os_installer.Platform.Linux.Related.Collected.{Returns, collect_related_lem}
use snapdog_os_installer.Platform.Linux.Target.{validate_target_at}
use snapdog_os_installer.Platform.Linux.Validated.{Validates, validate_target-IsSafe}
use snapdog_os_installer.Platform.Linux.RoundTrip.{
  parse_device_number-format, makedev, decode_linux_device-makedev, encode_field,
  decode_mountinfo_field-encode, split_stable_identifier-format,
}

abbrev partition : SysEntry
partition = record { is_partition = true; dev = ok (text "8:17\n") }

abbrev holder : SysEntry
holder = record { is_partition = false; dev = ok (text "253:0\n") }

abbrev card : BlockRoot
card = record {
  exists = true;
  removable = ok (text "1\n");
  ro = ok (text "0\n");
  diskseq = ok (text "9\n");
  size = ok (text "2048\n");
  dev = ok (text "8:16\n");
  entries = ok (ok partition ∷ []);
}

abbrev card_node : NodeMetadata
card_node = record {
  is_symlink = false;
  is_block_device = true;
  is_file = false;
  rdev = 2064;
  dev = 5;
}

abbrev holders_of : Bool → Entries
holders_of true = ok (ok holder ∷ [])
holders_of false = err not_found

abbrev card_kernel : Text → Kernel
card_kernel mountinfo = record {
  block_root = λ name. card;
  holders = λ number. holders_of (number =ᵗ text "8:17");
  symlink_metadata = λ path. ok card_node;
  metadata = λ path. ok card_node;
  mountinfo = ok mountinfo;
  swaps = ok (text "Filename Type Size Used Priority\n");
}

abbrev on_media : Text
on_media = text "36 35 253:0 / /media/me/disk\\040one rw - ext4 /dev/dm-0 rw\n"

abbrev on_srv : Text
on_srv = text "36 35 253:0 / /srv rw - ext4 /dev/dm-0 rw\n"

abbrev mapped : DeviceNumber
mapped = record { major = 253; minor = 0 }

abbrev card_drive : WorkerDrive
card_drive = record { id = text "sdb@9"; device = text "/dev/sdb"; capacity = 1048576 }

validated : validate_target_at (card_kernel on_media) 3 card_drive ≡ some (ok card_drive)
unfolding validate_target_at text
validated = refl

-- The mapped device on the partition is mounted where it must not be.
refused :
    validate_target_at (card_kernel on_srv) 3 card_drive ≡ some (err WorkerError.unsafe_target)
unfolding validate_target_at text
refused = refl

holder_number : read_device_number (ok (text "253:0\n")) ≡ ok mapped
unfolding read_device_number text
holder_number = refl

mapped_there : contains (mapped ∷ []) mapped ≡ true
unfolding contains
mapped_there = refl

holder_in : EntryIn (mapped ∷ []) (ok holder)
holder_in n r =
    subst (λ (d : DeviceNumber). contains (mapped ∷ []) d ≡ true)
      (ok-injective (sym holder_number ∙ r)) mapped_there

answers_in :
    (b : Bool) (entries : List (Result IoError SysEntry))
    → holders_of b ≡ ok entries
    → All (EntryIn (mapped ∷ [])) entries
answers_in true entries e =
    subst (λ (l : List (Result IoError SysEntry)). All (EntryIn (mapped ∷ [])) l) (ok-injective e)
      (holder_in, tt)
answers_in false entries e = cc

card-Names : (mountinfo : Text) → Names (card_kernel mountinfo) (mapped ∷ [])
card-Names mountinfo d entries e = answers_in (format_device_number d =ᵗ text "8:17") entries e

collect_related_example :
    Returns
      (card_kernel on_media)
      card
      (collect_related_device_numbers (card_kernel on_media) 3 card)
collect_related_example =
    collect_related_lem (card_kernel on_media) (mapped ∷ []) 3 card (card-Names on_media)
      (omega arith)

fuel_enough : (name : Text) → 1 + suc 1 ≤ 3
fuel_enough name = omega arith

validate_target_example :
    Validates
      (card_kernel on_media)
      card_drive
      (validate_target_at (card_kernel on_media) 3 card_drive)
validate_target_example =
    validate_target-IsSafe (card_kernel on_media) (mapped ∷ []) 3 card_drive (card-Names on_media)
      fuel_enough

parse_device_number_example : parse_device_number (format_device_number mapped) ≡ ok mapped
parse_device_number_example = parse_device_number-format mapped (omega arith) (omega arith)

makedev_example : decode_linux_device (makedev 8 17) ≡ record { major = 8; minor = 17 }
makedev_example = decode_linux_device-makedev 8 17 (omega arith) (omega arith)

-- A space and a backslash.
abbrev kernel_escapes : ℕ → Bool
kernel_escapes b = b == b' ' || b == b'\\'

escape_example : decode_mountinfo_field (encode_field kernel_escapes (text "a b")) ≡ ok (text "a b")
unfolding text
escape_example =
    decode_mountinfo_field-encode kernel_escapes (text "a b") refl
      (omega arith, (omega arith, (omega arith, tt)))

-- An escape of a byte that does not exist wraps around to another byte.
wrapped_escape : decode_mountinfo_field (text "\\457") ≡ ok (text "/")
unfolding decode_mountinfo_field text
wrapped_escape = refl

valid_name : valid_block_name (text "sdb") ≡ true
unfolding valid_block_name text
valid_name = refl

identifier_example :
    split_stable_identifier (format_stable_identifier (text "sdb") 9) ≡ ok (text "sdb", 9)
identifier_example =
    split_stable_identifier-format (text "sdb") 9 valid_name (omega arith) (omega arith)
