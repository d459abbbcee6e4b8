-- ===== src/Drives/MacOs.antt =====
-- The macOS `platform` module of src/drives.rs, and `valid_worker_drive` of src/worker.rs.
pub mod Identity
pub mod Offered
use snapdog_os_installer.Prelude.{
  ℕ, ◌+◌, ◌^◌, ◌<◌, ◌≡◌, refl, sym, ap, ◌∙◌, Bool, true, false, not, ◌&&◌, ◌||◌, Option, none, some,
  List, [], ◌∷◌, ◌++◌, Text, text, show, value-show, parse_below, parse_below-show, parse_below-lt,
  show-digits, show-nonempty, digits_only, is_empty, is_ascii_digit, split_once, split_once-append,
  split_once-eq-append, strip_prefix, lacks, trim, map_get, map_insert, all, ◌==◌, ◌=ᵗ◌,
  is_some_and, ltb, u64_mod, arith, if◌then◌else◌, Option-cases, eqt_refl, inl, inr,
}
use snapdog_os_installer.Prelude.Result.{Result, ok, err, ◌>>=◌}
use snapdog_os_installer.Model.{Drive}
use snapdog_os_installer.Worker.Types.{WorkerDrive}

-- A record that the native layer reads from the I/O Registry.
pub record DiskRecord : Type 0 where
  pub bsd_name : Text
  pub name : Option Text
  pub registry_entry_id : ℕ
  pub size : ℕ
  pub whole : Bool
  pub writable : Bool
  pub removable : Bool
  pub ejectable : Bool
  pub physical : Bool

pub record SafeMedia : Type 0 where
  pub registry_entry_id : ℕ
  pub name : Option Text
  pub size : ℕ

-- `DriveError::InvalidData`, by what is invalid; the native query's own errors are not modelled.
pub data DriveError : Type 0 where
  duplicate_entry_id : ℕ → DriveError
  duplicate_identity : Text → DriveError

abbrev pub at_sign : ℕ
at_sign = b'@'

unfoldable pub valid_identifier : Text → Bool
unfolding strip_prefix text
valid_identifier id =
    is_some_and (strip_prefix (text "disk") id)
      (λ suffix. not (is_empty suffix) && digits_only suffix)

unfoldable pub format_stable_identifier : Text → ℕ → Text
unfolding show
format_stable_identifier disk_id registry_entry_id = disk_id ++ (at_sign ∷ show registry_entry_id)

abbrev pub nonzero_entry : Text → Option ℕ → Option (Text × ℕ)
nonzero_entry disk_id none = none
nonzero_entry disk_id (some n) = if n == 0 then none else some (disk_id, n)

abbrev pub split_parts : Option (Text × Text) → Option (Text × ℕ)
split_parts none = none
split_parts (some (disk_id, entry)) =
    if not (valid_identifier disk_id) || is_empty entry || not (digits_only entry)
    then none
    else nonzero_entry disk_id (parse_below u64_mod entry)

unfoldable pub split_stable_identifier : Text → Option (Text × ℕ)
unfolding split_once valid_identifier parse_below
split_stable_identifier s = split_parts (split_once at_sign s)

-- The entry fails one of the safety tests, and is passed over.
unfoldable pub is_unsafe : DiskRecord → Bool
unfolding valid_identifier
is_unsafe entry =
    not entry.whole
    || not entry.writable
    || not entry.removable
    || not entry.ejectable
    || not entry.physical
    || not (valid_identifier entry.bsd_name)
    || entry.registry_entry_id == 0
    || entry.size == 0

abbrev pub contains_id : ℕ → List ℕ → Bool
contains_id id [] = false
contains_id id (x ∷ xs) = x == id || contains_id id xs

-- `entry.name.filter(|name| !name.trim().is_empty())`
abbrev pub named : Option Text → Option Text
named none = none
named (some name) = if is_empty (trim name) then none else some name

abbrev pub safe_media : DiskRecord → SafeMedia
safe_media entry = record {
  registry_entry_id = entry.registry_entry_id;
  name = named entry.name;
  size = entry.size;
}

abbrev pub has_key : Option SafeMedia → Bool
has_key none = false
has_key (some m) = true

-- The loop of `safe_media_records`: the entry ids seen and the map so far.
unfoldable pub media_loop :
    List DiskRecord → List ℕ → List (Text × SafeMedia) → Result DriveError (List (Text × SafeMedia))
unfolding is_unsafe map_get map_insert trim
media_loop [] ids identities = ok identities
media_loop (entry ∷ rest) ids identities =
    let skipped = media_loop rest ids identities in
    let kept =
      media_loop rest (entry.registry_entry_id ∷ ids)
        (map_insert entry.bsd_name (safe_media entry) identities) in
    if is_unsafe entry
    then skipped
    else if contains_id entry.registry_entry_id ids
    then err (duplicate_entry_id entry.registry_entry_id)
    else if has_key (map_get entry.bsd_name identities)
    then err (duplicate_identity entry.bsd_name)
    else kept

unfoldable pub safe_media_records : List DiskRecord → Result DriveError (List (Text × SafeMedia))
unfolding media_loop
safe_media_records records = media_loop records [] []

abbrev pub name_or_default : Option Text → Text
name_or_default none = text "Removable drive"
name_or_default (some name) = name

abbrev pub drive_of : Text → ℕ → Option SafeMedia → Option Drive
drive_of disk_id entry none = none
drive_of disk_id entry (some media) =
    if media.registry_entry_id == entry
    then some (record {
      device = text "/dev/" ++ disk_id;
      id = format_stable_identifier disk_id entry;
      name = name_or_default media.name;
      capacity = media.size;
    })
    else none

abbrev pub drive_of_parts : Option (Text × ℕ) → List (Text × SafeMedia) → Option Drive
drive_of_parts none entries = none
drive_of_parts (some (disk_id, entry)) entries = drive_of disk_id entry (map_get disk_id entries)

unfoldable pub registry_drive : Text → List (Text × SafeMedia) → Option Drive
unfolding split_stable_identifier format_stable_identifier map_get
registry_drive s entries = drive_of_parts (split_stable_identifier s) entries

abbrev pub keep_some : Option Drive → List Drive → List Drive
keep_some none drives = drives
keep_some (some d) drives = d ∷ drives

unfoldable pub offered_drives : List (Text × SafeMedia) → List (Text × SafeMedia) → List Drive
unfolding registry_drive
offered_drives entries [] = []
offered_drives entries ((disk_id, media) ∷ rest) =
    keep_some (registry_drive (format_stable_identifier disk_id media.registry_entry_id) entries)
      (offered_drives entries rest)

unfoldable pub removable_drives : List DiskRecord → Result DriveError (List Drive)
unfolding safe_media_records offered_drives
removable_drives records = do
  entries ← safe_media_records records
  ok (offered_drives entries entries)

-- `valid_worker_drive` of the macOS build.
abbrev pub matches_device : WorkerDrive → Option (Text × ℕ) → Bool
matches_device drive none = false
matches_device drive (some (disk_id, entry)) =
    ltb 0 drive.capacity && drive.device =ᵗ (text "/dev/" ++ disk_id)

unfoldable pub valid_worker_drive : WorkerDrive → Bool
unfolding split_stable_identifier
valid_worker_drive drive = matches_device drive (split_stable_identifier drive.id)
