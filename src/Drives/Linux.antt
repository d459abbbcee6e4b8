-- ===== src/Drives/Linux.antt =====
-- The Linux `platform` module of src/drives.rs, and its `valid_worker_drive` of src/worker.rs.
pub mod Offered
use snapdog_os_installer.Prelude.{
  ℕ, ◌+◌, ◌*◌, ◌≤◌, Bool, true, false, not, ◌&&◌, ◌||◌, Option, none, some, List, [], ◌∷◌, ◌++◌,
  Text, text, show, parse_below, digits_only, is_empty, is_ascii_alphanumeric, split_once, trim,
  all, length, ◌==◌, ◌=ᵗ◌, leb, ltb, is_some_and, u64_mod, checked_mul, if◌then◌else◌,
}
use snapdog_os_installer.Prelude.Result.{Result, ok, err, ◌>>=◌, map_err, ok_or}
use snapdog_os_installer.Model.{Drive}
use snapdog_os_installer.Flash.Types.{IoError}
use snapdog_os_installer.Worker.Types.{WorkerDrive}

-- What the kernel answers about one entry of /sys/block. `name` is its name after
-- `to_string_lossy`.
pub record BlockEntry : Type 0 where
  pub name : Text
  pub removable : Result IoError Text
  pub ro : Result IoError Text
  pub diskseq : Result IoError Text
  pub size : Result IoError Text
  pub vendor : Result IoError Text
  pub model : Result IoError Text

-- `DriveError`, with the reasons of `InvalidData` apart.
pub data DriveError : Type 0 where
  io : IoError → DriveError
  no_diskseq : IoError → DriveError
  invalid_diskseq zero_diskseq invalid_size capacity_overflow : DriveError

abbrev pub at_sign : ℕ
at_sign = b'@'

abbrev pub sector_size : ℕ
sector_size = 512

abbrev pub id_byte : ℕ → Bool
id_byte b = is_ascii_alphanumeric b || b == b'_' || b == b'-'

unfoldable pub is_safe_id : Text → Bool
is_safe_id id = not (is_empty id) && leb (length id) 128 && all id_byte id

abbrev pub trimmed : Result IoError Text → Result IoError Text
trimmed (ok s) = ok (trim s)
trimmed (err e) = err e

unfoldable pub read_trimmed : Result IoError Text → Result DriveError Text
unfolding trim
read_trimmed file = map_err io (trimmed file)

unfoldable pub read_optional : Result IoError Text → Text
unfolding trim
read_optional (ok s) = trim s
read_optional (err e) = []

-- `read_trimmed(removable)? != "1" || read_trimmed(ro)? != "0"`: the second is read only if the
-- first test fails.
unfoldable pub passed_over : BlockEntry → Result DriveError Bool
unfolding is_safe_id read_trimmed text
passed_over entry = if not (is_safe_id entry.name) then ok true else do
  removable ← read_trimmed entry.removable
  if not (removable =ᵗ text "1")
      then ok true
      else do ro ← read_trimmed entry.ro; ok (not (ro =ᵗ text "0"))

unfoldable pub display_name : BlockEntry → Text
unfolding read_optional trim text
display_name entry =
    let name = trim (read_optional entry.vendor ++ (b' ' ∷ read_optional entry.model)) in
    if is_empty name then text "Removable drive" else name

unfoldable pub drive_of : BlockEntry → ℕ → ℕ → Drive
unfolding display_name show text
drive_of entry diskseq capacity = record {
  device = text "/dev/" ++ entry.name;
  id = entry.name ++ (at_sign ∷ show diskseq);
  name = display_name entry;
  capacity = capacity;
}

-- From the `size` file on: `none` when the medium is empty.
unfoldable pub sized : BlockEntry → ℕ → Result DriveError (Option Drive)
unfolding read_trimmed parse_below drive_of
sized entry diskseq = do
  size_text ← read_trimmed entry.size
  sectors ← ok_or (parse_below u64_mod size_text) invalid_size
  capacity ← ok_or (checked_mul sectors sector_size) capacity_overflow
  ok (if capacity == 0 then none else some (drive_of entry diskseq capacity))

-- From the `diskseq` file on.
unfoldable pub identified : BlockEntry → Result DriveError (Option Drive)
unfolding trim parse_below sized
identified entry = do
  diskseq_text ← map_err no_diskseq (trimmed entry.diskseq)
  diskseq ← ok_or (parse_below u64_mod diskseq_text) invalid_diskseq
  if diskseq == 0 then err zero_diskseq else sized entry diskseq

-- One round of the loop of `removable_drives`.
unfoldable pub inspect : BlockEntry → Result DriveError (Option Drive)
unfolding passed_over identified
inspect entry = do skipped ← passed_over entry; if skipped then ok none else identified entry

abbrev pub push_if : Option Drive → List Drive → List Drive
push_if none drives = drives
push_if (some d) drives = d ∷ drives

-- The loop, over what `read_dir` yields.
unfoldable pub inspect_all : List (Result IoError BlockEntry) → Result DriveError (List Drive)
unfolding inspect
inspect_all [] = ok []
inspect_all (err e ∷ rest) = err (io e)
inspect_all (ok entry ∷ rest) = do
  found ← inspect entry
  drives ← inspect_all rest
  ok (push_if found drives)

unfoldable pub removable_drives :
    Result IoError (List (Result IoError BlockEntry)) → Result DriveError (List Drive)
unfolding inspect_all
removable_drives (err e) = err (io e)
removable_drives (ok entries) = inspect_all entries

abbrev pub positive : ℕ → Bool
positive n = ltb 0 n

abbrev pub matches_parts : WorkerDrive → Option (Text × Text) → Bool
matches_parts drive none = false
matches_parts drive (some (block_name, diskseq)) =
    not (is_empty block_name)
    && leb (length block_name) 128
    && all id_byte block_name
    && not (is_empty diskseq)
    && digits_only diskseq
    && is_some_and (parse_below u64_mod diskseq) positive
    && drive.device =ᵗ (text "/dev/" ++ block_name)
    && ltb 0 drive.capacity

-- `valid_worker_drive` of the Linux build.
unfoldable pub valid_worker_drive : WorkerDrive → Bool
unfolding split_once parse_below text
valid_worker_drive drive = matches_parts drive (split_once at_sign drive.id)
