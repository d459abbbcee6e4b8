-- ===== src/Platform/Linux/Mountinfo.antt =====
-- The lists of mounts that src/worker/linux.rs reads.
use snapdog_os_installer.Prelude.{
  ℕ, zero, suc, ◌+◌, ◌-◌, ◌*◌, ◌%◌, Bool, true, false, not, ◌&&◌, ◌||◌, List, [], ◌∷◌, ◌++◌, Bytes,
  Text, text, is_empty, any, ltb, ◌==◌, ◌=ᵗ◌, is_ascii_digit, trim, lines, split_whitespace,
  if◌then◌else◌,
}
use snapdog_os_installer.Prelude.Result.{Result, ok, err, ◌>>=◌, ◌>>◌, reject_if}
use snapdog_os_installer.Worker.Types.{
  WorkerError, root_dir, cur_dir, parent_dir, normal, FilePath, same_component,
}
use snapdog_os_installer.Platform.Linux.Types.{DeviceNumber, same_device, Mount}
use snapdog_os_installer.Platform.Linux.Names.{platform, parse_device_number}

abbrev pub bad_digit : ℕ → Bool
bad_digit d = not (is_ascii_digit d) || ltb b'7' d

-- In the release build `u8` wraps around.
abbrev pub octal : ℕ → ℕ → ℕ → ℕ
octal a b c = ((a - b'0') * 64 + (b - b'0') * 8 + (c - b'0')) % 256

-- The three bytes after a backslash, and the byte that they stand for.
abbrev pub escape : Text → Result WorkerError ℕ
escape (a ∷ b ∷ c ∷ rest) =
    if bad_digit a || bad_digit b || bad_digit c
    then err (platform (text "mountinfo contained an invalid escape"))
    else ok (octal a b c)
escape _ = err (platform (text "mountinfo contained a truncated escape"))

abbrev pub cons_byte : ℕ → Result WorkerError Bytes → Result WorkerError Bytes
cons_byte b (ok bs) = ok (b ∷ bs)
cons_byte b (err e) = err e

abbrev pub cons_escape : Result WorkerError ℕ → Result WorkerError Bytes → Result WorkerError Bytes
cons_escape (ok b) rest = cons_byte b rest
cons_escape (err e) rest = err e

-- `skip` bytes belong to an escape that was read.
unfoldable pub decode_from : ℕ → Text → Result WorkerError Bytes
unfolding text
decode_from skip [] = ok []
decode_from (suc skip) (c ∷ cs) = decode_from skip cs
decode_from zero (c ∷ cs) =
    let after = decode_from 3 cs in
    let next = decode_from 0 cs in
    if c == b'\\' then cons_escape (escape cs) after else cons_byte c next

unfoldable pub decode_mountinfo_field : Text → Result WorkerError Bytes
unfolding decode_from
decode_mountinfo_field = decode_from 0

abbrev pub invalid_record : WorkerError
invalid_record = platform (text "kernel mountinfo contained an invalid record")

-- At least six fields, one of them a dash.
unfoldable pub parse_fields : List Text → Result WorkerError Mount
unfolding text parse_device_number decode_mountinfo_field
parse_fields (id ∷ parent ∷ number ∷ root ∷ point ∷ options ∷ rest) = do
  reject_if
      (not
        (any (λ field. field =ᵗ text "-") (id ∷ parent ∷ number ∷ root ∷ point ∷ options ∷ rest)))
      invalid_record
  device ← parse_device_number number
  path ← decode_mountinfo_field point
  ok (record { device = device; path = path })
parse_fields _ = err invalid_record

abbrev pub cons_mount :
    Result WorkerError Mount → Result WorkerError (List Mount) → Result WorkerError (List Mount)
cons_mount (err e) rest = err e
cons_mount (ok mount) (err e) = err e
cons_mount (ok mount) (ok mounts) = ok (mount ∷ mounts)

unfoldable pub parse_lines : List Text → Result WorkerError (List Mount)
unfolding trim split_whitespace parse_fields
parse_lines [] = ok []
parse_lines (line ∷ rest) =
    let mounts = parse_lines rest in
    if is_empty (trim line)
    then mounts
    else cons_mount (parse_fields (split_whitespace line)) mounts

unfoldable pub parse_mountinfo : Text → Result WorkerError (List Mount)
unfolding lines parse_lines
parse_mountinfo contents = parse_lines (lines contents)

unfoldable pub contains : List DeviceNumber → DeviceNumber → Bool
contains devices device = any (λ d. same_device d device) devices

abbrev pub paths_of : List DeviceNumber → List Mount → List Bytes
paths_of devices [] = []
paths_of devices (mount ∷ rest) =
    let paths = paths_of devices rest in
    if contains devices mount.device then mount.path ∷ paths else paths

unfoldable pub mounted_paths : Text → List DeviceNumber → Result WorkerError (List Bytes)
unfolding parse_mountinfo contains
mounted_paths mountinfo devices = do
  mounts ← parse_mountinfo mountinfo
  ok (paths_of devices mounts)

-- `Path::components` on Unix: the parts between slashes, where an empty part and a dot that is not
-- the very first part are left out.
abbrev part_of : Text → FilePath
part_of part =
    if is_empty part || part =ᵗ text "."
    then []
    else if part =ᵗ text ".."
    then parent_dir ∷ []
    else normal part ∷ []

parts : Text → Text → FilePath
unfolding text
parts part [] = part_of part
parts part (c ∷ cs) =
    let ended = parts [] cs in
    let longer = parts (part ++ (c ∷ [])) cs in if c == b'/' then part_of part ++ ended else longer

abbrev dot_first : Text → FilePath
dot_first [] = []
dot_first (c ∷ []) = if c == b'.' then cur_dir ∷ [] else []
dot_first (c ∷ d ∷ cs) = if c == b'.' && d == b'/' then cur_dir ∷ [] else []

abbrev root_first : Text → FilePath
root_first [] = []
root_first (c ∷ cs) = if c == b'/' then root_dir ∷ [] else dot_first (c ∷ cs)

unfoldable pub components : Bytes → FilePath
unfolding parts
components path = root_first path ++ parts [] path

-- `path == root || path.starts_with(root)`
abbrev pub starts_with : FilePath → FilePath → Bool
starts_with path [] = true
starts_with [] (r ∷ root) = false
starts_with (c ∷ path) (r ∷ root) = same_component c r && starts_with path root

abbrev pub removable_roots : List Bytes
removable_roots = text "/media" ∷ text "/mnt" ∷ text "/run/media" ∷ []

unfoldable pub protected_mount_point : Bytes → Bool
unfolding components text
protected_mount_point path =
    not (any (λ root. starts_with (components path) (components root)) removable_roots)
