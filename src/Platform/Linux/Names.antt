-- ===== src/Platform/Linux/Names.antt =====
-- Identifiers and device numbers of src/worker/linux.rs.
use snapdog_os_installer.Prelude.{
  ℕ, ◌+◌, ◌*◌, ◌/◌, ◌%◌, ◌^◌, Bool, not, ◌&&◌, ◌||◌, Option, none, some, ◌∷◌, ◌++◌, Text, text,
  show, trim, length, is_empty, all, leb, ltb, ◌==◌, parse_below, digits_only, split_once,
  is_ascii_alphanumeric, u64_mod, if◌then◌else◌,
}
use snapdog_os_installer.Prelude.Result.{Result, ok, err, ◌>>=◌, ◌>>◌, ok_or, reject_if, map_err}
use snapdog_os_installer.Worker.Types.{WorkerError, target_missing, unsafe_target}
use snapdog_os_installer.Platform.Linux.Types.{DeviceNumber, FileError, not_found, other}

abbrev pub platform : Text → WorkerError
platform = WorkerError.platform

abbrev pub name_byte : ℕ → Bool
name_byte b = is_ascii_alphanumeric b || (b == b'_' || b == b'-')

unfoldable pub valid_block_name : Text → Bool
valid_block_name value = not (is_empty value) && leb (length value) 128 && all name_byte value

abbrev pub positive : Option ℕ → Option ℕ
positive none = none
positive (some n) = if ltb 0 n then some n else none

unfoldable pub split_stable_identifier : Text → Result WorkerError (Text × ℕ)
unfolding split_once valid_block_name parse_below
split_stable_identifier value = do
  (block_name, diskseq) ← ok_or (split_once b'@' value) unsafe_target
  reject_if (not (valid_block_name block_name) || is_empty diskseq || not (digits_only diskseq))
      unsafe_target
  number ← ok_or (positive (parse_below u64_mod diskseq)) unsafe_target
  ok (block_name, number)

unfoldable pub format_stable_identifier : Text → ℕ → Text
unfolding show
format_stable_identifier block_name diskseq = block_name ++ (b'@' ∷ show diskseq)

abbrev pub file_error : FileError → WorkerError
file_error not_found = target_missing
file_error (other e) = platform e

abbrev trimmed : Result FileError Text → Result FileError Text
trimmed (ok s) = ok (trim s)
trimmed (err e) = err e

unfoldable pub read_trimmed : Result FileError Text → Result WorkerError Text
unfolding trim
read_trimmed file = map_err file_error (trimmed file)

unfoldable pub read_positive_u64 : Result FileError Text → Text → Result WorkerError ℕ
unfolding read_trimmed parse_below text
read_positive_u64 file label = do
  content ← read_trimmed file
  ok_or (positive (parse_below u64_mod content))
      (platform (text "target " ++ label ++ text " is invalid"))

invalid_number : WorkerError
unfolding text
invalid_number = platform (text "invalid kernel device number")

unfoldable pub parse_part : Text → Result WorkerError ℕ
unfolding parse_below invalid_number
parse_part part =
    if not (is_empty part) && digits_only part
    then ok_or (parse_below u64_mod part) invalid_number
    else err invalid_number

unfoldable pub parse_device_number : Text → Result WorkerError DeviceNumber
unfolding split_once parse_part invalid_number
parse_device_number value = do
  (major, minor) ← ok_or (split_once b':' value) invalid_number
  a ← parse_part major
  b ← parse_part minor
  ok (record { major = a; minor = b })

unfoldable pub format_device_number : DeviceNumber → Text
unfolding show
format_device_number device = show device.major ++ (b':' ∷ show device.minor)

unfoldable pub read_device_number : Result FileError Text → Result WorkerError DeviceNumber
unfolding read_trimmed parse_device_number
read_device_number file = do content ← read_trimmed file; parse_device_number content

-- The masks of the bits, written with division and remainder: bits 8 to 19 and 44 to 63 are the major
-- number's, bits 0 to 7 and 20 to 43 the minor number's. The two parts of a sum share no bit.
unfoldable pub decode_linux_device : ℕ → DeviceNumber
decode_linux_device device = record {
  major = device / 2 ^ 8 % 2 ^ 12 + device / 2 ^ 44 % 2 ^ 20 * 2 ^ 12;
  minor = device % 2 ^ 8 + device / 2 ^ 20 % 2 ^ 24 * 2 ^ 8;
}
