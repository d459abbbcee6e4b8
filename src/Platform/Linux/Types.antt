-- ===== src/Platform/Linux/Types.antt =====
-- The data of src/worker/linux.rs, and what the kernel answers.
use snapdog_os_installer.Prelude.{ℕ, Bool, ◌&&◌, ◌||◌, List, Bytes, Text, ◌==◌, ltb}
use snapdog_os_installer.Prelude.Result.{Result}
use snapdog_os_installer.Flash.Types.{IoError}

pub record DeviceNumber : Type 0 where
  pub major : ℕ
  pub minor : ℕ

-- The derived `==` and `<`.
abbrev pub same_device : DeviceNumber → DeviceNumber → Bool
same_device a b = a.major == b.major && a.minor == b.minor

abbrev pub device_before : DeviceNumber → DeviceNumber → Bool
device_before a b = ltb a.major b.major || a.major == b.major && ltb a.minor b.minor

pub record CurrentDrive : Type 0 where
  pub name : Text
  pub diskseq : ℕ
  pub capacity : ℕ
  pub device_number : DeviceNumber

pub record Mount : Type 0 where
  pub device : DeviceNumber
  pub path : Bytes

-- `std::io::Error`, as far as the code tells its kinds apart.
pub data FileError : Type 0 where
  not_found : FileError
  other : IoError → FileError

-- An entry of a directory under /sys: whether it has a file `partition`, and its file `dev`.
pub record SysEntry : Type 0 where
  pub is_partition : Bool
  pub dev : Result FileError Text

abbrev pub Entries : Type 0
Entries = Result FileError (List (Result IoError SysEntry))

-- /sys/block/NAME
pub record BlockRoot : Type 0 where
  pub exists : Bool
  pub removable : Result FileError Text
  pub ro : Result FileError Text
  pub diskseq : Result FileError Text
  pub size : Result FileError Text
  pub dev : Result FileError Text
  pub entries : Entries

pub record NodeMetadata : Type 0 where
  pub is_symlink : Bool
  pub is_block_device : Bool
  pub is_file : Bool
  pub rdev : ℕ
  pub dev : ℕ

-- `holders` is that of /sys/dev/block/NUMBER/holders, `symlink_metadata` that of /dev/NAME.
pub record Kernel : Type 0 where
  pub block_root : Text → BlockRoot
  pub holders : Text → Entries
  pub symlink_metadata : Text → Result FileError NodeMetadata
  pub metadata : Bytes → Result IoError NodeMetadata
  pub mountinfo : Result IoError Text
  pub swaps : Result IoError Text
