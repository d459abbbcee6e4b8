-- ===== src/Platform/Verifier/Transfer.antt =====
-- `DirectVerifier` of src/worker/linux.rs and `UnbufferedVerifier` of src/worker/windows.rs, which
-- read a disk back in whole sectors. They differ in the size of a sector, the room of the buffer, one
-- test and the words of their errors.
use snapdog_os_installer.Prelude.{
  ℕ, ◌+◌, ◌-◌, ◌*◌, ◌%◌, min, Bool, true, ◌||◌, Option, none, some, text, length, div_ceil, ltb,
  checked_add, checked_mul,
}
use snapdog_os_installer.Prelude.Result.{Result, ok, ok_or, reject_if, ◌>>=◌, ◌>>◌}
use snapdog_os_installer.Flash.Types.{IoError}

abbrev pub verification_buffer_size : ℕ
verification_buffer_size = 1024 * 1024

-- `refuses capacity start length`: the transfer is no aligned request for this verifier.
pub record Limits : Type 0 where
  pub sector_size : ℕ
  pub refuses : ℕ → ℕ → ℕ → Bool
  pub unaligned : IoError
  pub incomplete : IoError
  pub outside : IoError

abbrev pub kernel_sector_size : ℕ
kernel_sector_size = 512

abbrev pub direct_alignment : ℕ
direct_alignment = 4096

unfoldable pub linux_limits : Limits
linux_limits = record {
  sector_size = kernel_sector_size;
  refuses = λ capacity start length. ltb (verification_buffer_size + direct_alignment) length;
  unaligned = text "unaligned Linux verification request";
  incomplete = text "Linux returned an incomplete direct disk sector";
  outside = text "Linux verification seek is outside the physical disk";
}

abbrev pub exceeds : ℕ → Option ℕ → Bool
exceeds capacity none = true
exceeds capacity (some end) = ltb capacity end

unfoldable pub windows_limits : ℕ → ℕ → Limits
windows_limits logical_sector_size physical_sector_size = record {
  sector_size = logical_sector_size;
  refuses = λ capacity start length.
      ltb (verification_buffer_size + physical_sector_size) length
      || exceeds capacity (checked_add start length);
  unaligned = text "unaligned Windows verification request";
  incomplete = text "Windows returned an incomplete unbuffered disk sector";
  outside = text "Windows verification seek is outside the physical disk";
}

-- What `read` asks of the disk, and which part of the answer it hands on.
pub record Transfer : Type 0 where
  pub start : ℕ
  pub prefix : ℕ
  pub available : ℕ
  pub length : ℕ

abbrev overflow : IoError
overflow = text "verification transfer length overflow"

-- The part of `read` before the file is used.
unfoldable pub transfer : Limits → ℕ → ℕ → ℕ → Result IoError Transfer
transfer limits capacity position output = do
  let available = min (capacity - position) (min output verification_buffer_size)
  let start = position - position % limits.sector_size
  let prefix = position - start
  needed ← ok_or (checked_add prefix available) overflow
  length ← ok_or (checked_mul (div_ceil needed limits.sector_size) limits.sector_size) overflow
  reject_if (limits.refuses capacity start length) limits.unaligned
  ok (record { start = start; prefix = prefix; available = available; length = length })
