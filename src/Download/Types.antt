-- ===== src/Download/Types.antt =====
-- The data of src/download.rs, and the file system that it works on.
use snapdog_os_installer.Prelude.{ℕ, Bool, ◌&&◌, Option, Bytes, Text, ◌=ᵗ◌, if◌then◌else◌}
use snapdog_os_installer.Prelude.Result.{Result}
use snapdog_os_installer.Flash.Types.{IoError, Replies}

-- A path, as the directory and the file name that `Path::file_name` finds.
pub record Destination : Type 0 where
  pub parent : Text
  pub file_name : Option Text

pub record DownloadRequest : Type 0 where
  pub url : Text
  pub destination : Destination
  pub expected_sha256 : Option Text
  pub expected_size : Option ℕ

pub record DownloadProgress : Type 0 where
  pub downloaded : ℕ
  pub total : Option ℕ

pub record DownloadReport : Type 0 where
  pub destination : Destination
  pub bytes_downloaded : ℕ
  pub sha256 : Text

-- `HttpError` stands for `reqwest::Error`.
pub data DownloadError (HttpError : Type 0) : Type 0 where
  invalid_url insecure_url invalid_checksum : Text → DownloadError HttpError
  invalid_destination destination_exists : Destination → DownloadError HttpError
  partial_exists : Text × Text → DownloadError HttpError
  request : HttpError → DownloadError HttpError
  io : IoError → DownloadError HttpError
  size_mismatch : ℕ → ℕ → DownloadError HttpError
  size_overflow checksum_mismatch cancelled : DownloadError HttpError

-- The files, by directory and name.
abbrev pub Files : Type 0
Files = Text × Text → Option Bytes

unfoldable pub same_file : Text × Text → Text × Text → Bool
same_file a b = a.0 =ᵗ b.0 && a.1 =ᵗ b.1

unfoldable pub set_file : Text × Text → Option Bytes → Files → Files
unfolding same_file
set_file key content files other = if same_file other key then content else files other

-- How the surroundings answer the calls, by the number of calls made so far: whether the flag is
-- set, and the errors of the operations on files. `torn` is what a failed write leaves in the file.
pub record Env : Type 0 where
  pub cancelled : ℕ → Bool
  pub exists : ℕ → Result IoError Unit
  pub create : ℕ → Result IoError Unit
  pub write : ℕ → Result IoError Unit
  pub torn : ℕ → Bytes
  pub sync : ℕ → Result IoError Unit
  pub rename : ℕ → Result IoError Unit
  pub remove : ℕ → Result IoError Unit

pub record World : Type 0 where
  pub calls : ℕ
  pub files : Files

-- The response: its length, if the server gives one, and what its successive reads return.
pub record Response : Type 0 where
  pub content_length : Option ℕ
  pub reads : Replies

pub record UrlParts : Type 0 where
  pub scheme : Text
  pub host : Option Text
