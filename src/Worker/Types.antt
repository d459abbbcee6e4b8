-- ===== src/Worker/Types.antt =====
-- The data of src/worker.rs.
use snapdog_os_installer.Prelude.{
  ℕ, Bool, true, false, ◌&&◌, Option, none, some, List, [], ◌∷◌, ◌=ᵗ◌, all, ◌==◌, length,
  if◌then◌else◌, Text, is_ascii_hexdigit,
}
use snapdog_os_installer.Prelude.Result.{Result, ok, err}
use snapdog_os_installer.Flash.Types.{IoError, FlashError, FlashReport, FlashProgress, FlashStage}

abbrev pub worker_job_schema_version : ℕ
worker_job_schema_version = 1

abbrev pub worker_progress_schema_version : ℕ
worker_progress_schema_version = 1

-- `std::path::Component` on Unix, and a path as the list of its components.
pub data Component : Type 0 where
  root_dir cur_dir parent_dir : Component
  normal : Text → Component

abbrev pub same_component : Component → Component → Bool
same_component root_dir root_dir = true
same_component cur_dir cur_dir = true
same_component parent_dir parent_dir = true
same_component (normal a) (normal b) = a =ᵗ b
same_component _ _ = false

abbrev pub FilePath : Type 0
FilePath = List Component

abbrev pub is_absolute : FilePath → Bool
is_absolute (root_dir ∷ rest) = true
is_absolute (cur_dir ∷ rest) = false
is_absolute (parent_dir ∷ rest) = false
is_absolute (normal name ∷ rest) = false
is_absolute [] = false

pub record WorkerDrive : Type 0 where
  pub id : Text
  pub device : Text
  pub capacity : ℕ

pub data ProgressDestination : Type 0 where
  stdout : ProgressDestination
  file : FilePath → ProgressDestination

pub record WorkerJob : Type 0 where
  pub schema_version : ℕ
  pub drive : WorkerDrive
  pub raw_path : FilePath
  pub raw_size : ℕ
  pub verify : Bool
  pub expected_raw_sha256 : Text
  pub progress : ProgressDestination
  pub cancel_path : Option FilePath
  pub skip_verification_path : Option FilePath
  pub macos_target_socket : Option FilePath

pub data WorkerPhase : Type 0 where
  validating_image validating_target unmounting writing verifying syncing ejecting : WorkerPhase
  completed cancelled failed : WorkerPhase

pub record WorkerProgress : Type 0 where
  pub schema_version : ℕ
  pub phase : WorkerPhase
  pub bytes_processed : Option ℕ
  pub total_bytes : Option ℕ
  pub raw_sha256 : Option Text
  pub verified : Option Bool
  pub message : Option Text

pub data WorkerError : Type 0 where
  invalid_job : Text → WorkerError
  raw_device_disabled not_root target_missing target_changed unsafe_target cancelled : WorkerError
  progress : IoError → WorkerError
  platform : Text → WorkerError
  flash : FlashError → WorkerError

unfoldable pub phase : WorkerPhase → WorkerProgress
phase p = record {
  schema_version = worker_progress_schema_version;
  phase = p;
  bytes_processed = none;
  total_bytes = none;
  raw_sha256 = none;
  verified = none;
  message = none;
}

unfoldable pub completed_report : FlashReport → WorkerProgress
unfolding phase
completed_report report = record (phase WorkerPhase.completed) {
  bytes_processed = some report.bytes_written;
  total_bytes = some report.bytes_written;
  raw_sha256 = some report.raw_sha256;
  verified = some report.verified;
}

abbrev pub failure_phase : WorkerError → WorkerPhase
failure_phase WorkerError.cancelled = WorkerPhase.cancelled
failure_phase _ = WorkerPhase.failed

-- `error.to_string()` is the text that the derive of `thiserror` displays.
unfoldable pub failed_report : (WorkerError → Text) → WorkerError → WorkerProgress
unfolding phase
failed_report display error = record (phase (failure_phase error)) {
  message = some (display error);
}

abbrev pub stage_phase : FlashStage → WorkerPhase
stage_phase FlashStage.decompressing = WorkerPhase.validating_image
stage_phase FlashStage.writing = WorkerPhase.writing
stage_phase FlashStage.verifying = WorkerPhase.verifying

unfoldable pub progress_from_flash : FlashProgress → WorkerProgress
progress_from_flash update = record {
  schema_version = worker_progress_schema_version;
  phase = stage_phase update.stage;
  bytes_processed = some update.processed;
  total_bytes = update.total;
  raw_sha256 = none;
  verified = none;
  message = none;
}

unfoldable pub valid_sha256 : Text → Bool
valid_sha256 value = length value == 64 && all is_ascii_hexdigit value

-- The derived `==` of `WorkerDrive`.
unfoldable pub same_drive : WorkerDrive → WorkerDrive → Bool
same_drive a b = a.id =ᵗ b.id && a.device =ᵗ b.device && a.capacity == b.capacity

unfoldable pub compare_drive : WorkerDrive → WorkerDrive → Result WorkerError Unit
unfolding same_drive
compare_drive selected current = if same_drive selected current then ok tt else err target_changed
