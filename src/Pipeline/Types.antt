-- ===== src/Pipeline/Types.antt =====
-- The data of src/pipeline.rs, and the calls that `run_pipeline` makes.
use snapdog_os_installer.Prelude.{ℕ, Bool, Option, List, Bytes, Text}
use snapdog_os_installer.Prelude.Result.{Result}
use snapdog_os_installer.Prelude.Exec.{Exec}
use snapdog_os_installer.Flash.Types.{IoError, FlashError, FlashProgress}
use snapdog_os_installer.Flash.Prepare.{PrepareIo}
use snapdog_os_installer.Download.Types.{
  DownloadRequest, DownloadProgress, DownloadReport, DownloadError,
}
use snapdog_os_installer.Worker.Types.{FilePath, WorkerDrive, WorkerJob, WorkerProgress}

pub record PipelineRequest : Type 0 where
  pub image_url : Text
  pub expected_compressed_sha256 : Option Text
  pub expected_compressed_size : Option ℕ
  pub expected_raw_size : Option ℕ
  pub expected_raw_sha256 : Option Text
  pub drive : WorkerDrive
  pub verify : Bool

pub data PipelineEvent : Type 0 where
  download : DownloadProgress → PipelineEvent
  preparing : FlashProgress → PipelineEvent
  awaiting_authorization : PipelineEvent
  worker : WorkerProgress → PipelineEvent

pub record PipelineReport : Type 0 where
  pub bytes_downloaded : ℕ
  pub compressed_sha256 : Text
  pub raw_size : ℕ
  pub raw_sha256 : Text
  pub verified : Bool

pub data PipelineControlError : Type 0 where
  unavailable : PipelineControlError
  io : IoError → PipelineControlError

pub data WorkerRunnerError : Type 0 where
  authorization_denied unsupported : WorkerRunnerError
  io : IoError → WorkerRunnerError
  invalid_progress : Text → WorkerRunnerError
  failed : Text × Text → WorkerRunnerError

-- `HttpError` stands for `reqwest::Error`, and `Text` for `serde_json::Error`.
pub data PipelineError (HttpError : Type 0) : Type 0 where
  already_running cancelled missing_terminal_event : PipelineError HttpError
  target_too_small : ℕ × ℕ → PipelineError HttpError
  download : DownloadError HttpError → PipelineError HttpError
  preparation : FlashError → PipelineError HttpError
  control : PipelineControlError → PipelineError HttpError
  serialization : Text → PipelineError HttpError
  io : IoError → PipelineError HttpError
  runner : WorkerRunnerError → PipelineError HttpError
  worker_failed : Text → PipelineError HttpError

pub record MarkerPaths : Type 0 where
  pub cancel : FilePath
  pub skip_verification : FilePath

pub record WorkerLaunch : Type 0 where
  pub job_path : FilePath
  pub progress_path : FilePath
  pub cancel_path : FilePath
  pub skip_verification_path : FilePath
  pub target_device : Text
  pub macos_target_socket : Option FilePath

-- A temporary directory: as a path, and as the text of the path.
pub record Directory : Type 0 where
  pub path : FilePath
  pub name : Text

-- What the worker does with a launch: the progress it reports, and how the call of it ends.
pub record Answer : Type 0 where
  pub progress : List WorkerProgress
  pub result : Result WorkerRunnerError Unit

-- The calls out of `run_pipeline`, on a world of which nothing else is known.
pub record PipelineIo (HttpError W : Type 0) : Type 0 where
  pub temp_dir : Exec W IoError Directory
  pub restrict_directory : Directory → Exec W IoError Unit
  pub remove_directory : Directory → W → W
  pub download : DownloadRequest → Exec W (DownloadError HttpError) DownloadReport
  pub prepare : FilePath → FilePath → PrepareIo W
  pub create_new : FilePath → Exec W IoError Unit
  pub open_write : FilePath → Exec W IoError Unit
  pub set_private_file_permissions : FilePath → Exec W IoError Unit
  pub write_all : FilePath → Bytes → Exec W IoError Unit
  pub sync_all : FilePath → Exec W IoError Unit
  pub is_already_exists : IoError → Bool
  pub to_vec : WorkerJob → Result Text Bytes
  pub run_worker : WorkerLaunch → W → Answer × W
  pub load_cancelled : W → Bool × W
  pub load_skip_verification : W → Bool × W
  pub lock_markers : W → Bool × W
  pub emit : PipelineEvent → W → W

-- A launch: what the runner was given, the world that it was called on, and what the worker did.
pub record Launched (W : Type 0) : Type 0 where
  pub launch : WorkerLaunch
  pub world : W
  pub answer : Answer

-- `ControlInner`, less the two flags that other threads set, and the launches so far, the last one
-- first.
pub record Control (W : Type 0) : Type 0 where
  pub active : Bool
  pub markers : Option MarkerPaths
  pub launches : List (Launched W)

pub record State (W : Type 0) : Type 0 where
  pub control : Control W
  pub world : W
