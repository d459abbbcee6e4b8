-- ===== src/Pipeline/Job.antt =====
-- `build_worker_job` of src/pipeline.rs and the tests of a request, and the drive that a request of
-- src/app.rs names.
use snapdog_os_installer.Prelude.{Option, some, ltb}
use snapdog_os_installer.Prelude.Result.{Result, reject_if}
use snapdog_os_installer.Model.{Drive}
use snapdog_os_installer.Flash.Types.{FlashError, PreparedImage}
use snapdog_os_installer.Download.Types.{DownloadError}
use snapdog_os_installer.Worker.Types.{
  FilePath, WorkerDrive, WorkerJob, worker_job_schema_version, file,
}
use snapdog_os_installer.Pipeline.Types.{PipelineRequest, PipelineError, target_too_small}

-- The drive as `pipeline_request` of src/app.rs hands it on.
abbrev pub worker_drive : Drive → WorkerDrive
worker_drive drive = record { id = drive.id; device = drive.device; capacity = drive.capacity }

unfoldable pub build_worker_job :
    PipelineRequest
    → PreparedImage
    → FilePath
    → FilePath
    → FilePath
    → FilePath
    → Option FilePath
    → WorkerJob
build_worker_job request prepared raw_path progress_path cancel_path skip_path macos_target_socket =
    record {
      schema_version = worker_job_schema_version;
      drive = request.drive;
      raw_path = raw_path;
      raw_size = prepared.bytes;
      verify = request.verify;
      expected_raw_sha256 = prepared.raw_sha256;
      progress = file progress_path;
      cancel_path = some cancel_path;
      skip_verification_path = some skip_path;
      macos_target_socket = macos_target_socket;
    }

module _ {H : Type 0} where
  abbrev pub map_download_error : DownloadError H → PipelineError H
  map_download_error DownloadError.cancelled = PipelineError.cancelled
  map_download_error error = PipelineError.download error

  abbrev pub map_preparation_error : FlashError → PipelineError H
  map_preparation_error FlashError.cancelled = PipelineError.cancelled
  map_preparation_error error = PipelineError.preparation error

  unfoldable pub ensure_target_capacity :
      PreparedImage → WorkerDrive → Result (PipelineError H) Unit
  ensure_target_capacity prepared drive =
      reject_if (ltb drive.capacity prepared.bytes)
        (target_too_small (prepared.bytes, drive.capacity))
