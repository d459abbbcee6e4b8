-- ===== src/Worker/Job.antt =====
-- `validate_job` of src/worker.rs. `valid_worker_drive` is that of the platform built for.
use snapdog_os_installer.Prelude.{
  show, Bool, false, not, ◌||◌, ◌++◌, text, ◌==◌, ltb, is_some_and, if◌then◌else◌,
}
use snapdog_os_installer.Prelude.Result.{Result, ok, err}
use snapdog_os_installer.Prelude.Exec.{Exec, lift, fail_if, map_error, ◌>>=◌, ◌>>◌}
use snapdog_os_installer.Flash.Types.{IoError}
use snapdog_os_installer.Worker.Types.{
  WorkerDrive, WorkerJob, WorkerError, invalid_job, ProgressDestination, stdout, file, is_absolute,
  valid_sha256, worker_job_schema_version,
}
use snapdog_os_installer.Worker.Trace.{Op, Env, World, call}

abbrev pub relative_progress : ProgressDestination → Bool
relative_progress stdout = false
relative_progress (file path) = not (is_absolute path)

-- Some path of the job is not absolute.
unfoldable pub has_relative_path : WorkerJob → Bool
has_relative_path job =
    not (is_absolute job.raw_path)
    || is_some_and job.cancel_path (λ path. not (is_absolute path))
    || is_some_and job.skip_verification_path (λ path. not (is_absolute path))
    || relative_progress job.progress
    || is_some_and job.macos_target_socket (λ path. not (is_absolute path))

-- The tests up to the one of the sizes, which need no file system.
unfoldable pub validate_fields : (WorkerDrive → Bool) → WorkerJob → Result WorkerError Unit
unfolding has_relative_path valid_sha256
validate_fields valid_worker_drive job =
    if not (job.schema_version == worker_job_schema_version)
    then err (invalid_job (text "unsupported schema version " ++ show job.schema_version))
    else if not (valid_worker_drive job.drive)
    then err (invalid_job (text "invalid whole-disk identity"))
    else if not (valid_sha256 job.expected_raw_sha256)
    then err (invalid_job (text "expected raw SHA-256 must contain 64 hexadecimal characters"))
    else if has_relative_path job
    then err (invalid_job (text "worker file paths must be absolute"))
    else if job.raw_size == 0 || ltb job.drive.capacity job.raw_size
    then err (invalid_job (text "raw image size must fit the selected target"))
    else ok tt

abbrev pub unreadable : IoError → WorkerError
unreadable error = invalid_job (text "raw image is not readable: " ++ error)

unfoldable pub validate_job : (WorkerDrive → Bool) → Env → WorkerJob → Exec World WorkerError Unit
unfolding validate_fields
validate_job valid_worker_drive env job = do
  lift (validate_fields valid_worker_drive job)
  raw ← map_error unreadable (call Op.inspect_raw env.raw_metadata)
  fail_if (raw.is_symlink || not raw.is_file)
      (invalid_job (text "raw image path must be a non-symlink regular file"))
  fail_if (not (raw.len == job.raw_size))
      (invalid_job (text "raw image size changed after preparation"))
