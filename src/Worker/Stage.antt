-- ===== src/Worker/Stage.antt =====
-- `open_raw_image` (the Unix build) and `stage_raw_image` of src/worker.rs.
use snapdog_os_installer.Prelude.{
  ℕ, Bool, not, ◌||◌, ◌&&◌, none, some, [], ◌∷◌, ◌++◌, Bytes, text, ◌==◌, ltb, length, checked_add,
  eq_ignore_ascii_case,
}
use snapdog_os_installer.Prelude.Result.{ok, err, ok_or}
use snapdog_os_installer.Prelude.Exec.{Exec, pure, raise, lift, fail_if, map_error, ◌>>=◌, ◌>>◌}
use snapdog_os_installer.Flash.Types.{IoError, FlashError, Crypto, Replies}
use snapdog_os_installer.Worker.Types.{
  WorkerJob, WorkerError, WorkerProgress, WorkerPhase, invalid_job, flash,
  worker_progress_schema_version,
}
use snapdog_os_installer.Worker.Trace.{Op, Env, World, call}
use snapdog_os_installer.Worker.Signals.{refresh_and_check}
use snapdog_os_installer.Worker.Job.{unreadable}

abbrev pub io_failed : IoError → WorkerError
io_failed error = flash (FlashError.io error)

-- `progress.emit(&event)`
unfoldable pub emit : Env → WorkerProgress → Exec World WorkerError Unit
unfolding call
emit env event = map_error WorkerError.progress (call (Op.emit event) env.emit)

unfoldable pub open_raw_image : Env → WorkerJob → Exec World WorkerError Unit
unfolding call
open_raw_image env job = do
  named ← map_error unreadable (call Op.inspect_raw env.raw_metadata)
  fail_if (named.is_symlink || not named.is_file)
      (invalid_job (text "raw image path must be a non-symlink regular file"))
  map_error unreadable (call Op.open_raw env.open_raw)
  opened ← map_error unreadable (call Op.inspect_raw env.opened_metadata)
  fail_if (not opened.is_file || not (opened.len == job.raw_size))
      (invalid_job (text "raw image changed after preparation"))
  fail_if (not (named.dev == opened.dev) || not (named.ino == opened.ino))
      (invalid_job (text "raw image changed while it was opened"))

abbrev pub staging_progress : ℕ → ℕ → WorkerProgress
staging_progress copied raw_size = record {
  schema_version = worker_progress_schema_version;
  phase = WorkerPhase.validating_image;
  bytes_processed = some copied;
  total_bytes = some raw_size;
  raw_sha256 = none;
  verified = none;
  message = none;
}

module _ (c : Crypto) (env : Env) (job : WorkerJob) where
  abbrev pub signals_checked : Exec World WorkerError Unit
  signals_checked = refresh_and_check env job.cancel_path job.skip_verification_path

  -- The loop that copies: the bytes hashed so far and their number.
  unfoldable pub stage_loop : Replies → Bytes → ℕ → Exec World WorkerError (Bytes × ℕ)
  unfolding call emit
  stage_loop [] hashed copied = do signals_checked; pure (hashed, copied)
  stage_loop (err e ∷ rest) hashed copied = do signals_checked; raise (io_failed e)
  stage_loop (ok [] ∷ rest) hashed copied = do signals_checked; pure (hashed, copied)
  stage_loop (ok (b ∷ bs) ∷ rest) hashed copied = do
    signals_checked
    next ← lift (ok_or (checked_add copied (length (b ∷ bs))) (flash FlashError.verification))
    fail_if (ltb job.raw_size next) (flash FlashError.verification)
    map_error io_failed (call (Op.stage (b ∷ bs)) env.stage)
    emit env (staging_progress next job.raw_size)
    stage_loop rest (hashed ++ (b ∷ bs)) next

  -- The copy has the size and the digest that the job expects.
  unfoldable pub matches_job : Bytes → ℕ → Bool
  unfolding eq_ignore_ascii_case
  matches_job hashed copied =
      copied == job.raw_size
      && eq_ignore_ascii_case (c.hex_encode (c.sha256 hashed)) job.expected_raw_sha256

  unfoldable pub stage_raw_image : Exec World WorkerError Bytes
  unfolding open_raw_image stage_loop matches_job
  stage_raw_image = do
    open_raw_image env job
    map_error io_failed (call Op.create_staging env.tempfile)
    (hashed, copied) ← stage_loop env.raw_reads [] 0
    fail_if (not (matches_job hashed copied)) (flash FlashError.verification)
    map_error io_failed (call Op.sync_staging env.sync_staging)
    map_error io_failed (call Op.rewind_staging env.rewind_staging)
    pure hashed
