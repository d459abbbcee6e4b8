-- ===== src/Worker/Run.antt =====
-- `run_and_report`, `run_job` and `run_after_unmount` of src/worker.rs.
use snapdog_os_installer.Prelude.{
  Bool, true, false, ◌&&◌, Option, none, some, Bytes, ◌==◌, eq_ignore_ascii_case, if◌then◌else◌,
}
use snapdog_os_installer.Prelude.Result.{Result, ok, err}
use snapdog_os_installer.Prelude.Exec.{
  Exec, pure, raise, lift, modify, attempt, map_error, ◌>>=◌, ◌>>◌,
}
use snapdog_os_installer.Flash.Types.{FlashReport, FlashProgress, FlashError, Crypto}
use snapdog_os_installer.Flash.Write.{FlashIo, FlashWriteOptions, write_raw_from_with_prepare}
use snapdog_os_installer.Worker.Types.{
  WorkerDrive, WorkerJob, WorkerError, WorkerPhase, phase, completed_report, failed_report,
  progress_from_flash, flash, compare_drive,
}
use snapdog_os_installer.Worker.Trace.{Op, Env, World, call, call_validate_target}
use snapdog_os_installer.Worker.Signals.{refresh, is_cancelled, refresh_and_check}
use snapdog_os_installer.Worker.Job.{validate_job}
use snapdog_os_installer.Worker.Stage.{emit, io_failed, stage_raw_image}

-- `signals.request_cancel(); callback_error = Some(error);`
abbrev pub keep_failure : Result WorkerError Unit → World → World
keep_failure (ok done) w = w
keep_failure (err error) w = record w { cancelled = true; callback_error = some error }

module _ (c : Crypto) (env : Env) (job : WorkerJob) where
  abbrev pub check_signals : Exec World WorkerError Unit
  check_signals = refresh_and_check env job.cancel_path job.skip_verification_path

  -- The body of the progress callback.
  unfoldable pub callback_body : FlashProgress → Exec World WorkerError Unit
  unfolding refresh emit
  callback_body update = do
    refresh env job.cancel_path job.skip_verification_path
    emit env (progress_from_flash update)

  abbrev pub guarded_callback : Option WorkerError → FlashProgress → World → World
  guarded_callback (some error) update w = w
  guarded_callback none update w =
      keep_failure (callback_body update w).0 (callback_body update w).1

  unfoldable pub progress_callback : FlashProgress → World → World
  unfolding callback_body
  progress_callback update w = guarded_callback w.callback_error update w

  -- The open staged copy and the open target, as `write_raw_from_with_prepare` uses them.
  abbrev pub flash_io : Bytes → FlashIo World
  flash_io staged = record {
    input_len = call Op.measure_image (λ h. env.staged_len staged);
    seek_input = call Op.seek_image env.seek_image;
    reads = env.staged_reads staged;
    seek_target = call Op.seek_target env.seek_target;
    write_all = λ x. call (Op.write x) (env.write x);
    flush = call Op.flush_target env.flush_target;
    readback = env.target_reads;
    load_cancelled = λ w. (w.cancelled, w);
    load_skip = λ w. (w.skip_verification, w);
    progress = progress_callback;
  }

  abbrev pub options : FlashWriteOptions
  options = record { target_capacity = job.drive.capacity; verify = job.verify }

  abbrev pub prepare_verification : Exec World FlashError Unit
  prepare_verification = call Op.prepare_verification env.prepare_verification

  -- `let _ = target.sync_all(); drop(target); return Err(error);`
  unfoldable pub abandon_target : {A : Type 0} → WorkerError → Exec World WorkerError A
  unfolding call
  abandon_target error = do attempt (call Op.sync_target env.sync_target); raise error

  unfoldable pub no_callback_error : Option WorkerError → Exec World WorkerError Unit
  unfolding abandon_target
  no_callback_error none = pure tt
  no_callback_error (some error) = abandon_target error

  unfoldable pub not_cancelled : Result WorkerError Bool → Exec World WorkerError Unit
  unfolding abandon_target
  not_cancelled (ok true) = abandon_target WorkerError.cancelled
  not_cancelled (ok false) = pure tt
  not_cancelled (err error) = abandon_target error

  -- The report that is accepted is about the whole image of the job.
  unfoldable pub matches_report : FlashReport → Bool
  unfolding eq_ignore_ascii_case
  matches_report report =
      report.bytes_written == job.raw_size
      && eq_ignore_ascii_case report.raw_sha256 job.expected_raw_sha256

  unfoldable pub accept_report : Result FlashError FlashReport → Exec World WorkerError FlashReport
  unfolding abandon_target matches_report
  accept_report (ok report) =
      if matches_report report then pure report else abandon_target (flash FlashError.verification)
  accept_report (err error) = abandon_target (flash error)

  unfoldable pub synced_or_abandoned : Result WorkerError Unit → Exec World WorkerError Unit
  unfolding abandon_target
  synced_or_abandoned (ok done) = pure tt
  synced_or_abandoned (err error) = abandon_target error

  -- `callback_error`, which nothing but the callback writes.
  unfoldable pub get_callback_error : Exec World WorkerError (Option WorkerError)
  get_callback_error w = (ok w.callback_error, w)

  -- From the acceptance of the report.
  unfoldable pub finish_job : FlashReport → Exec World WorkerError FlashReport
  unfolding synced_or_abandoned emit call
  finish_job report = do
    syncing ← attempt (emit env (phase WorkerPhase.syncing))
    synced_or_abandoned syncing
    map_error io_failed (call Op.sync_target env.sync_target)
    emit env (phase WorkerPhase.ejecting)
    call Op.eject env.eject
    emit env (completed_report report)
    pure report

  -- From the return of `write_raw_from_with_prepare`.
  unfoldable pub settle_flash : Result FlashError FlashReport → Exec World WorkerError FlashReport
  unfolding no_callback_error not_cancelled accept_report finish_job get_callback_error is_cancelled
  settle_flash flash_result = do
    failure ← get_callback_error
    no_callback_error failure
    cancelled ← attempt (is_cancelled env job.cancel_path job.skip_verification_path)
    not_cancelled cancelled
    report ← accept_report flash_result
    finish_job report

  unfoldable pub confirm_target : Exec World WorkerError Unit
  unfolding call_validate_target compare_drive
  confirm_target = do current ← call_validate_target env; lift (compare_drive job.drive current)

  unfoldable pub run_after_unmount : Bytes → Exec World WorkerError FlashReport
  unfolding confirm_target settle_flash refresh_and_check emit call progress_callback
      write_raw_from_with_prepare
  run_after_unmount staged = do
    check_signals
    emit env (phase WorkerPhase.validating_target)
    confirm_target
    call Op.open_target env.open_target
    modify (λ w. record w { callback_error = none })
    flash_result ←
        attempt (write_raw_from_with_prepare c (flash_io staged) options prepare_verification)
    settle_flash flash_result

  -- `if result.is_err() { let _ = platform.eject(&job.drive); } result`
  unfoldable pub settle_eject : {A : Type 0} → Result WorkerError A → Exec World WorkerError A
  unfolding call
  settle_eject (ok a) = pure a
  settle_eject (err error) = do attempt (call Op.eject env.eject); raise error

  unfoldable pub run_job : (WorkerDrive → Bool) → Exec World WorkerError FlashReport
  unfolding validate_job stage_raw_image confirm_target run_after_unmount settle_eject
      refresh_and_check emit call
  run_job valid_worker_drive = do
    validate_job valid_worker_drive env job
    modify (λ w. record w { cancelled = false; skip_verification = false })
    check_signals
    emit env (phase WorkerPhase.validating_image)
    staged ← stage_raw_image c env job
    call Op.validate_image env.validate_image
    check_signals
    emit env (phase WorkerPhase.validating_target)
    confirm_target
    check_signals
    emit env (phase WorkerPhase.unmounting)
    unmounted ← attempt (call Op.unmount env.unmount)
    settle_eject unmounted
    result ← attempt (run_after_unmount staged)
    settle_eject result

  unfoldable pub report_failure :
      Result WorkerError FlashReport → Exec World WorkerError FlashReport
  unfolding emit
  report_failure (ok report) = pure report
  report_failure (err error) = do emit env (failed_report env.display error); raise error

  unfoldable pub run_and_report : (WorkerDrive → Bool) → Exec World WorkerError FlashReport
  unfolding run_job report_failure
  run_and_report valid_worker_drive = do
    result ← attempt (run_job valid_worker_drive)
    report_failure result
