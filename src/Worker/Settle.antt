-- ===== src/Worker/Settle.antt =====
-- `settle_flash`, `confirm_target` and `run_after_unmount` of src/worker.rs under the monitor.
use snapdog_os_installer.Prelude.{
  ◌≡◌, refl, Bool, true, some, [], ◌∷◌, ◌∙◌, Bytes, sym, ap, subst, arith,
}
use snapdog_os_installer.Prelude.Result.{Result, ok, err}
use snapdog_os_installer.Prelude.Exec.{
  Post, Triple, Triple-bind, Triple-post, Triple-modify, Triple-attempt, Triple-attempt_same,
  Triple-lift, Triple-assume, Triple-pre,
}
use snapdog_os_installer.Flash.Types.{FlashError, Crypto, FlashReport, contents}
use snapdog_os_installer.Flash.Contract.{Fits, IsReport}
use snapdog_os_installer.Worker.Types.{
  WorkerDrive, WorkerJob, WorkerError, WorkerPhase, compare_drive, same_drive,
}
use snapdog_os_installer.Worker.Trace.{
  Op, reported, Env, World, call_validate_target, reported_drive,
}
use snapdog_os_installer.Worker.Run.{
  matches_report, get_callback_error, settle_flash, finish_job, confirm_target, run_after_unmount,
}
use snapdog_os_installer.Worker.Monitor.{View, start, step, view, IsImage}
use snapdog_os_installer.Worker.Calls.{
  At, Fault, At-Fault, call_lem, weaken, emit_lem, refresh_and_check_lem, is_cancelled_lem,
}
use snapdog_os_installer.Worker.Writing.{IsRegular, written_view, writing_lem}
use snapdog_os_installer.Worker.Outcome.{
  Outcome, Prefix-full, no_callback_lem, not_cancelled_lem, accept_lem, finish_job_lem,
  phase_allowed,
}

-- The view when the image is staged and the volumes are unmounted.
abbrev pub unmounted_view : Bytes → View
unmounted_view b = record start { staged = b; tried_unmount = true; unmounted = true }

module _ (c : Crypto) (env : Env) (job : WorkerJob) where
  -- The drive that the platform reports is compared with the one that was selected.
  same_of_compare :
      (d : WorkerDrive) {u : Unit}
      → compare_drive job.drive d ≡ ok u
      → same_drive job.drive d ≡ true
  unfolding compare_drive
  same_of_compare d h = ground arith

  reported_lem :
      (v : View)
      → Triple
          (At c job v)
          (call_validate_target env)
          (λ d. At c job (record v { confirmed = same_drive job.drive d }))
          (λ _. Fault c job v.tried_unmount)
  unfolding call_validate_target
  reported_lem v = record { at = λ w a. go w (env.validate_target w.history) a }
    where
      go :
          (w : World) (r : Result WorkerError WorkerDrive)
          → At c job v w
          → Post
              (λ d. At c job (record v { confirmed = same_drive job.drive d }))
              (λ _. Fault c job v.tried_unmount)
              r
              (record w { history = reported (reported_drive r) ∷ w.history })
      go w (ok d) a = record {
        safe = (tt, a.safe);
        seen = ap (λ (x : View). step c job x (reported (some d))) a.seen;
      }
      go w (err e) a = record {
        safe = (tt, a.safe);
        tried = ap (λ (x : View). x.tried_unmount) a.seen;
      }

  pub confirm_lem :
      (v : View)
      → Triple
          (At c job v)
          (confirm_target c env job)
          (λ _. At c job (record v { confirmed = true }))
          (λ _. Fault c job v.tried_unmount)
  unfolding confirm_target
  confirm_lem v =
      Triple-bind (λ d. At c job (record v { confirmed = same_drive job.drive d })) (reported_lem v)
        λ d.
          Triple-post
            (λ _ w q.
              subst (λ (b : Bool). At c job (record v { confirmed = b }) w) (same_of_compare d q.1)
                q.0)
            (λ _ w q. q)
            (Triple-lift (compare_drive job.drive d)
              λ _ w a. At-Fault c job (record v { confirmed = same_drive job.drive d }) w a)

  accepted_size :
      (report : FlashReport)
      → matches_report c env job report ≡ true
      → report.bytes_written ≡ job.raw_size
  unfolding matches_report
  accepted_size report h = ground arith

  module _ (b : Bytes) (image : IsImage c job b) (regular : IsRegular env) where
    abbrev Flashed : FlashReport → View → Type 0
    Flashed report v =
        IsReport c (contents (env.staged_reads b)) env.target_reads report
        × (v ≡ written_view b (contents (env.staged_reads b)))

    -- The report that is accepted is about all of the staged bytes.
    whole :
        (report : FlashReport) (v : View)
        → Flashed report v
        → matches_report c env job report ≡ true
        → contents (env.staged_reads b) ≡ b
    whole report v f m =
        Prefix-full _ b (regular.reads b)
          (sym f.0.all_written ∙ accepted_size report m ∙ sym image.size)

    settle_lem :
        (v : View) (r : Result FlashError FlashReport)
        → v.tried_unmount ≡ true
        → ((report : FlashReport) → r ≡ ok report → Flashed report v)
        → Triple (At c job v) (settle_flash c env job r) (Outcome c env job) (λ _. Fault c job true)
    unfolding settle_flash get_callback_error
    settle_lem v r tried truth =
        Triple-bind (λ _. At c job v) (record { at = λ w a. a })
          λ failure.
            Triple-bind (λ _. At c job v) (no_callback_lem c env job v tried failure)
              λ _.
                Triple-bind (λ _. At c job v)
                  (Triple-attempt_same (At c job v)
                    (is_cancelled_lem c job env job.cancel_path job.skip_verification_path v))
                  λ cancelled.
                    Triple-bind (λ _. At c job v) (not_cancelled_lem c env job v tried cancelled)
                      λ _.
                        Triple-bind
                          (λ report w.
                            At c job v w
                            × ((r ≡ ok report) × (matches_report c env job report ≡ true)))
                          (accept_lem c env job v tried r)
                          λ report. Triple-assume λ h. last report (truth report h.0) h.1
      where
        last :
            (report : FlashReport)
            → Flashed report v
            → matches_report c env job report ≡ true
            → Triple
                (At c job v)
                (finish_job c env job report)
                (Outcome c env job)
                (λ _. Fault c job true)
        last report f m =
            let all : contents (env.staged_reads b) ≡ b = whole report v f m in
            Triple-pre (λ w a. subst (λ (x : View). At c job x w) (f.1 ∙ ap (written_view b) all) a)
              (finish_job_lem c env job b image report
                (subst (λ (x : Bytes). IsReport c x env.target_reads report) all f.0))

    -- What `write_raw_from_with_prepare` returned, and the state that it left.
    settle_flashed :
        (r : Result FlashError FlashReport)
        → Triple
            (Post
              (λ report w.
                IsReport c (contents (env.staged_reads b)) env.target_reads report
                × At c job (written_view b (contents (env.staged_reads b))) w)
              (λ _. Fault c job true)
              r)
            (settle_flash c env job r)
            (Outcome c env job)
            (λ _. Fault c job true)
    settle_flashed (ok report) = record {
      at = λ w p.
          (settle_lem (written_view b (contents (env.staged_reads b))) (ok report) refl (λ other e.
              (
                subst
                    (λ (x : FlashReport).
                      IsReport c (contents (env.staged_reads b)) env.target_reads x)
                    (cc e) p.0,
                refl,
              ))).at
            w p.1;
    }
    settle_flashed (err e) = record {
      at = λ w f.
          (settle_lem (view c job w.history) (err e) f.tried (λ other h. cc)).at w
            (record { safe = f.safe; seen = refl });
    }

    pub run_after_unmount_lem :
        Fits env.target_reads
        → Triple
            (At c job (unmounted_view b))
            (run_after_unmount c env job b)
            (Outcome c env job)
            (λ _. Fault c job true)
    unfolding run_after_unmount
    run_after_unmount_lem fits =
        Triple-bind (λ _. At c job (unmounted_view b))
          (weaken c job (
            refresh_and_check_lem c job env job.cancel_path job.skip_verification_path
              (unmounted_view b)))
          λ _.
            Triple-bind (λ _. At c job (unmounted_view b))
              (weaken c job (
                emit_lem c job env _ (unmounted_view b)
                  (phase_allowed c env job (unmounted_view b) WorkerPhase.validating_target tt)))
              λ _.
                Triple-bind (λ _. At c job confirmed_view) (confirm_lem (unmounted_view b))
                  λ _.
                    Triple-bind (λ _. At c job (written_view b []))
                      (weaken c job (
                        call_lem c job Op.open_target env.open_target confirmed_view (record {
                          ready = record { image = image; same_target = refl };
                          unmounted = refl;
                        })))
                      λ _.
                        Triple-bind (λ _. At c job (written_view b []))
                          (Triple-modify _ λ w a. record { safe = a.safe; seen = a.seen })
                          λ _.
                            Triple-bind _
                              (Triple-attempt (writing_lem c env job b image regular fits))
                              λ r. settle_flashed r
      where
        confirmed_view : View
        confirmed_view = record (unmounted_view b) { confirmed = true }
