-- ===== src/Worker/Outcome.antt =====
-- `run_after_unmount` of src/worker.rs under the monitor, on every way out.
use snapdog_os_installer.Prelude.{
  ◌≡◌, refl, Bool, true, false, Option, none, some, [], ◌∷◌, ◌∙◌, append-nil, Bytes, Prefix, length,
  length-append, sym, ap, subst, arith,
}
use snapdog_os_installer.Prelude.Result.{Result, ok, err}
use snapdog_os_installer.Prelude.Exec.{
  Exec, Triple, Triple-bind, Triple-post, Triple-pure, Triple-raise, Triple-attempt_same, Triple-if,
}
use snapdog_os_installer.Flash.Types.{FlashError, Crypto, FlashReport}
use snapdog_os_installer.Flash.Contract.{IsReport}
use snapdog_os_installer.Worker.Types.{
  WorkerJob, WorkerError, WorkerPhase, phase, completed_report, flash,
}
use snapdog_os_installer.Worker.Trace.{Op, Env, World}
use snapdog_os_installer.Worker.Stage.{io_failed}
use snapdog_os_installer.Worker.Run.{
  abandon_target, no_callback_error, not_cancelled, matches_report, accept_report,
  synced_or_abandoned, finish_job,
}
use snapdog_os_installer.Worker.Monitor.{View, view, Safe, IsImage, IsDone, AllowedEmit}
use snapdog_os_installer.Worker.Calls.{At, Fault, At-Fault, call_lem, weaken, emit_lem}
use snapdog_os_installer.Worker.Staging.{mapped_call}
use snapdog_os_installer.Worker.Writing.{written_view}

pub Prefix-full : (xs ys : Bytes) → Prefix xs ys → length xs ≡ length ys → xs ≡ ys
Prefix-full xs ys ([], e) h = sym (append-nil xs) ∙ e
Prefix-full xs ys (r ∷ rs, e) h = absurd (omega (arith, length-append xs (r ∷ rs), ap length e))

module _ (c : Crypto) (env : Env) (job : WorkerJob) where
  -- What `Ok(report)` means: the surroundings are in the state that the monitor calls done, and the
  -- report is true of the image that the job names.
  pub record Outcome (report : FlashReport) (w : World) : Type 0 where
    pub safe : Safe c job w.history
    pub done : IsDone c job (view c job w.history)
    pub truthful : IsReport c (view c job w.history).staged env.target_reads report

  -- The end of `run_after_unmount`, from any state in which an unmount was tried.
  module _ (v : View) (tried : v.tried_unmount ≡ true) where
    to_fault :
        (v' : View) → v'.tried_unmount ≡ true → (w : World) → At c job v' w → Fault c job true w
    to_fault v' e w a = record { safe = a.safe; tried = (At-Fault c job v' w a).tried ∙ e }

    fault :
        {E A : Type 0} {m : Exec World E A} {Q : A → World → Type 0}
        → Triple (At c job v) m Q (λ _. At c job v)
        → Triple (At c job v) m Q (λ _. Fault c job true)
    fault t = Triple-post (λ a w q. q) (λ e w q. to_fault v tried w q) t

    abandon_lem :
        {A : Type 0} (error : WorkerError)
        → Triple
            (At c job v)
            (abandon_target c env job {A = A} error)
            (λ _ _. ⊥)
            (λ _. Fault c job true)
    unfolding abandon_target
    abandon_lem error =
        Triple-bind (λ _. Fault c job true)
          (Triple-attempt_same (Fault c job true) (
            Triple-post (λ _ w a. to_fault (record v { synced = true }) tried w a)
              (λ _ w a. to_fault v tried w a) (call_lem c job Op.sync_target env.sync_target v tt)))
          λ r. Triple-raise error λ w a. a

    abandoned :
        {A : Type 0} {Q : A → World → Type 0} (error : WorkerError)
        → Triple (At c job v) (abandon_target c env job error) Q (λ _. Fault c job true)
    abandoned error = Triple-post (λ a w x. absurd x) (λ e w x. x) (abandon_lem error)

    pub no_callback_lem :
        (o : Option WorkerError)
        → Triple
            (At c job v)
            (no_callback_error c env job o)
            (λ _. At c job v)
            (λ _. Fault c job true)
    unfolding no_callback_error
    no_callback_lem none = Triple-pure tt λ w a. a
    no_callback_lem (some e) = abandoned e

    pub not_cancelled_lem :
        (r : Result WorkerError Bool)
        → Triple (At c job v) (not_cancelled c env job r) (λ _. At c job v) (λ _. Fault c job true)
    unfolding not_cancelled
    not_cancelled_lem (ok true) = abandoned WorkerError.cancelled
    not_cancelled_lem (ok false) = Triple-pure tt λ w a. a
    not_cancelled_lem (err e) = abandoned e

    pub accept_lem :
        (r : Result FlashError FlashReport)
        → Triple
            (At c job v)
            (accept_report c env job r)
            (λ report w.
              At c job v w × ((r ≡ ok report) × (matches_report c env job report ≡ true)))
            (λ _. Fault c job true)
    unfolding accept_report
    accept_lem (ok report) =
        Triple-if (matches_report c env job report) (λ m. Triple-pure report λ w a. (a, (refl, m)))
          (λ _. abandoned (flash FlashError.verification))
    accept_lem (err e) = abandoned (flash e)

    synced_lem :
        (r : Result WorkerError Unit)
        → Triple
            (At c job v)
            (synced_or_abandoned c env job r)
            (λ _. At c job v)
            (λ _. Fault c job true)
    unfolding synced_or_abandoned
    synced_lem (ok u) = Triple-pure tt λ w a. a
    synced_lem (err e) = abandoned e

  pub phase_allowed :
      (v : View) (p : WorkerPhase) → AllowedEmit c job v p → AllowedEmit c job v (phase p).phase
  unfolding phase
  phase_allowed v p a = a

  completed_allowed :
      (v : View) (report : FlashReport)
      → IsDone c job v
      → AllowedEmit c job v (completed_report report).phase
  unfolding completed_report
  completed_allowed v report d = d

  module _ (b : Bytes) (image : IsImage c job b) where
    -- The view when the whole image is written, synced and ejected.
    abbrev done_view : View
    done_view = record (written_view b b) { synced = true; tried_eject = true; ejected = true }

    is_done : IsDone c job done_view
    is_done = record { image = image; all_written = refl; synced = refl; ejected = refl }

    pub finish_job_lem :
        (report : FlashReport)
        → IsReport c b env.target_reads report
        → Triple
            (At c job (written_view b b))
            (finish_job c env job report)
            Outcome
            (λ _. Fault c job true)
    unfolding finish_job
    finish_job_lem report truth =
        Triple-bind (λ _. At c job v)
          (Triple-attempt_same (At c job v)
            (emit_lem c job env _ v (phase_allowed v WorkerPhase.syncing tt)))
          λ r.
            Triple-bind (λ _. At c job v) (synced_lem v refl r)
              λ _.
                Triple-bind (λ _. At c job (record v { synced = true }))
                  (mapped_call c job io_failed Op.sync_target env.sync_target v tt)
                  λ _.
                    Triple-bind (λ _. At c job (record v { synced = true }))
                      (weaken c job (
                        emit_lem c job env _ (record v { synced = true })
                          (phase_allowed (record v { synced = true }) WorkerPhase.ejecting tt)))
                      λ _.
                        Triple-bind (λ _. At c job done_view)
                          (weaken c job
                            (call_lem c job Op.eject env.eject (record v { synced = true }) refl))
                          λ _.
                            Triple-bind (λ _. At c job done_view)
                              (weaken c job (
                                emit_lem c job env _ done_view
                                  (completed_allowed done_view report is_done)))
                              λ _. Triple-pure report λ w a. record {
                                safe = a.safe;
                                done = subst (λ (x : View). IsDone c job x) (sym a.seen) is_done;
                                truthful =
                                    subst
                                      (λ (x : View). IsReport c x.staged env.target_reads report)
                                      (sym a.seen) truth;
                              }
      where
        v : View
        v = written_view b b
