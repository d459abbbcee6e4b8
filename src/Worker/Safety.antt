-- ===== src/Worker/Safety.antt =====
-- `run_job` and `run_and_report` of src/worker.rs: the order of the destructive steps, whatever the
-- files, the markers, the platform and the target answer.
use snapdog_os_installer.Prelude.{
  ◌≡◌, refl, ◌⊎◌, inl, inr, Bool, true, false, [], ◌∷◌, ◌∙◌, Bytes, sym, ap, subst,
}
use snapdog_os_installer.Prelude.Result.{Result, ok, err}
use snapdog_os_installer.Prelude.Exec.{
  Exec, attempt, map_error, convert, ◌>>=◌, ◌>>◌, Post, Triple, Triple-bind, Triple-post,
  Triple-pure, Triple-raise, Triple-modify, Triple-attempt, Triple-attempt_same, Triple-lift,
  Triple-assume,
}
use snapdog_os_installer.Flash.Types.{IoError, Crypto, FlashReport}
use snapdog_os_installer.Flash.Contract.{Fits}
use snapdog_os_installer.Worker.Types.{
  WorkerDrive, WorkerJob, WorkerError, WorkerPhase, phase, failed_report, failure_phase,
}
use snapdog_os_installer.Worker.Trace.{History, succeeded, Op, called, Env, World, call}
use snapdog_os_installer.Worker.Job.{validate_job, unreadable}
use snapdog_os_installer.Worker.Stage.{emit}
use snapdog_os_installer.Worker.Run.{
  check_signals, settle_eject, run_job, report_failure, run_and_report, run_after_unmount,
}
use snapdog_os_installer.Worker.Monitor.{View, start, view, Safe, IsImage, AllowedEmit}
use snapdog_os_installer.Worker.Calls.{
  At, Fault, At-Fault, call_lem, weaken, emit_lem, refresh_and_check_lem,
}
use snapdog_os_installer.Worker.Staging.{staged_view, mapped_call, fail_if_lem, stage_raw_image_lem}
use snapdog_os_installer.Worker.Writing.{IsRegular}
use snapdog_os_installer.Worker.Outcome.{Outcome, phase_allowed}
use snapdog_os_installer.Worker.Settle.{unmounted_view, confirm_lem, run_after_unmount_lem}

module _ (c : Crypto) (env : Env) (job : WorkerJob) where
  -- What an error leaves behind: if an unmount was tried, an eject was tried after it.
  pub record Aborted (w : World) : Type 0 where
    pub safe : Safe c job w.history
    pub cleaned_up :
        (view c job w.history).tried_unmount ≡ true → (view c job w.history).tried_eject ≡ true

  Fault-Aborted : (w : World) → Fault c job false w → Aborted w
  Fault-Aborted w f = record { safe = f.safe; cleaned_up = λ h. cc (f.tried) }

  At-Aborted : (v : View) → v.tried_eject ≡ true → (w : World) → At c job v w → Aborted w
  At-Aborted v e w a = record {
    safe = a.safe;
    cleaned_up = λ _. ap (λ (x : View). x.tried_eject) a.seen ∙ e;
  }

  eject_lem :
      {A : Type 0} {Q : A → World → Type 0} (error : WorkerError) (v : View)
      → v.tried_unmount ≡ true
      → Triple (At c job v) (settle_eject c env job (err error)) Q (λ _. Aborted)
  unfolding settle_eject
  eject_lem error v tried =
      Triple-bind (λ _. Aborted)
        (Triple-attempt_same Aborted (
          Triple-post
            (λ _ w a. At-Aborted (record v { tried_eject = true; ejected = true }) refl w a)
            (λ _ w a. At-Aborted (record v { tried_eject = true; ejected = false }) refl w a)
            (call_lem c job Op.eject env.eject v tried)))
        λ _. Triple-raise error λ w a. a

  settle_eject_lem :
      {A : Type 0} (Q : A → World → Type 0) (r : Result WorkerError A)
      → Triple (Post Q (λ _. Fault c job true) r) (settle_eject c env job r) Q (λ _. Aborted)
  unfolding settle_eject
  settle_eject_lem Q (ok a) = Triple-pure a λ w q. q
  settle_eject_lem Q (err error) = record {
    at = λ w f.
        (eject_lem error (view c job w.history) f.tried).at w
          (record { safe = f.safe; seen = refl });
  }

  early :
      {A : Type 0} {P : World → Type 0} {m : Exec World WorkerError A} {Q : A → World → Type 0}
      → Triple P m Q (λ _. Fault c job false)
      → Triple P m Q (λ _. Aborted)
  early t = Triple-post (λ a w q. q) (λ e w f. Fault-Aborted w f) t

  validate_lem :
      (valid : WorkerDrive → Bool)
      → Triple
          (At c job start)
          (validate_job valid env job)
          (λ _. At c job start)
          (λ _. Fault c job false)
  unfolding validate_job
  validate_lem valid =
      Triple-bind (λ _. At c job start)
        (Triple-post (λ _ w q. q.0) (λ _ w q. q) (Triple-lift _ λ _ w a. At-Fault c job start w a))
        λ _.
          Triple-bind (λ _. At c job start)
            (mapped_call c job unreadable Op.inspect_raw env.raw_metadata start tt)
            λ raw.
              Triple-bind (λ _. At c job start)
                (Triple-post (λ _ w q. q.0) (λ _ w q. q) (fail_if_lem c job _ _ start))
                λ _. Triple-post (λ _ w q. q.0) (λ _ w q. q) (fail_if_lem c job _ _ start)

  ready_view : Bytes → View
  ready_view b = record (staged_view b) { confirmed = true }

  -- From the staged image to the end.
  from_staged : (b : Bytes) → Exec World WorkerError FlashReport
  from_staged b = do
    check_signals c env job
    emit env (phase WorkerPhase.unmounting)
    unmounted ← attempt (call Op.unmount env.unmount)
    settle_eject c env job unmounted
    result ← attempt (run_after_unmount c env job b)
    settle_eject c env job result

  from_staged_lem :
      (b : Bytes)
      → IsRegular env
      → Fits env.target_reads
      → IsImage c job b
      → Triple (At c job (ready_view b)) (from_staged b) (Outcome c env job) (λ _. Aborted)
  unfolding from_staged ready_view
  from_staged_lem b regular fits image =
      Triple-bind (λ _. At c job (ready_view b))
        (early (
          weaken c job (
            refresh_and_check_lem c job env job.cancel_path job.skip_verification_path
              (ready_view b))))
        λ _.
          Triple-bind (λ _. At c job (ready_view b))
            (early (
              weaken c job (
                emit_lem c job env _ (ready_view b)
                  (phase_allowed c env job (ready_view b) WorkerPhase.unmounting tt))))
            λ _.
              Triple-bind _
                (Triple-attempt (
                  weaken c job (
                    call_lem c job Op.unmount env.unmount (ready_view b)
                      (record { image = image; same_target = refl }))))
                λ unmounted.
                  Triple-bind (λ _. At c job (unmounted_view b))
                    (settle_eject_lem (λ _. At c job (unmounted_view b)) unmounted)
                    λ _.
                      Triple-bind _
                        (Triple-attempt (run_after_unmount_lem c env job b image regular fits))
                        λ result. settle_eject_lem (Outcome c env job) result

  -- The worker's contract. Whatever the files, the markers, the platform and the target answer, the
  -- history is one that the monitor allows; a returned report is true and everything is done; and
  -- after an error, a target whose unmount was tried has had an eject tried.
  pub run_job_lem :
      (valid : WorkerDrive → Bool)
      → IsRegular env
      → Fits env.target_reads
      → Triple (At c job start) (run_job c env job valid) (Outcome c env job) (λ _. Aborted)
  unfolding run_job from_staged ready_view
  run_job_lem valid regular fits =
      Triple-bind (λ _. At c job start) (early (validate_lem valid))
        λ _.
          Triple-bind (λ _. At c job start)
            (Triple-modify _ λ w a. record { safe = a.safe; seen = a.seen })
            λ _.
              Triple-bind (λ _. At c job start) (early (checked start refl))
                λ _.
                  Triple-bind (λ _. At c job start)
                    (early (announced start WorkerPhase.validating_image tt refl))
                    λ _.
                      Triple-bind (λ b w. At c job (staged_view b) w × IsImage c job b)
                        (early (stage_raw_image_lem c env job))
                        λ b. Triple-assume λ image.
                          Triple-bind (λ _. At c job (staged_view b))
                            (early (
                              weaken c job (
                                call_lem c job Op.validate_image env.validate_image (staged_view b)
                                  tt)))
                            λ _.
                              Triple-bind (λ _. At c job (staged_view b))
                                (early (checked (staged_view b) refl))
                                λ _.
                                  Triple-bind (λ _. At c job (staged_view b))
                                    (early (
                                      announced (staged_view b) WorkerPhase.validating_target tt
                                        refl))
                                    λ _.
                                      Triple-bind (λ _. At c job (ready_view b))
                                        (early (confirm_lem c env job (staged_view b)))
                                        λ _. from_staged_lem b regular fits image
    where
      checked :
          (v : View)
          → v.tried_unmount ≡ false
          → Triple (At c job v) (check_signals c env job) (λ _. At c job v) (λ _. Fault c job false)
      checked v e =
          subst
            (λ (x : Bool).
              Triple (At c job v) (check_signals c env job) (λ _. At c job v) (λ _. Fault c job x))
            e
            (weaken c job
              (refresh_and_check_lem c job env job.cancel_path job.skip_verification_path v))

      announced :
          (v : View) (p : WorkerPhase)
          → AllowedEmit c job v p
          → v.tried_unmount ≡ false
          → Triple (At c job v) (emit env (phase p)) (λ _. At c job v) (λ _. Fault c job false)
      announced v p allowed e =
          subst
            (λ (x : Bool).
              Triple (At c job v) (emit env (phase p)) (λ _. At c job v) (λ _. Fault c job x))
            e (weaken c job (emit_lem c job env _ v (phase_allowed c env job v p allowed)))

  -- The last call has told the GUI of this error; or it tried to tell the GUI of an error, and the
  -- error at hand is the failure of that very call.
  abbrev pub Announced : WorkerError → World → Type 0
  Announced error w =
      ((h : History) × (w.history ≡ called (Op.emit (failed_report env.display error)) true ∷ h))
      ⊎ ((p : WorkerError) × (e : IoError) × (h : History) × (w.history
            ≡ called (Op.emit (failed_report env.display p)) false ∷ h)
          × (env.emit h ≡ err e)
          × (error ≡ WorkerError.progress e))

  failure_allowed : (v : View) (error : WorkerError) → AllowedEmit c job v (failure_phase error)
  failure_allowed v WorkerError.cancelled = tt
  failure_allowed v _ = tt

  Aborted-note :
      (p : WorkerError) (done : Bool) (w : World)
      → Aborted w
      → Aborted
          (record w { history = called (Op.emit (failed_report env.display p)) done ∷ w.history })
  unfolding failed_report phase
  Aborted-note p done w a = record {
    safe = (failure_allowed (view c job w.history) p, a.safe);
    cleaned_up = a.cleaned_up;
  }

  announce_lem :
      (error : WorkerError)
      → Triple Aborted
          (emit env (failed_report env.display error))
          (λ _ w. Aborted w × Announced error w)
          (λ e w. Aborted w × Announced e w)
  unfolding emit call map_error
  announce_lem error = record { at = λ w a. go w (env.emit w.history) refl a }
    where
      go :
          (w : World) (r : Result IoError Unit)
          → env.emit w.history ≡ r
          → Aborted w
          → let s : Result WorkerError Unit × World = convert WorkerError.progress (
            r,
            record w {
              history =
                  called (Op.emit (failed_report env.display error)) (succeeded r) ∷ w.history;
            },
          ) in
            Post
              (λ _ w'. Aborted w' × Announced error w')
              (λ e w'. Aborted w' × Announced e w')
              s.0
              s.1
      go w (ok u) q a = (Aborted-note error true w a, inl (w.history, refl))
      go w (err e) q a = (Aborted-note error false w a, inr (error, e, w.history, refl, q, refl))

  report_failure_lem :
      (r : Result WorkerError FlashReport)
      → Triple
          (Post (Outcome c env job) (λ _. Aborted) r)
          (report_failure c env job r)
          (Outcome c env job)
          (λ error w. Aborted w × Announced error w)
  unfolding report_failure
  report_failure_lem (ok report) = Triple-pure report λ w o. o
  report_failure_lem (err error) =
      Triple-bind (λ _ w. Aborted w × Announced error w) (announce_lem error)
        λ _. Triple-raise error λ w a. a

  fresh : (w : World) → w.history ≡ [] → At c job start w
  fresh w e = record {
    safe = subst (λ (h : History). Safe c job h) (sym e) tt;
    seen = ap (view c job) e;
  }

  -- From an empty history, whatever the files, the markers, the platform and the target answer, the
  -- worker unmounts only after the staged copy has the size and the digest of the job and the platform
  -- has reported the very drive of the job, opens and writes the target only when that drive was
  -- reported again after the unmount, writes the staged bytes in order, and announces completion only
  -- when all of them are written, synced and ejected. A returned report is true of the image. After an
  -- error, a target whose unmount was tried has had an eject tried, and the last call announces that
  -- error; or it is the attempt to announce an error that failed, and the error returned is its
  -- failure. The staged copy is read like a regular file, and no read of the target overfills its
  -- buffer.
  pub run_and_report_lem :
      (valid : WorkerDrive → Bool) (w : World)
      → IsRegular env
      → Fits env.target_reads
      → w.history ≡ []
      → let s : Result WorkerError FlashReport × World = run_and_report c env job valid w in
        Post (Outcome c env job) (λ error w'. Aborted w' × Announced error w') s.0 s.1
  unfolding run_and_report
  run_and_report_lem valid w regular fits e =
      (Triple-bind _ (Triple-attempt (run_job_lem valid regular fits)) report_failure_lem).at w
        (fresh w e)
