-- ===== src/Worker/Staging.antt =====
-- `stage_raw_image` of src/worker.rs: what it stages is the image that the job names.
use snapdog_os_installer.Prelude.{
  ℕ, ◌+◌, ◌≡◌, refl, Bool, true, false, not, [], ◌∷◌, ◌++◌, Bytes, length, length-append, arith,
  checked_add,
}
use snapdog_os_installer.Prelude.Result.{Result, ok, err, ok_or}
use snapdog_os_installer.Prelude.Exec.{
  pure, map_error, fail_if, ◌>>◌, Triple, Triple-bind, Triple-raise, Triple-pure, Triple-post,
  Triple-map_error, Triple-lift, Triple-assume, Triple-fail_if,
}
use snapdog_os_installer.Flash.Types.{Crypto, Replies, verification}
use snapdog_os_installer.Worker.Types.{WorkerJob, WorkerError, flash}
use snapdog_os_installer.Worker.Trace.{Op, called, Env, World, History, call}
use snapdog_os_installer.Worker.Stage.{
  open_raw_image, stage_loop, stage_raw_image, matches_job, signals_checked, io_failed,
}
use snapdog_os_installer.Worker.Monitor.{View, start, step, Allowed, IsImage}
use snapdog_os_installer.Worker.Calls.{
  At, Fault, At-Fault, call_lem, weaken, emit_lem, refresh_and_check_lem,
}

-- The view when these bytes are staged.
abbrev pub staged_view : Bytes → View
staged_view b = record start { staged = b }

module _ (c : Crypto) (job : WorkerJob) where
  pub mapped_call :
      {E F A : Type 0} (f : E → F) (op : Op) (reply : History → Result E A) (v : View)
      → Allowed c job v op
      → Triple
          (At c job v)
          (map_error f (call op reply))
          (λ _. At c job (step c job v (called op true)))
          (λ _. Fault c job (step c job v (called op false)).tried_unmount)
  mapped_call f op reply v allowed =
      Triple-map_error f (weaken c job (call_lem c job op reply v allowed))

  pub fail_if_lem :
      {E : Type 0} (bad : Bool) (e : E) (v : View)
      → Triple
          (At c job v)
          (fail_if bad e)
          (λ _ w. At c job v w × (bad ≡ false))
          (λ _. Fault c job v.tried_unmount)
  fail_if_lem bad e v = Triple-fail_if bad e λ w a. At-Fault c job v w a

module _ (c : Crypto) (env : Env) (job : WorkerJob) where
  open_raw_lem :
      Triple
        (At c job start)
        (open_raw_image env job)
        (λ _. At c job start)
        (λ _. Fault c job false)
  unfolding open_raw_image
  open_raw_lem =
      Triple-bind (λ _. At c job start)
        (mapped_call c job _ Op.inspect_raw env.raw_metadata start tt)
        λ named.
          Triple-bind (λ _. At c job start)
            (Triple-post (λ _ w q. q.0) (λ e w q. q) (fail_if_lem c job _ _ start))
            λ _.
              Triple-bind (λ _. At c job start)
                (mapped_call c job _ Op.open_raw env.open_raw start tt)
                λ _.
                  Triple-bind (λ _. At c job start)
                    (mapped_call c job _ Op.inspect_raw env.opened_metadata start tt)
                    λ opened.
                      Triple-bind (λ _. At c job start)
                        (Triple-post (λ _ w q. q.0) (λ e w q. q) (fail_if_lem c job _ _ start))
                        λ _. Triple-post (λ _ w q. q.0) (λ e w q. q) (fail_if_lem c job _ _ start)

  abbrev Copied : Bytes × ℕ → World → Type 0
  Copied done w = At c job (staged_view done.0) w × (done.1 ≡ length done.0)

  checked_lem :
      (b : Bytes)
      → Triple
          (At c job (staged_view b))
          (signals_checked c env job)
          (λ _. At c job (staged_view b))
          (λ _. Fault c job false)
  checked_lem b =
      weaken c job
        (refresh_and_check_lem c job env job.cancel_path job.skip_verification_path (staged_view b))

  stop :
      (b : Bytes) (n : ℕ)
      → n ≡ length b
      → Triple
          (At c job (staged_view b))
          (do signals_checked c env job; pure (b, n))
          Copied
          (λ _. Fault c job false)
  stop b n e =
      Triple-bind (λ _. At c job (staged_view b)) (checked_lem b)
        λ _. Triple-pure (b, n) λ w a. (a, e)

  checked_add-length :
      (n : ℕ) (b x : Bytes) (e : WorkerError) (next : ℕ)
      → n ≡ length b
      → ok_or (checked_add n (length x)) e ≡ ok next
      → next ≡ length (b ++ x)
  checked_add-length n b x e next l h =
      let sum : n + length x ≡ next = ground arith in omega (arith, length-append b x)

  stage_loop_lem :
      (replies : Replies) (b : Bytes) (n : ℕ)
      → n ≡ length b
      → Triple
          (At c job (staged_view b))
          (stage_loop c env job replies b n)
          Copied
          (λ _. Fault c job false)
  unfolding stage_loop
  stage_loop_lem [] b n e = stop b n e
  stage_loop_lem (err x ∷ rest) b n e =
      Triple-bind (λ _. At c job (staged_view b)) (checked_lem b)
        λ _. Triple-raise _ λ w a. At-Fault c job (staged_view b) w a
  stage_loop_lem (ok [] ∷ rest) b n e = stop b n e
  stage_loop_lem (ok (x ∷ xs) ∷ rest) b n e =
      Triple-bind (λ _. At c job (staged_view b)) (checked_lem b)
        λ _.
          Triple-bind
            (λ next w.
              At c job (staged_view b) w
              × (ok_or (checked_add n (length (x ∷ xs))) (flash verification) ≡ ok next))
            (Triple-lift _ λ _ w a. At-Fault c job (staged_view b) w a)
            λ next. Triple-assume λ h.
              Triple-bind (λ _. At c job (staged_view b))
                (Triple-post (λ _ w q. q.0) (λ e w q. q) (fail_if_lem c job _ _ (staged_view b)))
                λ _.
                  Triple-bind (λ _. At c job (staged_view (b ++ (x ∷ xs))))
                    (mapped_call c job io_failed (Op.stage (x ∷ xs)) env.stage (staged_view b) tt)
                    λ _.
                      Triple-bind (λ _. At c job (staged_view (b ++ (x ∷ xs))))
                        (weaken c job (emit_lem c job env _ (staged_view (b ++ (x ∷ xs))) tt))
                        λ _.
                          stage_loop_lem rest (b ++ (x ∷ xs)) next
                            (checked_add-length n b (x ∷ xs) (flash verification) next e h)

  matches-IsImage :
      (b : Bytes) (n : ℕ) → n ≡ length b → not (matches_job c env job b n) ≡ false → IsImage c job b
  unfolding matches_job
  matches-IsImage b n e h = record { size = ground arith; digest = ground arith }

  -- What comes out of the staging step is the image that the job names, and nothing else has been
  -- done to the surroundings that the monitor watches.
  pub stage_raw_image_lem :
      Triple
        (At c job start)
        (stage_raw_image c env job)
        (λ b w. At c job (staged_view b) w × IsImage c job b)
        (λ _. Fault c job false)
  unfolding stage_raw_image
  stage_raw_image_lem =
      Triple-bind (λ _. At c job start) open_raw_lem
        λ _.
          Triple-bind (λ _. At c job start)
            (mapped_call c job io_failed Op.create_staging env.tempfile start tt)
            λ _. Triple-bind Copied (stage_loop_lem env.raw_reads [] 0 refl) λ (hashed, copied).
              Triple-assume λ e.
                Triple-bind
                  (λ _ w.
                    At c job (staged_view hashed) w
                    × (not (matches_job c env job hashed copied) ≡ false))
                  (fail_if_lem c job _ _ (staged_view hashed))
                  λ _. Triple-assume λ m.
                    Triple-bind (λ _. At c job (staged_view hashed))
                      (mapped_call c job io_failed Op.sync_staging env.sync_staging
                        (staged_view hashed) tt)
                      λ _.
                        Triple-bind (λ _. At c job (staged_view hashed))
                          (mapped_call c job io_failed Op.rewind_staging env.rewind_staging
                            (staged_view hashed) tt)
                          λ _. Triple-pure hashed λ w a. (a, matches-IsImage hashed copied e m)
