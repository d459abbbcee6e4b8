-- ===== src/Worker/Writing.antt =====
-- `write_raw_from_with_prepare` under the worker's callbacks: the worker meets its contract.
use snapdog_os_installer.Prelude.{
  refl, true, Option, none, some, [], ◌++◌, ◌∙◌, append_assoc, Bytes, Prefix, sym, ap,
}
use snapdog_os_installer.Prelude.Result.{Result, ok, err}
use snapdog_os_installer.Prelude.Exec.{Exec, Post, Triple, Triple-bind}
use snapdog_os_installer.Flash.Types.{FlashProgress, FlashStage, Crypto, contents}
use snapdog_os_installer.Flash.Write.{write_raw_from_with_prepare}
use snapdog_os_installer.Flash.Contract.{FlashContract, Fits, IsReport}
use snapdog_os_installer.Flash.Report.{write_raw_from_with_prepare_lem}
use snapdog_os_installer.Worker.Types.{WorkerJob, WorkerError, progress_from_flash, stage_phase}
use snapdog_os_installer.Worker.Trace.{Op, Env, World}
use snapdog_os_installer.Worker.Run.{
  callback_body, guarded_callback, progress_callback, keep_failure, flash_io, options,
  prepare_verification,
}
use snapdog_os_installer.Worker.Monitor.{View, start, IsImage, IsNextWrite, AllowedEmit}
use snapdog_os_installer.Worker.Calls.{
  At, Fault, At-Fault, Keeps, call_lem, weaken, emit_lem, refresh_lem,
}

-- The view when `x` of the image `b` has been written to the open target.
abbrev pub written_view : Bytes → Bytes → View
written_view b x = record start {
  staged = b;
  written = x;
  tried_unmount = true;
  unmounted = true;
  confirmed = true;
  opened = true;
}

-- A private regular file returns the bytes that it holds, in order.
pub record IsRegular (env : Env) : Type 0 where
  pub reads : (b : Bytes) → Prefix (contents (env.staged_reads b)) b

module _ (c : Crypto) (env : Env) (job : WorkerJob) where
  stage_phase_lem : (v : View) (stage : FlashStage) → AllowedEmit c job v (stage_phase stage)
  stage_phase_lem v FlashStage.decompressing = tt
  stage_phase_lem v FlashStage.writing = tt
  stage_phase_lem v FlashStage.verifying = tt

  update_phase : (v : View) (p : FlashProgress) → AllowedEmit c job v (progress_from_flash p).phase
  unfolding progress_from_flash
  update_phase v p = stage_phase_lem v p.stage

  callback_lem : (v : View) (p : FlashProgress) → Keeps c job v (callback_body c env job p)
  unfolding callback_body
  callback_lem v p =
      Triple-bind (λ _. At c job v)
        (refresh_lem c job env job.cancel_path job.skip_verification_path v)
        λ _. emit_lem c job env (progress_from_flash p) v (update_phase v p)

  keep_lem :
      (v : View) (r : Result WorkerError Unit) (w : World)
      → Post (λ _. At c job v) (λ _. At c job v) r w
      → At c job v (keep_failure r w)
  keep_lem v (ok u) w a = a
  keep_lem v (err e) w a = record { safe = a.safe; seen = a.seen }

  guarded_lem :
      (v : View) (o : Option WorkerError) (p : FlashProgress) (w : World)
      → At c job v w
      → At c job v (guarded_callback c env job o p w)
  guarded_lem v none p w a =
      keep_lem v (callback_body c env job p w).0 (callback_body c env job p w).1
        ((callback_lem v p).at w a)
  guarded_lem v (some e) p w a = a

  progress_lem :
      (v : View) (p : FlashProgress) (w : World)
      → At c job v w
      → At c job v (progress_callback c env job p w)
  unfolding progress_callback
  progress_lem v p w a = guarded_lem v w.callback_error p w a

  next_write :
      (b x y : Bytes) → IsImage c job b → Prefix (x ++ y) b → IsNextWrite c job (written_view b x) y
  next_write b x y image p = record {
    writable = record { ready = record { image = image; same_target = refl }; unmounted = refl };
    opened = refl;
    in_order = p;
  }

  Prefix-trans : (x y z : Bytes) → Prefix x y → Prefix y z → Prefix x z
  Prefix-trans x y z (r, e) (s, f) =
      (r ++ s, sym (append_assoc x r s) ∙ ap (λ (l : Bytes). l ++ s) e ∙ f)

  module _ (b : Bytes) (image : IsImage c job b) (regular : IsRegular env) where
    quiet :
        {E A : Type 0} {m : Exec World E A} (x : Bytes)
        → Keeps c job (written_view b x) m
        → Triple
            (At c job (written_view b x))
            m
            (λ _. At c job (written_view b x))
            (λ _. Fault c job true)
    quiet x t = weaken c job t

    worker_contract :
        FlashContract
          (flash_io c env job b)
          (prepare_verification c env job)
          (λ x. At c job (written_view b x))
          (Fault c job true)
    worker_contract = record {
      abandon = λ x w a. At-Fault c job (written_view b x) w a;
      input_len = quiet [] (call_lem c job Op.measure_image _ (written_view b []) tt);
      seek_input = quiet [] (call_lem c job Op.seek_image _ (written_view b []) tt);
      seek_start = quiet [] (call_lem c job Op.seek_target _ (written_view b []) tt);
      write_all = λ x y p. weaken c job (
          call_lem c job (Op.write y) (env.write y) (written_view b x)
            (next_write b x y image (Prefix-trans _ _ _ p (regular.reads b))));
      flush = quiet _ (call_lem c job Op.flush_target _ (written_view b _) tt);
      prepare = quiet _ (call_lem c job Op.prepare_verification _ (written_view b _) tt);
      seek_again = quiet _ (call_lem c job Op.seek_target _ (written_view b _) tt);
      load_cancelled = λ x w a. a;
      load_skip = λ x w a. a;
      progress = λ x p w a. progress_lem (written_view b x) p w a;
    }

    -- A report of the writing step says that the target took the staged bytes.
    pub writing_lem :
        Fits env.target_reads
        → Triple
            (At c job (written_view b []))
            (write_raw_from_with_prepare c
              (flash_io c env job b)
              (options c env job)
              (prepare_verification c env job))
            (λ report w.
              IsReport c (contents (env.staged_reads b)) env.target_reads report
              × At c job (written_view b (contents (env.staged_reads b))) w)
            (λ _. Fault c job true)
    writing_lem fits =
        write_raw_from_with_prepare_lem c (flash_io c env job b) worker_contract (options c env job)
          fits
