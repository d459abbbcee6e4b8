-- ===== src/Pipeline/Run/Steps.antt =====
-- The steps of `run_pipeline` of src/pipeline.rs: which leave the launches alone, and what they return.
use snapdog_os_installer.Prelude.{◌≡◌, refl, Bool, true, false, Option, none, some, List}
use snapdog_os_installer.Prelude.Result.{Result, ok, err, map_err}
use snapdog_os_installer.Prelude.Exec.{
  Exec, lift, fail_if, ◌>>=◌, Post, convert, map_error, Triple, Triple-bind, Triple-lift,
  Triple-assume, Triple-fail_if, Triple-post,
}
use snapdog_os_installer.Flash.Prepare.{PrepareIo, PrepareContract}
use snapdog_os_installer.Worker.Types.{WorkerProgress, WorkerPhase, completed}
use snapdog_os_installer.Pipeline.Types.{
  PipelineError, PipelineIo, Launched, State, WorkerRunnerError,
}
use snapdog_os_installer.Pipeline.Run.{
  verified_or_missing, conclusion, conclude, within, ask, ensure_not_cancelled,
}

-- Any call at all meets the contract that promises nothing.
module _ {S E A : Type 0} where
  Post-anything : (r : Result E A) (s : S) → Post (λ _ _. Unit) (λ _ _. Unit) r s
  Post-anything (ok a) s = tt
  Post-anything (err e) s = tt

  pub anything : (m : Exec S E A) → Triple (λ _. Unit) m (λ _ _. Unit) (λ _ _. Unit)
  anything m = record { at = λ s _. Post-anything (m s).0 (m s).1 }

abbrev pub no_contract :
    {W : Type 0} (t : PrepareIo W)
    → PrepareContract t (λ _. Unit) (λ _ _. Unit) (λ _. Unit) (λ _. Unit)
no_contract t = record {
  open_archive = anything t.open_archive;
  create_raw = anything t.create_raw;
  write_all = λ b x. anything (t.write_all x);
  flush = λ b. anything t.flush;
  remove_raw = anything t.remove_raw;
  abandon = λ b w i. tt;
  load_cancelled = λ b w i. tt;
  progress = λ b p w i. tt;
}

-- `conclude` accepts nothing but a completion that says whether it verified.
abbrev pub IsCompletion : Option WorkerProgress → Bool → Type 0
IsCompletion terminal verified =
    (p : WorkerProgress) × (terminal ≡ some p)
    × (p.phase ≡ completed)
    × (p.verified ≡ some verified)

module _ {H : Type 0} where
  verified_completion :
      (progress : WorkerProgress) (b : Bool) (phase : WorkerPhase)
      → ◌≡◌ {A = Result (PipelineError H) Bool} (conclusion phase progress) (ok b)
      → (phase ≡ completed) × (progress.verified ≡ some b)
  verified_completion progress b completed h = (refl, missing progress.verified h)
    where
      missing :
          (v : Option Bool)
          → ◌≡◌ {A = Result (PipelineError H) Bool} (verified_or_missing v) (ok b)
          → v ≡ some b
      missing none h = cc
      missing (some v) h = cc
  verified_completion progress b WorkerPhase.validating_image h = cc
  verified_completion progress b WorkerPhase.validating_target h = cc
  verified_completion progress b WorkerPhase.unmounting h = cc
  verified_completion progress b WorkerPhase.writing h = cc
  verified_completion progress b WorkerPhase.verifying h = cc
  verified_completion progress b WorkerPhase.syncing h = cc
  verified_completion progress b WorkerPhase.ejecting h = cc
  verified_completion progress b WorkerPhase.cancelled h = cc
  verified_completion progress b WorkerPhase.failed h = cc

  pub conclude-IsCompletion :
      (terminal : Option WorkerProgress) (b : Bool)
      → ◌≡◌ {A = Result (PipelineError H) Bool} (conclude terminal) (ok b)
      → IsCompletion terminal b
  unfolding conclude
  conclude-IsCompletion none b h = cc
  conclude-IsCompletion (some p) b h =
      let (e, v) = verified_completion p b p.phase h in (p, refl, e, v)

  pub result_ok :
      (r : Result WorkerRunnerError Unit)
      → ◌≡◌ {A = Result (PipelineError H) Unit} (map_err PipelineError.runner r) (ok tt)
      → r ≡ ok tt
  result_ok (ok u) h = refl
  result_ok (err e) h = cc

-- What is known of the launches while the guard is there.
abbrev pub Holds : {W : Type 0} → (List (Launched W) → Type 0) → State W → Type 0
Holds L s = (s.control.active ≡ true) × L s.control.launches

-- And once the guard is dropped.
abbrev pub After : {W : Type 0} → (List (Launched W) → Type 0) → State W → Type 0
After L s = (s.control.active ≡ false) × L s.control.launches

module _ (H : Type 0) (W : Type 0) (L : List (Launched W) → Type 0) where
  abbrev pub Keeps : {A : Type 0} → Exec (State W) (PipelineError H) A → (A → Type 0) → Type 0
  Keeps m Y = Triple (Holds L) m (λ a s. Holds L s × Y a) (λ _. Holds L)

  within_Post :
      {E A : Type 0} (Y : A → Type 0) (f : E → PipelineError H) (r : Result E A × W) (s : State W)
      → Holds L s
      → Post (λ a _. Y a) (λ _ _. Unit) r.0 r.1
      → Post
          (λ a t. Holds L t × Y a)
          (λ _. Holds L)
          (convert f r).0
          (record s { world = (convert f r).1 })
  within_Post Y f (ok a, w) s h y = (h, y)
  within_Post Y f (err e, w) s h y = h

  -- What a call on the world is known to return, and that it leaves the control alone.
  pub within_knows :
      {E A : Type 0} (Y : A → Type 0) (f : E → PipelineError H) (m : Exec W E A)
      → Triple (λ _. Unit) m (λ a _. Y a) (λ _ _. Unit)
      → Keeps (within f m) Y
  unfolding within map_error
  within_knows Y f m k = record { at = λ s h. within_Post Y f (m s.world) s h (k.at s.world tt) }

  pub within_lem :
      {E A : Type 0} (f : E → PipelineError H) (m : Exec W E A) → Keeps (within f m) (λ _. Unit)
  within_lem f m = within_knows (λ _. Unit) f m (anything m)

  pub ask_lem : (load : W → Bool × W) → Keeps (ask load) (λ _. Unit)
  unfolding ask
  ask_lem load = record { at = λ s h. (h, tt) }

  pub fail_if_lem : (bad : Bool) (e : PipelineError H) → Keeps (fail_if bad e) (λ _. bad ≡ false)
  fail_if_lem bad e = Triple-fail_if bad e λ _ h. h

  pub lift_lem : {A : Type 0} (r : Result (PipelineError H) A) → Keeps (lift r) (λ a. r ≡ ok a)
  lift_lem r = Triple-lift r λ _ _ h. h

  -- One call after the other, where the later ones may use what the first returned.
  pub then_lem :
      {A B : Type 0} (Y : A → Type 0) {m : Exec (State W) (PipelineError H) A}
      {f : A → Exec (State W) (PipelineError H) B} {T : B → State W → Type 0}
      → Keeps m Y
      → ((a : A) → Y a → Triple (Holds L) (f a) T (λ _. Holds L))
      → Triple (Holds L) (m >>= f) T (λ _. Holds L)
  then_lem Y h k = Triple-bind (λ a s. Holds L s × Y a) h λ a. Triple-assume (k a)

  pub ensure_not_cancelled_lem : (io : PipelineIo H W) → Keeps (ensure_not_cancelled io) (λ _. Unit)
  unfolding ensure_not_cancelled
  ensure_not_cancelled_lem io =
      then_lem (λ _. Unit) (ask_lem io.load_cancelled)
        λ b _. Triple-post (λ _ s h. (h.0, tt)) (λ _ s h. h) (fail_if_lem b PipelineError.cancelled)
