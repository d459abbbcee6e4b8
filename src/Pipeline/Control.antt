-- ===== src/Pipeline/Control.antt =====
-- `PipelineControl` and `RunGuard::register_markers` of src/pipeline.rs, as threads that interleave:
-- callers of `cancel` and `skip_verification`, and the thread that runs the pipeline. A step is one
-- access to what they share, and its argument says whether the call on the file or the lock works.
pub mod Interleaving
use snapdog_os_installer.Prelude.{
  ℕ, Bool, true, false, ◌||◌, Option, none, some, List, [], ◌∷◌, ◌==◌, if◌then◌else◌,
}

pub data Flag : Type 0 where
  cancel skip : Flag

-- Where a call of `cancel` or `skip_verification` stands: the flag is stored, the registered paths
-- were read (whether there were any), or it has returned (whether without an error).
pub data CallerAt : Type 0 where
  idle stored : CallerAt
  read finished : Bool → CallerAt

pub record Caller : Type 0 where
  pub flag : Flag
  pub at : CallerAt

-- Where `register_markers` stands; `loaded f b`: the flag `f` was loaded as `b`, and its marker is
-- not yet touched. `ready`: it returned, and the worker may run. `ended`: it failed, or the guard
-- was dropped.
pub data RunnerAt : Type 0 where
  outside registered cancel_served ready ended : RunnerAt
  loaded : Flag → Bool → RunnerAt

-- `ControlInner`, the marker files, and the threads. `markers` says whether paths are registered.
pub record Shared : Type 0 where
  pub cancelled : Bool
  pub skip_verification : Bool
  pub markers : Bool
  pub cancel_file : Bool
  pub skip_file : Bool

pub record System : Type 0 where
  pub shared : Shared
  pub runner : RunnerAt
  pub callers : ℕ → Caller

abbrev pub set_flag : Flag → Shared → Shared
set_flag cancel s = record s { cancelled = true }
set_flag skip s = record s { skip_verification = true }

abbrev pub flag_of : Flag → Shared → Bool
flag_of cancel s = s.cancelled
flag_of skip s = s.skip_verification

-- `touch_marker`, which also succeeds if the file is there.
abbrev pub touch : Flag → Bool → Shared → Shared
touch f false s = s
touch cancel true s = record s { cancel_file = true }
touch skip true s = record s { skip_file = true }

abbrev pub file_of : Flag → Shared → Bool
file_of cancel s = s.cancel_file
file_of skip s = s.skip_file

-- One step of a call for this flag.
abbrev pub caller_step : Flag → Bool → CallerAt → Shared → CallerAt × Shared
caller_step f works idle s = (stored, set_flag f s)
caller_step f works stored s = if works then (read s.markers, s) else (finished false, s)
caller_step f works (read false) s = (finished true, s)
caller_step f works (read true) s = (finished works, touch f works s)
caller_step f works (finished b) s = (finished b, s)

abbrev pub served : Flag → RunnerAt
served cancel = cancel_served
served skip = ready

-- The drop of the guard, which leaves the paths if the lock is poisoned.
abbrev pub release : Bool → Shared → Shared
release false s = s
release true s = record s { markers = false }

-- One step of `register_markers`, or, when it has returned, the drop of the guard.
abbrev pub runner_step : Bool → RunnerAt → Shared → RunnerAt × Shared
runner_step works outside s =
    if works then (registered, record s { markers = true }) else (ended, s)
runner_step works registered s = (loaded cancel s.cancelled, s)
runner_step works cancel_served s = (loaded skip s.skip_verification, s)
runner_step works (loaded f false) s = (served f, s)
runner_step works (loaded f true) s = (if works then served f else ended, touch f works s)
runner_step works ready s = (ended, release works s)
runner_step works ended s = (ended, release works s)

-- A scheduler's choice: who steps, and whether the call of that step works.
pub data Choice : Type 0 where
  by_runner : Bool → Choice
  by_caller : ℕ → Bool → Choice

abbrev pub update : (ℕ → Caller) → ℕ → Caller → ℕ → Caller
update callers i c j = if i == j then c else callers j

unfoldable pub step : Choice → System → System
step (by_runner works) s =
    let next : RunnerAt × Shared = runner_step works s.runner s.shared in
    record { shared = next.1; runner = next.0; callers = s.callers }
step (by_caller i works) s =
    let next : CallerAt × Shared = caller_step (s.callers i).flag works (s.callers i).at s.shared in
    record {
      shared = next.1;
      runner = s.runner;
      callers = update s.callers i (record { flag = (s.callers i).flag; at = next.0 });
    }

-- A schedule, the first choice first.
unfoldable pub run : List Choice → System → System
unfolding step
run [] s = s
run (choice ∷ rest) s = run rest (step choice s)

abbrev pub at_start : (ℕ → Flag) → System
at_start flags = record {
  shared = record {
    cancelled = false;
    skip_verification = false;
    markers = false;
    cancel_file = false;
    skip_file = false;
  };
  runner = outside;
  callers = λ i. record { flag = flags i; at = idle };
}
