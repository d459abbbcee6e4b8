-- ===== src/Worker/Signals.antt =====
-- `WorkerSignals` and `marker_exists` of src/worker.rs.
use snapdog_os_installer.Prelude.{
  Bool, true, false, ◌||◌, Option, none, some, ◌++◌, text, if◌then◌else◌,
}
use snapdog_os_installer.Prelude.Result.{Result, ok, err}
use snapdog_os_installer.Prelude.Exec.{Exec, pure, raise, modify, ◌>>=◌, ◌>>◌}
use snapdog_os_installer.Worker.Types.{FilePath, WorkerError}
use snapdog_os_installer.Worker.Trace.{
  Op, Env, World, Marker, present, absent, inaccessible, History, call,
}

abbrev pub marker_reply : Marker → Result WorkerError Bool
marker_reply present = ok true
marker_reply absent = ok false
marker_reply (inaccessible error) =
    err (WorkerError.platform (text "could not inspect worker marker path: " ++ error))

unfoldable pub marker_exists :
    Op → (History → Marker) → Option FilePath → Exec World WorkerError Bool
unfolding call
marker_exists op marker none = pure false
marker_exists op marker (some path) = call op (λ h. marker_reply (marker h))

abbrev pub set_cancelled : Bool → World → World
set_cancelled found w = record w { cancelled = w.cancelled || found }

abbrev pub set_skip : Bool → World → World
set_skip found w = record w { skip_verification = w.skip_verification || found }

module _ (env : Env) (cancel_path skip_path : Option FilePath) where
  unfoldable pub refresh : Exec World WorkerError Unit
  unfolding marker_exists
  refresh = do
    cancel ← marker_exists Op.inspect_cancel env.cancel_marker cancel_path
    modify (set_cancelled cancel)
    skip ← marker_exists Op.inspect_skip env.skip_marker skip_path
    modify (set_skip skip)

-- `is_cancelled` after its `refresh`.
unfoldable pub cancelled_now : Exec World WorkerError Bool
cancelled_now w = (ok w.cancelled, w)

unfoldable pub check_cancelled : Exec World WorkerError Unit
unfolding cancelled_now
check_cancelled = do
  cancelled ← cancelled_now
  if cancelled then raise WorkerError.cancelled else pure tt

module _ (env : Env) (cancel_path skip_path : Option FilePath) where
  -- `signals.is_cancelled()`
  unfoldable pub is_cancelled : Exec World WorkerError Bool
  unfolding refresh cancelled_now
  is_cancelled = do refresh env cancel_path skip_path; cancelled_now

  -- `signals.refresh()?; signals.check_cancelled()?;`
  unfoldable pub refresh_and_check : Exec World WorkerError Unit
  unfolding refresh check_cancelled
  refresh_and_check = do refresh env cancel_path skip_path; check_cancelled
