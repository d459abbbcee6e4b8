-- ===== src/Worker/Trace.antt =====
-- What the worker does to its surroundings, as a history of events, newest first, and the state
-- that it keeps. The surroundings are functions of the history: the platform, the files and the
-- markers may answer each call in any way, at any time.
use snapdog_os_installer.Prelude.{ℕ, Bool, true, false, Option, none, some, List, ◌∷◌, Bytes, Text}
use snapdog_os_installer.Prelude.Result.{Result, ok, err}
use snapdog_os_installer.Prelude.Exec.{Exec}
use snapdog_os_installer.Flash.Types.{IoError, FlashError, Replies}
use snapdog_os_installer.Worker.Types.{WorkerDrive, WorkerProgress, WorkerError}

-- The calls with an effect, and whether they succeeded.
pub data Op : Type 0 where
  inspect_cancel inspect_skip : Op
  emit : WorkerProgress → Op
  inspect_raw open_raw create_staging sync_staging rewind_staging : Op
  stage : Bytes → Op
  validate_image unmount eject : Op
  open_target measure_image seek_image seek_target flush_target prepare_verification sync_target :
      Op
  write : Bytes → Op

pub data Event : Type 0 where
  called : Op → Bool → Event
  -- `validate_target` reported this drive, or failed.
  reported : Option WorkerDrive → Event

abbrev pub History : Type 0
History = List Event

-- `fs::symlink_metadata` of a marker, and of the raw image.
pub data Marker : Type 0 where
  present absent : Marker
  inaccessible : IoError → Marker

pub record Metadata : Type 0 where
  pub is_symlink : Bool
  pub is_file : Bool
  pub len : ℕ
  pub dev : ℕ
  pub ino : ℕ

pub record Env : Type 0 where
  pub cancel_marker : History → Marker
  pub skip_marker : History → Marker
  pub emit : History → Result IoError Unit
  pub raw_metadata : History → Result IoError Metadata
  pub open_raw : History → Result IoError Unit
  pub opened_metadata : History → Result IoError Metadata
  pub raw_reads : Replies
  pub tempfile : History → Result IoError Unit
  pub stage : History → Result IoError Unit
  pub sync_staging : History → Result IoError Unit
  pub rewind_staging : History → Result IoError Unit
  -- The length and the reads of the staged copy, when it holds these bytes.
  pub staged_len : Bytes → Result IoError ℕ
  pub staged_reads : Bytes → Replies
  pub seek_image : History → Result IoError Unit
  pub validate_image : History → Result WorkerError Unit
  pub validate_target : History → Result WorkerError WorkerDrive
  pub unmount : History → Result WorkerError Unit
  pub open_target : History → Result WorkerError Unit
  pub seek_target : History → Result IoError Unit
  pub write : Bytes → History → Result IoError Unit
  pub flush_target : History → Result IoError Unit
  pub prepare_verification : History → Result FlashError Unit
  pub target_reads : Replies
  pub sync_target : History → Result IoError Unit
  pub eject : History → Result WorkerError Unit
  -- `WorkerError::to_string`
  pub display : WorkerError → Text

-- `WorkerSignals`, the variable that the progress callback captures, and the history.
pub record World : Type 0 where
  pub cancelled : Bool
  pub skip_verification : Bool
  pub callback_error : Option WorkerError
  pub history : History

abbrev pub succeeded : {E A : Type 0} → Result E A → Bool
succeeded (ok a) = true
succeeded (err e) = false

abbrev pub note : Event → World → World
note e w = record w { history = e ∷ w.history }

-- One call: the surroundings answer, and the call is noted.
unfoldable pub call : {E A : Type 0} → Op → (History → Result E A) → Exec World E A
call op reply w = (reply w.history, note (called op (succeeded (reply w.history))) w)

abbrev pub reported_drive : {E : Type 0} → Result E WorkerDrive → Option WorkerDrive
reported_drive (ok d) = some d
reported_drive (err e) = none

unfoldable pub call_validate_target : Env → Exec World WorkerError WorkerDrive
call_validate_target env w = (
  env.validate_target w.history,
  note (reported (reported_drive (env.validate_target w.history))) w,
)
