-- ===== src/App/Types.antt =====
-- The state of the window, of src/app.rs. Times, and the ends of the channels, are left out.
use snapdog_os_installer.Prelude.{ℕ, Bool, true, false, List, Option, Text}
use snapdog_os_installer.Prelude.Result.{Result}
use snapdog_os_installer.Model.{Channel, Board, Manifest, ImageSelection, Drive}
use snapdog_os_installer.Pipeline.Types.{PipelineEvent, PipelineReport}

pub record OperationFailure : Type 0 where
  pub message : Text
  pub cancelled : Bool
  pub authorization_denied : Bool

pub data OperationPhase : Type 0 where
  downloading decompressing authorizing validating_image validating_target : OperationPhase
  unmounting writing verifying syncing ejecting : OperationPhase

abbrev pub phase_step : OperationPhase → ℕ
phase_step OperationPhase.downloading = 0
phase_step OperationPhase.writing = 2
phase_step OperationPhase.verifying = 3
phase_step OperationPhase.syncing = 4
phase_step OperationPhase.ejecting = 4
phase_step _ = 1

abbrev pub can_cancel : OperationPhase → Bool
can_cancel OperationPhase.syncing = false
can_cancel OperationPhase.ejecting = false
can_cancel _ = true

pub record RunningOperation : Type 0 where
  pub selection : ImageSelection
  pub drive : Drive
  pub phase : OperationPhase
  pub processed : Option ℕ
  pub total : Option ℕ
  pub verification_enabled : Bool
  pub cancel_requested : Bool
  pub skip_requested : Bool

pub record SuccessState : Type 0 where
  pub report : PipelineReport
  pub selection : ImageSelection
  pub drive : Drive

pub record FailureState : Type 0 where
  pub failure : OperationFailure
  pub selection : ImageSelection
  pub drive : Drive
  pub phase : OperationPhase

pub data OperationState : Type 0 where
  idle : OperationState
  running : RunningOperation → OperationState
  succeeded : SuccessState → OperationState
  failed : FailureState → OperationState

pub data Overlay : Type 0 where
  target_picker erase_confirmation skip_confirmation : Overlay
  settings third_party_notices close_confirmation : Overlay

pub data CatalogEvent : Type 0 where
  loaded : Channel → List Manifest → CatalogEvent
  failed : Channel → Text → CatalogEvent

pub data OperationMessage : Type 0 where
  event : PipelineEvent → OperationMessage
  finished : Result OperationFailure PipelineReport → OperationMessage

pub record SnapDogInstallerApp : Type 0 where
  pub stable : Option (List Manifest)
  pub beta : Option (List Manifest)
  pub catalog_error : Option Text
  pub board : Option Board
  pub channel : Channel
  pub selected_version : Option Text
  pub confirmed : Option ImageSelection
  pub drives : List Drive
  pub selected_drive : Option Drive
  pub drive_status : Option Text
  pub operation : OperationState
  pub overlay : Option Overlay
  pub verify_after_write : Bool
  pub quit_after_operation : Bool
