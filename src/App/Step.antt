-- ===== src/App/Step.antt =====
-- What changes the state of the window, in src/app.rs: the two channels, and the controls of the
-- screens. A step may come in any order, which is more than the screens allow.
use snapdog_os_installer.Prelude.{
  Bool, true, false, not, ◌&&◌, ◌||◌, Option, none, some, List, [], ◌∷◌, ◌++◌, Text, text, any,
  is_some, ◌==◌, ◌=ᵗ◌, is_some_and, option_map, if◌then◌else◌,
}
use snapdog_os_installer.Prelude.Result.{Result, ok, err}
use snapdog_os_installer.Model.{
  Channel, release, beta, Board, board_label, Manifest, image_for, download_reference,
  ImageSelection, Drive,
}
use snapdog_os_installer.Flash.Types.{FlashStage}
use snapdog_os_installer.Catalog.Types.{CatalogError, Crates}
use snapdog_os_installer.Catalog.Validate.{same_channel, image_url}
use snapdog_os_installer.Worker.Types.{WorkerPhase}
use snapdog_os_installer.Pipeline.Types.{PipelineEvent, PipelineReport}
use snapdog_os_installer.App.Types.{
  OperationFailure, OperationPhase, can_cancel, RunningOperation, OperationState, idle, running,
  succeeded, Overlay, CatalogEvent, loaded, OperationMessage, event, finished, SnapDogInstallerApp,
}
use snapdog_os_installer.App.Request.{validate_release_image, pipeline_request}

abbrev pub first : {A : Type 0} → List A → Option A
first [] = none
first (x ∷ xs) = some x

abbrev pub first_version : Option (List Manifest) → Option Text
first_version none = none
first_version (some catalog) = option_map (λ (m : Manifest). m.version) (first catalog)

abbrev pub catalog_of : Channel → SnapDogInstallerApp → Option (List Manifest)
catalog_of release app = app.stable
catalog_of beta app = app.beta

abbrev pub find : Text → List Manifest → Option Manifest
find version [] = none
find version (m ∷ ms) = let rest = find version ms in if m.version =ᵗ version then some m else rest

abbrev pub or_else : {A : Type 0} → Option A → Option A → Option A
or_else (some x) other = some x
or_else none other = other

abbrev pub find_selected : Option Text → List Manifest → Option Manifest
find_selected none catalog = first catalog
find_selected (some version) catalog = or_else (find version catalog) (first catalog)

abbrev pub selected_in : Option Text → Option (List Manifest) → Option Manifest
selected_in version none = none
selected_in version (some catalog) = find_selected version catalog

unfoldable pub selected_manifest : SnapDogInstallerApp → Option Manifest
selected_manifest app = selected_in app.selected_version (catalog_of app.channel app)

abbrev pub store : Channel → List Manifest → SnapDogInstallerApp → SnapDogInstallerApp
store release manifests app = record app { stable = some manifests }
store beta manifests app = record app { beta = some manifests }

unfoldable pub receive_catalog : CatalogEvent → SnapDogInstallerApp → SnapDogInstallerApp
receive_catalog (loaded channel manifests) app =
    let here = same_channel app.channel channel in
    store channel manifests (record app {
      selected_version =
          if here && not (is_some app.selected_version)
          then first_version (some manifests)
          else app.selected_version;
      catalog_error = if here then none else app.catalog_error;
    })
receive_catalog (CatalogEvent.failed channel error) app = record app {
  catalog_error = if same_channel app.channel channel then some error else app.catalog_error;
}

abbrev pub clear_image_dependants : SnapDogInstallerApp → SnapDogInstallerApp
clear_image_dependants app = record app {
  confirmed = none;
  selected_drive = none;
  drives = [];
  drive_status = none;
}

unfoldable pub reload_catalog : SnapDogInstallerApp → SnapDogInstallerApp
reload_catalog app =
    clear_image_dependants
      (record app { stable = none; beta = none; selected_version = none; catalog_error = none })

abbrev pub stage_phase : FlashStage → OperationPhase
stage_phase FlashStage.decompressing = OperationPhase.decompressing
stage_phase FlashStage.writing = OperationPhase.writing
stage_phase FlashStage.verifying = OperationPhase.verifying

abbrev pub worker_phase : WorkerPhase → OperationPhase → OperationPhase
worker_phase WorkerPhase.validating_image before = OperationPhase.validating_image
worker_phase WorkerPhase.validating_target before = OperationPhase.validating_target
worker_phase WorkerPhase.unmounting before = OperationPhase.unmounting
worker_phase WorkerPhase.writing before = OperationPhase.writing
worker_phase WorkerPhase.verifying before = OperationPhase.verifying
worker_phase WorkerPhase.syncing before = OperationPhase.syncing
worker_phase WorkerPhase.ejecting before = OperationPhase.ejecting
worker_phase WorkerPhase.completed before = OperationPhase.ejecting
worker_phase WorkerPhase.cancelled before = before
worker_phase WorkerPhase.failed before = before

unfoldable pub apply_pipeline_event : PipelineEvent → RunningOperation → RunningOperation
apply_pipeline_event (PipelineEvent.download progress) r = record r {
  phase = OperationPhase.downloading;
  processed = some progress.downloaded;
  total = progress.total;
}
apply_pipeline_event (PipelineEvent.preparing progress) r = record r {
  phase = stage_phase progress.stage;
  processed = some progress.processed;
  total = progress.total;
}
apply_pipeline_event PipelineEvent.awaiting_authorization r = record r {
  phase = OperationPhase.authorizing;
  processed = none;
  total = none;
}
apply_pipeline_event (PipelineEvent.worker progress) r = record r {
  phase = worker_phase progress.phase r.phase;
  processed = progress.bytes_processed;
  total = progress.total_bytes;
}

-- The messages that wait, and the last result among them.
unfoldable pub apply_messages :
    List OperationMessage
    → RunningOperation
    → Option (Result OperationFailure PipelineReport)
    → RunningOperation × Option (Result OperationFailure PipelineReport)
unfolding apply_pipeline_event
apply_messages [] r result = (r, result)
apply_messages (event e ∷ rest) r result = apply_messages rest (apply_pipeline_event e r) result
apply_messages (finished x ∷ rest) r result = apply_messages rest r (some x)

abbrev pub end_operation :
    RunningOperation → Result OperationFailure PipelineReport → OperationState
end_operation r (ok report) =
    succeeded (record { report = report; selection = r.selection; drive = r.drive })
end_operation r (err failure) =
    OperationState.failed
      (record { failure = failure; selection = r.selection; drive = r.drive; phase = r.phase })

abbrev pub settle_operation :
    RunningOperation
    → Option (Result OperationFailure PipelineReport)
    → SnapDogInstallerApp
    → SnapDogInstallerApp
settle_operation r none app = record app { operation = running r }
settle_operation r (some result) app = record app {
  operation = end_operation r result;
  overlay = none;
}

abbrev pub receive_by :
    OperationState → List OperationMessage → SnapDogInstallerApp → SnapDogInstallerApp
receive_by (running r) messages app =
    settle_operation (apply_messages messages r none).0 (apply_messages messages r none).1 app
receive_by _ messages app = app

unfoldable pub receive_operation : List OperationMessage → SnapDogInstallerApp → SnapDogInstallerApp
unfolding apply_messages
receive_operation messages app = receive_by app.operation messages app

-- The drives agree in all but the name.
abbrev pub same_drive : Drive → Drive → Bool
same_drive a b = a.id =ᵗ b.id && a.device =ᵗ b.device && a.capacity == b.capacity

abbrev pub keep_selected : List Drive → Option Drive → Option Drive
keep_selected found none = none
keep_selected found (some selected) =
    if any (λ drive. same_drive drive selected) found then some selected else none

abbrev pub status_for : List Drive → Text
status_for [] = text "No removable physical drive found. Insert an SD card and refresh."
status_for (d ∷ ds) = text "Choose exactly one target. Its contents will be erased."

-- With what `removable_drives` returns.
unfoldable pub refresh_drives : Result Text (List Drive) → SnapDogInstallerApp → SnapDogInstallerApp
unfolding text
refresh_drives (ok found) app = record app {
  drives = found;
  selected_drive = keep_selected found app.selected_drive;
  drive_status = some (status_for found);
}
refresh_drives (err error) app = record app {
  drives = [];
  selected_drive = none;
  drive_status = some error;
}

abbrev pub started : ImageSelection → Drive → Bool → RunningOperation
started selection drive verify = record {
  selection = selection;
  drive = drive;
  phase = OperationPhase.downloading;
  processed = some 0;
  total = none;
  verification_enabled = verify;
  cancel_requested = false;
  skip_requested = false;
}

abbrev pub start_with :
    Option ImageSelection → Option Drive → SnapDogInstallerApp → SnapDogInstallerApp
start_with (some selection) (some drive) app = record app {
  operation = running (started selection drive app.verify_after_write);
  overlay = none;
}
start_with _ _ app = app

abbrev pub start_if : {A : Type 0} → Result Text A → SnapDogInstallerApp → SnapDogInstallerApp
start_if (ok request) app = start_with app.confirmed app.selected_drive app
start_if (err e) app = app

unfoldable pub start_operation : SnapDogInstallerApp → SnapDogInstallerApp
unfolding pipeline_request
start_operation app = start_if (pipeline_request app) app

unfoldable pub reset_for_another : SnapDogInstallerApp → SnapDogInstallerApp
reset_for_another app = record app {
  operation = idle;
  board = none;
  channel = release;
  selected_version = first_version app.stable;
  confirmed = none;
  selected_drive = none;
  drives = [];
  drive_status = none;
  catalog_error = none;
  overlay = none;
}

unfoldable pub return_to_setup : SnapDogInstallerApp → SnapDogInstallerApp
unfolding text
return_to_setup app = record app {
  operation = idle;
  selected_drive = none;
  drives = [];
  drive_status = some (text "Select the target again before retrying.");
  overlay = none;
}

module _ {HttpError Version : Type 0} (crates : Crates Version)
    (display : CatalogError HttpError → Text) where
  abbrev pub confirm_url :
      Board
      → Manifest
      → Result (CatalogError HttpError) Text
      → SnapDogInstallerApp
      → SnapDogInstallerApp
  confirm_url board manifest (err e) app = record app { catalog_error = some (display e) }
  confirm_url board manifest (ok url) app = record app {
    confirmed = some (record { board = board; manifest = manifest; url = url });
    selected_drive = none;
    drives = [];
    catalog_error = none;
  }

  abbrev pub confirm_image : Board → Manifest → SnapDogInstallerApp → SnapDogInstallerApp
  confirm_image board manifest app = elim (image_for manifest board) [
    | none ↦ record app {
      catalog_error = some (
          text "SnapDog OS " ++ manifest.version ++ text " has no image for " ++ board_label board);
    }
    | some image ↦ confirm_url board manifest (image_url crates (download_reference image)) app
  ]

  abbrev pub confirm_valid :
      Board → Manifest → Result Text Unit → SnapDogInstallerApp → SnapDogInstallerApp
  confirm_valid board manifest (err e) app = record app { catalog_error = some e }
  confirm_valid board manifest (ok _) app = confirm_image board manifest app

  abbrev pub confirm_with :
      Option Board → Option Manifest → SnapDogInstallerApp → SnapDogInstallerApp
  confirm_with (some board) (some manifest) app =
      confirm_valid board manifest (validate_release_image manifest board) app
  confirm_with _ _ app = app

  unfoldable pub confirm_selection : SnapDogInstallerApp → SnapDogInstallerApp
  unfolding validate_release_image selected_manifest image_for image_url download_reference
      board_label text
  confirm_selection app = confirm_with app.board (selected_manifest app) app

  -- What happens to the window. A control names its argument, and `works` says whether the call on the
  -- pipeline's control succeeds.
  pub data Action : Type 0 where
    catalog_event : CatalogEvent → Action
    operation_messages : List OperationMessage → Action
    choose_board : Board → Action
    choose_channel : Channel → Action
    choose_version : Text → Action
    reload confirm erase_and_flash retry reset back toggle_verification : Action
    refresh : Result Text (List Drive) → Action
    pick_drive : Drive → Action
    cancel skip stop_and_quit : Bool → Action
    show_overlay : Option Overlay → Action

  abbrev pub with_running : (RunningOperation → RunningOperation) → OperationState → OperationState
  with_running f (running r) = running (f r)
  with_running f operation = operation

  abbrev pub is_verifying : OperationPhase → Bool
  is_verifying OperationPhase.verifying = true
  is_verifying _ = false

  -- `Retry` is offered on the screen of a failure, the confirmation only by its overlay in the setup.
  abbrev pub is_failed : OperationState → Bool
  is_failed (OperationState.failed f) = true
  is_failed _ = false

  abbrev pub is_idle : OperationState → Bool
  is_idle idle = true
  is_idle _ = false

  -- The screens of a success and of a failure lead back.
  abbrev pub is_ended : OperationState → Bool
  is_ended (succeeded s) = true
  is_ended operation = is_failed operation

  unfoldable pub step : Action → SnapDogInstallerApp → SnapDogInstallerApp
  unfolding receive_catalog receive_operation reload_catalog confirm_selection start_operation
      refresh_drives reset_for_another return_to_setup
  step (catalog_event e) app = receive_catalog e app
  step (operation_messages messages) app = receive_operation messages app
  step (choose_board board) app = clear_image_dependants (record app { board = some board })
  step (choose_channel channel) app =
      record (clear_image_dependants (record app { channel = channel })) {
        selected_version = first_version (catalog_of channel app);
        catalog_error = none;
      }
  step (choose_version version) app =
      if is_some_and app.selected_version (λ previous. previous =ᵗ version)
      then app
      else clear_image_dependants (record app { selected_version = some version })
  step reload app = reload_catalog app
  step confirm app = confirm_selection app
  step erase_and_flash app = if is_idle app.operation then start_operation app else app
  step retry app = if is_failed app.operation then start_operation app else app
  step reset app = if is_ended app.operation then reset_for_another app else app
  step back app = if is_ended app.operation then return_to_setup app else app
  step toggle_verification app = record app { verify_after_write = not app.verify_after_write }
  step (refresh found) app = refresh_drives found app
  step (pick_drive drive) app =
      if any (λ d. same_drive d drive) app.drives
      then record app { selected_drive = some drive; overlay = none }
      else app
  step (cancel works) app = record app {
    operation =
        with_running (λ r. record r { cancel_requested = works || r.cancel_requested })
          app.operation;
  }
  step (skip works) app = record app {
    operation =
        with_running
          (λ r. record r { skip_requested = is_verifying r.phase && works || r.skip_requested })
          app.operation;
    overlay = none;
  }
  step (stop_and_quit works) app = record app {
    operation =
        with_running (λ r. record r { cancel_requested = can_cancel r.phase || r.cancel_requested })
          app.operation;
    overlay = none;
    quit_after_operation = true;
  }
  step (show_overlay overlay) app = record app { overlay = overlay }

  unfoldable pub run : List Action → SnapDogInstallerApp → SnapDogInstallerApp
  unfolding step
  run [] app = app
  run (action ∷ rest) app = run rest (step action app)

-- `SnapDogInstallerApp::new`
abbrev pub new : SnapDogInstallerApp
new = record {
  stable = none;
  beta = none;
  catalog_error = none;
  board = none;
  channel = release;
  selected_version = none;
  confirmed = none;
  drives = [];
  selected_drive = none;
  drive_status = none;
  operation = idle;
  overlay = none;
  verify_after_write = true;
  quit_after_operation = false;
}
