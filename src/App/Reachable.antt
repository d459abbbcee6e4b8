-- ===== src/App/Reachable.antt =====
-- What holds in every state that the window of src/app.rs reaches.
use snapdog_os_installer.Prelude.{
  ◌≡◌, refl, sym, Bool, true, false, Option, none, some, List, [], ◌∷◌, Text, any, subst, text,
  ◌++◌, if◌then◌else◌, is_some_and, ◌=ᵗ◌,
}
use snapdog_os_installer.Prelude.Result.{Result, ok, err}
use snapdog_os_installer.Model.{
  Channel, Board, board_label, ImageInfo, Manifest, image_for, download_reference, ImageSelection,
  Drive,
}
use snapdog_os_installer.Catalog.Types.{CatalogError, Crates}
use snapdog_os_installer.Catalog.Validate.{image_url}
use snapdog_os_installer.Pipeline.Types.{PipelineRequest, PipelineReport, PipelineEvent}
use snapdog_os_installer.App.Types.{
  OperationFailure, RunningOperation, OperationState, idle, running, succeeded, CatalogEvent,
  loaded, OperationMessage, event, finished, SnapDogInstallerApp,
}
use snapdog_os_installer.App.Request.{validate_release_image, pipeline_request}
use snapdog_os_installer.App.Step.{
  receive_catalog, apply_pipeline_event, apply_messages, settle_operation, receive_by, same_drive,
  keep_selected, refresh_drives, start_with, start_if, start_operation, confirm_url, confirm_valid,
  confirm_with, selected_manifest, Action, with_running, is_idle, is_failed, is_ended, step, run,
  new,
}
use snapdog_os_installer.App.Invariant.{IsFit, pipeline_request-IsRequest}

module _ {HttpError Version : Type 0} (crates : Crates Version)
    (display : CatalogError HttpError → Text) where
  -- The image was accepted, and is fetched from the address that the catalog's rules allow.
  pub record IsConfirmed (selection : ImageSelection) : Type 0 where
    pub valid : validate_release_image selection.manifest selection.board ≡ ok tt
    pub image : ImageInfo
    pub found : image_for selection.manifest selection.board ≡ some image
    pub address :
        image_url {HttpError = HttpError} crates (download_reference image) ≡ ok selection.url

  abbrev pub Confirmed : Option ImageSelection → Type 0
  Confirmed none = Unit
  Confirmed (some selection) = IsConfirmed selection

  -- The selected drive is one of those listed.
  abbrev pub Listed : List Drive → Option Drive → Type 0
  Listed drives none = Unit
  Listed drives (some drive) = any (λ d. same_drive d drive) drives ≡ true

  -- An operation was started with a confirmed image that fits its drive.
  abbrev pub Started : OperationState → Type 0
  Started idle = Unit
  Started (running r) = IsConfirmed r.selection × IsFit r.selection r.drive
  Started (succeeded s) = IsConfirmed s.selection × IsFit s.selection s.drive
  Started (OperationState.failed f) = IsConfirmed f.selection × IsFit f.selection f.drive

  pub record Inv (app : SnapDogInstallerApp) : Type 0 where
    pub confirmed : Confirmed app.confirmed
    pub listed : Listed app.drives app.selected_drive
    pub operation : Started app.operation

  receive_catalog-Inv :
      (e : CatalogEvent) (app : SnapDogInstallerApp) → Inv app → Inv (receive_catalog e app)
  unfolding receive_catalog
  receive_catalog-Inv (loaded Channel.release manifests) app i = record {
    confirmed = i.confirmed;
    listed = i.listed;
    operation = i.operation;
  }
  receive_catalog-Inv (loaded Channel.beta manifests) app i = record {
    confirmed = i.confirmed;
    listed = i.listed;
    operation = i.operation;
  }
  receive_catalog-Inv (CatalogEvent.failed channel e) app i = record {
    confirmed = i.confirmed;
    listed = i.listed;
    operation = i.operation;
  }

  -- Messages change neither the image nor the drive of an operation.
  event-Started :
      (e : PipelineEvent) (r : RunningOperation)
      → Started (running r)
      → Started (running (apply_pipeline_event e r))
  unfolding apply_pipeline_event
  event-Started (PipelineEvent.download progress) r s = s
  event-Started (PipelineEvent.preparing progress) r s = s
  event-Started PipelineEvent.awaiting_authorization r s = s
  event-Started (PipelineEvent.worker progress) r s = s

  messages-Started :
      (messages : List OperationMessage) (r : RunningOperation)
      (x : Option (Result OperationFailure PipelineReport))
      → Started (running r)
      → Started (running (apply_messages messages r x).0)
  unfolding apply_messages
  messages-Started [] r x s = s
  messages-Started (event e ∷ rest) r x s =
      messages-Started rest (apply_pipeline_event e r) x (event-Started e r s)
  messages-Started (finished result ∷ rest) r x s = messages-Started rest r (some result) s

  settle-Inv :
      (r : RunningOperation) (x : Option (Result OperationFailure PipelineReport))
      (app : SnapDogInstallerApp)
      → Started (running r)
      → Inv app
      → Inv (settle_operation r x app)
  settle-Inv r none app s i = record { confirmed = i.confirmed; listed = i.listed; operation = s }
  settle-Inv r (some (ok report)) app s i = record {
    confirmed = i.confirmed;
    listed = i.listed;
    operation = s;
  }
  settle-Inv r (some (err failure)) app s i = record {
    confirmed = i.confirmed;
    listed = i.listed;
    operation = s;
  }

  receive_by-Inv :
      (operation : OperationState) (messages : List OperationMessage) (app : SnapDogInstallerApp)
      → Started operation
      → Inv app
      → Inv (receive_by operation messages app)
  receive_by-Inv idle messages app s i = i
  receive_by-Inv (succeeded x) messages app s i = i
  receive_by-Inv (OperationState.failed x) messages app s i = i
  receive_by-Inv (running r) messages app s i =
      settle-Inv (apply_messages messages r none).0 (apply_messages messages r none).1 app
        (messages-Started messages r none s) i

  keep_selected-Listed :
      (found : List Drive) (selected : Option Drive) → Listed found (keep_selected found selected)
  keep_selected-Listed found none = tt
  keep_selected-Listed found (some drive) = by_test (any (λ d. same_drive d drive) found) refl
    where
      by_test :
          (b : Bool)
          → any (λ d. same_drive d drive) found ≡ b
          → Listed found (if b then some drive else none)
      by_test true e = e
      by_test false e = tt

  refresh_drives-Inv :
      (found : Result Text (List Drive)) (app : SnapDogInstallerApp)
      → Inv app
      → Inv (refresh_drives found app)
  unfolding refresh_drives
  refresh_drives-Inv (ok found) app i = record {
    confirmed = i.confirmed;
    listed = keep_selected-Listed found app.selected_drive;
    operation = i.operation;
  }
  refresh_drives-Inv (err e) app i = record {
    confirmed = i.confirmed;
    listed = tt;
    operation = i.operation;
  }

  start-Inv :
      (app : SnapDogInstallerApp) (r : Result Text PipelineRequest)
      → pipeline_request app ≡ r
      → Inv app
      → Inv (start_if r app)
  start-Inv app (err e) h i = i
  start-Inv app (ok request) h i =
      let q = pipeline_request-IsRequest app request h in
      let c : IsConfirmed q.selection = subst Confirmed q.confirmed i.confirmed in
      subst (λ (s : Option ImageSelection). Inv (start_with s app.selected_drive app))
        (sym q.confirmed)
        (subst (λ (d : Option Drive). Inv (start_with (some q.selection) d app)) (sym q.selected)
          (record { confirmed = i.confirmed; listed = i.listed; operation = (c, q.fit) }))

  confirm_url-Inv :
      (board : Board) (manifest : Manifest) (image : ImageInfo)
      (u : Result (CatalogError HttpError) Text) (app : SnapDogInstallerApp)
      → validate_release_image manifest board ≡ ok tt
      → image_for manifest board ≡ some image
      → image_url crates (download_reference image) ≡ u
      → Inv app
      → Inv (confirm_url crates display board manifest u app)
  confirm_url-Inv board manifest image (err e) app v f u i = record {
    confirmed = i.confirmed;
    listed = i.listed;
    operation = i.operation;
  }
  confirm_url-Inv board manifest image (ok url) app v f u i = record {
    confirmed = record { valid = v; image = image; found = f; address = u };
    listed = tt;
    operation = i.operation;
  }

  confirm_image-Inv :
      (board : Board) (manifest : Manifest) (o : Option ImageInfo) (app : SnapDogInstallerApp)
      → validate_release_image manifest board ≡ ok tt
      → image_for manifest board ≡ o
      → Inv app
      → Inv (elim o [
        | none ↦ record app {
          catalog_error = some (
              text "SnapDog OS "
              ++ manifest.version
              ++ text " has no image for "
              ++ board_label board);
        }
        | some image ↦
            confirm_url crates display board manifest
              (image_url crates (download_reference image))
              app
      ])
  confirm_image-Inv board manifest none app v f i = record {
    confirmed = i.confirmed;
    listed = i.listed;
    operation = i.operation;
  }
  confirm_image-Inv board manifest (some image) app v f i =
      confirm_url-Inv board manifest image (image_url crates (download_reference image)) app v f
        refl i

  confirm_valid-Inv :
      (board : Board) (manifest : Manifest) (v : Result Text Unit) (app : SnapDogInstallerApp)
      → validate_release_image manifest board ≡ v
      → Inv app
      → Inv (confirm_valid crates display board manifest v app)
  confirm_valid-Inv board manifest (err e) app h i = record {
    confirmed = i.confirmed;
    listed = i.listed;
    operation = i.operation;
  }
  confirm_valid-Inv board manifest (ok u) app h i =
      confirm_image-Inv board manifest (image_for manifest board) app h refl i

  confirm_with-Inv :
      (board : Option Board) (manifest : Option Manifest) (app : SnapDogInstallerApp)
      → Inv app
      → Inv (confirm_with crates display board manifest app)
  confirm_with-Inv none manifest app i = i
  confirm_with-Inv (some board) none app i = i
  confirm_with-Inv (some board) (some manifest) app i =
      confirm_valid-Inv board manifest (validate_release_image manifest board) app refl i

  with_running-Started :
      (f : RunningOperation → RunningOperation) (operation : OperationState)
      → ((r : RunningOperation) → Started (running r) → Started (running (f r)))
      → Started operation
      → Started (with_running crates display f operation)
  with_running-Started f idle k s = tt
  with_running-Started f (running r) k s = k r s
  with_running-Started f (succeeded x) k s = s
  with_running-Started f (OperationState.failed x) k s = s

  -- A step that is taken only under a condition.
  either-Inv :
      (b : Bool) (x y : SnapDogInstallerApp) → (b ≡ true → Inv x) → Inv y → Inv (if b then x else y)
  either-Inv true x y i j = i refl
  either-Inv false x y i j = j

  start_operation-Inv : (app : SnapDogInstallerApp) → Inv app → Inv (start_operation app)
  unfolding start_operation
  start_operation-Inv app i = start-Inv app (pipeline_request app) refl i

  step-Inv :
      (action : Action crates display) (app : SnapDogInstallerApp)
      → Inv app
      → Inv (step crates display action app)
  unfolding step
  step-Inv (Action.catalog_event e) app i = receive_catalog-Inv e app i
  step-Inv (Action.operation_messages messages) app i =
      receive_by-Inv app.operation messages app i.operation i
  step-Inv (Action.choose_board board) app i = record {
    confirmed = tt;
    listed = tt;
    operation = i.operation;
  }
  step-Inv (Action.choose_channel channel) app i = record {
    confirmed = tt;
    listed = tt;
    operation = i.operation;
  }
  step-Inv (Action.choose_version version) app i =
      either-Inv (is_some_and app.selected_version (λ previous. previous =ᵗ version)) app _ (λ _. i)
        (record { confirmed = tt; listed = tt; operation = i.operation })
  step-Inv Action.reload app i = record { confirmed = tt; listed = tt; operation = i.operation }
  step-Inv Action.confirm app i = confirm_with-Inv app.board (selected_manifest app) app i
  step-Inv Action.erase_and_flash app i =
      either-Inv (is_idle crates display app.operation) _ app (λ _. start_operation-Inv app i) i
  step-Inv Action.retry app i =
      either-Inv (is_failed crates display app.operation) _ app (λ _. start_operation-Inv app i) i
  step-Inv Action.reset app i =
      either-Inv (is_ended crates display app.operation) _ app
        (λ _. record { confirmed = tt; listed = tt; operation = tt }) i
  step-Inv Action.back app i =
      either-Inv (is_ended crates display app.operation) _ app
        (λ _. record { confirmed = i.confirmed; listed = tt; operation = tt }) i
  step-Inv Action.toggle_verification app i = record {
    confirmed = i.confirmed;
    listed = i.listed;
    operation = i.operation;
  }
  step-Inv (Action.refresh found) app i = refresh_drives-Inv found app i
  step-Inv (Action.pick_drive drive) app i =
      either-Inv (any (λ d. same_drive d drive) app.drives) _ app
        (λ e. record { confirmed = i.confirmed; listed = e; operation = i.operation }) i
  step-Inv (Action.cancel works) app i = record {
    confirmed = i.confirmed;
    listed = i.listed;
    operation = with_running-Started _ app.operation (λ r s. s) i.operation;
  }
  step-Inv (Action.skip works) app i = record {
    confirmed = i.confirmed;
    listed = i.listed;
    operation = with_running-Started _ app.operation (λ r s. s) i.operation;
  }
  step-Inv (Action.stop_and_quit works) app i = record {
    confirmed = i.confirmed;
    listed = i.listed;
    operation = with_running-Started _ app.operation (λ r s. s) i.operation;
  }
  step-Inv (Action.show_overlay overlay) app i = record {
    confirmed = i.confirmed;
    listed = i.listed;
    operation = i.operation;
  }

  run_from :
      (actions : List (Action crates display)) (app : SnapDogInstallerApp)
      → Inv app
      → Inv (run crates display actions app)
  unfolding run
  run_from [] app i = i
  run_from (action ∷ rest) app i =
      run_from rest (step crates display action app) (step-Inv action app i)

  -- In every state that a new window reaches: a confirmed image has passed the validation and is fetched
  -- from the address that its reference stands for; a selected drive is one of those listed; and an
  -- operation, be it running or ended, was started with such an image and a drive that it fits.
  pub run-Inv : (actions : List (Action crates display)) → Inv (run crates display actions new)
  run-Inv actions = run_from actions new (record { confirmed = tt; listed = tt; operation = tt })
