-- ===== src/App/Tests.antt =====
-- A window in which an image is confirmed, a drive picked, and the operation started.
use snapdog_os_installer.Prelude.{
  ℕ, ◌≡◌, refl, Bool, true, false, none, some, List, [], ◌∷◌, ◌++◌, Text, text, ltb, parse_below,
}
use snapdog_os_installer.Prelude.Result.{ok}
use snapdog_os_installer.Model.{release, pi5, Manifest, Drive}
use snapdog_os_installer.Catalog.Types.{CatalogError, UrlParts, Crates}
use snapdog_os_installer.Pipeline.Types.{PipelineRequest}
use snapdog_os_installer.App.Types.{OperationState, loaded, SnapDogInstallerApp}
use snapdog_os_installer.App.Request.{pipeline_request}
use snapdog_os_installer.App.Step.{Action, step, run, new}
use snapdog_os_installer.App.Invariant.{IsRequest, pipeline_request-IsRequest}
use snapdog_os_installer.App.Reachable.{Inv, run-Inv}

abbrev window_address : Text → UrlParts
window_address name = record {
  scheme = text "https";
  host = some (text "h");
  username = [];
  password = none;
  query = none;
  fragment = none;
  last_segment = some name;
  text = text "https://h/" ++ name;
}

abbrev window_crates : Crates ℕ
window_crates = record {
  parse_version = parse_below 1000;
  older = ltb;
  parse_url = λ t. some (window_address t);
  join_base = λ t. some (window_address t);
}

abbrev window_display : CatalogError Unit → Text
window_display e = text "error"

abbrev window_hash : Text
window_hash = text "0123456789abcdef0123456789abcdef0123456789abcdef0123456789abcdef"

abbrev window_manifest : Manifest
window_manifest = record {
  schema_version = some 2;
  channel = release;
  version = text "7";
  commit = none;
  date = text "2026-01-01";
  boards =
      (
        text "pi5",
        record {
          image = text "i";
          sha256 = some window_hash;
          url = some (text "i");
          compressed_size = some 2;
          uncompressed_size = some 3;
          raw_sha256 = some window_hash;
        },
      )
      ∷ [];
}

abbrev window_drive : Drive
window_drive = record {
  id = text "sdb@9";
  device = text "/dev/sdb";
  name = text "Card";
  capacity = 100;
}

abbrev preparations : List (Action window_crates window_display)
preparations =
    Action.catalog_event (loaded release (window_manifest ∷ []))
    ∷ Action.choose_board pi5
    ∷ Action.confirm
    ∷ Action.refresh (ok (window_drive ∷ []))
    ∷ Action.pick_drive window_drive
    ∷ []

abbrev prepared : SnapDogInstallerApp
prepared = run window_crates window_display preparations new

abbrev window_request : PipelineRequest
window_request = record {
  image_url = text "https://h/i";
  expected_compressed_sha256 = some window_hash;
  expected_compressed_size = some 2;
  expected_raw_size = some 3;
  expected_raw_sha256 = some window_hash;
  drive = record { id = text "sdb@9"; device = text "/dev/sdb"; capacity = 100 };
  verify = true;
}

requested : pipeline_request prepared ≡ ok window_request
unfolding run pipeline_request text
requested = refl

abbrev is_running : OperationState → Bool
is_running (OperationState.running r) = true
is_running _ = false

runs :
    is_running (step window_crates window_display Action.erase_and_flash prepared).operation ≡ true
unfolding run text
runs = refl

pipeline_request_example : IsRequest prepared window_request
pipeline_request_example = pipeline_request-IsRequest prepared window_request requested

run-Inv_example :
    Inv window_crates window_display (run window_crates window_display preparations new)
run-Inv_example = run-Inv window_crates window_display preparations
