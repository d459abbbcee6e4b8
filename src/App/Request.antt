-- ===== src/App/Request.antt =====
-- `validate_release_image` and `pipeline_request` of src/app.rs, in a build for one of the systems.
use snapdog_os_installer.Prelude.{
  ℕ, Bool, false, not, ◌||◌, Option, none, some, ◌++◌, Text, text, length, all, is_some,
  is_ascii_hexdigit, ◌==◌, ltb, if◌then◌else◌,
}
use snapdog_os_installer.Prelude.Result.{Result, ok, ok_or, reject_if, ◌>>=◌, ◌>>◌}
use snapdog_os_installer.Model.{Board, Manifest, image_for}
use snapdog_os_installer.Pipeline.Types.{PipelineRequest}
use snapdog_os_installer.Pipeline.Job.{worker_drive}
use snapdog_os_installer.App.Types.{SnapDogInstallerApp}

abbrev pub is_schema_two : Option ℕ → Bool
is_schema_two none = false
is_schema_two (some n) = n == 2

unfoldable pub required_hash : Option Text → Text → Result Text Text
unfolding text
required_hash value name = do
  hash ← ok_or value (text "Release metadata is missing the " ++ name ++ text " checksum")
  reject_if (not (length hash == 64) || not (all is_ascii_hexdigit hash))
      (text "Release metadata has an invalid " ++ name ++ text " checksum")
  ok hash

abbrev pub positive : Option ℕ → Option ℕ
positive none = none
positive (some n) = if ltb 0 n then some n else none

unfoldable pub required_size : Option ℕ → Text → Result Text ℕ
unfolding text
required_size value name =
    ok_or (positive value) (text "Release metadata is missing the " ++ name ++ text " size")

abbrev pub pending_release_metadata : Text
pending_release_metadata = text "Secure installer metadata is still publishing for this release."

unfoldable pub validate_release_image : Manifest → Board → Result Text Unit
unfolding required_hash required_size image_for text
validate_release_image manifest board = do
  reject_if (not (is_schema_two manifest.schema_version)) pending_release_metadata
  image ←
      ok_or (image_for manifest board)
        (text "This release has no image for the selected Raspberry Pi")
  reject_if (not (is_some image.url)) (text "Release metadata is missing the immutable image URL")
  required_hash image.sha256 (text "compressed image")
  required_hash image.raw_sha256 (text "raw image")
  required_size image.compressed_size (text "compressed image")
  required_size image.uncompressed_size (text "raw image")
  ok tt

unfoldable pub pipeline_request : SnapDogInstallerApp → Result Text PipelineRequest
unfolding validate_release_image
pipeline_request app = do
  selection ← ok_or app.confirmed (text "Choose an image first")
  drive ← ok_or app.selected_drive (text "Select a target first")
  image ←
      ok_or (image_for selection.manifest selection.board)
        (text "Selected release has no image for this Raspberry Pi")
  validate_release_image selection.manifest selection.board
  compressed_sha256 ← required_hash image.sha256 (text "compressed image")
  raw_sha256 ← required_hash image.raw_sha256 (text "raw image")
  compressed_size ← required_size image.compressed_size (text "compressed image")
  raw_size ← required_size image.uncompressed_size (text "raw image")
  reject_if (ltb drive.capacity raw_size) (text "The selected target is too small for this image")
  ok (record {
    image_url = selection.url;
    expected_compressed_sha256 = some compressed_sha256;
    expected_compressed_size = some compressed_size;
    expected_raw_size = some raw_size;
    expected_raw_sha256 = some raw_sha256;
    drive = worker_drive drive;
    verify = app.verify_after_write;
  })
