-- ===== src/Catalog/Validate.antt =====
-- `validate_catalog`, `validate_download_manifest`, `validate_immutable_url` and `image_url` of
-- src/catalog.rs.
use snapdog_os_installer.Prelude.{
  ℕ, Bool, true, false, not, ◌||◌, Option, none, some, List, [], ◌∷◌, ◌++◌, Text, text, length,
  is_empty, is_some, ◌==◌, ◌=ᵗ◌, any, ltb, if◌then◌else◌,
}
use snapdog_os_installer.Prelude.Result.{Result, ok, err, ◌>>=◌, ◌>>◌, reject_if, ok_or}
use snapdog_os_installer.Model.{
  Channel, release, beta, Board, all_boards, board_id, Manifest, ReleaseCatalog, image_for,
}
use snapdog_os_installer.Catalog.Types.{
  Invalid, CatalogError, invalid_manifest, invalid_image_url, UrlParts, Crates,
}
use snapdog_os_installer.Catalog.Percent.{percent_decode}

abbrev pub same_channel : Channel → Channel → Bool
same_channel release release = true
same_channel beta beta = true
same_channel release beta = false
same_channel beta release = false

-- `snapdog-os-{board}-{version}.img.gz`
unfoldable pub expected_name : Board → Text → Text
unfolding board_id text
expected_name board version =
    text "snapdog-os-" ++ board_id board ++ text "-" ++ version ++ text ".img.gz"

unfoldable pub is_adorned : UrlParts → Bool
unfolding text
is_adorned url =
    not (url.scheme =ᵗ text "https")
    || not (is_some url.host)
    || not (is_empty url.username)
    || is_some url.password
    || is_some url.query
    || is_some url.fragment

-- `filter(|segment| !segment.is_empty())`
abbrev pub nonempty : Option Text → Option Text
nonempty none = none
nonempty (some segment) = if is_empty segment then none else some segment

-- `previous.is_some_and(|newer| newer < &version)`
abbrev pub is_newer : {Version : Type 0} → Crates Version → Option Version → Version → Bool
is_newer crates none version = false
is_newer crates (some newer) version = crates.older newer version

module _ {HttpError Version : Type 0} (crates : Crates Version) where
  unfoldable pub validate_immutable_url : Text → Board → Text → Result (CatalogError HttpError) Unit
  unfolding is_adorned percent_decode expected_name
  validate_immutable_url value board version = do
    url ← ok_or (crates.parse_url value) (invalid_manifest (Invalid.relative_url board))
    reject_if (is_adorned url) (invalid_manifest (Invalid.adorned_url board))
    encoded_name ←
        ok_or (nonempty url.last_segment) (invalid_manifest (Invalid.missing_filename board))
    name ← ok_or (percent_decode encoded_name) (invalid_manifest (Invalid.invalid_filename board))
    reject_if (not (name =ᵗ expected_name board version))
        (invalid_manifest (Invalid.unexpected_filename board (expected_name board version)))

  -- One round of the loop over the boards.
  unfoldable pub validate_board : Manifest → Board → Result (CatalogError HttpError) Unit
  unfolding validate_immutable_url image_for
  validate_board manifest board = do
    image ← ok_or (image_for manifest board) (invalid_manifest (Invalid.missing_image board))
    value ← ok_or image.url (invalid_manifest (Invalid.missing_url board))
    validate_immutable_url value board manifest.version

  unfoldable pub validate_boards : Manifest → List Board → Result (CatalogError HttpError) Unit
  unfolding validate_board
  validate_boards manifest [] = ok tt
  validate_boards manifest (board ∷ rest) = do
    validate_board manifest board
    validate_boards manifest rest

  abbrev pub validate_schema : Manifest → Option ℕ → Result (CatalogError HttpError) Unit
  validate_schema manifest none = ok tt
  validate_schema manifest (some schema) =
      if schema == 2
      then ok_or (crates.parse_version manifest.version)
          (invalid_manifest (Invalid.invalid_version manifest.version))
        >> validate_boards manifest all_boards
      else err (invalid_manifest (Invalid.manifest_schema schema))

  unfoldable pub validate_download_manifest : Manifest → Result (CatalogError HttpError) Unit
  unfolding validate_boards
  validate_download_manifest manifest = validate_schema manifest manifest.schema_version

  -- The loop over the releases: the version strings seen and the version before.
  unfoldable pub validate_releases :
      Channel → List Text → Option Version → List Manifest → Result (CatalogError HttpError) Unit
  unfolding validate_download_manifest
  validate_releases channel seen previous [] = ok tt
  validate_releases channel seen previous (manifest ∷ rest) = do
    validate_download_manifest manifest
    reject_if (not (same_channel manifest.channel channel))
        (invalid_manifest (Invalid.wrong_channel manifest.version))
    version ←
        ok_or (crates.parse_version manifest.version)
          (invalid_manifest (Invalid.invalid_version manifest.version))
    reject_if (any (λ v. v =ᵗ manifest.version) seen)
        (invalid_manifest (Invalid.duplicate_version manifest.version))
    reject_if (is_newer crates previous version) (invalid_manifest Invalid.not_sorted)
    validate_releases channel (manifest.version ∷ seen) (some version) rest

  unfoldable pub validate_catalog : ReleaseCatalog → Channel → Result (CatalogError HttpError) Unit
  unfolding validate_releases
  validate_catalog catalog channel = do
    reject_if (not (catalog.schema_version == 1))
        (invalid_manifest (Invalid.catalog_schema catalog.schema_version))
    reject_if (not (same_channel catalog.channel channel))
        (invalid_manifest (Invalid.catalog_channel catalog.channel channel))
    reject_if (is_empty catalog.releases || ltb 20 (length catalog.releases))
        (invalid_manifest Invalid.release_count)
    validate_releases channel [] none catalog.releases

  unfoldable pub image_url : Text → Result (CatalogError HttpError) Text
  unfolding text
  image_url image = do
    url ← ok_or (crates.join_base image) (invalid_image_url image)
    reject_if (not (url.scheme =ᵗ text "https")) (invalid_image_url image)
    ok url.text
