-- ===== src/Catalog/Types.antt =====
-- The errors of src/catalog.rs, and the crates it calls.
use snapdog_os_installer.Prelude.{ℕ, Bool, Option, Text}
use snapdog_os_installer.Prelude.Result.{Result}
use snapdog_os_installer.Model.{Channel, Board, Manifest, ReleaseCatalog}

-- The reasons that `CatalogError::InvalidManifest` gives as text.
pub data Invalid : Type 0 where
  catalog_schema : ℕ → Invalid
  catalog_channel : Channel → Channel → Invalid
  release_count : Invalid
  wrong_channel invalid_version duplicate_version : Text → Invalid
  not_sorted : Invalid
  manifest_schema : ℕ → Invalid
  missing_image missing_url relative_url adorned_url missing_filename invalid_filename :
      Board → Invalid
  unexpected_filename : Board → Text → Invalid

-- `HttpError` stands for `reqwest::Error`.
pub data CatalogError (HttpError : Type 0) : Type 0 where
  request : HttpError → CatalogError HttpError
  invalid_image_url : Text → CatalogError HttpError
  invalid_manifest : Invalid → CatalogError HttpError

-- What the code asks of a parsed `reqwest::Url`. `last_segment` is the last of its path segments.
pub record UrlParts : Type 0 where
  pub scheme : Text
  pub host : Option Text
  pub username : Text
  pub password : Option Text
  pub query : Option Text
  pub fragment : Option Text
  pub last_segment : Option Text
  pub text : Text

-- The crates `semver` and `url`. `join_base` is `Url::join` on the base of all images.
pub record Crates (Version : Type 0) : Type 0 where
  pub parse_version : Text → Option Version
  pub older : Version → Version → Bool
  pub parse_url : Text → Option UrlParts
  pub join_base : Text → Option UrlParts

-- What the server answers. A body is what `json` makes of it.
pub record Response (HttpError : Type 0) : Type 0 where
  pub status : ℕ
  pub status_error : HttpError
  pub manifest : Result HttpError Manifest
  pub catalog : Result HttpError ReleaseCatalog
