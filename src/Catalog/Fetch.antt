-- ===== src/Catalog/Fetch.antt =====
-- `fetch_latest` and `fetch_catalog` of src/catalog.rs.
use snapdog_os_installer.Prelude.{
  ◌&&◌, List, [], ◌∷◌, ◌++◌, Text, text, leb, ltb, ◌==◌, if◌then◌else◌,
}
use snapdog_os_installer.Prelude.Result.{Result, ok, err, ◌>>=◌, ◌>>◌, map_err}
use snapdog_os_installer.Model.{Channel, manifest_name, Manifest}
use snapdog_os_installer.Catalog.Types.{CatalogError, request, Crates, Response}
use snapdog_os_installer.Catalog.Validate.{validate_catalog, validate_download_manifest}

unfoldable pub image_base_url : Text
unfolding text
image_base_url = text "https://updates.snapdog.cc/os/images/"

unfoldable pub latest_url : Channel → Text
unfolding image_base_url manifest_name text
latest_url channel = image_base_url ++ text "latest-" ++ manifest_name channel ++ text ".json"

unfoldable pub catalog_url : Channel → Text
unfolding image_base_url manifest_name text
catalog_url channel = image_base_url ++ text "catalog-" ++ manifest_name channel ++ text ".json"

-- `get` is the whole of a request, with the header that switches caches off.
module _ {HttpError Version : Type 0} (crates : Crates Version)
    (get : Text → Result HttpError (Response HttpError)) where
  -- A status of 400 or more is an error.
  unfoldable pub error_for_status : Response HttpError → Result HttpError (Response HttpError)
  error_for_status response =
      if leb 400 response.status && ltb response.status 600
      then err response.status_error
      else ok response

  unfoldable pub fetch_latest : Channel → Result (CatalogError HttpError) Manifest
  unfolding error_for_status latest_url validate_download_manifest
  fetch_latest channel = do
    response ← map_err request (get (latest_url channel))
    checked ← map_err request (error_for_status response)
    manifest ← map_err request checked.manifest
    validate_download_manifest crates manifest
    ok manifest

  unfoldable pub fetch_catalog : Channel → Result (CatalogError HttpError) (List Manifest)
  unfolding error_for_status catalog_url fetch_latest validate_catalog
  fetch_catalog channel = do
    response ← map_err request (get (catalog_url channel))
    if response.status == 404 then (fetch_latest channel >>= λ manifest. ok (manifest ∷ [])) else do
      checked ← map_err request (error_for_status response)
      catalog ← map_err request checked.catalog
      validate_catalog crates catalog channel
      ok catalog.releases
