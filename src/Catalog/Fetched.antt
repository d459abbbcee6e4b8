-- ===== src/Catalog/Fetched.antt =====
-- What the client of src/catalog.rs fetches.
use snapdog_os_installer.Prelude.{
  ◌≡◌, refl, sym, ap, subst, ◌⊎◌, inl, inr, Bool, true, false, List, [], ◌∷◌, Text, ◌==◌, ==_iff,
  if◌then◌else◌,
}
use snapdog_os_installer.Prelude.Result.{
  Result, ok, err, ◌>>=◌, ◌>>◌, map_err, >>=-eq-ok, ok-injective,
}
use snapdog_os_installer.Model.{Channel, Manifest}
use snapdog_os_installer.Catalog.Types.{CatalogError, request, Crates, Response}
use snapdog_os_installer.Catalog.Validate.{validate_download_manifest, validate_catalog}
use snapdog_os_installer.Catalog.Fetch.{
  fetch_latest, fetch_catalog, error_for_status, catalog_url, latest_url,
}
use snapdog_os_installer.Catalog.Accepted.{
  IsRelease, IsCatalog, manifest_lem, validate_catalog-IsCatalog,
}

from_map_err :
    {HttpError A : Type 0} (r : Result HttpError A) {a : A}
    → ◌≡◌ {A = Result (CatalogError HttpError) A} (map_err request r) (ok a)
    → r ≡ ok a
from_map_err (ok x) h = ap ok (ok-injective h)
from_map_err (err e) h = cc

module _ {Version HttpError : Type 0} (crates : Crates Version)
    (get : Text → Result HttpError (Response HttpError)) where
  -- The answer that makes a client fall back to the latest release.
  abbrev pub IsMissing : Channel → Type 0
  IsMissing channel =
      (r : Response HttpError) × (get (catalog_url channel) ≡ ok r) × (r.status ≡ 404)

  abbrev pub Latest : List Manifest → Type 0
  Latest releases = (m : Manifest) × (releases ≡ m ∷ []) × IsRelease crates m

  latest_lem :
      (channel : Channel) (m : Manifest)
      → fetch_latest crates get channel ≡ ok m
      → IsRelease crates m
  unfolding fetch_latest
  latest_lem channel m h =
      let (response, g, h1) = >>=-eq-ok (map_err request (get (latest_url channel))) _ h in
      let (checked, c, h2) =
        >>=-eq-ok (map_err request (error_for_status crates get response)) _ h1 in
      let (manifest, j, h3) = >>=-eq-ok (map_err request checked.manifest) _ h2 in
      let (d, valid, h4) = >>=-eq-ok (validate_download_manifest crates manifest) _ h3 in
      subst (IsRelease crates) (ok-injective h4) (manifest_lem crates manifest valid)

  -- The two ways of a response, by whether its status is 404.
  response_lem :
      (channel : Channel) (response : Response HttpError) (releases : List Manifest)
      (missing : Bool)
      → get (catalog_url channel) ≡ ok response
      → (response.status == 404) ≡ missing
      → (if missing
          then (fetch_latest crates get channel >>= λ manifest. ok (manifest ∷ []))
          else (map_err request (error_for_status crates get response) >>= λ checked.
              map_err request checked.catalog >>= λ catalog.
              validate_catalog crates catalog channel >> ok catalog.releases))
        ≡ ok releases
      → (IsMissing channel × Latest releases) ⊎ IsCatalog crates channel releases
  response_lem channel response releases true g e h =
      let (m, latest, h1) = >>=-eq-ok (fetch_latest crates get channel) _ h in
      inl (
        (response, g, (==_iff response.status 404).0 e),
        (m, sym (ok-injective h1), latest_lem channel m latest),
      )
  response_lem channel response releases false g e h =
      let (checked, c, h1) =
        >>=-eq-ok (map_err request (error_for_status crates get response)) _ h in
      let (catalog, j, h2) = >>=-eq-ok (map_err request checked.catalog) _ h1 in
      let (d, valid, h3) = >>=-eq-ok (validate_catalog crates catalog channel) _ h2 in
      inr (
        subst (IsCatalog crates channel) (ok-injective h3)
          (validate_catalog-IsCatalog crates catalog channel valid).2)

  -- What a client fetches is a catalog that satisfies every rule; or else the server answered 404
  -- for the catalog, and it is one release that passed the validation. No other failure makes the
  -- client fall back.
  pub fetch_catalog_lem :
      (channel : Channel) (releases : List Manifest)
      → fetch_catalog crates get channel ≡ ok releases
      → (IsMissing channel × Latest releases) ⊎ IsCatalog crates channel releases
  unfolding fetch_catalog
  fetch_catalog_lem channel releases h =
      let (response, g, h1) = >>=-eq-ok (map_err request (get (catalog_url channel))) _ h in
      response_lem channel response releases (response.status == 404) (from_map_err _ g) refl h1
