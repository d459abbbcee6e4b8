-- ===== src/Catalog/Tests.antt =====
-- A small release service, and what the client makes of it.
use snapdog_os_installer.Prelude.{
  ℕ, ◌≡◌, refl, ◌⊎◌, true, none, some, [], ◌∷◌, ◌++◌, Text, text, parse_below, strip_prefix, ltb,
  option_map, is_ascii_alphanumeric, all,
}
use snapdog_os_installer.Prelude.Result.{Result, ok, err}
use snapdog_os_installer.Model.{
  release, Board, pi5, pi4, pi3, zero2w, board_id, ImageInfo, Manifest, ReleaseCatalog,
}
use snapdog_os_installer.Catalog.Types.{CatalogError, UrlParts, Crates, Response}
use snapdog_os_installer.Catalog.Percent.{
  percent_encode, percent_decode, is_utf8, percent_decode-percent_encode,
}
use snapdog_os_installer.Catalog.Validate.{validate_catalog}
use snapdog_os_installer.Catalog.Fetch.{fetch_catalog}
use snapdog_os_installer.Catalog.Accepted.{IsCatalog, validate_catalog-IsCatalog}
use snapdog_os_installer.Catalog.Fetched.{IsMissing, Latest, fetch_catalog_lem}

abbrev toy_address : Text → UrlParts
toy_address name = record {
  scheme = text "https";
  host = some (text "h");
  username = [];
  password = none;
  query = none;
  fragment = none;
  last_segment = some name;
  text = text "https://h/" ++ name;
}

-- Versions are numbers, and an address is `https://h/` and a file name.
abbrev toy_crates : Crates ℕ
toy_crates = record {
  parse_version = parse_below 1000;
  older = ltb;
  parse_url = λ t. option_map toy_address (strip_prefix (text "https://h/") t);
  join_base = λ t. some (toy_address t);
}

abbrev toy_image : Text → Board → Text × ImageInfo
toy_image version board = (
  board_id board,
  record {
    image = [];
    sha256 = none;
    url =
        some (
          text "https://h/snapdog%2Dos-"
          ++ board_id board
          ++ text "-"
          ++ version
          ++ text ".img.gz");
    compressed_size = none;
    uncompressed_size = none;
    raw_sha256 = none;
  },
)

abbrev toy_release : Text → Manifest
toy_release version = record {
  schema_version = some 2;
  channel = release;
  version = version;
  commit = none;
  date = [];
  boards =
      toy_image version pi5
      ∷ toy_image version pi4
      ∷ toy_image version pi3
      ∷ toy_image version zero2w
      ∷ [];
}

abbrev toy_catalog : ReleaseCatalog
toy_catalog = record {
  schema_version = 1;
  channel = release;
  releases = toy_release (text "12") ∷ toy_release (text "9") ∷ [];
}

toy_accepted :
    ◌≡◌ {A = Result (CatalogError Text) Unit}
      (validate_catalog toy_crates toy_catalog release)
      (ok tt)
unfolding validate_catalog parse_below strip_prefix board_id text
toy_accepted = refl

validate_catalog_example :
    (toy_catalog.schema_version ≡ 1)
    × (toy_catalog.channel ≡ release)
    × IsCatalog toy_crates release toy_catalog.releases
validate_catalog_example =
    validate_catalog-IsCatalog toy_crates {HttpError = Text} toy_catalog release toy_accepted

abbrev toy_get : Text → Result Text (Response Text)
toy_get url =
    ok (record { status = 200; status_error = []; manifest = err []; catalog = ok toy_catalog })

toy_fetched : fetch_catalog toy_crates toy_get release ≡ ok toy_catalog.releases
unfolding fetch_catalog parse_below strip_prefix board_id text
toy_fetched = refl

fetch_catalog_example :
    (IsMissing toy_crates toy_get release × Latest toy_crates toy_get toy_catalog.releases)
    ⊎ IsCatalog toy_crates release toy_catalog.releases
fetch_catalog_example =
    fetch_catalog_lem toy_crates toy_get release toy_catalog.releases toy_fetched

abbrev toy_name : Text
toy_name = text "snap dog 100%"

toy_name-is_utf8 : is_utf8 toy_name ≡ true
unfolding is_utf8 text
toy_name-is_utf8 = refl

toy_name-bytes : all (λ b. ltb b 256) toy_name ≡ true
unfolding text
toy_name-bytes = refl

percent_decode_example :
    percent_decode (percent_encode is_ascii_alphanumeric toy_name) ≡ some toy_name
percent_decode_example =
    percent_decode-percent_encode is_ascii_alphanumeric toy_name refl toy_name-bytes
      toy_name-is_utf8
