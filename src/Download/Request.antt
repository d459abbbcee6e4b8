-- ===== src/Download/Request.antt =====
-- `validate_url`, `parse_sha256` and the check of the announced length, of src/download.rs.
use snapdog_os_installer.Prelude.{
  ℕ, not, Option, none, some, Bytes, Text, text, length, is_some, ◌==◌, ◌=ᵗ◌, if◌then◌else◌,
}
use snapdog_os_installer.Prelude.Result.{Result, ok, err, ok_or, ◌>>=◌}
use snapdog_os_installer.Flash.Types.{Crypto}
use snapdog_os_installer.Download.Types.{
  DownloadError, invalid_url, insecure_url, invalid_checksum, size_mismatch, UrlParts,
}

module _ {H : Type 0} where
  unfoldable pub validate_url : (Text → Option UrlParts) → Text → Result (DownloadError H) UrlParts
  unfolding text
  validate_url parse value = do
    url ← ok_or (parse value) (invalid_url value)
    if not (url.scheme =ᵗ text "https")
        then err (insecure_url value)
        else if not (is_some url.host)
        then err (invalid_url value)
        else ok url

  abbrev pub decoded_digest : Text → Option Bytes → Result (DownloadError H) Bytes
  decoded_digest value none = err (invalid_checksum value)
  decoded_digest value (some b) = if length b == 32 then ok b else err (invalid_checksum value)

  unfoldable pub parse_sha256 : Crypto → Text → Result (DownloadError H) Bytes
  parse_sha256 c value = decoded_digest value (c.hex_decode value)

  abbrev pub parse_optional : Crypto → Option Text → Result (DownloadError H) (Option Bytes)
  parse_optional c none = ok none
  parse_optional c (some value) = parse_sha256 c value >>= λ digest. ok (some digest)

  abbrev pub check_length : Option ℕ → Option ℕ → Result (DownloadError H) Unit
  check_length (some expected) (some actual) =
      if expected == actual then ok tt else err (size_mismatch expected actual)
  check_length (some expected) none = ok tt
  check_length none actual = ok tt
