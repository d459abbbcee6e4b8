-- ===== src/Download/Fetch.antt =====
-- `download`, `download_from_reader` and `PartialDownload` of src/download.rs. The progress callback
-- only informs, and is left out.
use snapdog_os_installer.Prelude.{
  ℕ, suc, Bool, false, not, Option, none, some, [], ◌∷◌, ◌++◌, Bytes, Text, text, length, is_some,
  ◌==◌, ◌=ᵗ◌, ltb, checked_add,
}
use snapdog_os_installer.Prelude.Result.{Result, ok, err, ok_or, map_err}
use snapdog_os_installer.Prelude.Exec.{Exec, pure, raise, lift, attempt, fail_if, ◌>>=◌, ◌>>◌}
use snapdog_os_installer.Flash.Types.{IoError, Crypto, Replies}
use snapdog_os_installer.Download.Types.{
  Destination, DownloadRequest, DownloadReport, DownloadError, invalid_destination,
  destination_exists, partial_exists, request, io, size_mismatch, size_overflow, checksum_mismatch,
  cancelled, Files, set_file, Env, World, Response, UrlParts,
}
use snapdog_os_installer.Download.Request.{validate_url, parse_sha256, parse_optional, check_length}

unfoldable pub partial_path : Text × Text → Text × Text
unfolding text
partial_path (parent, name) = (parent, name ++ text ".part")

abbrev pub contents_or_empty : Option Bytes → Bytes
contents_or_empty none = []
contents_or_empty (some b) = b

abbrev pub append_file : Text × Text → Bytes → Files → Files
append_file key b files = set_file key (some (contents_or_empty (files key) ++ b)) files

abbrev pub exceeds : ℕ → Option ℕ → Bool
exceeds next none = false
exceeds next (some expected) = ltb expected next

abbrev pub differs : ℕ → Option ℕ → Bool
differs downloaded none = false
differs downloaded (some expected) = not (downloaded == expected)

abbrev pub expected_or_zero : Option ℕ → ℕ
expected_or_zero none = 0
expected_or_zero (some n) = n

abbrev pub wrong_digest : Crypto → Bytes → Option Bytes → Bool
wrong_digest c hashed none = false
wrong_digest c hashed (some expected) = not (expected =ᵗ c.sha256 hashed)

module _ {H : Type 0} where
  abbrev pub reply_to :
      Result IoError Unit
      → (Files → Files)
      → (Files → Files)
      → World
      → Result (DownloadError H) Unit × World
  reply_to (ok u) done failed w = (ok tt, record { calls = suc w.calls; files = done w.files })
  reply_to (err e) done failed w =
      (err (io e), record { calls = suc w.calls; files = failed w.files })

  -- One call on the files: what it does to them when it succeeds, and when it fails.
  unfoldable pub file_call :
      (ℕ → Result IoError Unit)
      → (Files → Files)
      → (Files → Files)
      → Exec World (DownloadError H) Unit
  file_call answer done failed w = reply_to (answer w.calls) done failed w

  unfoldable pub read_file : Text × Text → Exec World (DownloadError H) (Option Bytes)
  read_file key w = (ok (w.files key), w)

  unfoldable pub load_flag : (ℕ → Bool) → Exec World (DownloadError H) Bool
  load_flag flag w = (ok (flag w.calls), record w { calls = suc w.calls })

  unfoldable pub check_cancelled : Env → Exec World (DownloadError H) Unit
  unfolding load_flag
  check_cancelled env = do now ← load_flag env.cancelled; fail_if now cancelled

  -- `Path::try_exists`
  unfoldable pub try_exists : Env → Text × Text → Exec World (DownloadError H) Bool
  unfolding file_call read_file
  try_exists env key = do
    file_call env.exists (λ files. files) (λ files. files)
    content ← read_file key
    pure (is_some content)

  -- `if path.try_exists()? { return Err(error); }`
  unfoldable pub reject_existing :
      Env → Text × Text → DownloadError H → Exec World (DownloadError H) Unit
  unfolding try_exists
  reject_existing env key error = do found ← try_exists env key; fail_if found error

  -- A destination with a file name, that is not there.
  unfoldable pub ensure_available :
      Env → Destination → Option Text → Exec World (DownloadError H) (Text × Text)
  unfolding reject_existing
  ensure_available env destination none = raise (invalid_destination destination)
  ensure_available env destination (some name) = do
    reject_existing env (destination.parent, name) (destination_exists destination)
    pure (destination.parent, name)

  -- `PartialDownload::create`: opening with `create_new` fails if the file is there.
  unfoldable pub create_partial : Env → Text × Text → Exec World (DownloadError H) Unit
  unfolding reject_existing file_call set_file
  create_partial env key = do
    reject_existing env key (partial_exists key)
    file_call env.create (set_file key (some [])) (λ files. files)

  -- `write_all` on the partial file; a failed one may have written anything there.
  unfoldable pub write_partial : Env → Text × Text → Bytes → Exec World (DownloadError H) Unit
  unfolding file_call set_file
  write_partial env key b w =
      file_call env.write (append_file key b) (set_file key (some (env.torn w.calls))) w

  -- The loop of `download_from_reader`: the bytes hashed so far and their number.
  unfoldable pub download_loop :
      Env → Text × Text → Option ℕ → Replies → Bytes → ℕ → Exec World (DownloadError H) (Bytes × ℕ)
  unfolding check_cancelled write_partial
  download_loop env key expected [] hashed downloaded = do
    check_cancelled env
    pure (hashed, downloaded)
  download_loop env key expected (err e ∷ rest) hashed downloaded = do
    check_cancelled env
    raise (io e)
  download_loop env key expected (ok [] ∷ rest) hashed downloaded = do
    check_cancelled env
    pure (hashed, downloaded)
  download_loop env key expected (ok (b ∷ bs) ∷ rest) hashed downloaded = do
    check_cancelled env
    check_cancelled env
    next ← lift (ok_or (checked_add downloaded (length (b ∷ bs))) size_overflow)
    fail_if (exceeds next expected) (size_mismatch (expected_or_zero expected) next)
    write_partial env key (b ∷ bs)
    download_loop env key expected rest (hashed ++ (b ∷ bs)) next

  -- `PartialDownload::publish`: the file is synced and renamed, if nothing has taken its place.
  unfoldable pub publish : Env → Destination → Text × Text → Exec World (DownloadError H) Unit
  unfolding file_call ensure_available set_file
  publish env destination key = do
    file_call env.sync (λ files. files) (λ files. files)
    target ← ensure_available env destination destination.file_name
    content ← read_file key
    file_call env.rename (λ files. set_file key none (set_file target content files))
        (λ files. files)

  -- What runs while the partial file is there.
  unfoldable pub fill_partial :
      Crypto
      → Env
      → Destination
      → Text × Text
      → Option Bytes
      → Option ℕ
      → Replies
      → Exec World (DownloadError H) DownloadReport
  unfolding download_loop publish
  fill_partial c env destination key expected_digest expected_size reads = do
    (hashed, downloaded) ← download_loop env key expected_size reads [] 0
    fail_if (differs downloaded expected_size)
        (size_mismatch (expected_or_zero expected_size) downloaded)
    fail_if (wrong_digest c hashed expected_digest) checksum_mismatch
    publish env destination key
    pure (record {
      destination = destination;
      bytes_downloaded = downloaded;
      sha256 = c.hex_encode (c.sha256 hashed);
    })

  -- `Drop for PartialDownload`: unless it was published, the file is removed, and an error of that is
  -- only logged.
  unfoldable pub drop_partial :
      Env
      → Text × Text
      → Result (DownloadError H) DownloadReport
      → Exec World (DownloadError H) DownloadReport
  unfolding file_call set_file
  drop_partial env key (ok report) = pure report
  drop_partial env key (err e) = do
    attempt (file_call env.remove (set_file key none) (λ files. files))
    raise e

  unfoldable pub download_from_reader :
      Crypto
      → Env
      → Destination
      → Option Bytes
      → Option ℕ
      → Replies
      → Exec World (DownloadError H) DownloadReport
  unfolding check_cancelled ensure_available partial_path create_partial fill_partial drop_partial
  download_from_reader c env destination expected_digest expected_size reads = do
    check_cancelled env
    target ← ensure_available env destination destination.file_name
    create_partial env (partial_path target)
    result ←
        attempt
          (fill_partial c env destination (partial_path target) expected_digest expected_size reads)
    drop_partial env (partial_path target) result

  -- `get` is a whole request: the errors of sending it and of its status are one.
  unfoldable pub download :
      Crypto
      → Env
      → (Text → Option UrlParts)
      → (UrlParts → Result H Response)
      → DownloadRequest
      → Exec World (DownloadError H) DownloadReport
  unfolding validate_url parse_sha256 check_cancelled ensure_available download_from_reader
  download c env parse get req = do
    url ← lift (validate_url parse req.url)
    expected_digest ← lift (parse_optional c req.expected_sha256)
    check_cancelled env
    ensure_available env req.destination req.destination.file_name
    response ← lift (map_err request (get url))
    lift (check_length req.expected_size response.content_length)
    download_from_reader c env req.destination expected_digest req.expected_size response.reads
