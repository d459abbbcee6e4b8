-- ===== src/App/Invariant.antt =====
-- What the window of src/app.rs lets the user confirm, pick and start.
use snapdog_os_installer.Prelude.{
  ℕ, ◌≤◌, ◌<◌, ◌≡◌, refl, ap, Bool, true, false, not, ◌||◌, Option, none, some, some-injective,
  Text, text, length, all, is_ascii_hexdigit, ◌==◌, ==_iff, or_false, ltb, arith, subst,
  if◌then◌else◌,
}
use snapdog_os_installer.Prelude.Result.{
  ok, ok_or, reject_if, reject_if-eq-ok, >>=-eq-ok, ok-injective,
}
use snapdog_os_installer.Model.{ImageInfo, image_for, ImageSelection, Drive}
use snapdog_os_installer.Pipeline.Types.{PipelineRequest}
use snapdog_os_installer.Pipeline.Job.{worker_drive}
use snapdog_os_installer.App.Types.{SnapDogInstallerApp}
use snapdog_os_installer.App.Request.{
  positive, required_hash, required_size, validate_release_image, pipeline_request,
}

some_of : {A : Type 0} (o : Option A) (e : Text) (a : A) → ok_or o e ≡ ok a → o ≡ some a
some_of none e a h = cc
some_of (some x) e a h = ap some (ok-injective h)

-- A positive size.
abbrev pub IsSize : Option ℕ → ℕ → Type 0
IsSize o n = (o ≡ some n) × (0 < n)

required_size-IsSize :
    (o : Option ℕ) (name : Text) (n : ℕ) → required_size o name ≡ ok n → IsSize o n
unfolding required_size
required_size-IsSize none name n h = cc
required_size-IsSize (some m) name n h = by_test (ltb 0 m) refl (some_of (positive (some m)) _ n h)
  where
    by_test : (b : Bool) → ltb 0 m ≡ b → (if b then some m else none) ≡ some n → IsSize (some m) n
    by_test true e h =
        (h, (let l : 0 < m = ground arith in subst (λ (x : ℕ). 0 < x) (some-injective m n h) l))
    by_test false e h = cc

-- A checksum of 64 hexadecimal digits.
abbrev pub IsHash : Option Text → Text → Type 0
IsHash o hash = (o ≡ some hash) × (length hash ≡ 64) × (all is_ascii_hexdigit hash ≡ true)

not-false : (b : Bool) → not b ≡ false → b ≡ true
not-false true h = refl
not-false false h = cc

required_hash-IsHash :
    (o : Option Text) (name hash : Text) → required_hash o name ≡ ok hash → IsHash o hash
unfolding required_hash
required_hash-IsHash o name hash h =
    let (x, r, k) = >>=-eq-ok (ok_or o _) _ h in
    let (_, q, e) =
      >>=-eq-ok (reject_if (not (length x == 64) || not (all is_ascii_hexdigit x)) _) _ k in
    let (l, d) =
      or_false (not (length x == 64)) (not (all is_ascii_hexdigit x))
        (reject_if-eq-ok (not (length x == 64) || not (all is_ascii_hexdigit x)) _ q) in
    subst (λ (t : Text). IsHash o t) (ok-injective e)
      (some_of o _ x r, (==_iff (length x) 64).0 (not-false _ l), not-false _ d)

-- The image of the selection fits the drive.
pub record IsFit (selection : ImageSelection) (drive : Drive) : Type 0 where
  pub image : ImageInfo
  pub found : image_for selection.manifest selection.board ≡ some image
  pub raw_size : ℕ
  pub size : IsSize image.uncompressed_size raw_size
  pub fits : raw_size ≤ drive.capacity

-- A request asks for the confirmed image on the selected drive, which it fits, and names its size and its
-- checksums.
pub record IsRequest (app : SnapDogInstallerApp) (request : PipelineRequest) : Type 0 where
  pub selection : ImageSelection
  pub drive : Drive
  pub confirmed : app.confirmed ≡ some selection
  pub selected : app.selected_drive ≡ some drive
  pub fit : IsFit selection drive
  pub valid : validate_release_image selection.manifest selection.board ≡ ok tt
  pub url : request.image_url ≡ selection.url
  pub target : request.drive ≡ worker_drive drive
  pub verify : request.verify ≡ app.verify_after_write
  pub raw_size : request.expected_raw_size ≡ some fit.raw_size
  pub compressed_sha256 : Text
  pub compressed_hash : IsHash fit.image.sha256 compressed_sha256
  pub compressed_named : request.expected_compressed_sha256 ≡ some compressed_sha256
  pub raw_sha256 : Text
  pub raw_hash : IsHash fit.image.raw_sha256 raw_sha256
  pub raw_named : request.expected_raw_sha256 ≡ some raw_sha256

-- A request is made only where an image is confirmed and a drive selected. It asks for that image, whose
-- release metadata is complete, by its address, its positive size and its checksums of 64 hexadecimal
-- digits, on that drive, which it fits, and for a verification as it is set.
pub pipeline_request-IsRequest :
    (app : SnapDogInstallerApp) (request : PipelineRequest)
    → pipeline_request app ≡ ok request
    → IsRequest app request
unfolding pipeline_request
pipeline_request-IsRequest app request h =
    let (selection, r1, h1) = >>=-eq-ok (ok_or app.confirmed _) _ h in
    let (drive, r2, h2) = >>=-eq-ok (ok_or app.selected_drive _) _ h1 in
    let (image, r3, h3) = >>=-eq-ok (ok_or (image_for selection.manifest selection.board) _) _ h2 in
    let (_, r4, h4) = >>=-eq-ok (validate_release_image selection.manifest selection.board) _ h3 in
    let (compressed, r5, h5) =
      >>=-eq-ok (required_hash image.sha256 (text "compressed image")) _ h4 in
    let (raw, r6, h6) = >>=-eq-ok (required_hash image.raw_sha256 (text "raw image")) _ h5 in
    let (compressed_size, _, h7) =
      >>=-eq-ok (required_size image.compressed_size (text "compressed image")) _ h6 in
    let (size, r8, h8) =
      >>=-eq-ok (required_size image.uncompressed_size (text "raw image")) _ h7 in
    let (_, r9, h9) = >>=-eq-ok (reject_if (ltb drive.capacity size) _) _ h8 in
    let small = reject_if-eq-ok (ltb drive.capacity size) _ r9 in
    subst (λ (x : PipelineRequest). IsRequest app x) (ok-injective h9)
      (record {
        selection = selection;
        drive = drive;
        confirmed = some_of app.confirmed _ selection r1;
        selected = some_of app.selected_drive _ drive r2;
        fit = record {
          image = image;
          found = some_of (image_for selection.manifest selection.board) _ image r3;
          raw_size = size;
          size = required_size-IsSize image.uncompressed_size (text "raw image") size r8;
          fits = (let l : size ≤ drive.capacity = ground arith in l);
        };
        valid = r4;
        url = refl;
        target = refl;
        verify = refl;
        raw_size = refl;
        compressed_sha256 = compressed;
        compressed_hash = required_hash-IsHash image.sha256 (text "compressed image") compressed r5;
        compressed_named = refl;
        raw_sha256 = raw;
        raw_hash = required_hash-IsHash image.raw_sha256 (text "raw image") raw r6;
        raw_named = refl;
      })
