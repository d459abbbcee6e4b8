-- ===== src/Worker/Accepted.antt =====
-- The jobs that `validate_job` of src/worker.rs lets through, described without the validator.
use snapdog_os_installer.Prelude.{
  ℕ, ◌≤◌, ◌<◌, ◌≡◌, refl, Bool, true, false, not, ◌||◌, Option, none, some, length, all,
  is_ascii_hexdigit, ◌==◌, ==_iff, and_iff, or_false, ltb, is_some_and, arith, if◌then◌else◌,
}
use snapdog_os_installer.Prelude.Result.{Result, ok, err}
use snapdog_os_installer.Worker.Types.{
  FilePath, is_absolute, WorkerDrive, ProgressDestination, stdout, file, WorkerJob, valid_sha256,
}
use snapdog_os_installer.Worker.Job.{relative_progress, has_relative_path, validate_fields}

-- A path that is given is absolute.
abbrev pub IsAbsolute : Option FilePath → Type 0
IsAbsolute none = Unit
IsAbsolute (some path) = is_absolute path ≡ true

abbrev pub IsAbsoluteProgress : ProgressDestination → Type 0
IsAbsoluteProgress stdout = Unit
IsAbsoluteProgress (file path) = is_absolute path ≡ true

pub record IsAccepted (valid : WorkerDrive → Bool) (job : WorkerJob) : Type 0 where
  pub schema : job.schema_version ≡ 1
  pub drive : valid job.drive ≡ true
  pub digest_length : length job.expected_raw_sha256 ≡ 64
  pub digest : all is_ascii_hexdigit job.expected_raw_sha256 ≡ true
  pub raw_path : is_absolute job.raw_path ≡ true
  pub cancel_path : IsAbsolute job.cancel_path
  pub skip_path : IsAbsolute job.skip_verification_path
  pub progress : IsAbsoluteProgress job.progress
  pub socket : IsAbsolute job.macos_target_socket
  pub size : (0 < job.raw_size) × (job.raw_size ≤ job.drive.capacity)

not-false : (b : Bool) → not b ≡ false → b ≡ true
not-false true h = refl
not-false false h = cc

absolute_lem :
    (o : Option FilePath) → is_some_and o (λ path. not (is_absolute path)) ≡ false → IsAbsolute o
absolute_lem none h = tt
absolute_lem (some path) h = not-false _ h

progress_lem : (p : ProgressDestination) → relative_progress p ≡ false → IsAbsoluteProgress p
progress_lem stdout h = tt
progress_lem (file path) h = not-false _ h

-- Past a test: it failed, and the rest was reached.
past :
    {A E : Type 0} (b : Bool) (e : E) (rest : Result E A) {a : A}
    → (if b then err e else rest) ≡ ok a
    → (b ≡ false) × (rest ≡ ok a)
past true e rest h = cc
past false e rest h = (refl, h)

size_lem :
    (size capacity : ℕ) → (size == 0 || ltb capacity size) ≡ false → (0 < size) × (size ≤ capacity)
size_lem size capacity h = ground arith

-- A job whose fields are accepted has the schema, a drive that the build's check accepts, a digest
-- of 64 hexadecimal digits, only absolute paths, and an image that is not empty and fits the drive.
pub validate_fields-IsAccepted :
    (valid : WorkerDrive → Bool) (job : WorkerJob)
    → validate_fields valid job ≡ ok tt
    → IsAccepted valid job
unfolding validate_fields has_relative_path valid_sha256
validate_fields-IsAccepted valid job h =
    let a = past (not (job.schema_version == 1)) _ _ h in
    let b = past (not (valid job.drive)) _ _ a.1 in
    let d = past (not (valid_sha256 job.expected_raw_sha256)) _ _ b.1 in
    let p = past (has_relative_path job) _ _ d.1 in
    let s = past (job.raw_size == 0 || ltb job.drive.capacity job.raw_size) _ _ p.1 in
    let digest = (and_iff _ _).0 (not-false _ d.0) in
    let relative = λ (path : FilePath). not (is_absolute path) in
    let socket = or_false _ (is_some_and job.macos_target_socket relative) p.0 in
    let progress = or_false _ (relative_progress job.progress) socket.0 in
    let skip = or_false _ (is_some_and job.skip_verification_path relative) progress.0 in
    let raw =
      or_false (not (is_absolute job.raw_path)) (is_some_and job.cancel_path relative) skip.0 in
    record {
      schema = (==_iff job.schema_version 1).0 (not-false _ a.0);
      drive = not-false _ b.0;
      digest_length = (==_iff (length job.expected_raw_sha256) 64).0 digest.0;
      digest = digest.1;
      raw_path = not-false _ raw.0;
      cancel_path = absolute_lem _ raw.1;
      skip_path = absolute_lem _ skip.1;
      progress = progress_lem _ progress.1;
      socket = absolute_lem _ socket.1;
      size = size_lem job.raw_size job.drive.capacity s.0;
    }
