-- ===== src/Worker/Tests.antt =====
-- A run of the worker on a small image, and its contract at that run.
use snapdog_os_installer.Prelude.{
  ℕ, zero, suc, ◌≡◌, refl, true, false, none, some, [], ◌∷◌, append-nil, Bytes, Text, arith, Prefix,
  ◌∙◌,
}
use snapdog_os_installer.Prelude.Result.{Result, ok, err}
use snapdog_os_installer.Prelude.Exec.{Post, ◌>>=◌}
use snapdog_os_installer.Flash.Types.{Crypto, FlashReport, FlashError, contents}
use snapdog_os_installer.Worker.Types.{
  root_dir, normal, WorkerDrive, WorkerJob, WorkerError, file, flash, FilePath,
}
use snapdog_os_installer.Worker.Trace.{Env, World, Metadata, absent}
use snapdog_os_installer.Worker.Job.{validate_fields}
use snapdog_os_installer.Worker.Accepted.{IsAccepted, validate_fields-IsAccepted}
use snapdog_os_installer.Worker.Run.{run_and_report}
use snapdog_os_installer.Worker.Safety.{Aborted, Announced, run_and_report_lem}
use snapdog_os_installer.Worker.Outcome.{Outcome}

abbrev repeat : ℕ → ℕ → Text
repeat zero x = []
repeat (suc n) x = x ∷ repeat n x

-- A digest that is the text itself, in an encoding that says nothing.
abbrev toy_crypto : Crypto
toy_crypto = record { sha256 = λ b. b; hex_encode = λ b. repeat 64 b'a'; hex_decode = λ t. some t }

abbrev toy_image : Bytes
toy_image = 1 ∷ 2 ∷ 3 ∷ []

abbrev toy_drive : WorkerDrive
toy_drive = record { id = 7 ∷ []; device = 8 ∷ []; capacity = 100 }

abbrev at_root : ℕ → FilePath
at_root n = root_dir ∷ normal (n ∷ []) ∷ []

abbrev toy_job : WorkerJob
toy_job = record {
  schema_version = 1;
  drive = toy_drive;
  raw_path = at_root 1;
  raw_size = 3;
  verify = true;
  expected_raw_sha256 = repeat 64 b'A';
  progress = file (at_root 2);
  cancel_path = some (at_root 3);
  skip_verification_path = some (at_root 4);
  macos_target_socket = none;
}

abbrev toy_metadata : Metadata
toy_metadata = record { is_symlink = false; is_file = true; len = 3; dev = 1; ino = 2 }

-- Surroundings in which every call succeeds; `back` is what the target returns.
abbrev toy_env : Bytes → Env
toy_env back = record {
  cancel_marker = λ h. absent;
  skip_marker = λ h. absent;
  emit = λ h. ok tt;
  raw_metadata = λ h. ok toy_metadata;
  open_raw = λ h. ok tt;
  opened_metadata = λ h. ok toy_metadata;
  raw_reads = ok toy_image ∷ [];
  tempfile = λ h. ok tt;
  stage = λ h. ok tt;
  sync_staging = λ h. ok tt;
  rewind_staging = λ h. ok tt;
  staged_len = λ b. ok 3;
  staged_reads = λ b. ok b ∷ [];
  seek_image = λ h. ok tt;
  validate_image = λ h. ok tt;
  validate_target = λ h. ok toy_drive;
  unmount = λ h. ok tt;
  open_target = λ h. ok tt;
  seek_target = λ h. ok tt;
  write = λ b h. ok tt;
  flush_target = λ h. ok tt;
  prepare_verification = λ h. ok tt;
  target_reads = ok back ∷ [];
  sync_target = λ h. ok tt;
  eject = λ h. ok tt;
  display = λ e. [];
}

abbrev fresh : World
fresh = record { cancelled = false; skip_verification = false; callback_error = none; history = [] }

toy_reads : (b : Bytes) → Prefix (contents (ok b ∷ [])) b
toy_reads [] = ([], refl)
toy_reads (x ∷ xs) = ([], append-nil _ ∙ append-nil _)

toy_run :
    (run_and_report toy_crypto (toy_env toy_image) toy_job (λ d. true) fresh).0
    ≡ ok (record { bytes_written = 3; raw_sha256 = repeat 64 b'a'; verified = true })
unfolding run_and_report ◌>>=◌
toy_run = refl

-- A target that returns other bytes than it was given.
faulty_run :
    (run_and_report toy_crypto (toy_env (1 ∷ 2 ∷ 4 ∷ [])) toy_job (λ d. true) fresh).0
    ≡ err (flash FlashError.verification)
unfolding run_and_report ◌>>=◌
faulty_run = refl

run_and_report_example :
    let s : Result WorkerError FlashReport × World =
      run_and_report toy_crypto (toy_env toy_image) toy_job (λ d. true) fresh in
    Post
      (Outcome toy_crypto (toy_env toy_image) toy_job)
      (λ error w.
        Aborted toy_crypto (toy_env toy_image) toy_job w
        × Announced toy_crypto (toy_env toy_image) toy_job error w)
      s.0
      s.1
run_and_report_example =
    run_and_report_lem toy_crypto (toy_env toy_image) toy_job (λ d. true) fresh
      (record { reads = toy_reads }) (omega arith) refl

toy_fields : validate_fields (λ d. true) toy_job ≡ ok tt
unfolding validate_fields
toy_fields = refl

validate_fields_example : IsAccepted (λ d. true) toy_job
validate_fields_example = validate_fields-IsAccepted (λ d. true) toy_job toy_fields
