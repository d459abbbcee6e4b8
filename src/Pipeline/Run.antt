-- ===== src/Pipeline/Run.antt =====
-- `run_pipeline` of src/pipeline.rs and what it calls. The callbacks that report progress while the
-- download, the preparation and the worker run belong to those calls.
pub mod Steps
pub mod Files
pub mod Outcome
pub mod Accepted
use snapdog_os_installer.Prelude.{
  Bool, true, false, Option, none, some, List, [], ◌∷◌, ◌++◌, Text, text, if◌then◌else◌, not,
}
use snapdog_os_installer.Prelude.Result.{Result, ok, err, map_err}
use snapdog_os_installer.Prelude.Exec.{
  Exec, pure, raise, lift, modify, attempt, map_error, fail_if, ◌>>=◌, ◌>>◌,
}
use snapdog_os_installer.Flash.Types.{IoError, Crypto, PreparedImage}
use snapdog_os_installer.Flash.Prepare.{prepare_gzip}
use snapdog_os_installer.Download.Types.{DownloadRequest, DownloadReport}
use snapdog_os_installer.Worker.Types.{
  FilePath, normal, WorkerJob, WorkerProgress, WorkerPhase, completed, cancelled, failed,
  WorkerDrive,
}
use snapdog_os_installer.Pipeline.Types.{
  PipelineRequest, PipelineReport, PipelineError, PipelineControlError, unavailable,
  already_running, missing_terminal_event, serialization, runner, worker_failed,
  awaiting_authorization, WorkerRunnerError, MarkerPaths, WorkerLaunch, Directory, Answer,
  PipelineIo, Control, State,
}
use snapdog_os_installer.Pipeline.Job.{
  build_worker_job, map_download_error, map_preparation_error, ensure_target_capacity,
}

-- `directory.path().join(name)`
abbrev pub join : Directory → Text → FilePath
join directory name = directory.path ++ (normal name ∷ [])

abbrev pub is_terminal : WorkerPhase → Bool
is_terminal completed = true
is_terminal cancelled = true
is_terminal failed = true
is_terminal _ = false

-- The variable `terminal` after these calls of `worker_progress`.
unfoldable pub last_terminal : Option WorkerProgress → List WorkerProgress → Option WorkerProgress
last_terminal terminal [] = terminal
last_terminal terminal (progress ∷ rest) =
    last_terminal (if is_terminal progress.phase then some progress else terminal) rest

abbrev pub message_or_unknown : Option Text → Text
message_or_unknown none = text "unknown worker failure"
message_or_unknown (some message) = message

module _ {H : Type 0} where
  abbrev pub verified_or_missing : Option Bool → Result (PipelineError H) Bool
  verified_or_missing none = err missing_terminal_event
  verified_or_missing (some verified) = ok verified

  abbrev pub conclusion : WorkerPhase → WorkerProgress → Result (PipelineError H) Bool
  conclusion completed progress = verified_or_missing progress.verified
  conclusion cancelled progress = err PipelineError.cancelled
  conclusion failed progress = err (worker_failed (message_or_unknown progress.message))
  conclusion _ progress = err missing_terminal_event

  -- The `match` on the terminal event.
  unfoldable pub conclude : Option WorkerProgress → Result (PipelineError H) Bool
  conclude none = err missing_terminal_event
  conclude (some progress) = conclusion progress.phase progress

module _ {H W : Type 0} where
  -- A call that works on the world alone.
  unfoldable pub within :
      {E A : Type 0} → (E → PipelineError H) → Exec W E A → Exec (State W) (PipelineError H) A
  unfolding map_error
  within convert_error m s =
      let result = map_error convert_error m s.world in (result.0, record s { world = result.1 })

  unfoldable pub ask : (W → Bool × W) → Exec (State W) (PipelineError H) Bool
  ask load s = (ok (load s.world).0, record s { world = (load s.world).1 })

  unfoldable pub on_world : (W → W) → Exec (State W) (PipelineError H) Unit
  on_world f s = (ok tt, record s { world = f s.world })

  unfoldable pub set_control : (Control W → Control W) → Exec (State W) (PipelineError H) Unit
  set_control f s = (ok tt, record s { control = f s.control })

module _ {H W : Type 0} (io : PipelineIo H W) where
  abbrev pub begin_unless : Bool → Exec (State W) (PipelineError H) Unit
  begin_unless true s = (err already_running, s)
  begin_unless false s = (ok tt, record s { control = record (s.control) { active = true } })

  -- `PipelineControl::begin`
  unfoldable pub begin : Exec (State W) (PipelineError H) Unit
  begin s = begin_unless s.control.active s

  -- The drop of the guard.
  unfoldable pub end : Exec (State W) (PipelineError H) Unit
  unfolding ask set_control
  end = do
    works ← ask io.lock_markers
    set_control λ control. record control {
      active = false;
      markers = if works then none else control.markers;
    }

  unfoldable pub ensure_not_cancelled : Exec (State W) (PipelineError H) Unit
  unfolding ask
  ensure_not_cancelled = do
    is_cancelled ← ask io.load_cancelled
    fail_if is_cancelled PipelineError.cancelled

  unfoldable pub private_temporary_directory : Exec W IoError Directory
  private_temporary_directory = do
    directory ← io.temp_dir
    result ← attempt (io.restrict_directory directory)
    keep_directory directory result
    where
      keep_directory : Directory → Result IoError Unit → Exec W IoError Directory
      keep_directory directory (ok _) = pure directory
      keep_directory directory (err e) = do modify (io.remove_directory directory); raise e

  unfoldable pub create_empty_file : FilePath → Exec W IoError Unit
  create_empty_file path = do
    io.create_new path
    io.set_private_file_permissions path
    io.sync_all path

  unfoldable pub sync_private_file : FilePath → Exec W IoError Unit
  sync_private_file path = do
    io.open_write path
    io.set_private_file_permissions path
    io.sync_all path

  unfoldable pub write_json : FilePath → WorkerJob → Exec (State W) (PipelineError H) Unit
  unfolding within
  write_json path job = do
    encoded ← within serialization (lift (io.to_vec job))
    within PipelineError.io (io.create_new path)
    within PipelineError.io (io.set_private_file_permissions path)
    within PipelineError.io (io.write_all path encoded)
    within PipelineError.io (io.write_all path (text "\n"))
    within PipelineError.io (io.sync_all path)

  abbrev pub touched : FilePath → Result IoError Unit → Exec W IoError Unit
  touched path (ok _) = do io.set_private_file_permissions path; io.sync_all path
  touched path (err e) = if io.is_already_exists e then pure tt else raise e

  unfoldable pub touch_marker : FilePath → Exec W IoError Unit
  touch_marker path = do result ← attempt (io.create_new path); touched path result

  abbrev pub control_io : IoError → PipelineError H
  control_io e = PipelineError.control (PipelineControlError.io e)

  -- `RunGuard::register_markers`
  unfoldable pub register_markers : FilePath → FilePath → Exec (State W) (PipelineError H) Unit
  unfolding ask set_control within touch_marker
  register_markers cancel skip = do
    works ← ask io.lock_markers
    fail_if (not works) (PipelineError.control unavailable)
    set_control λ control. record control {
      markers = some (record { cancel = cancel; skip_verification = skip });
    }
    is_cancelled ← ask io.load_cancelled
    if is_cancelled then within control_io (touch_marker cancel) else pure tt
    skipped ← ask io.load_skip_verification
    if skipped then within control_io (touch_marker skip) else pure tt

  -- `runner.run(launch, &mut worker_progress)`
  unfoldable pub launch_worker : WorkerLaunch → Exec (State W) (PipelineError H) Answer
  launch_worker launch s =
      let answer : Answer × W = io.run_worker launch s.world in
      (
        ok (answer.0),
        record {
          control = record (s.control) {
            launches =
                record { launch = launch; world = s.world; answer = answer.0 } ∷ s.control.launches;
          };
          world = answer.1;
        },
      )

  -- From the request for authorization on: whether the worker verified.
  unfoldable pub supervise : WorkerLaunch → Exec (State W) (PipelineError H) Bool
  unfolding on_world launch_worker ask conclude last_terminal
  supervise launch = do
    on_world (io.emit awaiting_authorization)
    answer ← launch_worker launch
    is_cancelled ← ask io.load_cancelled
    fail_if is_cancelled PipelineError.cancelled
    lift (map_err runner answer.result)
    lift (conclude (last_terminal none answer.progress))

  abbrev pub download_request : PipelineRequest → Directory → DownloadRequest
  download_request request directory = record {
    url = request.image_url;
    destination = record { parent = directory.name; file_name = some (text "snapdog-os.img.gz") };
    expected_sha256 = request.expected_compressed_sha256;
    expected_size = request.expected_compressed_size;
  }

  abbrev pub archive_path : Directory → FilePath
  archive_path directory = join directory (text "snapdog-os.img.gz")

  abbrev pub raw_path : Directory → FilePath
  raw_path directory = join directory (text "snapdog-os.img")

  -- `macos` is `cfg!(target_os = "macos")`.
  abbrev pub macos_target_socket : Bool → Directory → Option FilePath
  macos_target_socket macos directory =
      if macos then some (join directory (text "authorized-target.sock")) else none

  abbrev pub job_for : Bool → PipelineRequest → Directory → PreparedImage → WorkerJob
  job_for macos request directory prepared =
      build_worker_job request prepared (raw_path directory)
        (join directory (text "worker-progress.jsonl")) (join directory (text "cancel"))
        (join directory (text "skip-verification")) (macos_target_socket macos directory)

  abbrev pub launch_for : Directory → WorkerJob → WorkerLaunch
  launch_for directory job = record {
    job_path = join directory (text "worker-job.json");
    progress_path = join directory (text "worker-progress.jsonl");
    cancel_path = join directory (text "cancel");
    skip_verification_path = join directory (text "skip-verification");
    target_device = job.drive.device;
    macos_target_socket = job.macos_target_socket;
  }

  abbrev pub report_of : DownloadReport → PreparedImage → Bool → PipelineReport
  report_of download prepared verified = record {
    bytes_downloaded = download.bytes_downloaded;
    compressed_sha256 = download.sha256;
    raw_size = prepared.bytes;
    raw_sha256 = prepared.raw_sha256;
    verified = verified;
  }

  -- The prepared image goes to the worker.
  unfoldable pub write_image :
      Bool
      → PipelineRequest
      → Directory
      → DownloadReport
      → PreparedImage
      → Exec (State W) (PipelineError H) PipelineReport
  unfolding ensure_target_capacity ensure_not_cancelled within sync_private_file create_empty_file
      write_json register_markers supervise
  write_image macos request directory download prepared = do
    lift (ensure_target_capacity prepared request.drive)
    within PipelineError.io (sync_private_file (raw_path directory))
    within PipelineError.io (create_empty_file (join directory (text "worker-progress.jsonl")))
    write_json (join directory (text "worker-job.json")) (job_for macos request directory prepared)
    register_markers (join directory (text "cancel")) (join directory (text "skip-verification"))
    ensure_not_cancelled
    verified ← supervise (launch_for directory (job_for macos request directory prepared))
    pure (report_of download prepared verified)

  -- What happens while the temporary directory is there.
  unfoldable pub run_in :
      Crypto → Bool → PipelineRequest → Directory → Exec (State W) (PipelineError H) PipelineReport
  unfolding within ensure_not_cancelled prepare_gzip write_image
  run_in c macos request directory = do
    download ← within map_download_error (io.download (download_request request directory))
    ensure_not_cancelled
    prepared ← within map_preparation_error (
        prepare_gzip c (io.prepare (archive_path directory) (raw_path directory))
          request.expected_raw_size request.expected_raw_sha256)
    ensure_not_cancelled
    write_image macos request directory download prepared

  -- What happens while the guard is there.
  unfoldable pub run_guarded :
      Crypto → Bool → PipelineRequest → Exec (State W) (PipelineError H) PipelineReport
  unfolding within ensure_not_cancelled private_temporary_directory run_in on_world
  run_guarded c macos request = do
    ensure_not_cancelled
    directory ← within PipelineError.io private_temporary_directory
    result ← attempt (run_in c macos request directory)
    on_world (io.remove_directory directory)
    lift result

  unfoldable pub run_pipeline :
      Crypto → Bool → PipelineRequest → Exec (State W) (PipelineError H) PipelineReport
  unfolding begin run_guarded end
  run_pipeline c macos request = do
    begin
    result ← attempt (run_guarded c macos request)
    end
    lift result
