-- ===== src/Pipeline/Run/Outcome.antt =====
-- What `run_pipeline` of src/pipeline.rs launches and reports.
use snapdog_os_installer.Prelude.{
  ◌≡◌, refl, ap, Bool, true, false, Option, none, some, List, [], ◌∷◌, ◌++◌, Bytes, text, length,
  ltb, arith, ◌≤◌, ℕ, ◌⊎◌, inl, inr,
}
use snapdog_os_installer.Prelude.Result.{Result, ok, err, map_err, reject_if}
use snapdog_os_installer.Prelude.Exec.{
  Exec, pure, lift, fail_if, ◌>>=◌, ◌>>◌, Post, Triple, Triple-bind, Triple-pure, Triple-assume,
  Triple-post, Triple-pre, Triple-attempt,
}
use snapdog_os_installer.Flash.Types.{Crypto, PreparedImage, contents, Replies}
use snapdog_os_installer.Flash.Prepare.{prepare_gzip}
use snapdog_os_installer.Flash.Prepared.{IsPrepared, prepare_gzip_lem}
use snapdog_os_installer.Download.Types.{DownloadReport}
use snapdog_os_installer.Worker.Types.{WorkerJob, FilePath, file}
use snapdog_os_installer.Pipeline.Types.{
  PipelineRequest, PipelineReport, PipelineError, PipelineEvent, Directory, Answer, PipelineIo,
  State, WorkerLaunch, Launched,
}
use snapdog_os_installer.Pipeline.Job.{
  build_worker_job, map_download_error, map_preparation_error, ensure_target_capacity,
}
use snapdog_os_installer.Pipeline.Run.{
  last_terminal, conclude, within, ask, on_world, set_control, begin_unless, begin, end,
  private_temporary_directory, create_empty_file, sync_private_file, launch_worker, supervise,
  download_request, archive_path, raw_path, job_for, launch_for, report_of, write_image, run_in,
  run_guarded, run_pipeline, register_markers, ensure_not_cancelled,
}
use snapdog_os_installer.Pipeline.Run.Steps.{
  no_contract, IsCompletion, conclude-IsCompletion, result_ok, Holds, After, Keeps, within_knows,
  within_lem, ask_lem, fail_if_lem, lift_lem, then_lem, ensure_not_cancelled_lem,
}
use snapdog_os_installer.Pipeline.Run.Files.{
  Contains, FileContract, Still, Steps, HasJob, on_world_Steps, write_json-HasJob,
  ensure_not_cancelled_Steps, register_markers_Steps,
}

module _ {H W : Type 0} (io : PipelineIo H W) (content : W → FilePath → Option Bytes) (c : Crypto)
    (request : PipelineRequest) where
  -- What the decoder returned for the archive of this directory.
  abbrev pub unpacked : Directory → Replies
  unpacked directory = (io.prepare (archive_path io directory) (raw_path io directory)).reads

  -- The job asks for the image that was downloaded, unpacked and checked, on a drive that it fits.
  pub record IsRightJob (job : WorkerJob) : Type 0 where
    pub directory : Directory
    pub right_drive : job.drive ≡ request.drive
    pub fits : job.raw_size ≤ request.drive.capacity
    pub right_verify : job.verify ≡ request.verify
    pub right_file : job.raw_path ≡ raw_path io directory
    pub size : job.raw_size ≡ length (contents (unpacked directory))
    pub digest : job.expected_raw_sha256 ≡ c.hex_encode (c.sha256 (contents (unpacked directory)))

  -- When the worker is launched, the file that the launch names as the job's holds such a job, encoded
  -- and with a line end, and nothing else; and the launch names the device and the files that the job
  -- names.
  pub record IsRightLaunch (l : Launched W) : Type 0 where
    pub job : WorkerJob
    pub right_job : IsRightJob job
    pub job_file : HasJob io content l.launch.job_path job l.world
    pub device : l.launch.target_device ≡ request.drive.device
    pub progress : job.progress ≡ file l.launch.progress_path
    pub cancel : job.cancel_path ≡ some l.launch.cancel_path
    pub skip : job.skip_verification_path ≡ some l.launch.skip_verification_path

  -- No launch, or a single one, of such a job.
  abbrev pub AtMostOne : List (Launched W) → Type 0
  AtMostOne launches = (launches ≡ []) ⊎ ((l : Launched W) × (launches ≡ l ∷ []) × IsRightLaunch l)

  -- The report is of the single launch, whose worker ended well, after a completion.
  abbrev pub IsDelivered : PipelineReport → List (Launched W) → Type 0
  IsDelivered report launches =
      (l : Launched W) × (right : IsRightLaunch l) × (launches ≡ l ∷ [])
      × (l.answer.result ≡ ok tt)
      × IsCompletion (last_terminal none l.answer.progress) report.verified
      × (report.raw_size ≡ right.job.raw_size)
      × (report.raw_sha256 ≡ right.job.expected_raw_sha256)

  abbrev NoLaunch : List (Launched W) → Type 0
  NoLaunch launches = launches ≡ []

  -- The job's file is written, and nothing is launched.
  abbrev Filled : FilePath → WorkerJob → State W → Type 0
  Filled path job = Still io content (HasJob io content path job)

  abbrev One : WorkerJob → WorkerLaunch → Answer → List (Launched W) → Type 0
  One job launch answer launches =
      (w : W) × HasJob io content launch.job_path job w
      × (launches ≡ record { launch = launch; world = w; answer = answer } ∷ [])

  abbrev Ended : Bool → Answer → Type 0
  Ended verified answer =
      (answer.result ≡ ok tt) × IsCompletion (last_terminal none answer.progress) verified

  -- After the launch, whatever happens.
  Failed : State W → Type 0
  Failed = Holds AtMostOne

  launch_worker_lem :
      (job : WorkerJob) (launch : WorkerLaunch)
      → Triple
          (Filled launch.job_path job)
          (launch_worker {H = H} {W = W} io launch)
          (λ answer. Holds (One job launch answer))
          (λ _. Failed)
  unfolding launch_worker
  launch_worker_lem job launch = record {
    at = λ s h.
        let l : Launched W = record {
          launch = launch;
          world = s.world;
          answer = (io.run_worker launch s.world).0;
        } in
        (h.0.0, (s.world, h.1, ap (λ (x : List (Launched W)). l ∷ x) h.0.1));
  }

  settle_lem :
      (job : WorkerJob) (launch : WorkerLaunch) (answer : Answer)
      → Triple
          (Holds {W = W} (One job launch answer))
          (do
            is_cancelled ← ask {H = H} {W = W} io.load_cancelled
            fail_if is_cancelled PipelineError.cancelled
            lift (map_err PipelineError.runner answer.result)
            lift (conclude (last_terminal none answer.progress)))
          (λ verified s. Holds (One job launch answer) s × Ended verified answer)
          (λ _. Holds (One job launch answer))
  settle_lem job launch answer =
      then_lem H W (One job launch answer) (λ _. Unit) (ask_lem H W _ io.load_cancelled)
        λ b _.
          then_lem H W (One job launch answer) (λ _. b ≡ false)
            (fail_if_lem H W _ b PipelineError.cancelled)
            λ _ _.
              then_lem H W (One job launch answer)
                (λ u. map_err PipelineError.runner answer.result ≡ ok u) (lift_lem H W _ _)
                λ u r.
                  Triple-post
                    (λ verified s h.
                      (h.0, (result_ok answer.result r, conclude-IsCompletion _ verified h.1)))
                    (λ _ s h. h) (lift_lem H W _ (conclude (last_terminal none answer.progress)))

  -- The launch names what the job names.
  pub record Agrees (launch : WorkerLaunch) (job : WorkerJob) : Type 0 where
    pub right_job : IsRightJob job
    pub device : launch.target_device ≡ request.drive.device
    pub progress : job.progress ≡ file launch.progress_path
    pub cancel : job.cancel_path ≡ some launch.cancel_path
    pub skip : job.skip_verification_path ≡ some launch.skip_verification_path

  abbrev right_launch :
      (job : WorkerJob) (launch : WorkerLaunch) (w : W) (answer : Answer)
      → Agrees launch job
      → HasJob io content launch.job_path job w
      → IsRightLaunch (record { launch = launch; world = w; answer = answer })
  right_launch job launch w answer a f = record {
    job = job;
    right_job = a.right_job;
    job_file = f;
    device = a.device;
    progress = a.progress;
    cancel = a.cancel;
    skip = a.skip;
  }

  abbrev Supervised : WorkerJob → WorkerLaunch → Bool → State W → Type 0
  Supervised job launch verified s =
      (answer : Answer) × Holds (One job launch answer) s × Ended verified answer

  supervise_lem :
      FileContract io content
      → (job : WorkerJob) (launch : WorkerLaunch) → Agrees launch job
      → Triple
          (Filled launch.job_path job)
          (supervise io launch)
          (Supervised job launch)
          (λ _. Failed)
  unfolding supervise Failed
  supervise_lem k job launch agrees =
      Triple-bind (λ _. Filled launch.job_path job)
        (Triple-post (λ _ s h. h) (λ _ s h. (h.0, inl h.1))
          (on_world_Steps io content (io.emit PipelineEvent.awaiting_authorization)
            λ w (encoded, e, f). (encoded, e, k.emit _ launch.job_path _ w f)))
        λ _.
          Triple-bind (λ answer. Holds (One job launch answer)) (launch_worker_lem job launch)
            λ answer.
              Triple-post (λ verified s h. (answer, h.0, h.1))
                (λ _ s (active, (w, f, e)).
                  (active, inr (_, e, right_launch job launch w answer agrees f)))
                (settle_lem job launch answer)

  prepared_lem :
      (directory : Directory)
      → Keeps H W NoLaunch
          (within map_preparation_error (
            prepare_gzip c
              (io.prepare (archive_path io directory) (raw_path io directory))
              request.expected_raw_size
              request.expected_raw_sha256))
          (IsPrepared c
            (io.prepare (archive_path io directory) (raw_path io directory))
            (no_contract _)
            request.expected_raw_size
            request.expected_raw_sha256)
  prepared_lem directory = within_knows H W NoLaunch _ map_preparation_error _ (
      Triple-post (λ _ s h. h.0) (λ _ s h. tt)
        (prepare_gzip_lem c (io.prepare (archive_path io directory) (raw_path io directory))
          (no_contract _) request.expected_raw_size request.expected_raw_sha256))

  -- What is tested before the launch.
  abbrev WasPrepared : Directory → PreparedImage → Type 0
  WasPrepared directory =
      IsPrepared c (io.prepare (archive_path io directory) (raw_path io directory)) (no_contract _)
        request.expected_raw_size request.expected_raw_sha256

  fits_lem :
      (a b : ℕ) (e : PipelineError H)
      → ◌≡◌ {A = Result (PipelineError H) Unit} (reject_if (ltb b a) e) (ok tt)
      → a ≤ b
  fits_lem a b e h = ground arith

  job_for-IsRightJob :
      (macos : Bool) (directory : Directory) (prepared : PreparedImage)
      → WasPrepared directory prepared
      → prepared.bytes ≤ request.drive.capacity
      → IsRightJob (job_for io macos request directory prepared)
  unfolding build_worker_job
  job_for-IsRightJob macos directory prepared p fits = record {
    directory = directory;
    right_drive = refl;
    fits = fits;
    right_verify = refl;
    right_file = refl;
    size = p.all_read;
    digest = p.digest;
  }

  -- Anything before the launch may fail, and then nothing is launched.
  before :
      {A B : Type 0} (Y : A → Type 0) {m : Exec (State W) (PipelineError H) A}
      {f : A → Exec (State W) (PipelineError H) B} {T : B → State W → Type 0}
      → Keeps H W NoLaunch m Y
      → ((a : A) → Y a → Triple (Holds NoLaunch) (f a) T (λ _. Failed))
      → Triple (Holds NoLaunch) (m >>= f) T (λ _. Failed)
  unfolding Failed
  before Y h k =
      Triple-bind (λ a s. Holds NoLaunch s × Y a)
        (Triple-post (λ _ s q. q) (λ _ s q. (q.0, inl q.1)) h) λ a. Triple-assume (k a)

  -- So may what comes when the job's file is there.
  unlaunched :
      {A : Type 0} {P : State W → Type 0} {Q : A → State W → Type 0}
      {m : Exec (State W) (PipelineError H) A}
      → Triple P m Q (λ _. Holds NoLaunch)
      → Triple P m Q (λ _. Failed)
  unfolding Failed
  unlaunched t = Triple-post (λ _ s q. q) (λ _ s q. (q.0, inl q.1)) t

  Delivered : PipelineReport → State W → Type 0
  Delivered report = Holds (IsDelivered report)

  job_for-Agrees :
      (macos : Bool) (directory : Directory) (prepared : PreparedImage)
      → IsRightJob (job_for io macos request directory prepared)
      → Agrees
          (launch_for io directory (job_for io macos request directory prepared))
          (job_for io macos request directory prepared)
  unfolding build_worker_job
  job_for-Agrees macos directory prepared right = record {
    right_job = right;
    device = refl;
    progress = refl;
    cancel = refl;
    skip = refl;
  }

  -- What leaves the bytes of the job's file alone leaves the job there.
  with_job_lem :
      {m : Exec (State W) (PipelineError H) Unit} (job : WorkerJob) (path : FilePath)
      → ((b : Bytes)
          → Steps io content (Contains io content path b) m (λ _. Contains io content path b))
      → Steps io content (HasJob io content path job) m (λ _. HasJob io content path job)
  with_job_lem job path keep = record {
    at = λ s (h, (encoded, e, f)).
        (Triple-post (λ _ t q. (q.0, (encoded, e, q.1))) (λ _ t q. q)
            (keep (encoded ++ text "\n"))).at
          s (h, f);
  }

  -- From the registration of the markers on.
  launched_lem :
      FileContract io content
      → (download : DownloadReport) (directory : Directory) (prepared : PreparedImage)
        (job : WorkerJob) (launch : WorkerLaunch) (cancel skip : FilePath)
      → Agrees launch job
      → prepared.bytes ≡ job.raw_size
      → prepared.raw_sha256 ≡ job.expected_raw_sha256
      → Triple
          (Filled launch.job_path job)
          (do
            register_markers io cancel skip
            ensure_not_cancelled io
            verified ← supervise io launch
            pure (report_of io download prepared verified))
          Delivered
          (λ _. Failed)
  unfolding Delivered
  launched_lem k download directory prepared job launch cancel skip agrees size digest =
      Triple-bind (λ _. Filled launch.job_path job)
        (unlaunched (
          with_job_lem job launch.job_path
            λ b. register_markers_Steps io content k launch.job_path b cancel skip))
        λ _.
          Triple-bind (λ _. Filled launch.job_path job)
            (unlaunched (
              with_job_lem job launch.job_path
                λ b. ensure_not_cancelled_Steps io content k launch.job_path b))
            λ _. Triple-bind (Supervised job launch) (supervise_lem k job launch agrees) λ verified.
              Triple-pure (report_of io download prepared verified)
                λ s (answer, (active, (w, f, e)), (result, completion)). (
                  active,
                  (
                    _,
                    right_launch job launch w answer agrees f,
                    e,
                    result,
                    completion,
                    size,
                    digest,
                  ),
                )

  write_image_lem :
      FileContract io content
      → (macos : Bool) (directory : Directory) (download : DownloadReport)
        (prepared : PreparedImage)
      → WasPrepared directory prepared
      → Triple
          (Holds NoLaunch)
          (write_image io macos request directory download prepared)
          Delivered
          (λ _. Failed)
  unfolding write_image ensure_target_capacity build_worker_job Failed
  write_image_lem k macos directory download prepared p =
      before (λ u. reject_if (ltb request.drive.capacity prepared.bytes) _ ≡ ok u)
        (lift_lem H W NoLaunch _)
        λ _ fits.
          before (λ _. Unit) (within_lem H W NoLaunch PipelineError.io (sync_private_file io _))
            λ _ _.
              before (λ _. Unit) (within_lem H W NoLaunch PipelineError.io (create_empty_file io _))
                λ _ _.
                  let job = job_for io macos request directory prepared in
                  let launch = launch_for io directory job in
                  Triple-bind (λ _. Filled launch.job_path job)
                    (unlaunched (
                      Triple-pre (λ s h. (h, tt))
                        (write_json-HasJob io content k launch.job_path job)))
                    λ _.
                      launched_lem k download directory prepared job launch _ _
                        (job_for-Agrees macos directory prepared
                          (job_for-IsRightJob macos directory prepared p (fits_lem _ _ _ fits)))
                        refl refl

  run_in_lem :
      FileContract io content
      → (macos : Bool) (directory : Directory)
      → Triple (Holds NoLaunch) (run_in io c macos request directory) Delivered (λ _. Failed)
  unfolding run_in
  run_in_lem k macos directory =
      before (λ _. Unit)
        (within_lem H W NoLaunch map_download_error
          (io.download (download_request io request directory)))
        λ download _.
          before (λ _. Unit) (ensure_not_cancelled_lem H W NoLaunch io)
            λ _ _. before (WasPrepared directory) (prepared_lem directory) λ prepared p.
              before (λ _. Unit) (ensure_not_cancelled_lem H W NoLaunch io)
                λ _ _. write_image_lem k macos directory download prepared p

  abbrev Either : Result (PipelineError H) PipelineReport → State W → Type 0
  Either = Post Delivered (λ _. Failed)

  remove_lem :
      (r : Result (PipelineError H) PipelineReport) (f : W → W)
      → Triple (Either r) (on_world {H = H} f) (λ _. Either r) (λ _. Failed)
  unfolding on_world Delivered Failed
  remove_lem (ok report) f = record { at = λ s h. h }
  remove_lem (err e) f = record { at = λ s h. h }

  return_lem :
      {Q : PipelineReport → State W → Type 0} {R : State W → Type 0}
      (r : Result (PipelineError H) PipelineReport)
      → Triple (Post Q (λ _. R) r) (lift r) Q (λ _. R)
  unfolding lift
  return_lem (ok report) = record { at = λ s h. h }
  return_lem (err e) = record { at = λ s h. h }

  run_guarded_lem :
      FileContract io content
      → (macos : Bool)
      → Triple (Holds NoLaunch) (run_guarded io c macos request) Delivered (λ _. Failed)
  unfolding run_guarded
  run_guarded_lem k macos =
      before (λ _. Unit) (ensure_not_cancelled_lem H W NoLaunch io)
        λ _ _.
          before (λ _. Unit)
            (within_lem H W NoLaunch PipelineError.io (private_temporary_directory io))
            λ directory _.
              Triple-bind Either (Triple-attempt (run_in_lem k macos directory)) λ result.
                Triple-bind (λ _. Either result) (remove_lem result (io.remove_directory directory))
                  λ _. return_lem result

  end_lem :
      (r : Result (PipelineError H) PipelineReport)
      → Triple
          (Either r)
          (end io)
          (λ _. Post (λ report. After (IsDelivered report)) (λ _. After AtMostOne) r)
          (λ _. After AtMostOne)
  unfolding end Delivered Failed ◌>>=◌ ask set_control
  end_lem (ok report) = record { at = λ s h. (refl, h.1) }
  end_lem (err e) = record { at = λ s h. (refl, h.1) }

  begin_lem : Triple (After NoLaunch) (begin io) (λ _. Holds NoLaunch) (λ _. After AtMostOne)
  unfolding begin
  begin_lem = record { at = λ s h. begun s s.control.active h.0 h.1 }
    where
      begun :
          (s : State W) (active : Bool)
          → active ≡ false
          → NoLaunch s.control.launches
          → Post
              (λ _. Holds NoLaunch)
              (λ _. After AtMostOne)
              (begin_unless io active s).0
              (begin_unless io active s).1
      begun s true e h = cc
      begun s false e h = (refl, h)

  -- If no operation is running and nothing was launched, and if the file system does what
  -- FileContract says of files that no one else changes, then a report is returned only after a
  -- single launch of the worker. On that launch, the file that it names as the job's holds one
  -- encoded job with a line end, and nothing else. This job names the selected drive, an image
  -- that fits it, the file of the image, and the length and the digest of all that was unpacked,
  -- and the launch names the job's device, progress file and markers. The worker ended well after
  -- a completion that says what the report says of the verification; the report names the job's
  -- length and digest. After an error there was no launch, or one of such a job. Either way the
  -- operation is over.
  pub run_pipeline_lem :
      FileContract io content
      → (macos : Bool)
      → Triple
          (After NoLaunch)
          (run_pipeline io c macos request)
          (λ report. After (IsDelivered report))
          (λ _. After AtMostOne)
  unfolding run_pipeline
  run_pipeline_lem k macos =
      Triple-bind (λ _. Holds NoLaunch) begin_lem
        λ _. Triple-bind Either (Triple-attempt (run_guarded_lem k macos)) λ result.
          Triple-bind
            (λ _. Post (λ report. After (IsDelivered report)) (λ _. After AtMostOne) result)
            (end_lem result) λ _. return_lem result
