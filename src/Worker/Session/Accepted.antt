-- ===== src/Worker/Session/Accepted.antt =====
-- What holds of a job whose session `PrivilegedSession::validate` of src/worker.rs accepts.
use snapdog_os_installer.Prelude.{
  ℕ, ◌<◌, ◌≡◌, ap, true, false, not, ◌||◌, none, some, Text, text, ◌==◌, or_false, arith, subst,
}
use snapdog_os_installer.Prelude.Result.{
  Result, ok, map_err, ok_or, reject_if, reject_if-eq-ok, >>=-eq-ok, ok-injective,
}
use snapdog_os_installer.Worker.Types.{FilePath, WorkerJob, ProgressDestination, stdout, file}
use snapdog_os_installer.Worker.Session.{
  Metadata, LookError, PrivilegedSession, parent, is_clean_absolute_path, is_private_mode,
  valid_session_parent, validate_existing_file, validate_marker, progress_file, validate_members,
  session_of, validate,
}
use snapdog_os_installer.Worker.Session.Members.{
  IsMember, IsMarker, validate_existing_file-IsMember, validate_marker-IsMarker,
}

module _ (symlink_metadata : ℕ → FilePath → Result LookError Metadata)
    (display : LookError → Text) where
  -- The files of a job and its markers, by the numbers of the looks at them.
  pub record HasMembers (session : PrivilegedSession) (job : WorkerJob) (job_path : FilePath)
      : Type 0 where
    pub job_file :
        IsMember symlink_metadata display 2 session job_path (text "worker-job.json") none
    pub raw :
        IsMember symlink_metadata display 7 session job.raw_path
          (text "snapdog-os.img")
          (some job.raw_size)
    pub progress : FilePath
    pub reported : job.progress ≡ file progress
    pub progress_file :
        IsMember symlink_metadata display 12 session progress
          (text "worker-progress.jsonl")
          (some 0)
    pub cancel : IsMarker symlink_metadata display 17 session job.cancel_path (text "cancel")
    pub skip :
        IsMarker symlink_metadata display 18 session job.skip_verification_path
          (text "skip-verification")

  file_of :
      (destination : ProgressDestination) (path : FilePath)
      → progress_file symlink_metadata display destination ≡ ok path
      → destination ≡ file path
  file_of stdout path h = cc
  file_of (file p) path h = ap file (ok-injective h)

  validate_members-HasMembers :
      (session : PrivilegedSession) (job : WorkerJob) (job_path : FilePath) {u : Unit}
      → validate_members symlink_metadata display session job job_path ≡ ok u
      → HasMembers session job job_path
  unfolding validate_members
  validate_members-HasMembers session job job_path h =
      let (_, e1, h1) =
        >>=-eq-ok
          (validate_existing_file symlink_metadata display 2 session job_path
            (text "worker-job.json") none false)
          _ h in
      let (_, e2, h2) =
        >>=-eq-ok
          (validate_existing_file symlink_metadata display 7 session job.raw_path
            (text "snapdog-os.img") (some job.raw_size) false)
          _ h1 in
      let (path, e3, h3) = >>=-eq-ok (progress_file symlink_metadata display job.progress) _ h2 in
      let (_, e4, h4) =
        >>=-eq-ok
          (validate_existing_file symlink_metadata display 12 session path
            (text "worker-progress.jsonl") (some 0) true)
          _ h3 in
      let (_, e5, h5) =
        >>=-eq-ok
          (validate_marker symlink_metadata display 17 session job.cancel_path (text "cancel")) _
          h4 in
      record {
        job_file =
            validate_existing_file-IsMember symlink_metadata display 2 session job_path
              (text "worker-job.json") none false e1;
        raw =
            validate_existing_file-IsMember symlink_metadata display 7 session job.raw_path
              (text "snapdog-os.img") (some job.raw_size) false e2;
        progress = path;
        reported = file_of job.progress path e3;
        progress_file =
            validate_existing_file-IsMember symlink_metadata display 12 session path
              (text "worker-progress.jsonl") (some 0) true e4;
        cancel =
            validate_marker-IsMarker symlink_metadata display 17 session job.cancel_path
              (text "cancel") e5;
        skip =
            validate_marker-IsMarker symlink_metadata display 18 session job.skip_verification_path
              (text "skip-verification") h5;
      }

  positive : (n : ℕ) → (n == 0) ≡ false → 0 < n
  positive n h = ground arith

  -- On Linux, when a session is accepted, it does not belong to root. The job, the image, the progress
  -- file and the two markers lie directly in its directory under their fixed names. Each of the three
  -- files was, when it was looked at, a plain file of the owner's, with one name, that no one else may
  -- write, the image of the job's size and the progress file empty; and at the looks before and after,
  -- the directory was the session's, and private. A marker was an empty file of this kind or absent.
  pub validate-HasMembers :
      (job : WorkerJob) (job_path : FilePath) (session : PrivilegedSession)
      → validate symlink_metadata display job job_path ≡ ok session
      → (0 < session.owner_uid) × HasMembers session job job_path
  unfolding validate
  validate-HasMembers job job_path session h =
      let (directory, e1, h1) = >>=-eq-ok (ok_or (parent job.raw_path) _) _ h in
      let (_, e2, h2) = >>=-eq-ok (reject_if (not (is_clean_absolute_path directory)) _) _ h1 in
      let (m, e3, h3) = >>=-eq-ok (map_err _ (symlink_metadata 0 directory)) _ h2 in
      let (_, e4, h4) =
        >>=-eq-ok
          (reject_if (m.is_symlink || not m.is_dir || m.uid == 0 || not (is_private_mode m.mode)) _)
          _ h3 in
      let (above, e5, h5) = >>=-eq-ok (ok_or (parent directory) _) _ h4 in
      let (p, e6, h6) = >>=-eq-ok (map_err _ (symlink_metadata 1 above)) _ h5 in
      let (_, e7, h7) = >>=-eq-ok (reject_if (not (valid_session_parent p m.uid)) _) _ h6 in
      let (_, e8, h8) =
        >>=-eq-ok
          (validate_members symlink_metadata display
            (session_of symlink_metadata display directory m p) job job_path)
          _ h7 in
      let (r3, _) = or_false _ (not (is_private_mode m.mode)) (reject_if-eq-ok _ _ e4) in
      let (_, owner) = or_false (m.is_symlink || not m.is_dir) (m.uid == 0) r3 in
      subst (λ (s : PrivilegedSession). (0 < s.owner_uid) × HasMembers s job job_path)
        (ok-injective h8)
        (
          positive m.uid owner,
          validate_members-HasMembers (session_of symlink_metadata display directory m p) job
              job_path e8,
        )
