-- ===== src/Pipeline/Run/Accepted.antt =====
-- The job that src/pipeline.rs writes, before the validation of src/worker.rs.
use snapdog_os_installer.Prelude.{
  Text, text, ap, ℕ, ◌<◌, ◌≡◌, refl, Bool, true, false, not, [], ◌∷◌, ◌++◌, ◌==◌, ltb, is_some_and,
  arith,
}
use snapdog_os_installer.Prelude.Result.{Result, ok, reject_if-eq-ok}
use snapdog_os_installer.Flash.Types.{PreparedImage}
use snapdog_os_installer.Worker.Types.{
  FilePath, root_dir, cur_dir, parent_dir, normal, is_absolute, WorkerDrive, valid_sha256,
}
use snapdog_os_installer.Worker.Job.{has_relative_path, validate_fields}
use snapdog_os_installer.Pipeline.Types.{PipelineRequest, PipelineError, Directory, PipelineIo}
use snapdog_os_installer.Pipeline.Job.{build_worker_job, ensure_target_capacity}
use snapdog_os_installer.Pipeline.Run.{join, job_for, macos_target_socket}

not_zero : (n : ℕ) → 0 < n → (n == 0) ≡ false
not_zero n h = ground arith

is_absolute-append :
    (path rest : FilePath) → is_absolute path ≡ true → is_absolute (path ++ rest) ≡ true
is_absolute-append [] rest h = cc
is_absolute-append (root_dir ∷ path) rest h = refl
is_absolute-append (cur_dir ∷ path) rest h = cc
is_absolute-append (parent_dir ∷ path) rest h = cc
is_absolute-append (normal name ∷ path) rest h = cc

module _ {H W : Type 0} (io : PipelineIo H W) (directory : Directory)
    (h : is_absolute directory.path ≡ true) where
  not_relative : (name : Text) → not (is_absolute (join directory name)) ≡ false
  not_relative name = ap not (is_absolute-append directory.path (normal name ∷ []) h)

  socket_lem :
      (macos : Bool)
      → is_some_and (macos_target_socket io macos directory) (λ path. not (is_absolute path))
        ≡ false
  socket_lem true = not_relative _
  socket_lem false = refl

  relative_lem :
      (macos : Bool) (request : PipelineRequest) (prepared : PreparedImage)
      → has_relative_path (job_for io macos request directory prepared) ≡ false
  unfolding has_relative_path build_worker_job
  relative_lem macos request prepared =
      let a = not_relative (text "snapdog-os.img") in
      let b = not_relative (text "cancel") in
      let d = not_relative (text "skip-verification") in
      let e = not_relative (text "worker-progress.jsonl") in
      let f = socket_lem macos in simp (a, b, d, e, f)

  -- In a temporary directory with an absolute path, the job written for a drive that the build accepts
  -- and a prepared image that is not empty, passed the test of the drive's capacity and has a digest of
  -- 64 hexadecimal digits, passes the worker's tests of its fields.
  pub job_for-validate_fields :
      (valid : WorkerDrive → Bool) (macos : Bool) (request : PipelineRequest)
      (prepared : PreparedImage)
      → valid request.drive ≡ true
      → valid_sha256 prepared.raw_sha256 ≡ true
      → 0 < prepared.bytes
      → ◌≡◌ {A = Result (PipelineError H) Unit}
          (ensure_target_capacity prepared request.drive)
          (ok tt)
      → validate_fields valid (job_for io macos request directory prepared) ≡ ok tt
  unfolding validate_fields build_worker_job ensure_target_capacity
  job_for-validate_fields valid macos request prepared v d z fits =
      let r = relative_lem macos request prepared in
      let f = reject_if-eq-ok (ltb request.drive.capacity prepared.bytes) _ fits in
      let n = not_zero prepared.bytes z in simp (v, d, r, n, f)
