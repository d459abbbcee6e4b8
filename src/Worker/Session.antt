-- ===== src/Worker/Session.antt =====
-- `PrivilegedSession` of src/worker.rs, as Linux builds it. Files may change between any two looks at
-- them: `symlink_metadata` is told the number of the look.
pub mod Members
pub mod Accepted
mod Tests
use snapdog_os_installer.Prelude.{
  ℕ, zero, suc, ◌+◌, ◌*◌, ◌/◌, ◌%◌, Bool, true, false, not, ◌&&◌, ◌||◌, Option, none, some, List,
  [], ◌∷◌, ◌++◌, Text, text, show, all, is_some_and, ltb, ◌==◌, ◌=ᵗ◌, if◌then◌else◌,
}
use snapdog_os_installer.Prelude.Result.{Result, ok, err, map_err, ok_or, reject_if, ◌>>=◌, ◌>>◌}
use snapdog_os_installer.Worker.Types.{
  Component, root_dir, cur_dir, parent_dir, normal, FilePath, same_component, WorkerJob,
  WorkerError, invalid_job, ProgressDestination, stdout, file,
}

pub record Metadata : Type 0 where
  pub is_symlink : Bool
  pub is_dir : Bool
  pub is_file : Bool
  pub uid : ℕ
  pub mode : ℕ
  pub dev : ℕ
  pub ino : ℕ
  pub nlink : ℕ
  pub len : ℕ

pub data LookError : Type 0 where
  not_found : LookError
  other : Text → LookError

pub record PrivilegedSession : Type 0 where
  pub directory : FilePath
  pub owner_uid : ℕ
  pub directory_device : ℕ
  pub directory_inode : ℕ
  pub parent_owner_uid : ℕ
  pub parent_mode : ℕ
  pub parent_device : ℕ
  pub parent_inode : ℕ

abbrev pub same_path : FilePath → FilePath → Bool
same_path [] [] = true
same_path [] (d ∷ ds) = false
same_path (c ∷ cs) [] = false
same_path (c ∷ cs) (d ∷ ds) = same_component c d && same_path cs ds

-- A path that is not empty, as all but the last component, and the last.
abbrev pub split_last : Component → FilePath → FilePath × Component
split_last c [] = ([], c)
split_last c (d ∷ cs) = let rest = split_last d cs in (c ∷ rest.0, rest.1)

abbrev pub parent_of : FilePath → Component → Option FilePath
parent_of front root_dir = none
parent_of front cur_dir = some front
parent_of front parent_dir = some front
parent_of front (normal name) = some front

abbrev pub file_name_of : Component → Option Text
file_name_of root_dir = none
file_name_of cur_dir = none
file_name_of parent_dir = none
file_name_of (normal name) = some name

-- `Path::parent` and `Path::file_name`
abbrev pub parent : FilePath → Option FilePath
parent [] = none
parent (c ∷ cs) = parent_of (split_last c cs).0 (split_last c cs).1

abbrev pub file_name : FilePath → Option Text
file_name [] = none
file_name (c ∷ cs) = file_name_of (split_last c cs).1

abbrev is_normal : Component → Bool
is_normal root_dir = false
is_normal cur_dir = false
is_normal parent_dir = false
is_normal (normal name) = true

unfoldable pub is_clean_absolute_path : FilePath → Bool
is_clean_absolute_path [] = false
is_clean_absolute_path (root_dir ∷ rest) = all is_normal rest
is_clean_absolute_path (cur_dir ∷ rest) = false
is_clean_absolute_path (parent_dir ∷ rest) = false
is_clean_absolute_path (normal name ∷ rest) = false

abbrev pub invalid_session : Text → WorkerError
invalid_session = invalid_job

-- The permissions with the set-id and sticky bits; 0o700 is 448.
abbrev pub is_private_mode : ℕ → Bool
is_private_mode mode = mode % 4096 == 448

-- A bit of 0o022 is set.
abbrev pub writable_by_others : ℕ → Bool
writable_by_others mode = mode / 2 % 2 == 1 || mode / 16 % 2 == 1

-- 0o1777 is 1023.
unfoldable pub valid_session_parent : Metadata → ℕ → Bool
valid_session_parent metadata owner_uid =
    if metadata.is_symlink || not metadata.is_dir
    then false
    else metadata.uid == owner_uid && is_private_mode metadata.mode
      || metadata.uid == 0 && metadata.mode % 4096 == 1023

-- The format `{:o}` of a number below 512.
abbrev octal : ℕ → Text
octal n =
    if ltb n 8
    then show n
    else if ltb n 64
    then show (n / 8) ++ show (n % 8)
    else show (n / 64) ++ show (n / 8 % 8) ++ show (n % 8)

unfoldable pub validate_member_path : PrivilegedSession → FilePath → Text → Result WorkerError Unit
unfolding is_clean_absolute_path text
validate_member_path session path expected_name =
    reject_if
      (not (is_clean_absolute_path path)
        || not (is_some_and (parent path) (λ p. same_path p session.directory))
        || not (is_some_and (file_name path) (λ name. name =ᵗ expected_name)))
      (invalid_session
        (expected_name ++ text " must be a direct member of the private session directory"))

unfoldable pub validate_file_metadata :
    PrivilegedSession → Metadata → Text → Option ℕ → Bool → Result WorkerError Unit
unfolding text
validate_file_metadata session metadata name expected_size require_empty =
    reject_if
      (metadata.is_symlink
        || not metadata.is_file
        || not (metadata.uid == session.owner_uid)
        || not (metadata.nlink == 1)
        || writable_by_others metadata.mode
        || is_some_and expected_size (λ size. not (metadata.len == size))
        || (require_empty && not (metadata.len == 0)))
      (invalid_session (name ++ text " has unsafe ownership, permissions, links, type, or size"))

module _ (symlink_metadata : ℕ → FilePath → Result LookError Metadata)
    (display : LookError → Text) where
  -- The looks with the numbers `k` and the one after it.
  unfoldable pub ensure_directory_unchanged : ℕ → PrivilegedSession → Result WorkerError Unit
  unfolding text
  ensure_directory_unchanged k session = do
    metadata ←
        map_err (λ e. invalid_session (text "session directory changed: " ++ display e))
          (symlink_metadata k session.directory)
    reject_if
        (metadata.is_symlink
          || not metadata.is_dir
          || not (metadata.uid == session.owner_uid)
          || not (metadata.dev == session.directory_device)
          || not (metadata.ino == session.directory_inode)
          || not (is_private_mode metadata.mode))
        (invalid_session (text "session directory changed during authorization"))
    above ←
        ok_or (parent session.directory)
          (invalid_session (text "session directory has no private parent"))
    parent_metadata ←
        map_err (λ e. invalid_session (text "session parent changed: " ++ display e))
          (symlink_metadata (k + 1) above)
    reject_if
        (parent_metadata.is_symlink
          || not parent_metadata.is_dir
          || not (parent_metadata.uid == session.parent_owner_uid)
          || not (parent_metadata.mode == session.parent_mode)
          || not (parent_metadata.dev == session.parent_device)
          || not (parent_metadata.ino == session.parent_inode))
        (invalid_session (text "session parent directory changed during authorization"))

  -- Five looks from number `k` on; the third is at the file.
  unfoldable pub validate_existing_file :
      ℕ → PrivilegedSession → FilePath → Text → Option ℕ → Bool → Result WorkerError Unit
  unfolding validate_member_path ensure_directory_unchanged validate_file_metadata text
  validate_existing_file k session path expected_name expected_size require_empty = do
    validate_member_path session path expected_name
    ensure_directory_unchanged k session
    metadata ←
        map_err (λ e. invalid_session (expected_name ++ text " is unavailable: " ++ display e))
          (symlink_metadata (k + 2) path)
    validate_file_metadata session metadata expected_name expected_size require_empty
    ensure_directory_unchanged (k + 3) session

  abbrev pub check_marker :
      PrivilegedSession → Text → Result LookError Metadata → Result WorkerError Unit
  check_marker session name (ok metadata) =
      validate_file_metadata session metadata name (some 0) true
  check_marker session name (err LookError.not_found) = ok tt
  check_marker session name (err (LookError.other e)) = err (
      invalid_session
        (text "session marker " ++ name ++ text " is unavailable: " ++ display (LookError.other e)))

  unfoldable pub validate_marker :
      ℕ → PrivilegedSession → Option FilePath → Text → Result WorkerError Unit
  unfolding validate_member_path validate_file_metadata text
  validate_marker k session marker expected_name = do
    path ← ok_or marker (
        invalid_session
          (text "session marker " ++ expected_name ++ text " is missing from the job"))
    validate_member_path session path expected_name
    check_marker session expected_name (symlink_metadata k path)

  abbrev pub progress_file : ProgressDestination → Result WorkerError FilePath
  progress_file stdout =
      err (invalid_session (text "privileged jobs require a session progress file"))
  progress_file (file path) = ok path

  unfoldable pub validate_members :
      PrivilegedSession → WorkerJob → FilePath → Result WorkerError Unit
  unfolding validate_existing_file validate_marker text
  validate_members session job job_path = do
    validate_existing_file 2 session job_path (text "worker-job.json") none false
    validate_existing_file 7 session job.raw_path (text "snapdog-os.img") (some job.raw_size) false
    progress_path ← progress_file job.progress
    validate_existing_file 12 session progress_path (text "worker-progress.jsonl") (some 0) true
    validate_marker 17 session job.cancel_path (text "cancel")
    validate_marker 18 session job.skip_verification_path (text "skip-verification")

  abbrev pub session_of : FilePath → Metadata → Metadata → PrivilegedSession
  session_of directory metadata parent_metadata = record {
    directory = directory;
    owner_uid = metadata.uid;
    directory_device = metadata.dev;
    directory_inode = metadata.ino;
    parent_owner_uid = parent_metadata.uid;
    parent_mode = parent_metadata.mode;
    parent_device = parent_metadata.dev;
    parent_inode = parent_metadata.ino;
  }

  -- `PrivilegedSession::validate`
  unfoldable pub validate : WorkerJob → FilePath → Result WorkerError PrivilegedSession
  unfolding is_clean_absolute_path valid_session_parent validate_members text
  validate job job_path = do
    directory ←
        ok_or (parent job.raw_path) (invalid_session (text "raw image has no parent directory"))
    reject_if (not (is_clean_absolute_path directory))
        (invalid_session (text "session directory path is not canonical"))
    metadata ←
        map_err (λ e. invalid_session (text "session directory is unavailable: " ++ display e))
          (symlink_metadata 0 directory)
    reject_if
        (metadata.is_symlink
          || not metadata.is_dir
          || metadata.uid == 0
          || not (is_private_mode metadata.mode))
        (invalid_session (
          text "session directory must be private and non-root-owned (uid "
          ++ show metadata.uid
          ++ text ", mode "
          ++ octal (metadata.mode % 512)
          ++ text ")"))
    above ←
        ok_or (parent directory) (invalid_session (text "session directory has no private parent"))
    parent_metadata ←
        map_err
          (λ e. invalid_session (text "session parent directory is unavailable: " ++ display e))
          (symlink_metadata 1 above)
    reject_if (not (valid_session_parent parent_metadata metadata.uid)) (
        invalid_session (
          text
            "session directory must live inside an approved private or sticky temporary directory"))
    validate_members (session_of directory metadata parent_metadata) job job_path
    ok (session_of directory metadata parent_metadata)
