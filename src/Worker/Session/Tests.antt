-- ===== src/Worker/Session/Tests.antt =====
-- A session in a private directory under /tmp.
use snapdog_os_installer.Prelude.{
  ℕ, ◌<◌, ◌≡◌, refl, true, false, none, some, [], ◌∷◌, ◌++◌, Text, text, ltb, ◌==◌, length,
  if◌then◌else◌,
}
use snapdog_os_installer.Prelude.Result.{Result, ok, err}
use snapdog_os_installer.Worker.Types.{root_dir, normal, FilePath, WorkerJob, file}
use snapdog_os_installer.Worker.Session.{
  Metadata, LookError, not_found, PrivilegedSession, validate,
}
use snapdog_os_installer.Worker.Session.Accepted.{HasMembers, validate-HasMembers}

abbrev session_directory : FilePath
session_directory = root_dir ∷ normal (text "tmp") ∷ normal (text "s") ∷ []

abbrev member : Text → FilePath
member name = session_directory ++ (normal name ∷ [])

abbrev session_job : WorkerJob
session_job = record {
  schema_version = 1;
  drive = record { id = text "i"; device = text "d"; capacity = 100 };
  raw_path = member (text "snapdog-os.img");
  raw_size = 3;
  verify = true;
  expected_raw_sha256 = [];
  progress = file (member (text "worker-progress.jsonl"));
  cancel_path = some (member (text "cancel"));
  skip_verification_path = some (member (text "skip-verification"));
  macos_target_socket = none;
}

abbrev plain_file : ℕ → Metadata
plain_file len = record {
  is_symlink = false;
  is_dir = false;
  is_file = true;
  uid = 1000;
  mode = 33152;
  dev = 1;
  ino = 9;
  nlink = 1;
  len = len;
}

abbrev a_directory : ℕ → ℕ → ℕ → Metadata
a_directory uid mode ino = record {
  is_symlink = false;
  is_dir = true;
  is_file = false;
  uid = uid;
  mode = mode;
  dev = 1;
  ino = ino;
  nlink = 2;
  len = 40;
}

-- By the length of the path and the number of the look; /tmp is root's and sticky.
abbrev look : ℕ → FilePath → Result LookError Metadata
look k path =
    if length path == 2
    then ok (a_directory 0 17407 1)
    else if length path == 3
    then ok (a_directory 1000 16832 2)
    else if k == 9
    then ok (plain_file 3)
    else if ltb k 17
    then ok (plain_file 0)
    else err not_found

abbrev show_look : LookError → Text
show_look e = text "error"

abbrev a_session : PrivilegedSession
a_session = record {
  directory = session_directory;
  owner_uid = 1000;
  directory_device = 1;
  directory_inode = 2;
  parent_owner_uid = 0;
  parent_mode = 17407;
  parent_device = 1;
  parent_inode = 1;
}

accepted : validate look show_look session_job (member (text "worker-job.json")) ≡ ok a_session
unfolding validate text
accepted = refl

session_example :
    (0 < 1000) × HasMembers look show_look a_session session_job (member (text "worker-job.json"))
session_example =
    validate-HasMembers look show_look session_job (member (text "worker-job.json")) a_session
      accepted
