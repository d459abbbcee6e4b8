-- ===== src/Pipeline/Memory.antt =====
-- Files in memory, for the tests of src/pipeline.rs.
use snapdog_os_installer.Prelude.{
  ◌≡◌, refl, sym, ap, ◌∙◌, Bool, true, false, Option, none, some, is_some, [], ◌∷◌, ◌++◌, Bytes,
  text, eqt_refl, if◌then◌else◌, Bool-cases, inl, inr, ◌&&◌, true_false,
}
use snapdog_os_installer.Prelude.Result.{ok, err}
use snapdog_os_installer.Prelude.Exec.{Exec, pure, Post, Triple-pure}
use snapdog_os_installer.Flash.Types.{IoError}
use snapdog_os_installer.Flash.Prepare.{PrepareIo}
use snapdog_os_installer.Worker.Types.{
  Component, root_dir, cur_dir, parent_dir, normal, FilePath, same_component,
}
use snapdog_os_installer.Worker.Session.{same_path}
use snapdog_os_installer.Worker.Session.Members.{same_path-eq}
use snapdog_os_installer.Pipeline.Types.{PipelineIo, Directory, Answer}
use snapdog_os_installer.Pipeline.Run.Files.{Contains, FileContract}

abbrev pub Files : Type 0
Files = FilePath → Option Bytes

abbrev pub put : FilePath → Bytes → Files → Files
put p b files q = if same_path p q then some b else files q

abbrev pub bytes_of : Option Bytes → Bytes
bytes_of none = []
bytes_of (some b) = b

abbrev pub create_unless : Bool → FilePath → Exec Files IoError Unit
create_unless true p files = (err (text "exists"), files)
create_unless false p files = (ok tt, put p [] files)

abbrev pub create_new : FilePath → Exec Files IoError Unit
create_new p files = create_unless (is_some (files p)) p files

abbrev pub write_all : FilePath → Bytes → Exec Files IoError Unit
write_all p x files = (ok tt, put p (bytes_of (files p) ++ x) files)

abbrev pub run_prepare : PrepareIo Files
run_prepare = record {
  open_archive = pure tt;
  create_raw = pure tt;
  reads = ok (1 ∷ []) ∷ ok (2 ∷ 3 ∷ []) ∷ ok [] ∷ [];
  write_all = λ x. pure tt;
  flush = pure tt;
  remove_raw = pure tt;
  load_cancelled = λ w. (false, w);
  progress = λ p w. w;
}

abbrev pub run_directory : Directory
run_directory = record { path = root_dir ∷ normal (text "tmp") ∷ []; name = text "/tmp" }

abbrev pub run_io : Answer → PipelineIo Unit Files
run_io answer = record {
  temp_dir = pure run_directory;
  restrict_directory = λ d. pure tt;
  remove_directory = λ d w. w;
  download = λ r. pure (record { destination = r.destination; bytes_downloaded = 2; sha256 = [] });
  prepare = λ a r. run_prepare;
  create_new = create_new;
  open_write = λ p. pure tt;
  set_private_file_permissions = λ p. pure tt;
  write_all = write_all;
  sync_all = λ p. pure tt;
  is_already_exists = λ e. true;
  to_vec = λ j. ok j.drive.device;
  run_worker = λ launch w. (answer, w);
  load_cancelled = λ w. (false, w);
  load_skip_verification = λ w. (false, w);
  lock_markers = λ w. (true, w);
  emit = λ e w. w;
}

abbrev pub content : Files → FilePath → Option Bytes
content files p = files p

same_component_refl : (c : Component) → same_component c c ≡ true
same_component_refl root_dir = refl
same_component_refl cur_dir = refl
same_component_refl parent_dir = refl
same_component_refl (normal name) = eqt_refl name

same_path_refl : (p : FilePath) → same_path p p ≡ true
same_path_refl [] = refl
same_path_refl (c ∷ p) =
    ap (λ (b : Bool). b && same_path p p) (same_component_refl c) ∙ same_path_refl p

put_same : (p : FilePath) (b : Bytes) (files : Files) → put p b files p ≡ some b
put_same p b files = ap (λ (t : Bool). if t then some b else files p) (same_path_refl p)

module _ (answer : Answer) where
  abbrev Holding : FilePath → Bytes → Files → Type 0
  Holding = Contains (run_io answer) content

  created :
      (there : Bool) (p : FilePath) (files : Files)
      → Post
          (λ _. Holding p [])
          (λ _ _. Unit)
          (create_unless there p files).0
          (create_unless there p files).1
  created true p files = tt
  created false p files = put_same p [] files

  created_other :
      (there : Bool) (q p : FilePath) (b : Bytes) (files : Files)
      → is_some (files q) ≡ there
      → files p ≡ some b
      → Post
          (λ _. Holding p b)
          (λ _. Holding p b)
          (create_unless there q files).0
          (create_unless there q files).1
  created_other true q p b files e h = h
  created_other false q p b files e h = elim (Bool-cases (same_path q p)) [
    | inl same ↦ true_false (sym (ap is_some (ap files (same_path-eq q p same) ∙ h)) ∙ e)
    | inr other ↦ ap (λ (t : Bool). if t then some [] else files p) other ∙ h
  ]

  pub run_io-FileContract : FileContract (run_io answer) content
  run_io-FileContract = record {
    create_new = λ p. record { at = λ files _. created (is_some (files p)) p files };
    create_other =
        λ q p b. record { at = λ files h. created_other (is_some (files q)) q p b files refl h };
    write_all = λ p b x. record {
      at = λ files h.
          put_same p (bytes_of (files p) ++ x) files
          ∙ ap (λ (o : Option Bytes). some (bytes_of o ++ x)) h;
    };
    permissions = λ q p b. Triple-pure tt λ w h. h;
    sync_all = λ q p b. Triple-pure tt λ w h. h;
    load_cancelled = λ p b w h. h;
    load_skip = λ p b w h. h;
    lock_markers = λ p b w h. h;
    emit = λ e p b w h. h;
  }
