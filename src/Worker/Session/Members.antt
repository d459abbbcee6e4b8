-- ===== src/Worker/Session/Members.antt =====
-- What a session that was accepted consists of, in src/worker.rs.
use snapdog_os_installer.Prelude.{
  ℕ, ◌+◌, ◌≡◌, refl, sym, ap, ◌∙◌, Bool, true, false, not, ◌&&◌, ◌||◌, Option, none, some, [], ◌∷◌,
  ◌++◌, Text, is_some_and, ◌==◌, ==_iff, ◌=ᵗ◌, eqt_iff, or_false, arith, subst,
}
use snapdog_os_installer.Prelude.Result.{
  Result, ok, err, map_err, ok_or, reject_if, reject_if-eq-ok, >>=-eq-ok, ok-injective,
}
use snapdog_os_installer.Worker.Types.{
  Component, root_dir, cur_dir, parent_dir, normal, FilePath, same_component, WorkerError,
}
use snapdog_os_installer.Worker.Session.{
  Metadata, LookError, PrivilegedSession, same_path, split_last, parent_of, file_name_of, parent,
  file_name, is_clean_absolute_path, is_private_mode, writable_by_others, validate_member_path,
  validate_file_metadata, ensure_directory_unchanged, validate_existing_file, check_marker,
  validate_marker,
}

same_component-eq : (c d : Component) → same_component c d ≡ true → c ≡ d
same_component-eq root_dir root_dir h = refl
same_component-eq root_dir cur_dir h = cc
same_component-eq root_dir parent_dir h = cc
same_component-eq root_dir (normal n) h = cc
same_component-eq cur_dir root_dir h = cc
same_component-eq cur_dir cur_dir h = refl
same_component-eq cur_dir parent_dir h = cc
same_component-eq cur_dir (normal n) h = cc
same_component-eq parent_dir root_dir h = cc
same_component-eq parent_dir cur_dir h = cc
same_component-eq parent_dir parent_dir h = refl
same_component-eq parent_dir (normal n) h = cc
same_component-eq (normal m) root_dir h = cc
same_component-eq (normal m) cur_dir h = cc
same_component-eq (normal m) parent_dir h = cc
same_component-eq (normal m) (normal n) h = ap normal ((eqt_iff m n).0 h)

both_true : (a b : Bool) → (a && b) ≡ true → (a ≡ true) × (b ≡ true)
both_true a b h = ground arith

pub same_path-eq : (p q : FilePath) → same_path p q ≡ true → p ≡ q
same_path-eq [] [] h = refl
same_path-eq [] (d ∷ ds) h = cc
same_path-eq (c ∷ cs) [] h = cc
same_path-eq (c ∷ cs) (d ∷ ds) h =
    let (e, es) = both_true (same_component c d) (same_path cs ds) h in
    ap (λ (x : Component). x ∷ cs) (same_component-eq c d e)
    ∙ ap (λ (x : FilePath). d ∷ x) (same_path-eq cs ds es)

split_last-join :
    (c : Component) (cs : FilePath) → (split_last c cs).0 ++ ((split_last c cs).1 ∷ []) ≡ c ∷ cs
split_last-join c [] = refl
split_last-join c (d ∷ cs) = ap (λ (x : FilePath). c ∷ x) (split_last-join d cs)

module _ (directory : FilePath) (name : Text) where
  joined :
      (front : FilePath) (last : Component)
      → is_some_and (parent_of front last) (λ p. same_path p directory) ≡ true
      → is_some_and (file_name_of last) (λ n. n =ᵗ name) ≡ true
      → front ++ (last ∷ []) ≡ directory ++ (normal name ∷ [])
  joined front root_dir h k = cc
  joined front cur_dir h k = cc
  joined front parent_dir h k = cc
  joined front (normal n) h k =
      ap (λ (x : FilePath). x ++ (normal n ∷ [])) (same_path-eq front directory h)
      ∙ ap (λ (x : Text). directory ++ (normal x ∷ [])) ((eqt_iff n name).0 k)

  parent-file_name :
      (path : FilePath)
      → is_some_and (parent path) (λ p. same_path p directory) ≡ true
      → is_some_and (file_name path) (λ n. n =ᵗ name) ≡ true
      → path ≡ directory ++ (normal name ∷ [])
  parent-file_name [] h k = cc
  parent-file_name (c ∷ cs) h k =
      sym (split_last-join c cs) ∙ joined (split_last c cs).0 (split_last c cs).1 h k

not-false : (b : Bool) → not b ≡ false → b ≡ true
not-false true h = refl
not-false false h = cc

validate_member_path-eq :
    (session : PrivilegedSession) (path : FilePath) (name : Text) {u : Unit}
    → validate_member_path session path name ≡ ok u
    → path ≡ session.directory ++ (normal name ∷ [])
unfolding validate_member_path
validate_member_path-eq session path name h =
    let r = reject_if-eq-ok _ _ h in
    let (l, n) =
      or_false
        (not (is_clean_absolute_path path)
          || not (is_some_and (parent path) (λ p. same_path p session.directory)))
        _ r in
    let (_, p) = or_false (not (is_clean_absolute_path path)) _ l in
    parent-file_name session.directory name path (not-false _ p) (not-false _ n)

-- A regular file of the user's, with one name, that no one else may write; of the size, if there is one.
pub record IsPlain (owner : ℕ) (size : Option ℕ) (metadata : Metadata) : Type 0 where
  pub no_link : metadata.is_symlink ≡ false
  pub regular : metadata.is_file ≡ true
  pub owned : metadata.uid ≡ owner
  pub one_name : metadata.nlink ≡ 1
  pub protected : writable_by_others metadata.mode ≡ false
  pub sized : is_some_and size (λ n. not (metadata.len == n)) ≡ false

validate_file_metadata-IsPlain :
    (session : PrivilegedSession) (m : Metadata) (name : Text) (size : Option ℕ) (empty : Bool)
    {u : Unit}
    → validate_file_metadata session m name size empty ≡ ok u
    → IsPlain session.owner_uid size m
unfolding validate_file_metadata
validate_file_metadata-IsPlain session m name size empty h =
    let (r6, _) = or_false _ (empty && not (m.len == 0)) (reject_if-eq-ok _ _ h) in
    let (r5, sized) = or_false _ (is_some_and size (λ n. not (m.len == n))) r6 in
    let (r4, protected) = or_false _ (writable_by_others m.mode) r5 in
    let (r3, one) = or_false _ (not (m.nlink == 1)) r4 in
    let (r2, owned) = or_false _ (not (m.uid == session.owner_uid)) r3 in
    let (no_link, regular) = or_false m.is_symlink (not m.is_file) r2 in
    record {
      no_link = no_link;
      regular = not-false _ regular;
      owned = (==_iff m.uid session.owner_uid).0 (not-false _ owned);
      one_name = (==_iff m.nlink 1).0 (not-false _ one);
      protected = protected;
      sized = sized;
    }

module _ (symlink_metadata : ℕ → FilePath → Result LookError Metadata)
    (display : LookError → Text) where
  -- At a look, the directory is that of the session: the same inode, private, and the owner's.
  pub record IsDirectory (k : ℕ) (session : PrivilegedSession) : Type 0 where
    pub metadata : Metadata
    pub seen : symlink_metadata k session.directory ≡ ok metadata
    pub owned : metadata.uid ≡ session.owner_uid
    pub device : metadata.dev ≡ session.directory_device
    pub inode : metadata.ino ≡ session.directory_inode
    pub private_mode : is_private_mode metadata.mode ≡ true

  -- The path is that of a member of the directory, which is a plain file between two looks at the
  -- directory.
  pub record IsMember (k : ℕ) (session : PrivilegedSession) (path : FilePath) (name : Text)
      (size : Option ℕ) : Type 0 where
    pub direct : path ≡ session.directory ++ (normal name ∷ [])
    pub before : IsDirectory k session
    pub metadata : Metadata
    pub seen : symlink_metadata (k + 2) path ≡ ok metadata
    pub plain : IsPlain session.owner_uid size metadata
    pub after : IsDirectory (k + 3) session

  pub map_err-ok :
      {A : Type 0} (f : LookError → WorkerError) (r : Result LookError A) (a : A)
      → map_err f r ≡ ok a
      → r ≡ ok a
  map_err-ok f (ok x) a h = ap ok (ok-injective h)
  map_err-ok f (err e) a h = cc

  some_of : {A : Type 0} (o : Option A) (e : WorkerError) (a : A) → ok_or o e ≡ ok a → o ≡ some a
  some_of none e a h = cc
  some_of (some x) e a h = ap some (ok-injective h)

  ensure-IsDirectory :
      (k : ℕ) (session : PrivilegedSession) {u : Unit}
      → ensure_directory_unchanged symlink_metadata display k session ≡ ok u
      → IsDirectory k session
  unfolding ensure_directory_unchanged
  ensure-IsDirectory k session h =
      let (m, s, h1) = >>=-eq-ok (map_err _ (symlink_metadata k session.directory)) _ h in
      let (_, t, h2) =
        >>=-eq-ok
          (reject_if
            (m.is_symlink
              || not m.is_dir
              || not (m.uid == session.owner_uid)
              || not (m.dev == session.directory_device)
              || not (m.ino == session.directory_inode)
              || not (is_private_mode m.mode))
            _)
          _ h1 in
      let (r4, private_mode) = or_false _ (not (is_private_mode m.mode)) (reject_if-eq-ok _ _ t) in
      let (r3, inode) = or_false _ (not (m.ino == session.directory_inode)) r4 in
      let (r2, device) = or_false _ (not (m.dev == session.directory_device)) r3 in
      let (r1, owned) = or_false _ (not (m.uid == session.owner_uid)) r2 in
      record {
        metadata = m;
        seen = map_err-ok _ (symlink_metadata k session.directory) m s;
        owned = (==_iff m.uid session.owner_uid).0 (not-false _ owned);
        device = (==_iff m.dev session.directory_device).0 (not-false _ device);
        inode = (==_iff m.ino session.directory_inode).0 (not-false _ inode);
        private_mode = not-false _ private_mode;
      }

  pub validate_existing_file-IsMember :
      (k : ℕ) (session : PrivilegedSession) (path : FilePath) (name : Text) (size : Option ℕ)
      (empty : Bool) {u : Unit}
      → validate_existing_file symlink_metadata display k session path name size empty ≡ ok u
      → IsMember k session path name size
  unfolding validate_existing_file
  validate_existing_file-IsMember k session path name size empty h =
      let (_, e1, h1) = >>=-eq-ok (validate_member_path session path name) _ h in
      let (_, e2, h2) =
        >>=-eq-ok (ensure_directory_unchanged symlink_metadata display k session) _ h1 in
      let (m, e3, h3) = >>=-eq-ok (map_err _ (symlink_metadata (k + 2) path)) _ h2 in
      let (_, e4, h4) = >>=-eq-ok (validate_file_metadata session m name size empty) _ h3 in
      record {
        direct = validate_member_path-eq session path name e1;
        before = ensure-IsDirectory k session e2;
        metadata = m;
        seen = map_err-ok _ (symlink_metadata (k + 2) path) m e3;
        plain = validate_file_metadata-IsPlain session m name size empty e4;
        after = ensure-IsDirectory (k + 3) session h4;
      }

  -- A marker lies in the directory, where it is an empty plain file of the user's or is not there.
  abbrev pub MarkerSeen : ℕ → Result LookError Metadata → Type 0
  MarkerSeen owner (ok metadata) = IsPlain owner (some 0) metadata
  MarkerSeen owner (err e) = e ≡ LookError.not_found

  pub record IsMarker (k : ℕ) (session : PrivilegedSession) (marker : Option FilePath) (name : Text)
      : Type 0 where
    pub direct : marker ≡ some (session.directory ++ (normal name ∷ []))
    pub seen :
        MarkerSeen session.owner_uid (symlink_metadata k (session.directory ++ (normal name ∷ [])))

  check_marker-Seen :
      (session : PrivilegedSession) (name : Text) (r : Result LookError Metadata) {u : Unit}
      → check_marker symlink_metadata display session name r ≡ ok u
      → MarkerSeen session.owner_uid r
  check_marker-Seen session name (ok m) h =
      validate_file_metadata-IsPlain session m name (some 0) true h
  check_marker-Seen session name (err LookError.not_found) h = refl
  check_marker-Seen session name (err (LookError.other e)) h = cc

  pub validate_marker-IsMarker :
      (k : ℕ) (session : PrivilegedSession) (marker : Option FilePath) (name : Text) {u : Unit}
      → validate_marker symlink_metadata display k session marker name ≡ ok u
      → IsMarker k session marker name
  unfolding validate_marker
  validate_marker-IsMarker k session marker name h =
      let (path, e1, h1) = >>=-eq-ok (ok_or marker _) _ h in
      let (_, e2, h2) = >>=-eq-ok (validate_member_path session path name) _ h1 in
      let direct = validate_member_path-eq session path name e2 in
      record {
        direct = some_of marker _ path e1 ∙ ap some direct;
        seen =
            subst (λ (p : FilePath). MarkerSeen session.owner_uid (symlink_metadata k p)) direct
              (check_marker-Seen session name (symlink_metadata k path) h2);
      }
