-- ===== src/Download/Calls.antt =====
-- What each call of src/download.rs does to the files, as rules for the proofs.
use snapdog_os_installer.Prelude.{
  ℕ, ◌≡◌, refl, Bool, false, Option, none, some, ◌++◌, Bytes, Text, text, length, length-append,
  is_some, ◌=ᵗ◌, eqt_iff, eqt_refl, ap, arith, Bool-cases, inl, inr,
}
use snapdog_os_installer.Prelude.Result.{Result, ok, err}
use snapdog_os_installer.Prelude.Exec.{
  Post, Triple, Triple-bind, Triple-pure, Triple-raise, Triple-fail_if, Triple-post,
}
use snapdog_os_installer.Flash.Types.{IoError}
use snapdog_os_installer.Download.Types.{
  Destination, DownloadError, Files, same_file, set_file, Env, World,
}
use snapdog_os_installer.Download.Fetch.{
  reply_to, file_call, read_file, load_flag, check_cancelled, try_exists, reject_existing,
  ensure_available, partial_path,
}

pub set_file-same :
    (key : Text × Text) (x : Option Bytes) (files : Files) → set_file key x files key ≡ x
unfolding set_file same_file
set_file-same key x files = rw (eqt_refl key.0) (rw (eqt_refl key.1) refl)

pub set_file-other :
    (key : Text × Text) (x : Option Bytes) (files : Files) (j : Text × Text)
    → same_file j key ≡ false
    → set_file key x files j ≡ files j
unfolding set_file
set_file-other key x files j h = rw h

-- The partial file is another file.
pub same_file-partial : (key : Text × Text) → same_file key (partial_path key) ≡ false
unfolding same_file partial_path text
same_file-partial (parent, name) = elim (Bool-cases (name =ᵗ (name ++ text ".part"))) [
  | inl same ↦ absurd (longer name (ap length ((eqt_iff name (name ++ text ".part")).0 same)))
  | inr other ↦ rw (eqt_refl parent) (rw other refl)
]
  where
    longer : (name : Text) → length name ≡ length (name ++ text ".part") → ⊥
    longer name h = omega (arith, length-append name (text ".part"))

reply_lem :
    (H : Type 0) (P Q R : Files → Type 0) (done failed : Files → Files) (r : Result IoError Unit)
    (w : World)
    → ((f : Files) → P f → Q (done f))
    → ((f : Files) → P f → R (failed f))
    → P w.files
    → Post
        (λ _ v. Q v.files)
        (λ _ v. R v.files)
        (reply_to {H = H} r done failed w).0
        (reply_to {H = H} r done failed w).1
reply_lem H P Q R done failed (ok u) w h k p = h w.files p
reply_lem H P Q R done failed (err e) w h k p = k w.files p

absent : (o : Option Bytes) (found : Bool) → is_some o ≡ found → found ≡ false → o ≡ none
absent none found e f = refl
absent (some b) found e f = cc (e, f)

module _ {H : Type 0} where
  pub file_call_lem :
      (P Q R : Files → Type 0) (answer : ℕ → Result IoError Unit) (done failed : Files → Files)
      → ((f : Files) → P f → Q (done f))
      → ((f : Files) → P f → R (failed f))
      → Triple
          (λ w. P w.files)
          (file_call {H = H} answer done failed)
          (λ _ w. Q w.files)
          (λ _ w. R w.files)
  unfolding file_call
  file_call_lem P Q R answer done failed h k = record {
    at = λ w p. reply_lem H P Q R done failed (answer w.calls) w h k p;
  }

  module _ (P : Files → Type 0) where
    pub read_file_lem :
        (key : Text × Text)
        → Triple
            (λ w. P w.files)
            (read_file {H = H} key)
            (λ x w. P w.files × (w.files key ≡ x))
            (λ _ w. P w.files)
    unfolding read_file
    read_file_lem key = record { at = λ w p. (p, refl) }

    pub check_cancelled_lem :
        (env : Env)
        → Triple
            (λ w. P w.files)
            (check_cancelled {H = H} env)
            (λ _ w. P w.files)
            (λ _ w. P w.files)
    unfolding check_cancelled load_flag
    check_cancelled_lem env =
        Triple-bind (λ _ w. P w.files) (record { at = λ w p. p })
          λ now. Triple-post (λ _ w q. q.0) (λ _ w q. q) (Triple-fail_if now _ λ w p. p)

    pub try_exists_lem :
        (env : Env) (key : Text × Text)
        → Triple
            (λ w. P w.files)
            (try_exists {H = H} env key)
            (λ found w. P w.files × (is_some (w.files key) ≡ found))
            (λ _ w. P w.files)
    unfolding try_exists
    try_exists_lem env key =
        Triple-bind (λ _ w. P w.files) (file_call_lem P P P env.exists _ _ (λ f p. p) (λ f p. p))
          λ _.
            Triple-bind (λ x w. P w.files × (w.files key ≡ x)) (read_file_lem key)
              λ content. Triple-pure _ λ w q. (q.0, ap is_some q.1)

    pub reject_existing_lem :
        (env : Env) (key : Text × Text) (e : DownloadError H)
        → Triple
            (λ w. P w.files)
            (reject_existing env key e)
            (λ _ w. P w.files × (w.files key ≡ none))
            (λ _ w. P w.files)
    unfolding reject_existing
    reject_existing_lem env key e =
        Triple-bind (λ found w. P w.files × (is_some (w.files key) ≡ found))
          (try_exists_lem env key)
          λ found.
            Triple-post (λ _ w q. (q.0.0, absent (w.files key) found q.0.1 q.1)) (λ _ w q. q)
              (Triple-fail_if found e λ w q. q.0)

    -- The key of a destination that is not there; an error touches nothing.
    pub ensure_available_lem :
        (env : Env) (destination : Destination) (name : Option Text)
        → Triple
            (λ w. P w.files)
            (ensure_available {H = H} env destination name)
            (λ key w.
              P w.files
              × (w.files key ≡ none)
              × ((n : Text) × (name ≡ some n) × (key ≡ (destination.parent, n))))
            (λ _ w. P w.files)
    unfolding ensure_available
    ensure_available_lem env destination none = Triple-raise _ λ w p. p
    ensure_available_lem env destination (some name) =
        Triple-bind (λ _ w. P w.files × (w.files (destination.parent, name) ≡ none))
          (reject_existing_lem env _ _) λ _. Triple-pure _ λ w q. (q.0, q.1, (name, refl, refl))
