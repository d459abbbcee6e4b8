-- ===== src/Download/Outcome.antt =====
-- The two ways out of `download_from_reader` of src/download.rs: published, or as if it had not run.
use snapdog_os_installer.Prelude.{
  ℕ, ◌≡◌, refl, true, ◌⊎◌, inl, inr, Bool-cases, and_iff, Option, none, some, [], Bytes, Text, ◌=ᵗ◌,
  eqt_iff, sym, ◌∙◌, ap, subst,
}
use snapdog_os_installer.Prelude.Result.{Result, ok, err}
use snapdog_os_installer.Prelude.Exec.{
  Exec, attempt, ◌>>=◌, ◌>>◌, Post, Triple, Triple-bind, Triple-pure, Triple-raise, Triple-post,
  Triple-assume, Triple-attempt, Triple-attempt_same,
}
use snapdog_os_installer.Flash.Types.{IoError, Crypto, Replies}
use snapdog_os_installer.Download.Types.{
  Destination, DownloadReport, DownloadError, Files, same_file, set_file, Env, World,
}
use snapdog_os_installer.Download.Fetch.{
  reply_to, file_call, fill_partial, drop_partial, create_partial, partial_path,
  download_from_reader,
}
use snapdog_os_installer.Download.Calls.{
  set_file-same, set_file-other, file_call_lem, check_cancelled_lem, reject_existing_lem,
  ensure_available_lem,
}
use snapdog_os_installer.Download.Published.{Elsewhere, Filled}
use snapdog_os_installer.Download.Filling.{Finished, fill_partial_lem}

same_file-eq : (a b : Text × Text) → same_file a b ≡ true → a ≡ b
unfolding same_file
same_file-eq (x, y) (u, v) h =
    let parts = (and_iff (x =ᵗ u) (y =ᵗ v)).0 h in
    pair-eq ((eqt_iff x u).0 parts.0) ((eqt_iff y v).0 parts.1)
  where
    pair-eq : {x u y v : Text} → x ≡ u → y ≡ v → ◌≡◌ {A = Text × Text} (x, y) (u, v)
    pair-eq p q = cc (p, q)

module _ (H : Type 0) (c : Crypto) (env : Env) (destination : Destination) (before : Files) where
  abbrev pub Unchanged : Files → Type 0
  Unchanged files = (j : Text × Text) → files j ≡ before j

  -- After an error, no file but the partial one has changed; and none at all, if removing works.
  pub record Aborted (files : Files) : Type 0 where
    pub others :
        (j : Text × Text)
        → ((name : Text) × (destination.file_name ≡ some name)
            × (j ≡ partial_path (destination.parent, name)))
          ⊎ (files j ≡ before j)
    pub cleaned_up : ((n : ℕ) → env.remove n ≡ ok tt) → Unchanged files

  Unchanged-Aborted : (files : Files) → Unchanged files → Aborted files
  Unchanged-Aborted files u = record { others = λ j. inr (u j); cleaned_up = λ _. u }

  others_lem :
      (name : Text) (files : Files)
      → destination.file_name ≡ some name
      → Elsewhere H c env destination before (partial_path (destination.parent, name)) files
      → (j : Text × Text)
      → ((n : Text) × (destination.file_name ≡ some n) × (j ≡ partial_path (destination.parent, n)))
        ⊎ (files j ≡ before j)
  others_lem name files e u j =
      elim (Bool-cases (same_file j (partial_path (destination.parent, name)))) [
        | inl same ↦ inl (name, e, same_file-eq _ _ same)
        | inr other ↦ inr (u j other)
      ]

  removed_lem :
      (key : Text × Text) (files : Files)
      → before key ≡ none
      → Elsewhere H c env destination before key files
      → Unchanged (set_file key none files)
  removed_lem key files free u j = elim (Bool-cases (same_file j key)) [
    | inl same ↦
        ap (set_file key none files) (same_file-eq j key same)
        ∙ set_file-same key none files
        ∙ sym free
        ∙ ap before (sym (same_file-eq j key same))
    | inr other ↦ set_file-other key none files j other ∙ u j other
  ]

  remove_lem :
      (name : Text)
      → destination.file_name ≡ some name
      → before (partial_path (destination.parent, name)) ≡ none
      → Triple
          (λ w.
            Elsewhere H c env destination before (partial_path (destination.parent, name)) w.files)
          (file_call {H = H} env.remove
            (set_file (partial_path (destination.parent, name)) none)
            (λ files. files))
          (λ _ w. Aborted w.files)
          (λ _ w. Aborted w.files)
  unfolding file_call
  remove_lem name e free = record { at = λ w u. go w (env.remove w.calls) refl u }
    where
      key : Text × Text
      key = partial_path (destination.parent, name)

      go :
          (w : World) (r : Result IoError Unit)
          → env.remove w.calls ≡ r
          → Elsewhere H c env destination before key w.files
          → Post
              (λ _ v. Aborted v.files)
              (λ _ v. Aborted v.files)
              (reply_to {H = H} r (set_file key none) (λ f. f) w).0
              (reply_to {H = H} r (set_file key none) (λ f. f) w).1
      go w (ok tt) h u = Unchanged-Aborted _ (removed_lem key w.files free u)
      go w (err x) h u = record {
        others = others_lem name w.files e u;
        cleaned_up = λ works. cc (works w.calls, h);
      }

  drop_lem :
      {Q : DownloadReport → World → Type 0} (name : Text)
      (r : Result (DownloadError H) DownloadReport)
      → destination.file_name ≡ some name
      → before (partial_path (destination.parent, name)) ≡ none
      → Triple
          (Post Q
            (λ _ w.
              Elsewhere H c env destination before
                (partial_path (destination.parent, name))
                w.files)
            r)
          (drop_partial {H = H} env (partial_path (destination.parent, name)) r)
          Q
          (λ _ w. Aborted w.files)
  unfolding drop_partial
  drop_lem name (ok report) e free = Triple-pure report λ w q. q
  drop_lem name (err x) e free =
      Triple-bind (λ _ w. Aborted w.files)
        (Triple-attempt_same (λ w. Aborted w.files) (remove_lem name e free))
        λ _. Triple-raise x λ w a. a

  create_lem :
      (key : Text × Text)
      → Triple
          (λ w. Unchanged w.files)
          (create_partial {H = H} env key)
          (λ _ w. Filled H c env destination before key [] w.files × (before key ≡ none))
          (λ _ w. Unchanged w.files)
  unfolding create_partial
  create_lem key =
      Triple-bind (λ _ w. Unchanged w.files × (w.files key ≡ none))
        (reject_existing_lem Unchanged env key _)
        λ _.
          file_call_lem (λ f. Unchanged f × (f key ≡ none))
            (λ f. Filled H c env destination before key [] f × (before key ≡ none)) Unchanged
            env.create _ _
            (λ f u. (
              (λ j other. set_file-other key _ f j other ∙ u.0 j, set_file-same key _ f),
              sym (u.0 key) ∙ u.1,
            ))
            (λ f u. u.0)

  -- A returned report says that the file is there, where none was before, with exactly the bytes
  -- that the reader returned, of the size and the digest expected, and that no other file has
  -- changed. After an error, no file has changed but for the partial file, and not that either if
  -- removing it works.
  pub download_from_reader_lem :
      (expected_digest : Option Bytes) (expected_size : Option ℕ) (reads : Replies)
      → Triple
          (λ w. Unchanged w.files)
          (download_from_reader {H = H} c env destination expected_digest expected_size reads)
          (λ r w.
            (name : Text) × (destination.file_name ≡ some name)
            × Finished H c env destination before expected_digest expected_size reads
                (destination.parent, name)
                r
                w.files)
          (λ _ w. Aborted w.files)
  unfolding download_from_reader
  download_from_reader_lem expected_digest expected_size reads =
      Triple-bind (λ _ w. Unchanged w.files) (untouched (check_cancelled_lem Unchanged env))
        λ _.
          Triple-bind
            (λ t w.
              Unchanged w.files
              × ((n : Text) × (destination.file_name ≡ some n) × (t ≡ (destination.parent, n))))
            (Triple-post (λ t w q. (q.0, q.2)) (λ _ w q. Unchanged-Aborted w.files q)
              (ensure_available_lem Unchanged env destination destination.file_name))
            λ t.
              Triple-assume
                λ (named : (n : Text) × (destination.file_name ≡ some n)
                    × (t ≡ (destination.parent, n))).
                  subst (λ (x : Text × Text). Rest x) (sym named.2) (rest named.0 named.1)
    where
      untouched :
          {A : Type 0} {P : World → Type 0} {m : Exec World (DownloadError H) A}
          {Q : A → World → Type 0}
          → Triple P m Q (λ _ w. Unchanged w.files)
          → Triple P m Q (λ _ w. Aborted w.files)
      untouched t = Triple-post (λ a w q. q) (λ x w u. Unchanged-Aborted w.files u) t

      Rest : Text × Text → Type 0
      Rest t =
          Triple (λ w. Unchanged w.files)
            (do
              create_partial {H = H} env (partial_path t)
              result ← attempt (
                  fill_partial {H = H} c env destination (partial_path t) expected_digest
                    expected_size reads)
              drop_partial env (partial_path t) result)
            (λ r w.
              (name : Text) × (destination.file_name ≡ some name)
              × Finished H c env destination before expected_digest expected_size reads
                  (destination.parent, name) r w.files)
            (λ _ w. Aborted w.files)

      rest : (name : Text) → destination.file_name ≡ some name → Rest (destination.parent, name)
      rest name e =
          Triple-bind
            (λ _ w.
              Filled H c env destination before (partial_path (destination.parent, name)) [] w.files
              × (before (partial_path (destination.parent, name)) ≡ none))
            (untouched (create_lem (partial_path (destination.parent, name))))
            λ _. Triple-assume λ free.
              Triple-bind _
                (Triple-attempt (
                  fill_partial_lem H c env destination before name expected_digest expected_size
                    reads e))
                λ result.
                  Triple-post (λ r w q. (name, e, q)) (λ _ w q. q) (drop_lem name result e free)
