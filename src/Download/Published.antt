-- ===== src/Download/Published.antt =====
-- What `download_from_reader` of src/download.rs leaves behind, on each way out.
use snapdog_os_installer.Prelude.{
  ℕ, ◌≡◌, ◌+◌, false, Option, some, [], ◌∷◌, ◌++◌, Bytes, Text, length, length-append, append-nil,
  append_assoc, sym, ◌∙◌, ap, arith, checked_add,
}
use snapdog_os_installer.Prelude.Result.{Result, ok, err, ok_or}
use snapdog_os_installer.Prelude.Exec.{
  pure, ◌>>◌, Triple, Triple-bind, Triple-pure, Triple-raise, Triple-fail_if, Triple-post,
  Triple-lift, Triple-assume,
}
use snapdog_os_installer.Flash.Types.{Crypto, Replies, contents}
use snapdog_os_installer.Download.Types.{
  Destination, DownloadError, Files, same_file, set_file, Env, World, size_overflow,
}
use snapdog_os_installer.Download.Fetch.{
  check_cancelled, contents_or_empty, append_file, write_partial, exceeds, download_loop,
}
use snapdog_os_installer.Download.Calls.{
  set_file-same, set_file-other, file_call_lem, check_cancelled_lem,
}

module _ (H : Type 0) (c : Crypto) (env : Env) (destination : Destination) (before : Files) where
  -- Nothing but this file has changed.
  abbrev pub Elsewhere : Text × Text → Files → Type 0
  Elsewhere key files = (j : Text × Text) → same_file j key ≡ false → files j ≡ before j

  abbrev pub Filled : Text × Text → Bytes → Files → Type 0
  Filled key b files = Elsewhere key files × (files key ≡ some b)

  Elsewhere-set_file :
      (key : Text × Text) (x : Option Bytes) (files : Files)
      → Elsewhere key files
      → Elsewhere key (set_file key x files)
  Elsewhere-set_file key x files e j h = set_file-other key x files j h ∙ e j h

  append_lem :
      (key : Text × Text) (b x : Bytes) (files : Files)
      → Filled key b files
      → Filled key (b ++ x) (append_file key x files)
  append_lem key b x files f = (
    Elsewhere-set_file key _ files f.0,
    set_file-same key _ files ∙ ap (λ (o : Option Bytes). some (contents_or_empty o ++ x)) f.1,
  )

  write_partial_lem :
      (key : Text × Text) (b x : Bytes)
      → Triple
          (λ w. Filled key b w.files)
          (write_partial {H = H} env key x)
          (λ _ w. Filled key (b ++ x) w.files)
          (λ _ w. Elsewhere key w.files)
  unfolding write_partial
  write_partial_lem key b x = record {
    at = λ w f.
        (file_call_lem {H = H} (Filled key b) (Filled key (b ++ x)) (Elsewhere key) env.write
            (append_file key x) (set_file key (some (env.torn w.calls))) (append_lem key b x)
            (λ files p. Elsewhere-set_file key _ files p.0)).at
          w f;
  }

  quiet :
      (key : Text × Text) (b : Bytes)
      → Triple
          (λ w. Filled key b w.files)
          (check_cancelled {H = H} env)
          (λ _ w. Filled key b w.files)
          (λ _ w. Elsewhere key w.files)
  quiet key b = Triple-post (λ _ w q. q) (λ _ w q. q.0) (check_cancelled_lem (Filled key b) env)

  -- The partial file holds what was read, which was counted.
  abbrev pub Received : Replies → Text × Text → Bytes × ℕ → World → Type 0
  Received reads key done w =
      Filled key done.0 w.files × (done.0 ≡ contents reads) × (done.1 ≡ length done.0)

  added :
      (a b : ℕ) {n : ℕ}
      → ◌≡◌ {A = Result (DownloadError H) ℕ} (ok_or (checked_add a b) size_overflow) (ok n)
      → n ≡ a + b
  added a b h = ground arith

  stop :
      (reads : Replies) (key : Text × Text) (b : Bytes) (n : ℕ)
      → b ≡ contents reads
      → n ≡ length b
      → Triple
          (λ w. Filled key b w.files)
          (do check_cancelled {H = H} env; pure (b, n))
          (Received reads key)
          (λ _ w. Elsewhere key w.files)
  stop reads key b n e l =
      Triple-bind (λ _ w. Filled key b w.files) (quiet key b)
        λ _. Triple-pure (b, n) λ w f. (f, e, l)

  pub download_loop_lem :
      (reads : Replies) (key : Text × Text) (expected : Option ℕ) (replies : Replies) (b : Bytes)
      (n : ℕ)
      → b ++ contents replies ≡ contents reads
      → n ≡ length b
      → Triple
          (λ w. Filled key b w.files)
          (download_loop {H = H} env key expected replies b n)
          (Received reads key)
          (λ _ w. Elsewhere key w.files)
  unfolding download_loop
  download_loop_lem reads key expected [] b n e l = stop reads key b n (sym (append-nil b) ∙ e) l
  download_loop_lem reads key expected (err x ∷ rest) b n e l =
      Triple-bind (λ _ w. Filled key b w.files) (quiet key b) λ _. Triple-raise _ λ w f. f.0
  download_loop_lem reads key expected (ok [] ∷ rest) b n e l =
      stop reads key b n (sym (append-nil b) ∙ e) l
  download_loop_lem reads key expected (ok (x ∷ xs) ∷ rest) b n e l =
      Triple-bind (λ _ w. Filled key b w.files) (quiet key b)
        λ _.
          Triple-bind (λ _ w. Filled key b w.files) (quiet key b)
            λ _.
              Triple-bind
                (λ m w.
                  Filled key b w.files
                  × (◌≡◌ {A = Result (DownloadError H) ℕ}
                      (ok_or (checked_add n (length (x ∷ xs))) size_overflow) (ok m)))
                (Triple-lift _ λ _ w f. f.0)
                λ next. Triple-assume λ sum.
                  Triple-bind (λ _ w. Filled key b w.files)
                    (Triple-post (λ _ w q. q.0) (λ _ w q. q)
                      (Triple-fail_if (exceeds next expected) _ λ w f. f.0))
                    λ _.
                      Triple-bind (λ _ w. Filled key (b ++ (x ∷ xs)) w.files)
                        (write_partial_lem key b (x ∷ xs))
                        λ _.
                          download_loop_lem reads key expected rest (b ++ (x ∷ xs)) next
                            (append_assoc b (x ∷ xs) (contents rest) ∙ e)
                            (added n (length (x ∷ xs)) sum
                              ∙ ap (λ (k : ℕ). k + length (x ∷ xs)) l
                              ∙ sym (length-append b (x ∷ xs)))
