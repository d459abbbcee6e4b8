-- ===== src/Flash/Prepared.antt =====
-- What `prepare_gzip` of src/flash.rs prepares, under a contract of the files.
use snapdog_os_installer.Prelude.{
  ℕ, ◌+◌, ◌≡◌, refl, sym, ap, ◌∙◌, false, Option, [], ◌∷◌, ◌++◌, Bytes, Text, length, length-append,
  append-nil, append_assoc, checked_add, subst, arith,
}
use snapdog_os_installer.Prelude.Result.{Result, ok, err, ok_or}
use snapdog_os_installer.Prelude.Exec.{
  Exec, pure, ◌>>◌, Post, Triple, Triple-bind, Triple-pure, Triple-raise, Triple-modify,
  Triple-lift, Triple-assume, Triple-fail_if, Triple-if, Triple-post, Triple-attempt,
  Triple-attempt_same, Triple-map_error,
}
use snapdog_os_installer.Flash.Types.{IoError, PreparedImage, FlashError, Crypto, Replies, contents}
use snapdog_os_installer.Flash.Write.{try_io, load, ensure_not_cancelled}
use snapdog_os_installer.Flash.Prepare.{
  PrepareIo, PrepareContract, unpack_loop, wrong_size, wrong_digest, unpack, remove_on_error,
  prepare_gzip,
}

module _ {W : Type 0} (c : Crypto) (t : PrepareIo W) {Start : W → Type 0} {I : Bytes → W → Type 0}
    {R Removed : W → Type 0} (k : PrepareContract t Start I R Removed) (expected_size : Option ℕ)
    (expected_raw_sha256 : Option Text) where
  -- The prepared image is what was read, and passed the tests of its size and its digest.
  pub record IsPrepared (p : PreparedImage) : Type 0 where
    pub all_read : p.bytes ≡ length (contents t.reads)
    pub digest : p.raw_sha256 ≡ c.hex_encode (c.sha256 (contents t.reads))
    pub right_size : wrong_size c t expected_size expected_raw_sha256 p.bytes ≡ false
    pub right_digest : wrong_digest c t expected_size expected_raw_sha256 p.raw_sha256 ≡ false

  step_lem :
      {P : W → Type 0} {Q : Unit → W → Type 0} {m : Exec W IoError Unit}
      → Triple P m Q (λ _. R)
      → Triple P (try_io m) Q (λ _. R)
  unfolding try_io
  step_lem h = Triple-map_error FlashError.io h

  quiet : (b : Bytes) → Triple (I b) (ensure_not_cancelled t.load_cancelled) (λ _. I b) (λ _. R)
  unfolding ensure_not_cancelled load
  quiet b =
      Triple-bind (λ _. I b) (record { at = k.load_cancelled b })
        λ cancelled.
          Triple-if cancelled (λ _. Triple-raise _ (k.abandon b)) (λ _. Triple-pure tt λ w i. i)

  abbrev Unpacked : Bytes × ℕ → W → Type 0
  Unpacked done w = I done.0 w × (done.0 ≡ contents t.reads) × (done.1 ≡ length done.0)

  stop :
      (b : Bytes) (n : ℕ)
      → b ≡ contents t.reads
      → n ≡ length b
      → Triple (I b) (do ensure_not_cancelled t.load_cancelled; pure (b, n)) Unpacked (λ _. R)
  stop b n e l = Triple-bind (λ _. I b) (quiet b) λ _. Triple-pure (b, n) λ w i. (i, e, l)

  added : (a b : ℕ) {n : ℕ} → ok_or (checked_add a b) FlashError.raw_size ≡ ok n → n ≡ a + b
  added a b h = ground arith

  unpack_loop_lem :
      (replies : Replies) (b : Bytes) (n : ℕ)
      → b ++ contents replies ≡ contents t.reads
      → n ≡ length b
      → Triple
          (I b)
          (unpack_loop c t expected_size expected_raw_sha256 replies b n)
          Unpacked
          (λ _. R)
  unfolding unpack_loop
  unpack_loop_lem [] b n e l = stop b n (sym (append-nil b) ∙ e) l
  unpack_loop_lem (err x ∷ rest) b n e l =
      Triple-bind (λ _. I b) (quiet b) λ _. Triple-raise _ (k.abandon b)
  unpack_loop_lem (ok [] ∷ rest) b n e l = stop b n (sym (append-nil b) ∙ e) l
  unpack_loop_lem (ok (x ∷ xs) ∷ rest) b n e l =
      Triple-bind (λ _. I b) (quiet b)
        λ _.
          Triple-bind
            (λ m w. I b w × (ok_or (checked_add n (length (x ∷ xs))) FlashError.raw_size ≡ ok m))
            (Triple-lift _ λ _ w i. k.abandon b w i)
            λ next. Triple-assume λ sum.
              Triple-bind (λ _. I b)
                (Triple-post (λ _ w q. q.0) (λ _ w q. q) (Triple-fail_if _ _ (k.abandon b)))
                λ _.
                  Triple-bind (λ _. I (b ++ (x ∷ xs))) (step_lem (k.write_all b (x ∷ xs)))
                    λ _.
                      Triple-bind (λ _. I (b ++ (x ∷ xs)))
                        (Triple-modify _ (k.progress (b ++ (x ∷ xs)) _))
                        λ _.
                          unpack_loop_lem rest (b ++ (x ∷ xs)) next
                            (append_assoc b (x ∷ xs) (contents rest) ∙ e)
                            (added n (length (x ∷ xs)) sum
                              ∙ ap (λ (m : ℕ). m + length (x ∷ xs)) l
                              ∙ sym (length-append b (x ∷ xs)))

  abbrev pub Prepared : PreparedImage → W → Type 0
  Prepared p w = IsPrepared p × I (contents t.reads) w

  unpack_lem : Triple Start (unpack c t expected_size expected_raw_sha256) Prepared (λ _. R)
  unfolding unpack
  unpack_lem =
      Triple-bind (λ _. Start) (step_lem k.open_archive)
        λ _.
          Triple-bind (λ _. I []) (step_lem k.create_raw)
            λ _. Triple-bind Unpacked (unpack_loop_lem t.reads [] 0 refl refl) λ done.
              Triple-bind (λ _. Unpacked done)
                (record {
                  at = λ w u.
                      (Triple-post (λ _ v i. (i, u.1, u.2)) (λ _ v r. r)
                          (step_lem (k.flush done.0))).at
                        w u.0;
                })
                λ _.
                  Triple-bind
                    (λ _ w.
                      Unpacked done w
                      × (wrong_size c t expected_size expected_raw_sha256 done.1 ≡ false))
                    (Triple-fail_if _ _ λ w u. k.abandon done.0 w u.0)
                    λ _.
                      Triple-bind
                        (λ _ w.
                          (Unpacked done w
                            × (wrong_size c t expected_size expected_raw_sha256 done.1 ≡ false))
                          × (wrong_digest c t expected_size expected_raw_sha256
                                (c.hex_encode (c.sha256 done.0))
                              ≡ false))
                        (Triple-fail_if _ _ λ w u. k.abandon done.0 w u.0.0)
                        λ _. Triple-pure _ λ w q. (
                          record {
                            all_read = q.0.0.2 ∙ ap length q.0.0.1;
                            digest = ap (λ (b : Bytes). c.hex_encode (c.sha256 b)) q.0.0.1;
                            right_size = q.0.1;
                            right_digest = q.1;
                          },
                          subst (λ (b : Bytes). I b w) q.0.0.1 q.0.0.0,
                        )

  remove_lem :
      (r : Result FlashError PreparedImage)
      → Triple
          (Post Prepared (λ _. R) r)
          (remove_on_error c t expected_size expected_raw_sha256 r)
          Prepared
          (λ _. Removed)
  unfolding remove_on_error try_io
  remove_lem (ok p) = Triple-pure p λ w q. q
  remove_lem (err e) =
      Triple-bind (λ _. Removed)
        (Triple-attempt_same Removed (Triple-map_error FlashError.io k.remove_raw))
        λ _. Triple-raise e λ w q. q

  -- Under the contract of the files, a prepared image has the length and the digest of all that the
  -- decoder returned, which pass the tests of the size and the digest expected, and the raw file has
  -- taken exactly that; after an error, removing the raw file has been tried.
  pub prepare_gzip_lem :
      Triple Start (prepare_gzip c t expected_size expected_raw_sha256) Prepared (λ _. Removed)
  unfolding prepare_gzip
  prepare_gzip_lem = Triple-bind _ (Triple-attempt unpack_lem) remove_lem
