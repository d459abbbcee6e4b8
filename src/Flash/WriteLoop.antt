-- ===== src/Flash/WriteLoop.antt =====
-- The loop of src/flash.rs that writes, under a contract.
use snapdog_os_installer.Prelude.{
  ℕ, ◌+◌, ◌≡◌, sym, ap, ◌∙◌, subst, Bool, [], ◌∷◌, ◌++◌, append-nil, append_assoc, Bytes, length,
  length-append, arith,
}
use snapdog_os_installer.Prelude.Result.{ok, err}
use snapdog_os_installer.Prelude.Exec.{
  Exec, pure, ◌>>◌, Triple, Triple-bind, Triple-raise, Triple-pure, Triple-modify, Triple-if,
  Triple-map_error,
}
use snapdog_os_installer.Flash.Types.{IoError, FlashError, Crypto, Replies, contents}
use snapdog_os_installer.Flash.Write.{FlashIo, ensure_not_cancelled, load, write_loop, try_io}
use snapdog_os_installer.Flash.Contract.{FlashContract}

module _ {W : Type 0} (c : Crypto) (t : FlashIo W) {prepare : Exec W FlashError Unit}
    {I : Bytes → W → Type 0} {R : W → Type 0} (k : FlashContract t prepare I R) where
  pub load_lem :
      (flag : W → Bool × W) (b : Bytes)
      → ((w : W) → I b w → I b (flag w).1)
      → Triple (I b) (load flag) (λ _. I b) (λ _. R)
  unfolding load
  load_lem flag b h = record { at = h }

  pub try_io_lem :
      {A : Type 0} {P : W → Type 0} {Q : A → W → Type 0} {m : Exec W IoError A}
      → Triple P m Q (λ _. R)
      → Triple P (try_io m) Q (λ _. R)
  unfolding try_io
  try_io_lem h = Triple-map_error FlashError.io h

  pub ensure_lem :
      (b : Bytes) → Triple (I b) (ensure_not_cancelled t.load_cancelled) (λ _. I b) (λ _. R)
  unfolding ensure_not_cancelled
  ensure_lem b =
      Triple-bind (λ _. I b) (load_lem t.load_cancelled b (k.load_cancelled b))
        λ cancelled.
          Triple-if cancelled (λ _. Triple-raise _ (k.abandon b)) (λ _. Triple-pure tt (λ w i. i))

  abbrev pub Written : Bytes × ℕ → W → Type 0
  Written done w =
      (done.0 ≡ contents t.reads) × (done.1 ≡ length (contents t.reads)) × I (contents t.reads) w

  stop :
      (b : Bytes) (n : ℕ)
      → b ≡ contents t.reads
      → n ≡ length b
      → Triple (I b) (do ensure_not_cancelled t.load_cancelled; pure (b, n)) Written (λ _. R)
  stop b n e l =
      Triple-bind (λ _. I b) (ensure_lem b)
        λ _. Triple-pure (b, n) λ w i. (e, l ∙ ap length e, subst (λ (x : Bytes). I x w) e i)

  -- The loop writes what is left of the image and hashes just what it writes.
  pub write_loop_lem :
      (total : ℕ) (replies : Replies) (b : Bytes) (n : ℕ)
      → b ++ contents replies ≡ contents t.reads
      → n ≡ length b
      → Triple (I b) (write_loop c t total replies b n) Written (λ _. R)
  unfolding write_loop
  write_loop_lem total [] b n e l = stop b n (sym (append-nil b) ∙ e) l
  write_loop_lem total (err x ∷ rest) b n e l =
      Triple-bind (λ _. I b) (ensure_lem b) λ _. Triple-raise _ (k.abandon b)
  write_loop_lem total (ok [] ∷ rest) b n e l = stop b n (sym (append-nil b) ∙ e) l
  write_loop_lem total (ok (x ∷ xs) ∷ rest) b n e l =
      Triple-bind (λ _. I b) (ensure_lem b)
        λ _.
          Triple-bind (λ _. I (b ++ (x ∷ xs)))
            (try_io_lem
              (k.write_all b (x ∷ xs) (contents rest, append_assoc b (x ∷ xs) (contents rest) ∙ e)))
            λ _.
              Triple-bind (λ _. I (b ++ (x ∷ xs))) (Triple-modify _ (k.progress (b ++ (x ∷ xs)) _))
                λ _.
                  write_loop_lem total rest (b ++ (x ∷ xs)) (n + length (x ∷ xs))
                    (append_assoc b (x ∷ xs) (contents rest) ∙ e)
                    (omega (arith, length-append b (x ∷ xs)))
