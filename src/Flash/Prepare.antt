-- ===== src/Flash/Prepare.antt =====
-- `prepare_gzip` of src/flash.rs: unpacking into an ordinary file. The reads are those of the
-- `GzDecoder`, a parameter.
use snapdog_os_installer.Prelude.{
  ℕ, Bool, not, Option, [], ◌∷◌, ◌++◌, Bytes, Text, length, ltb, ◌==◌, checked_add, is_some_and,
  eq_ignore_ascii_case,
}
use snapdog_os_installer.Prelude.Result.{Result, ok, err, ok_or}
use snapdog_os_installer.Prelude.Exec.{
  Exec, pure, raise, lift, modify, attempt, fail_if, ◌>>=◌, ◌>>◌, Triple,
}
use snapdog_os_installer.Flash.Types.{
  IoError, PreparedImage, FlashProgress, FlashError, decompressing, Crypto, Replies,
}
use snapdog_os_installer.Flash.Write.{try_io, ensure_not_cancelled}

pub record PrepareIo (W : Type 0) : Type 0 where
  pub open_archive : Exec W IoError Unit
  pub create_raw : Exec W IoError Unit
  pub reads : Replies
  pub write_all : Bytes → Exec W IoError Unit
  pub flush : Exec W IoError Unit
  pub remove_raw : Exec W IoError Unit
  pub load_cancelled : W → Bool × W
  pub progress : FlashProgress → W → W

module _ {W : Type 0} (c : Crypto) (t : PrepareIo W) (expected_size : Option ℕ)
    (expected_raw_sha256 : Option Text) where
  abbrev pub too_large : ℕ → Bool
  too_large written = is_some_and expected_size (λ size. ltb size written)

  -- The loop that unpacks: the bytes hashed so far and their number.
  unfoldable pub unpack_loop : Replies → Bytes → ℕ → Exec W FlashError (Bytes × ℕ)
  unfolding ensure_not_cancelled try_io
  unpack_loop [] hashed written = do ensure_not_cancelled t.load_cancelled; pure (hashed, written)
  unpack_loop (err e ∷ rest) hashed written = do
    ensure_not_cancelled t.load_cancelled
    raise (FlashError.io e)
  unpack_loop (ok [] ∷ rest) hashed written = do
    ensure_not_cancelled t.load_cancelled
    pure (hashed, written)
  unpack_loop (ok (b ∷ bs) ∷ rest) hashed written = do
    ensure_not_cancelled t.load_cancelled
    next ← lift (ok_or (checked_add written (length (b ∷ bs))) FlashError.raw_size)
    fail_if (too_large next) FlashError.raw_size
    try_io (t.write_all (b ∷ bs))
    modify (t.progress (record { stage = decompressing; processed = next; total = expected_size }))
    unpack_loop rest (hashed ++ (b ∷ bs)) next

  abbrev pub wrong_size : ℕ → Bool
  wrong_size written = is_some_and expected_size (λ size. not (written == size))

  unfoldable pub wrong_digest : Text → Bool
  unfolding eq_ignore_ascii_case
  wrong_digest raw_sha256 =
      is_some_and expected_raw_sha256 (λ expected. not (eq_ignore_ascii_case raw_sha256 expected))

  -- The closure whose result decides whether the file stays.
  unfoldable pub unpack : Exec W FlashError PreparedImage
  unfolding unpack_loop try_io wrong_digest
  unpack = do
    try_io t.open_archive
    try_io t.create_raw
    (hashed, written) ← unpack_loop t.reads [] 0
    try_io t.flush
    fail_if (wrong_size written) FlashError.raw_size
    fail_if (wrong_digest (c.hex_encode (c.sha256 hashed))) FlashError.verification
    pure (record { bytes = written; raw_sha256 = c.hex_encode (c.sha256 hashed) })

  unfoldable pub remove_on_error : Result FlashError PreparedImage → Exec W FlashError PreparedImage
  remove_on_error (ok prepared) = pure prepared
  remove_on_error (err e) = do attempt (try_io t.remove_raw); raise e

  unfoldable pub prepare_gzip : Exec W FlashError PreparedImage
  unfolding unpack remove_on_error
  prepare_gzip = do result ← attempt unpack; remove_on_error result

-- What the files guarantee. `I b w`: the raw file has taken the bytes `b`; `R w`: what holds after an
-- error; `Removed w`: what holds once its removal was tried.
pub record PrepareContract {W : Type 0} (t : PrepareIo W) (Start : W → Type 0)
    (I : Bytes → W → Type 0) (R Removed : W → Type 0) : Type 0 where
  pub open_archive : Triple Start t.open_archive (λ _. Start) (λ _. R)
  pub create_raw : Triple Start t.create_raw (λ _. I []) (λ _. R)
  pub write_all : (b x : Bytes) → Triple (I b) (t.write_all x) (λ _. I (b ++ x)) (λ _. R)
  pub flush : (b : Bytes) → Triple (I b) t.flush (λ _. I b) (λ _. R)
  pub remove_raw : Triple R t.remove_raw (λ _. Removed) (λ _. Removed)
  pub abandon : (b : Bytes) (w : W) → I b w → R w
  pub load_cancelled : (b : Bytes) (w : W) → I b w → I b (t.load_cancelled w).1
  pub progress : (b : Bytes) (p : FlashProgress) (w : W) → I b w → I b (t.progress p w)
