-- ===== src/Flash/Contract.antt =====
-- What a caller of `write_raw_from_with_prepare` provides, and what the function then guarantees.
-- `I b w` says that in the state `w` the target has taken exactly the bytes `b`; `R w` is what the
-- caller knows after an error.
use snapdog_os_installer.Prelude.{◌≤◌, ◌≡◌, true, [], ◌∷◌, ◌++◌, Bytes, Prefix, length, take}
use snapdog_os_installer.Prelude.Result.{ok, err}
use snapdog_os_installer.Prelude.Exec.{Exec, Triple}
use snapdog_os_installer.Flash.Types.{
  FlashReport, FlashError, FlashProgress, Crypto, Replies, contents,
}
use snapdog_os_installer.Flash.Write.{FlashIo, buffer_size}

pub record FlashContract {W : Type 0} (t : FlashIo W)
    (prepare_verification : Exec W FlashError Unit) (I : Bytes → W → Type 0) (R : W → Type 0)
    : Type 0 where
  pub abandon : (b : Bytes) (w : W) → I b w → R w
  pub input_len : Triple (I []) t.input_len (λ _. I []) (λ _. R)
  pub seek_input : Triple (I []) t.seek_input (λ _. I []) (λ _. R)
  pub seek_start : Triple (I []) t.seek_target (λ _. I []) (λ _. R)
  pub write_all :
      (b x : Bytes)
      → Prefix (b ++ x) (contents t.reads)
      → Triple (I b) (t.write_all x) (λ _. I (b ++ x)) (λ _. R)
  pub flush : Triple (I (contents t.reads)) t.flush (λ _. I (contents t.reads)) (λ _. R)
  pub prepare :
      Triple (I (contents t.reads)) prepare_verification (λ _. I (contents t.reads)) (λ _. R)
  pub seek_again : Triple (I (contents t.reads)) t.seek_target (λ _. I (contents t.reads)) (λ _. R)
  pub load_cancelled : (b : Bytes) (w : W) → I b w → I b (t.load_cancelled w).1
  pub load_skip : (b : Bytes) (w : W) → I b w → I b (t.load_skip w).1
  pub progress : (b : Bytes) (p : FlashProgress) (w : W) → I b w → I b (t.progress p w)

-- A call of `Read::read` returns no more bytes than its buffer holds.
abbrev pub Fits : Replies → Type 0
Fits [] = Unit
Fits (err e ∷ rest) = Fits rest
Fits (ok bs ∷ rest) = (length bs ≤ buffer_size) × Fits rest

-- What a report says of an image and of the bytes that the target returned.
pub record IsReport (c : Crypto) (image : Bytes) (readback : Replies) (r : FlashReport)
    : Type 0 where
  pub all_written : r.bytes_written ≡ length image
  pub digest : r.raw_sha256 ≡ c.hex_encode (c.sha256 image)
  pub same_digest :
      r.verified ≡ true → c.sha256 (take (length image) (contents readback)) ≡ c.sha256 image
  pub full_readback :
      r.verified ≡ true → length (take (length image) (contents readback)) ≡ length image
