-- ===== src/Flash/Write.antt =====
-- `write_raw_from_with_prepare` and what it calls, over the objects that its caller passes in.
use snapdog_os_installer.Prelude.{
  ℕ, ◌+◌, ◌-◌, min, ◌^◌, Bool, true, false, not, Option, none, some, [], ◌∷◌, ◌++◌, Bytes, length,
  take, ltb, ◌=ᵗ◌, if◌then◌else◌,
}
use snapdog_os_installer.Prelude.Result.{Result, ok, err}
use snapdog_os_installer.Prelude.Exec.{Exec, pure, raise, lift, modify, map_error, ◌>>=◌, ◌>>◌}
use snapdog_os_installer.Flash.Types.{
  IoError, FlashReport, FlashProgress, FlashError, Crypto, Replies, writing, verifying,
}

abbrev pub buffer_size : ℕ
buffer_size = 2 ^ 20

-- The input file, the target, the two flags and the progress callback, as operations on the
-- caller's state. A flag is loaded by an operation, since another thread may have set it.
pub record FlashIo (W : Type 0) : Type 0 where
  pub input_len : Exec W IoError ℕ
  pub seek_input : Exec W IoError Unit
  pub reads : Replies
  pub seek_target : Exec W IoError Unit
  pub write_all : Bytes → Exec W IoError Unit
  pub flush : Exec W IoError Unit
  pub readback : Replies
  pub load_cancelled : W → Bool × W
  pub load_skip : W → Bool × W
  pub progress : FlashProgress → W → W

pub record FlashWriteOptions : Type 0 where
  pub target_capacity : ℕ
  pub verify : Bool

module _ {W : Type 0} where
  -- `?` on an `io::Result`.
  unfoldable pub try_io : {A : Type 0} → Exec W IoError A → Exec W FlashError A
  unfolding map_error
  try_io m = map_error FlashError.io m

  -- `flag.load(Ordering::Relaxed)`
  unfoldable pub load : (W → Bool × W) → Exec W FlashError Bool
  load flag w = (ok (flag w).0, (flag w).1)

  unfoldable pub ensure_not_cancelled : (W → Bool × W) → Exec W FlashError Unit
  unfolding load
  ensure_not_cancelled flag = do
    cancelled ← load flag
    if cancelled then raise FlashError.cancelled else pure tt

module _ {W : Type 0} (c : Crypto) (t : FlashIo W) where
  -- The loop that writes: the bytes hashed so far and their number.
  unfoldable pub write_loop : ℕ → Replies → Bytes → ℕ → Exec W FlashError (Bytes × ℕ)
  write_loop total [] hashed written = do
    ensure_not_cancelled t.load_cancelled
    pure (hashed, written)
  write_loop total (err e ∷ rest) hashed written = do
    ensure_not_cancelled t.load_cancelled
    raise (FlashError.io e)
  write_loop total (ok [] ∷ rest) hashed written = do
    ensure_not_cancelled t.load_cancelled
    pure (hashed, written)
  write_loop total (ok (b ∷ bs) ∷ rest) hashed written = do
    ensure_not_cancelled t.load_cancelled
    try_io (t.write_all (b ∷ bs))
    modify (
        t.progress
          (record { stage = writing; processed = written + length (b ∷ bs); total = some total }))
    write_loop total rest (hashed ++ (b ∷ bs)) (written + length (b ∷ bs))

  -- The end of one round of that loop, on the bytes that the call returned.
  abbrev pub accept :
      ℕ → ℕ → Bytes → Exec W FlashError (Option Bytes) → Exec W FlashError (Option Bytes)
  accept written read [] next = raise FlashError.verification
  accept written read (b ∷ bs) next = do
    modify (
        t.progress
          (record { stage = verifying; processed = read + length (b ∷ bs); total = some written }))
    next

  -- One round: the bytes the call returns, cut at `limit`, and what the loop does with the rest.
  abbrev pub verify_round :
      ℕ
      → ℕ
      → Result IoError Bytes
      → (Bytes → Exec W FlashError (Option Bytes))
      → Exec W FlashError (Option Bytes)
  verify_round written read reply next = do
    ensure_not_cancelled t.load_cancelled
    skip ← load t.load_skip
    if skip
        then pure none
        else do chunk ← try_io (lift reply); accept written read chunk (next chunk)

  -- `min(written - read, BUFFER_SIZE)`, the size of the buffer that the call fills.
  abbrev pub limit : ℕ → ℕ → ℕ
  limit written read = min (written - read) buffer_size

  abbrev pub clip : ℕ → Result IoError Bytes → Result IoError Bytes
  clip n (ok bs) = ok (take n bs)
  clip n (err e) = err e

  -- The loop that reads back: `none` is the early return of an unverified report.
  unfoldable pub verify_loop : ℕ → Replies → Bytes → ℕ → Exec W FlashError (Option Bytes)
  unfolding ensure_not_cancelled
  verify_loop written [] hashed read =
      if ltb read written
      then verify_round written read (ok []) (λ chunk. pure (some hashed))
      else pure (some hashed)
  verify_loop written (reply ∷ rest) hashed read =
      if ltb read written
      then verify_round written read (clip (limit written read) reply)
          (λ chunk. verify_loop written rest (hashed ++ chunk) (read + length chunk))
      else pure (some hashed)

  abbrev pub report : Bytes → ℕ → Bool → FlashReport
  report hashed written verified = record {
    bytes_written = written;
    raw_sha256 = c.hex_encode (c.sha256 hashed);
    verified = verified;
  }

  -- The comparison after the loop that reads back.
  abbrev pub conclude : Bytes → ℕ → Option Bytes → Exec W FlashError FlashReport
  conclude hashed written none = pure (report hashed written false)
  conclude hashed written (some back) =
      if c.sha256 back =ᵗ c.sha256 hashed
      then pure (report hashed written true)
      else raise FlashError.verification

  -- The branch for `verify && !skip`.
  unfoldable pub read_back : Exec W FlashError Unit → Bytes → ℕ → Exec W FlashError FlashReport
  unfolding ensure_not_cancelled verify_loop
  read_back prepare_verification hashed written = do
    prepare_verification
    ensure_not_cancelled t.load_cancelled
    skip ← load t.load_skip
    if skip then pure (report hashed written false) else do
      try_io t.seek_target
      back ← verify_loop written t.readback [] 0
      conclude hashed written back

  -- `verify && !skip_verification.load()`: the flag is loaded only when `verify` is set.
  abbrev pub wants_verification : Bool → Exec W FlashError Bool
  wants_verification false = pure false
  wants_verification true = do skip ← load t.load_skip; pure (not skip)

  unfoldable pub finish_write :
      FlashWriteOptions → Exec W FlashError Unit → Bytes × ℕ → Exec W FlashError FlashReport
  unfolding read_back
  finish_write options prepare_verification (hashed, written) = do
    try_io t.flush
    wanted ← wants_verification options.verify
    if wanted
        then read_back prepare_verification hashed written
        else pure (report hashed written false)

  unfoldable pub write_raw_from_with_prepare :
      FlashWriteOptions → Exec W FlashError Unit → Exec W FlashError FlashReport
  unfolding write_loop finish_write try_io
  write_raw_from_with_prepare options prepare_verification = do
    total ← try_io t.input_len
    if ltb options.target_capacity total then raise FlashError.target_too_small else do
      try_io t.seek_input
      try_io t.seek_target
      done ← write_loop total t.reads [] 0
      finish_write options prepare_verification done

  -- `write_raw_from`: the same with a barrier that does nothing.
  unfoldable pub write_raw_from : FlashWriteOptions → Exec W FlashError FlashReport
  unfolding write_raw_from_with_prepare
  write_raw_from options = write_raw_from_with_prepare options (pure tt)
