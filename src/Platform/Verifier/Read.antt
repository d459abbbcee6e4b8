-- ===== src/Platform/Verifier/Read.antt =====
-- `read` and `seek` of `DirectVerifier` of src/worker/linux.rs and of `UnbufferedVerifier` of
-- src/worker/windows.rs.
use snapdog_os_installer.Prelude.{
  ℕ, ◌+◌, ◌-◌, ◌%◌, min, Bool, true, false, not, ◌||◌, [], ◌∷◌, Bytes, text, length, take, drop,
  ltb, leb, ◌==◌, if◌then◌else◌,
}
use snapdog_os_installer.Prelude.Result.{Result, ok, err}
use snapdog_os_installer.Prelude.Integers.{ℤ, pos, negsuc, ◌+ℤ◌}
use snapdog_os_installer.Prelude.Exec.{Exec, pure, lift, modify, fail_if, ◌>>=◌, ◌>>◌}
use snapdog_os_installer.Flash.Types.{IoError}
use snapdog_os_installer.Platform.Verifier.Transfer.{
  kernel_sector_size, Limits, linux_limits, windows_limits, Transfer, transfer,
}
use snapdog_os_installer.Drives.Windows.{valid_sector_geometry}

-- The open disk, as operations on the caller's state; a read is given the room of its buffer.
pub record DiskFile (W : Type 0) : Type 0 where
  pub seek_start : ℕ → Exec W IoError Unit
  pub read : ℕ → Exec W IoError Bytes

pub record Verifier (W : Type 0) : Type 0 where
  pub position : ℕ
  pub world : W

pub data SeekFrom : Type 0 where
  start : ℕ → SeekFrom
  current end : ℤ → SeekFrom

-- `DirectVerifier::new`
unfoldable pub new_direct : {W : Type 0} → ℕ → W → Result IoError (Verifier W)
new_direct capacity world =
    if capacity == 0 || not (capacity % kernel_sector_size == 0)
    then err (text "unsupported Linux block-device geometry")
    else ok (record { position = 0; world = world })

-- `UnbufferedVerifier::new`
unfoldable pub new_unbuffered : {W : Type 0} → ℕ → ℕ → ℕ → W → Result IoError (Verifier W)
new_unbuffered capacity logical_sector_size physical_sector_size world =
    if not (valid_sector_geometry capacity logical_sector_size physical_sector_size)
    then err (text "unsupported Windows disk sector geometry")
    else ok (record { position = 0; world = world })

module _ {W : Type 0} (limits : Limits) (file : DiskFile W) (capacity : ℕ) where
  unfoldable pub on_file : {A : Type 0} → Exec W IoError A → Exec (Verifier W) IoError A
  on_file m v = ((m v.world).0, record v { world = (m v.world).1 })

  -- What is done with the bytes that the file returned.
  unfoldable pub hand_on : Transfer → Bytes → Exec (Verifier W) IoError Bytes
  hand_on t [] = pure []
  hand_on t (b ∷ bs) = do
    fail_if (not (length (b ∷ bs) % limits.sector_size == 0) || leb (length (b ∷ bs)) t.prefix)
        limits.incomplete
    let copied = min t.available (length (b ∷ bs) - t.prefix)
    modify λ v. record v { position = v.position + copied }
    pure (take copied (drop t.prefix (b ∷ bs)))

  unfoldable pub run_transfer : Transfer → Exec (Verifier W) IoError Bytes
  unfolding on_file hand_on
  run_transfer t = do
    on_file (file.seek_start t.start)
    bytes ← on_file (file.read t.length)
    hand_on t bytes

  -- The bytes written to the front of an output of this size.
  unfoldable pub read : ℕ → Exec (Verifier W) IoError Bytes
  unfolding transfer run_transfer
  read output v =
      (if output == 0 || leb capacity v.position
          then pure []
          else do t ← lift (transfer limits capacity v.position output); run_transfer t)
        v

  abbrev pub target : SeekFrom → ℕ → ℤ
  target (SeekFrom.start n) position = pos n
  target (current offset) position = pos position +ℤ offset
  target (end offset) position = pos capacity +ℤ offset

  abbrev pub seek_unless : Bool → ℕ → Exec (Verifier W) IoError ℕ
  seek_unless true next v = (err limits.outside, v)
  seek_unless false next v = (ok next, record v { position = next })

  abbrev pub seek_to : ℤ → Exec (Verifier W) IoError ℕ
  seek_to (negsuc n) = seek_unless true 0
  seek_to (pos next) = seek_unless (ltb capacity next) next

  unfoldable pub seek : SeekFrom → Exec (Verifier W) IoError ℕ
  seek from v = seek_to (target from v.position) v

-- The two verifiers.
module _ {W : Type 0} (file : DiskFile W) (capacity : ℕ) where
  abbrev pub read_direct : ℕ → Exec (Verifier W) IoError Bytes
  read_direct = read linux_limits file capacity

  abbrev pub seek_direct : SeekFrom → Exec (Verifier W) IoError ℕ
  seek_direct = seek linux_limits file capacity

  abbrev pub read_unbuffered : ℕ → ℕ → ℕ → Exec (Verifier W) IoError Bytes
  read_unbuffered logical physical = read (windows_limits logical physical) file capacity

  abbrev pub seek_unbuffered : ℕ → ℕ → SeekFrom → Exec (Verifier W) IoError ℕ
  seek_unbuffered logical physical = seek (windows_limits logical physical) file capacity
