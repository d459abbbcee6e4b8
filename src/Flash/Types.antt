-- ===== src/Flash/Types.antt =====
-- The data of src/flash.rs, the crates it calls, and what a reader returns.
use snapdog_os_installer.Prelude.{ℕ, Bool, Option, List, [], ◌∷◌, ◌++◌, Bytes, Text}
use snapdog_os_installer.Prelude.Result.{Result, ok, err}

-- `std::io::Error`, by the text it displays.
abbrev pub IoError : Type 0
IoError = Text

pub record FlashReport : Type 0 where
  pub bytes_written : ℕ
  pub raw_sha256 : Text
  pub verified : Bool

pub record PreparedImage : Type 0 where
  pub bytes : ℕ
  pub raw_sha256 : Text

pub data FlashStage : Type 0 where
  decompressing writing verifying : FlashStage

pub record FlashProgress : Type 0 where
  pub stage : FlashStage
  pub processed : ℕ
  pub total : Option ℕ

pub data FlashError : Type 0 where
  io : IoError → FlashError
  compressed_checksum target_too_small raw_size cancelled verification : FlashError

-- The crates `sha2` and `hex`. A `Sha256` value stands for the bytes it was fed: `update` appends,
-- and `finalize` is the digest of them all.
pub record Crypto : Type 0 where
  pub sha256 : Bytes → Bytes
  pub hex_encode : Bytes → Text
  pub hex_decode : Text → Option Bytes

-- What the successive calls of `Read::read` return. A reader that returns no more is at its end.
abbrev pub Replies : Type 0
Replies = List (Result IoError Bytes)

-- The bytes that a loop reads until a call returns 0 bytes or an error.
abbrev pub contents : Replies → Bytes
contents [] = []
contents (err e ∷ rest) = []
contents (ok [] ∷ rest) = []
contents (ok (b ∷ bs) ∷ rest) = (b ∷ bs) ++ contents rest
