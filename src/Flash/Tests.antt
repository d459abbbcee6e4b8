-- ===== src/Flash/Tests.antt =====
-- Flashing in memory, and the contract of the function at that run.
use snapdog_os_installer.Prelude.{
  Option, none, ◌≡◌, refl, ap, true, false, some, [], ◌∷◌, ◌++◌, Bytes, arith,
}
use snapdog_os_installer.Prelude.Result.{ok, err}
use snapdog_os_installer.Prelude.Exec.{pure, modify, ◌>>=◌, Triple, Triple-pure, Triple-modify}
use snapdog_os_installer.Flash.Types.{Crypto, FlashError}
use snapdog_os_installer.Flash.Write.{FlashIo, FlashWriteOptions, write_raw_from_with_prepare}
use snapdog_os_installer.Flash.Contract.{FlashContract}
use snapdog_os_installer.Flash.Prepare.{PrepareIo, PrepareContract, prepare_gzip}
use snapdog_os_installer.Flash.Prepared.{Prepared, prepare_gzip_lem}
use snapdog_os_installer.Flash.Report.{Reported, write_raw_from_with_prepare_lem}

-- A digest that is the text itself, and an encoding that is the identity.
abbrev memory_crypto : Crypto
memory_crypto = record { sha256 = λ b. b; hex_encode = λ b. b; hex_decode = λ t. some t }

abbrev memory_image : Bytes
memory_image = 1 ∷ 2 ∷ 3 ∷ []

-- The state is what the target has taken; the target returns that image, in two pieces.
abbrev memory : FlashIo Bytes
memory = record {
  input_len = pure 3;
  seek_input = pure tt;
  reads = ok (1 ∷ []) ∷ ok (2 ∷ 3 ∷ []) ∷ ok [] ∷ [];
  seek_target = pure tt;
  write_all = λ x. modify (λ b. b ++ x);
  flush = pure tt;
  readback = ok (1 ∷ 2 ∷ []) ∷ ok (3 ∷ []) ∷ [];
  load_cancelled = λ w. (false, w);
  load_skip = λ w. (false, w);
  progress = λ p w. w;
}

abbrev Taken : Bytes → Bytes → Type 0
Taken b w = w ≡ b

memory_contract : FlashContract memory (pure tt) Taken (λ w. Unit)
memory_contract = record {
  abandon = λ b w i. tt;
  input_len = Triple-pure 3 λ w i. i;
  seek_input = Triple-pure tt λ w i. i;
  seek_start = Triple-pure tt λ w i. i;
  write_all = λ b x p. Triple-modify _ λ w i. ap (λ (y : Bytes). y ++ x) i;
  flush = Triple-pure tt λ w i. i;
  prepare = Triple-pure tt λ w i. i;
  seek_again = Triple-pure tt λ w i. i;
  load_cancelled = λ b w i. i;
  load_skip = λ b w i. i;
  progress = λ b p w i. i;
}

abbrev memory_options : FlashWriteOptions
memory_options = record { target_capacity = 3; verify = true }

memory_run :
    write_raw_from_with_prepare memory_crypto memory memory_options (pure tt) []
    ≡ (ok (record { bytes_written = 3; raw_sha256 = memory_image; verified = true }), memory_image)
unfolding write_raw_from_with_prepare pure modify ◌>>=◌
memory_run = refl

-- One byte too little.
small_run :
    write_raw_from_with_prepare memory_crypto memory
      (record memory_options { target_capacity = 2 })
      (pure tt)
      []
    ≡ (err FlashError.target_too_small, [])
unfolding write_raw_from_with_prepare pure modify ◌>>=◌
small_run = refl

write_raw_example :
    Triple
      (Taken [])
      (write_raw_from_with_prepare memory_crypto memory memory_options (pure tt))
      (Reported memory_crypto memory memory_contract)
      (λ _ w. Unit)
write_raw_example =
    write_raw_from_with_prepare_lem memory_crypto memory memory_contract memory_options
      (omega arith, (omega arith, tt))

abbrev taken : Option Bytes → Bytes
taken none = []
taken (some b) = b

-- Unpacking in memory: no file, or the bytes that it has taken.
abbrev unpacking : PrepareIo (Option Bytes)
unpacking = record {
  open_archive = pure tt;
  create_raw = modify (λ f. some []);
  reads = ok (1 ∷ []) ∷ ok (2 ∷ 3 ∷ []) ∷ ok [] ∷ [];
  write_all = λ x. modify (λ f. some (taken f ++ x));
  flush = pure tt;
  remove_raw = modify (λ f. none);
  load_cancelled = λ w. (false, w);
  progress = λ p w. w;
}

unpacking_contract :
    PrepareContract unpacking (λ w. Unit) (λ b w. w ≡ some b) (λ w. Unit) (λ w. w ≡ none)
unpacking_contract = record {
  open_archive = Triple-pure tt λ w i. tt;
  create_raw = Triple-modify _ λ w i. refl;
  write_all = λ b x. Triple-modify _ λ w i. ap (λ (f : Option Bytes). some (taken f ++ x)) i;
  flush = λ b. Triple-pure tt λ w i. i;
  remove_raw = Triple-modify _ λ w i. refl;
  abandon = λ b w i. tt;
  load_cancelled = λ b w i. i;
  progress = λ b p w i. i;
}

-- An archive that unpacks to more than the manifest says.
unpacking_run :
    prepare_gzip memory_crypto unpacking (some 2) none none ≡ (err FlashError.raw_size, none)
unfolding prepare_gzip pure modify ◌>>=◌
unpacking_run = refl

prepare_gzip_example :
    Triple
      (λ (w : Option Bytes). Unit)
      (prepare_gzip memory_crypto unpacking (some 3) (some memory_image))
      (Prepared memory_crypto unpacking unpacking_contract (some 3) (some memory_image))
      (λ _ w. w ≡ none)
prepare_gzip_example =
    prepare_gzip_lem memory_crypto unpacking unpacking_contract (some 3) (some memory_image)
