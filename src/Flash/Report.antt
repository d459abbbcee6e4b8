-- ===== src/Flash/Report.antt =====
-- What `write_raw_from_with_prepare` of src/flash.rs reports, under a contract.
use snapdog_os_installer.Prelude.{
  ℕ, ◌-◌, ◌≡◌, refl, sym, ap, ◌∙◌, Bool, true, false, not, Option, none, some, [], Bytes, length,
  take, ltb, ◌=ᵗ◌, eqt_iff, arith,
}
use snapdog_os_installer.Prelude.Exec.{
  Exec, Triple, Triple-bind, Triple-raise, Triple-pure, Triple-if,
}
use snapdog_os_installer.Flash.Types.{FlashReport, FlashError, Crypto, contents}
use snapdog_os_installer.Flash.Write.{
  FlashIo, FlashWriteOptions, conclude, report, read_back, wants_verification, finish_write,
  write_raw_from_with_prepare,
}
use snapdog_os_installer.Flash.Contract.{FlashContract, Fits, IsReport}
use snapdog_os_installer.Flash.WriteLoop.{load_lem, try_io_lem, ensure_lem, Written, write_loop_lem}
use snapdog_os_installer.Flash.ReadBack.{BackFrom, verify_loop_lem}

module _ {W : Type 0} (c : Crypto) (t : FlashIo W) {prepare : Exec W FlashError Unit}
    {I : Bytes → W → Type 0} {R : W → Type 0} (k : FlashContract t prepare I R) where
  abbrev image : Bytes
  image = contents t.reads

  abbrev pub Reported : FlashReport → W → Type 0
  Reported r w = IsReport c image t.readback r × I image w

  plain_report :
      (hashed : Bytes) (written : ℕ)
      → hashed ≡ image
      → written ≡ length image
      → IsReport c image t.readback (report c t hashed written false)
  plain_report hashed written e l = record {
    all_written = l;
    digest = ap (λ (b : Bytes). c.hex_encode (c.sha256 b)) e;
    same_digest = λ h. cc;
    full_readback = λ h. cc;
  }

  all_back :
      (written : ℕ) (back : Bytes)
      → written ≡ length image
      → back ≡ take (written - 0) (contents t.readback)
      → back ≡ take (length image) (contents t.readback)
  all_back written back l e =
      let all : written - 0 ≡ length image = omega arith in
      e ∙ ap (λ (n : ℕ). take n (contents t.readback)) all

  conclude_lem :
      (hashed : Bytes) (written : ℕ) (back : Option Bytes)
      → hashed ≡ image
      → written ≡ length image
      → Triple
          (BackFrom c t k written t.readback [] back)
          (conclude c t hashed written back)
          Reported
          (λ _. R)
  conclude_lem hashed written none e l = Triple-pure _ λ w i. (plain_report hashed written e l, i.0)
  conclude_lem hashed written (some back) e l =
      Triple-if (c.sha256 back =ᵗ c.sha256 hashed)
        (λ same. Triple-pure _ λ w i. (
          record {
            all_written = l;
            digest = ap (λ (b : Bytes). c.hex_encode (c.sha256 b)) e;
            same_digest = λ _.
                ap c.sha256 (sym (all_back written back l (i.1 back refl).0))
                ∙ (eqt_iff _ _).0 same
                ∙ ap c.sha256 e;
            full_readback = λ _.
                ap length (sym (all_back written back l (i.1 back refl).0)) ∙ (i.1 back refl).1 ∙ l;
          },
          i.0,
        ))
        (λ _. Triple-raise FlashError.verification λ w i. k.abandon image w i.0)

  read_back_lem :
      (hashed : Bytes) (written : ℕ)
      → Fits t.readback
      → hashed ≡ image
      → written ≡ length image
      → Triple (I image) (read_back c t prepare hashed written) Reported (λ _. R)
  unfolding read_back
  read_back_lem hashed written fits e l =
      Triple-bind (λ _. I image) k.prepare
        λ _.
          Triple-bind (λ _. I image) (ensure_lem c t k image)
            λ _.
              Triple-bind (λ _. I image) (load_lem c t k t.load_skip image (k.load_skip image))
                λ skip.
                  Triple-if skip (λ _. Triple-pure _ λ w i. (plain_report hashed written e l, i))
                    λ _.
                      Triple-bind (λ _. I image) (try_io_lem c t k k.seek_again)
                        λ _.
                          Triple-bind (λ back. BackFrom c t k written t.readback [] back)
                            (verify_loop_lem c t k written t.readback [] 0 fits refl (omega arith))
                            λ back. conclude_lem hashed written back e l

  wants_lem :
      (verify : Bool) → Triple (I image) (wants_verification c t verify) (λ _. I image) (λ _. R)
  wants_lem false = Triple-pure false λ w i. i
  wants_lem true =
      Triple-bind (λ _. I image) (load_lem c t k t.load_skip image (k.load_skip image))
        λ skip. Triple-pure (not skip) λ w i. i

  finish_lem :
      (options : FlashWriteOptions) (done : Bytes × ℕ)
      → Fits t.readback
      → Triple (Written c t k done) (finish_write c t options prepare done) Reported (λ _. R)
  unfolding finish_write
  finish_lem options (hashed, written) fits = record {
    at = λ w d.
        (Triple-bind (λ _. I image) (try_io_lem c t k k.flush)
            λ _.
              Triple-bind (λ _. I image) (wants_lem options.verify)
                λ wanted.
                  Triple-if wanted (λ _. read_back_lem hashed written fits d.0 d.1)
                    (λ _. Triple-pure _ λ w' i. (plain_report hashed written d.0 d.1, i))).at
          w d.2;
  }

  -- Under the contract of the caller's objects, whose reads do not overfill the buffer, a report
  -- gives the length and the digest of the image, and the target has taken exactly the image; a
  -- report that claims verification says that the target returned as many bytes, with the same
  -- digest. After an error the state satisfies what the contract promises there.
  pub write_raw_from_with_prepare_lem :
      (options : FlashWriteOptions)
      → Fits t.readback
      → Triple (I []) (write_raw_from_with_prepare c t options prepare) Reported (λ _. R)
  unfolding write_raw_from_with_prepare
  write_raw_from_with_prepare_lem options fits =
      Triple-bind (λ _. I []) (try_io_lem c t k k.input_len)
        λ total.
          Triple-if (ltb options.target_capacity total)
            (λ _. Triple-raise FlashError.target_too_small (k.abandon []))
            λ _.
              Triple-bind (λ _. I []) (try_io_lem c t k k.seek_input)
                λ _.
                  Triple-bind (λ _. I []) (try_io_lem c t k k.seek_start)
                    λ _.
                      Triple-bind (Written c t k)
                        (write_loop_lem c t k total t.reads [] 0 refl refl)
                        λ done. finish_lem options done fits
