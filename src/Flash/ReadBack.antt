-- ===== src/Flash/ReadBack.antt =====
-- The loop of src/flash.rs that reads the target back, under a contract.
use snapdog_os_installer.Prelude.{
  ℕ, zero, suc, ◌+◌, ◌-◌, ◌≤◌, ◌≡◌, refl, sym, ap, ◌∙◌, Option, none, some, [], ◌∷◌, ◌++◌,
  append-nil, append_assoc, Bytes, length, length-append, take, take-append, length-take_le,
  take_all, min, ltb, arith, ltb_false→le,
}
use mathlib.Core.Option.{some-injective}
use native.Mathlib.Decide.{dec_le}
use snapdog_os_installer.Prelude.Result.{Result, ok, err}
use snapdog_os_installer.Prelude.Exec.{
  Exec, pure, Triple, Triple-bind, Triple-raise, Triple-pure, Triple-modify, Triple-if, Triple-post,
  Triple-lift, Triple-assume,
}
use snapdog_os_installer.Flash.Types.{IoError, FlashError, Crypto, Replies, contents}
use snapdog_os_installer.Flash.Write.{
  FlashIo, buffer_size, limit, clip, verify_round, accept, verify_loop,
}
use snapdog_os_installer.Flash.Contract.{FlashContract, Fits}
use snapdog_os_installer.Flash.WriteLoop.{load_lem, try_io_lem, ensure_lem}

-- Where a reply fits the buffer, only the bytes still wanted can cut it.
take-min : (n m : ℕ) (xs : Bytes) → length xs ≤ m → take (min n m) xs ≡ take n xs
take-min n m xs h = elim (dec_le n m) [
  | yes p ↦ ap (λ (k : ℕ). take k xs) (omega arith)
  | no p ↦ take_all (min n m) xs (omega arith) ∙ sym (take_all n xs (omega arith))
]

module _ {W : Type 0} (c : Crypto) (t : FlashIo W) {prepare : Exec W FlashError Unit}
    {I : Bytes → W → Type 0} {R : W → Type 0} (k : FlashContract t prepare I R) where
  abbrev image : Bytes
  image = contents t.reads

  -- One round of the loop that reads back, if the rest is right for the bytes of its reply.
  round_lem :
      (written read : ℕ) (reply : Result IoError Bytes)
      (next : Bytes → Exec W FlashError (Option Bytes)) (Q : Option Bytes → W → Type 0)
      → ((w : W) → I image w → Q none w)
      → ((x : ℕ) (xs : Bytes) → reply ≡ ok (x ∷ xs) → Triple (I image) (next (x ∷ xs)) Q (λ _. R))
      → Triple (I image) (verify_round c t written read reply next) Q (λ _. R)
  round_lem written read reply next Q early more =
      Triple-bind (λ _. I image) (ensure_lem c t k image)
        λ _.
          Triple-bind (λ _. I image) (load_lem c t k t.load_skip image (k.load_skip image))
            λ skip.
              Triple-if skip (λ _. Triple-pure none early)
                λ _.
                  Triple-bind (λ chunk w. I image w × (reply ≡ ok chunk))
                    (try_io_lem c t k (Triple-lift reply λ _. k.abandon image)) accepted
    where
      accepted :
          (chunk : Bytes)
          → Triple
              (λ w. I image w × (reply ≡ ok chunk))
              (accept c t written read chunk (next chunk))
              Q
              (λ _. R)
      accepted [] = Triple-assume λ _. Triple-raise FlashError.verification (k.abandon image)
      accepted (x ∷ xs) =
          Triple-assume
            λ e. Triple-bind (λ _. I image) (Triple-modify _ (k.progress image _)) λ _. more x xs e

  abbrev pub BackFrom : ℕ → Replies → Bytes → Option Bytes → W → Type 0
  BackFrom written replies hashed back w =
      I image w
      × ((b : Bytes)
          → back ≡ some b
          → (b ≡ hashed ++ take (written - length hashed) (contents replies))
            × (length b ≡ written))

  full :
      (written : ℕ) (replies : Replies) (hashed : Bytes)
      → written ≡ length hashed
      → Triple
          (I image)
          (pure {E = FlashError} (some hashed))
          (BackFrom written replies hashed)
          (λ _. R)
  full written replies hashed e =
      let none_left : written - length hashed ≡ 0 = omega arith in
      Triple-pure (some hashed) λ w i. (
        i,
        λ b p.
            let same : hashed ≡ b = some-injective hashed b p in
            (rw none_left (sym same ∙ sym (append-nil hashed)), sym (ap length same) ∙ sym e),
      )

  -- What a reply adds to the bytes read back.
  reply_part :
      (written read : ℕ) (bs rest chunk : Bytes)
      → length bs ≤ buffer_size
      → take (limit c t written read) bs ≡ chunk
      → take (written - read) (bs ++ rest) ≡ chunk ++ take (written - (read + length chunk)) rest
  reply_part written read bs rest chunk fits e =
      let cut : take (written - read) bs ≡ chunk =
        sym (take-min (written - read) buffer_size bs fits) ∙ e in
      let left : written - read - length chunk ≡ written - (read + length chunk) = omega arith in
      take-append (written - read) bs rest ∙ rw cut (ap (λ (n : ℕ). chunk ++ take n rest) left)

  contents_chunk :
      (n : ℕ) (bs : Bytes) (rest : Replies) (x : ℕ) (xs : Bytes)
      → take n bs ≡ x ∷ xs
      → contents (ok bs ∷ rest) ≡ bs ++ contents rest
  contents_chunk n (b ∷ bs) rest x xs e = refl
  contents_chunk zero [] rest x xs e = cc
  contents_chunk (suc n) [] rest x xs e = cc

  reply_adds :
      (written read : ℕ) (bs : Bytes) (rest : Replies) (hashed : Bytes) (x : ℕ) (xs : Bytes)
      → length bs ≤ buffer_size
      → read ≡ length hashed
      → take (limit c t written read) bs ≡ x ∷ xs
      → hashed ++ take (written - length hashed) (contents (ok bs ∷ rest))
        ≡ (hashed ++ (x ∷ xs)) ++ take (written - length (hashed ++ (x ∷ xs))) (contents rest)
  reply_adds written read bs rest hashed x xs fits l e =
      let start : written - length hashed ≡ written - read = omega arith in
      let stop : written - (read + length (x ∷ xs)) ≡ written - length (hashed ++ (x ∷ xs)) =
        omega (arith, length-append hashed (x ∷ xs)) in
      let tail : Bytes = take (written - length (hashed ++ (x ∷ xs))) (contents rest) in
      rw start (
        ap (λ (l : Bytes). hashed ++ l)
          (ap (take (written - read)) (contents_chunk (limit c t written read) bs rest x xs e)
            ∙ reply_part written read bs (contents rest) (x ∷ xs) fits e
            ∙ ap (λ (n : ℕ). x ∷ xs ++ take n (contents rest)) stop)
        ∙ sym (append_assoc hashed (x ∷ xs) tail))

  chunk_fits :
      (written read : ℕ) (bs : Bytes) (x : ℕ) (xs : Bytes)
      → read ≤ written
      → take (limit c t written read) bs ≡ x ∷ xs
      → read + length (x ∷ xs) ≤ written
  chunk_fits written read bs x xs h e =
      omega (arith, length-take_le (limit c t written read) bs, ap length e)

  pub verify_loop_lem :
      (written : ℕ) (replies : Replies) (hashed : Bytes) (read : ℕ)
      → Fits replies
      → read ≡ length hashed
      → read ≤ written
      → Triple
          (I image)
          (verify_loop c t written replies hashed read)
          (BackFrom written replies hashed)
          (λ _. R)
  unfolding verify_loop
  verify_loop_lem written [] hashed read fits l h =
      Triple-if (ltb read written)
        (λ p. round_lem written read (ok []) _ _ (λ w i. (i, λ b q. cc)) λ x xs q. cc)
        (λ p. full written [] hashed (omega (arith, ltb_false→le read written p)))
  verify_loop_lem written (err x ∷ rest) hashed read fits l h =
      Triple-if (ltb read written)
        (λ p. round_lem written read (err x) _ _ (λ w i. (i, λ b q. cc)) λ y ys q. cc)
        (λ p. full written (err x ∷ rest) hashed (omega (arith, ltb_false→le read written p)))
  verify_loop_lem written (ok bs ∷ rest) hashed read fits l h =
      Triple-if (ltb read written)
        (λ p.
          round_lem written read (clip c t (limit c t written read) (ok bs)) _ _
            (λ w i. (i, λ b q. cc))
            λ x xs q.
              let cut : take (limit c t written read) bs ≡ x ∷ xs = cc q in
              Triple-post
                (λ o w i. (
                  i.0,
                  λ b e. (
                    (i.1 b e).0 ∙ sym (reply_adds written read bs rest hashed x xs fits.0 l cut),
                    (i.1 b e).1,
                  ),
                ))
                (λ e w r. r)
                (verify_loop_lem written rest (hashed ++ (x ∷ xs)) (read + length (x ∷ xs)) fits.1
                  (omega (arith, length-append hashed (x ∷ xs)))
                  (chunk_fits written read bs x xs h cut)))
        (λ p. full written (ok bs ∷ rest) hashed (omega (arith, ltb_false→le read written p)))
