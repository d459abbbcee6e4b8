-- ===== src/Platform/Linux/RoundTrip.antt =====
-- What src/worker/linux.rs prints is parsed back, and the kernel's encodings are undone.
use snapdog_os_installer.Prelude.{
  ℕ, ◌+◌, ◌*◌, ◌/◌, ◌%◌, ◌^◌, ◌<◌, ◌≡◌, refl, sym, ap, ◌∙◌, Bool, true, false, not, ◌&&◌, [], ◌∷◌,
  Bytes, Text, show, show-digits, show-nonempty, parse_below-show, digits_only, split_once-append,
  lacks, and_iff, leb, all, All, length, is_empty, u64_mod, ltb, lt→ltb, ◌==◌, ==_iff, Bool-cases,
  inl, inr, arith, if◌then◌else◌,
}
use mathlib.Core.Path.{ap₂}
use snapdog_os_installer.Prelude.Result.{ok}
use snapdog_os_installer.Platform.Linux.Types.{DeviceNumber}
use snapdog_os_installer.Platform.Linux.Names.{
  valid_block_name, name_byte, split_stable_identifier, format_stable_identifier, parse_part,
  parse_device_number, format_device_number, decode_linux_device,
}
use snapdog_os_installer.Platform.Linux.Mountinfo.{
  bad_digit, octal, escape, decode_from, decode_mountinfo_field,
}

digits-lack_colon : (s : Text) → digits_only s ≡ true → lacks b':' s ≡ true
digits-lack_colon [] h = refl
digits-lack_colon (c ∷ cs) h = ground (arith, digits-lack_colon cs)

parse_part-show : (n : ℕ) → n < u64_mod → parse_part (show n) ≡ ok n
unfolding parse_part
parse_part-show n h =
    let a = show-nonempty n in
    let b = show-digits n in let c = parse_below-show u64_mod n h in simp (a, b, c)

-- Numbers of 64 bits survive the trip through the text of a device number.
pub parse_device_number-format :
    (device : DeviceNumber)
    → device.major < u64_mod
    → device.minor < u64_mod
    → parse_device_number (format_device_number device) ≡ ok device
unfolding parse_device_number format_device_number
parse_device_number-format device h k =
    let s =
      split_once-append b':' (show device.major) (show device.minor)
        (digits-lack_colon (show device.major) (show-digits device.major)) in
    let a = parse_part-show device.major h in
    let b = parse_part-show device.minor k in simp (s, a, b)

-- `gnu_dev_makedev`: the low bits of both numbers below 2 to the 20, the high bits above.
abbrev pub makedev : ℕ → ℕ → ℕ
makedev major minor =
    major / 2 ^ 12 * 2 ^ 44 + minor / 2 ^ 8 * 2 ^ 20 + major % 2 ^ 12 * 2 ^ 8 + minor % 2 ^ 8

-- The two 32-bit numbers that the C library packs into a device number are those that
-- `decode_linux_device` finds in it.
pub decode_linux_device-makedev :
    (major minor : ℕ)
    → major < 2 ^ 32
    → minor < 2 ^ 32
    → decode_linux_device (makedev major minor) ≡ record { major = major; minor = minor }
unfolding decode_linux_device
decode_linux_device-makedev major minor h k =
    let d : ℕ = makedev major minor in
    ap₂ (λ x y. record { major = x; minor = y })
      (let e : d / 2 ^ 8 % 2 ^ 12 + d / 2 ^ 44 % 2 ^ 20 * 2 ^ 12 ≡ major = omega arith in e)
      (let e : d % 2 ^ 8 + d / 2 ^ 20 % 2 ^ 24 * 2 ^ 8 ≡ minor = omega arith in e)

-- How the kernel writes a field: the bytes that it escapes become a backslash and three octal digits.
abbrev pub encode_field : (ℕ → Bool) → Bytes → Text
encode_field escaped [] = []
encode_field escaped (b ∷ bs) =
    let rest = encode_field escaped bs in
    if escaped b
    then b'\\' ∷ (b'0' + b / 64) ∷ (b'0' + b / 8 % 8) ∷ (b'0' + b % 8) ∷ rest
    else b ∷ rest

escape_lem :
    (b : ℕ) (rest : Text)
    → b < 256
    → escape ((b'0' + b / 64) ∷ (b'0' + b / 8 % 8) ∷ (b'0' + b % 8) ∷ rest) ≡ ok b
escape_lem b rest h =
    let x : bad_digit (b'0' + b / 64) ≡ false = ground arith in
    let y : bad_digit (b'0' + b / 8 % 8) ≡ false = ground arith in
    let z : bad_digit (b'0' + b % 8) ≡ false = ground arith in
    let e : octal (b'0' + b / 64) (b'0' + b / 8 % 8) (b'0' + b % 8) ≡ b = omega arith in
    simp (x, y, z, e)

plain_byte :
    (escaped : ℕ → Bool) (b : ℕ) → escaped b'\\' ≡ true → escaped b ≡ false → (b == b'\\') ≡ false
plain_byte escaped b e h = elim (Bool-cases (b == b'\\')) [
  | inl same ↦
      let s : b ≡ b'\\' = (==_iff b b'\\').0 same in
      let c : false ≡ true = sym h ∙ ap escaped s ∙ e in cc
  | inr other ↦ other
]

-- Whatever bytes the kernel escapes, the backslash among them: decoding a field that it wrote gives the
-- bytes back.
pub decode_mountinfo_field-encode :
    (escaped : ℕ → Bool) (bs : Bytes)
    → escaped b'\\' ≡ true
    → All (λ b. b < 256) bs
    → decode_mountinfo_field (encode_field escaped bs) ≡ ok bs
unfolding decode_mountinfo_field decode_from
decode_mountinfo_field-encode escaped [] e a = refl
decode_mountinfo_field-encode escaped (b ∷ bs) e (l, a) =
    by_test (escaped b) refl (decode_mountinfo_field-encode escaped bs e a)
  where
    by_test :
        (t : Bool)
        → escaped b ≡ t
        → decode_from 0 (encode_field escaped bs) ≡ ok bs
        → decode_from 0 (
            if t
            then b'\\'
              ∷ (b'0' + b / 64)
              ∷ (b'0' + b / 8 % 8)
              ∷ (b'0' + b % 8)
              ∷ encode_field escaped bs
            else b ∷ encode_field escaped bs)
          ≡ ok (b ∷ bs)
    by_test true h i = let x = escape_lem b (encode_field escaped bs) l in simp (x, i)
    by_test false h i = let n = plain_byte escaped b e h in simp (n, i)

name-lacks : (name : Text) → all name_byte name ≡ true → lacks b'@' name ≡ true
name-lacks [] h = refl
name-lacks (c ∷ cs) h = ground (arith, name-lacks cs)

-- A valid name and a positive 64-bit sequence number survive the trip through a stable identifier.
pub split_stable_identifier-format :
    (block_name : Text) (diskseq : ℕ)
    → valid_block_name block_name ≡ true
    → 0 < diskseq
    → diskseq < u64_mod
    → split_stable_identifier (format_stable_identifier block_name diskseq)
      ≡ ok (block_name, diskseq)
unfolding split_stable_identifier format_stable_identifier valid_block_name
split_stable_identifier-format block_name diskseq v p l =
    let (_, bytes) =
      (and_iff (not (is_empty block_name) && leb (length block_name) 128)
          (all name_byte block_name)).0
        v in
    let s = split_once-append b'@' block_name (show diskseq) (name-lacks block_name bytes) in
    let a = show-nonempty diskseq in
    let b = show-digits diskseq in
    let c = parse_below-show u64_mod diskseq l in
    let q : ltb 0 diskseq ≡ true = lt→ltb 0 diskseq p in simp (s, v, a, b, c, q)
