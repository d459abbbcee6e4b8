-- ===== src/Catalog/Percent.antt =====
-- `percent_decode` and `hex_digit` of src/catalog.rs: what is percent-encoded is decoded back.
use snapdog_os_installer.Prelude.{
  ℕ, ◌+◌, ◌-◌, ◌*◌, ◌/◌, ◌%◌, ◌<◌, ◌≡◌, refl, ap, ◌∙◌, Bool, true, false, ◌&&◌, ◌||◌, Option, none,
  some, [], ◌∷◌, Bytes, Text, ◌==◌, leb, ltb, all, option_map, if◌then◌else◌, arith, inl, inr,
  Bool-cases, and_iff, ltb→lt, lt→ltb, ==_iff,
}

unfoldable pub hex_digit : ℕ → Option ℕ
hex_digit value =
    if leb b'0' value && leb value b'9'
    then some (value - b'0')
    else if leb b'a' value && leb value b'f'
    then some (value - b'a' + 10)
    else if leb b'A' value && leb value b'F'
    then some (value - b'A' + 10)
    else none

abbrev continuation : ℕ → Bool
continuation b = leb 0x80 b && leb b 0xBF

abbrev three : ℕ → ℕ → Bool
three a b =
    a == 0xE0 && leb 0xA0 b && leb b 0xBF
    || leb 0xE1 a && leb a 0xEC && continuation b
    || a == 0xED && leb 0x80 b && leb b 0x9F
    || leb 0xEE a && leb a 0xEF && continuation b

abbrev four : ℕ → ℕ → Bool
four a b =
    a == 0xF0 && leb 0x90 b && leb b 0xBF
    || leb 0xF1 a && leb a 0xF3 && continuation b
    || a == 0xF4 && leb 0x80 b && leb b 0x8F

-- The bytes that still have to follow: none, or a first one in a range and more continuations.
pub data Pending : Type 0 where
  start : Pending
  tail : ℕ → Pending
  second_of_three second_of_four : ℕ → Pending

abbrev first : ℕ → Option Pending
first b =
    if leb b 0x7F
    then some start
    else if leb 0xC2 b && leb b 0xDF
    then some (tail 1)
    else if leb 0xE0 b && leb b 0xEF
    then some (second_of_three b)
    else if leb 0xF0 b && leb b 0xF4
    then some (second_of_four b)
    else none

abbrev advance : Pending → ℕ → Option Pending
advance start b = first b
advance (tail n) b =
    if continuation b then if leb n 1 then some start else some (tail (n - 1)) else none
advance (second_of_three a) b = if three a b then some (tail 1) else none
advance (second_of_four a) b = if four a b then some (tail 2) else none

abbrev complete : Pending → Bool
complete start = true
complete (tail n) = false
complete (second_of_three a) = false
complete (second_of_four a) = false

abbrev next : Option Pending → ℕ → Option Pending
next none b = none
next (some p) b = advance p b

abbrev ends : Option Pending → Bool
ends none = false
ends (some p) = complete p

scan : Option Pending → Bytes → Bool
scan p [] = ends p
scan p (b ∷ bs) = scan (next p b) bs

-- `String::from_utf8` succeeds.
unfoldable pub is_utf8 : Bytes → Bool
unfolding scan
is_utf8 bs = scan (some start) bs

abbrev pub pair : Option ℕ → Option ℕ → Option ℕ
pair none low = none
pair (some h) none = none
pair (some h) (some l) = if ltb (h * 16 + l) 256 then some (h * 16 + l) else none

abbrev pub cons_if : Option ℕ → Option Bytes → Option Bytes
cons_if none rest = none
cons_if (some b) rest = option_map (λ (bs : Bytes). b ∷ bs) rest

-- The loop of `percent_decode`, from an index on.
unfoldable pub decode_bytes : Bytes → Option Bytes
unfolding hex_digit
decode_bytes [] = some []
decode_bytes (a ∷ []) = if a == b'%' then none else some (a ∷ [])
decode_bytes (a ∷ b ∷ []) =
    let rest = decode_bytes (b ∷ []) in if a == b'%' then none else cons_if (some a) rest
decode_bytes (a ∷ b ∷ c ∷ cs) =
    let plain = decode_bytes (b ∷ c ∷ cs) in
    let escaped = decode_bytes cs in
    if a == b'%' then cons_if (pair (hex_digit b) (hex_digit c)) escaped else cons_if (some a) plain

abbrev pub checked_text : Option Bytes → Option Text
checked_text none = none
checked_text (some bs) = if is_utf8 bs then some bs else none

unfoldable pub percent_decode : Text → Option Text
unfolding decode_bytes is_utf8
percent_decode value = checked_text (decode_bytes value)

-- An encoder, which the program does not have: `keep` says which bytes stand for themselves.
abbrev digit_of : ℕ → ℕ
digit_of n = if ltb n 10 then b'0' + n else b'A' + (n - 10)

unfoldable pub percent_encode : (ℕ → Bool) → Text → Text
percent_encode keep [] = []
percent_encode keep (b ∷ bs) =
    let rest = percent_encode keep bs in
    if keep b then b ∷ rest else b'%' ∷ digit_of (b / 16) ∷ digit_of (b % 16) ∷ rest

hex_digit-digit_of : (n : ℕ) → n < 16 → hex_digit (digit_of n) ≡ some n
unfolding hex_digit
hex_digit-digit_of n h = ground arith

pair-halves : (b : ℕ) → b < 256 → pair (some (b / 16)) (some (b % 16)) ≡ some b
pair-halves b h = let e : b / 16 * 16 + b % 16 ≡ b = omega arith in rw e (rw (lt→ltb b 256 h))

-- A byte that is not a percent sign stands for itself.
decode_bytes-plain :
    (a : ℕ) (rest : Bytes)
    → (a == b'%') ≡ false
    → decode_bytes (a ∷ rest) ≡ cons_if (some a) (decode_bytes rest)
unfolding decode_bytes
decode_bytes-plain a [] h = rw h
decode_bytes-plain a (b ∷ []) h = rw h
decode_bytes-plain a (b ∷ c ∷ cs) h = rw h

not_kept : (keep : ℕ → Bool) (b : ℕ) → keep b'%' ≡ false → keep b ≡ true → (b == b'%') ≡ false
not_kept keep b k h = elim (Bool-cases (b == b'%')) [
  | inl same ↦ cc (h, k, (==_iff b b'%').0 same)
  | inr other ↦ other
]

decode-encode :
    (keep : ℕ → Bool) (s : Text)
    → keep b'%' ≡ false
    → all (λ b. ltb b 256) s ≡ true
    → decode_bytes (percent_encode keep s) ≡ some s
unfolding percent_encode decode_bytes
decode-encode keep [] k h = refl
decode-encode keep (b ∷ bs) k h =
    let bounds = (and_iff (ltb b 256) (all (λ b. ltb b 256) bs)).0 h in
    let rest : decode_bytes (percent_encode keep bs) ≡ some bs = decode-encode keep bs k bounds.1 in
    elim (Bool-cases (keep b)) [
      | inl kept ↦ rw kept (decode_bytes-plain b _ (not_kept keep b k kept) ∙ rw rest)
      | inr other ↦ rw other (
          rw (hex_digit-digit_of (b / 16) (sixteenth b (ltb→lt b 256 bounds.0))) (
            rw (hex_digit-digit_of (b % 16) (omega arith))
              (rw (pair-halves b (ltb→lt b 256 bounds.0)) (rw rest))))
    ]
  where
    sixteenth : (b : ℕ) → b < 256 → b / 16 < 16
    sixteenth b h = omega arith

-- Whatever bytes an encoder leaves as they are, a percent sign not among them, decoding what it
-- writes for a text in UTF-8 gives the text back.
pub percent_decode-percent_encode :
    (keep : ℕ → Bool) (s : Text)
    → keep b'%' ≡ false
    → all (λ b. ltb b 256) s ≡ true
    → is_utf8 s ≡ true
    → percent_decode (percent_encode keep s) ≡ some s
unfolding percent_decode
percent_decode-percent_encode keep s k bytes utf8 =
    ap checked_text (decode-encode keep s k bytes) ∙ rw utf8
