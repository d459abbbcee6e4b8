-- ===== src/Drives/Windows/Fingerprint.antt =====
-- The identity of a disk on Windows: what is hashed names every field.
use Prim.Native.Nat.{◌+◌, ◌*◌, ◌%◌, ◌/◌}
use native.Mathlib.Nat.{pow-succ'}
use snapdog_os_installer.Prelude.{
  ℕ, ◌^◌, ◌<◌, zero, suc, ◌≡◌, refl, sym, ap, subst, ◌∙◌, Bool, true, false, Option, none, some,
  List, [], ◌∷◌, ◌++◌, Bytes, Text, text, show, value, value-show, length, option_map, ltb, ltb→lt,
  Bool-cases, u64_mod, if◌then◌else◌, arith, inl, inr, append_cancel, ◌⊎◌, ◌≢◌, ◌=ᵗ◌, eqt_iff,
  true_false,
}
use snapdog_os_installer.Flash.Types.{Crypto}
use snapdog_os_installer.Drives.Windows.{
  WindowsDisk, fingerprint, to_le_bytes, feed, fields, bool_text,
}

-- The number that little-endian bytes stand for.
unfoldable from_le : Bytes → ℕ
from_le [] = 0
from_le (b ∷ bs) = b + 256 * from_le bs

length-to_le_bytes : (n x : ℕ) → length (to_le_bytes n x) ≡ n
unfolding to_le_bytes
length-to_le_bytes zero x = refl
length-to_le_bytes (suc n) x = ap suc (length-to_le_bytes n (x / 256))

from_le-to_le_bytes : (n x : ℕ) → x < 256 ^ n → from_le (to_le_bytes n x) ≡ x
unfolding to_le_bytes from_le
from_le-to_le_bytes zero x h = omega arith
from_le-to_le_bytes (suc n) x h =
    let rec : from_le (to_le_bytes n (x / 256)) ≡ x / 256 =
      from_le-to_le_bytes n (x / 256) (below n x h) in
    ap (λ (k : ℕ). x % 256 + 256 * k) rec ∙ omega arith
  where
    below : (n x : ℕ) → x < 256 ^ suc n → x / 256 < 256 ^ n
    below n x h =
        let e : 256 ^ suc n ≡ 256 * 256 ^ n = pow-succ' 256 n in
        let g : x < 256 * 256 ^ n = subst (λ (k : ℕ). x < k) e h in omega arith

fed_lem :
    (field : Text) (rest : List Text) (b : Bytes) (small : Bool)
    → ltb (length field) u64_mod ≡ small
    → (if small
        then option_map (λ (r : Bytes). to_le_bytes 8 (length field) ++ field ++ r) (feed rest)
        else none)
      ≡ some b
    → (r : Bytes) × (length field < u64_mod)
      × (feed rest ≡ some r)
      × (to_le_bytes 8 (length field) ++ field ++ r ≡ b)
fed_lem field rest b true e h = go (feed rest) refl h
  where
    go :
        (o : Option Bytes)
        → feed rest ≡ o
        → option_map (λ (r : Bytes). to_le_bytes 8 (length field) ++ field ++ r) o ≡ some b
        → (r : Bytes) × (length field < u64_mod)
          × (feed rest ≡ some r)
          × (to_le_bytes 8 (length field) ++ field ++ r ≡ b)
    go none s h = cc
    go (some r) s h = (r, ltb→lt _ _ e, s, cc (h))
fed_lem field rest b false e h = cc

-- The bytes hashed determine the list of fields.
feed-injective : (xs ys : List Text) (b : Bytes) → feed xs ≡ some b → feed ys ≡ some b → xs ≡ ys
unfolding feed to_le_bytes
feed-injective [] [] b h k = refl
feed-injective [] (y ∷ ys) b h k =
    let (s, small, rest, f) = fed_lem y ys b (ltb (length y) u64_mod) refl k in cc (h, f)
feed-injective (x ∷ xs) [] b h k =
    let (r, small, rest, e) = fed_lem x xs b (ltb (length x) u64_mod) refl h in cc (k, e)
feed-injective (x ∷ xs) (y ∷ ys) b h k =
    let (r, small_x, rest_x, e) = fed_lem x xs b (ltb (length x) u64_mod) refl h in
    let (s, small_y, rest_y, f) = fed_lem y ys b (ltb (length y) u64_mod) refl k in
    let same =
      append_cancel (to_le_bytes 8 (length x)) (to_le_bytes 8 (length y)) (x ++ r) (y ++ s)
        (length-to_le_bytes 8 (length x) ∙ sym (length-to_le_bytes 8 (length y))) (e ∙ sym f) in
    let lengths : length x ≡ length y =
      sym (from_le-to_le_bytes 8 (length x) small_x)
      ∙ ap from_le same.0
      ∙ from_le-to_le_bytes 8 (length y) small_y in
    let tails = append_cancel x y r s lengths same.1 in
    let rest = feed-injective xs ys r rest_x (rest_y ∙ ap some (sym tails.1)) in cc (tails.0, rest)

bool_text-injective : (a b : Bool) → bool_text a ≡ bool_text b → a ≡ b
unfolding bool_text text
bool_text-injective true true h = refl
bool_text-injective true false h = cc
bool_text-injective false true h = cc
bool_text-injective false false h = refl

show-injective : (a b : ℕ) → show a ≡ show b → a ≡ b
show-injective a b h = sym (value-show a) ∙ ap value h ∙ value-show b

-- The two disks agree in everything that identifies a medium.
pub record IsSameMedium (d e : WindowsDisk) : Type 0 where
  pub number : d.number ≡ e.number
  pub size : d.size ≡ e.size
  pub logical_sector_size : d.logical_sector_size ≡ e.logical_sector_size
  pub physical_sector_size : d.physical_sector_size ≡ e.physical_sector_size
  pub bus_type : d.bus_type ≡ e.bus_type
  pub path : d.path ≡ e.path
  pub unique_id : d.unique_id ≡ e.unique_id
  pub serial_number : d.serial_number ≡ e.serial_number
  pub supports_removable_media : d.supports_removable_media ≡ e.supports_removable_media

nth : ℕ → List Text → Text
nth n [] = []
nth zero (x ∷ xs) = x
nth (suc n) (x ∷ xs) = nth n xs

-- Two disks for which the same bytes are hashed agree in every field that identifies a medium.
pub fed-IsSameMedium :
    (d e : WindowsDisk) (b : Bytes)
    → feed (fields d) ≡ some b
    → feed (fields e) ≡ some b
    → IsSameMedium d e
unfolding nth
fed-IsSameMedium d e b h k =
    let same : fields d ≡ fields e = feed-injective (fields d) (fields e) b h k in
    record {
      number = show-injective _ _ (ap (nth 1) same);
      size = show-injective _ _ (ap (nth 2) same);
      logical_sector_size = show-injective _ _ (ap (nth 3) same);
      physical_sector_size = show-injective _ _ (ap (nth 4) same);
      bus_type = ap (nth 5) same;
      path = ap (nth 6) same;
      unique_id = ap (nth 7) same;
      serial_number = ap (nth 8) same;
      supports_removable_media = bool_text-injective _ _ (ap (nth 9) same);
    }

some_of :
    (o : Option Bytes) (f : Bytes → Text) {t : Text}
    → option_map f o ≡ some t
    → (b : Bytes) × (o ≡ some b) × (f b ≡ t)
some_of none f h = cc
some_of (some b) f h = (b, refl, cc (h))

-- The byte strings hashed for the two disks differ and have the same digest, as `fingerprint` writes
-- it.
pub record Collision (c : Crypto) (d e : WindowsDisk) : Type 0 where
  pub first : Bytes
  pub second : Bytes
  pub first_fed : feed (fields d) ≡ some first
  pub second_fed : feed (fields e) ≡ some second
  pub differ : first ≢ second
  pub same_digest : c.hex_encode (c.sha256 first) ≡ c.hex_encode (c.sha256 second)

-- Two disks with the same fingerprint agree in every field that identifies a medium, or else the
-- bytes that were hashed for the one and for the other differ and are a collision of the hash function.
pub fingerprint-IsSameMedium :
    (c : Crypto) (d e : WindowsDisk) (t : Text)
    → fingerprint c d ≡ some t
    → fingerprint c e ≡ some t
    → IsSameMedium d e ⊎ Collision c d e
unfolding fingerprint
fingerprint-IsSameMedium c d e t h k =
    let (x, fed_x, digest_x) =
      some_of (feed (fields d)) (λ (b : Bytes). c.hex_encode (c.sha256 b)) h in
    let (y, fed_y, digest_y) =
      some_of (feed (fields e)) (λ (b : Bytes). c.hex_encode (c.sha256 b)) k in
    elim (Bool-cases (x =ᵗ y)) [
      | inl same ↦ inl (fed-IsSameMedium d e x fed_x (fed_y ∙ ap some (sym ((eqt_iff x y).0 same))))
      | inr other ↦ inr (record {
        first = x;
        second = y;
        first_fed = fed_x;
        second_fed = fed_y;
        differ = λ q. true_false (sym ((eqt_iff x y).1 q) ∙ other);
        same_digest = digest_x ∙ sym digest_y;
      })
    ]
