-- ===== src/Prelude/Texts.antt =====
-- `split_once`, `rsplit_once`, `strip_prefix`, `trim`, the order of strings, and ordered maps.
use Prim.Native.Nat.{ℕ, zero, suc}
use mathlib.Core.Path.{◌≡◌, refl, ap₂, subst}
use mathlib.Core.Bool.{Bool, true, false, not, ◌&&◌, ◌||◌}
use mathlib.Core.Option.{Option, none, some, some-injective}
use mathlib.Core.Logic.{inl, inr}
use mathlib.Core.List.{List, [], ◌∷◌, ◌++◌, reverse}
use native.Mathlib.Omega.{arith}
use snapdog_os_installer.Prelude.Tests.{ltb, leb, ◌==◌, if◌then◌else◌, Bool-cases}
use snapdog_os_installer.Prelude.Lists.{all, All, ◌=ᵗ◌, eqt_iff}
use snapdog_os_installer.Prelude.Ascii.{Text}

abbrev cons_first : ℕ → Option (Text × Text) → Option (Text × Text)
cons_first c none = none
cons_first c (some (a, b)) = some (c ∷ a, b)

-- At the first separator.
unfoldable pub split_once : ℕ → Text → Option (Text × Text)
split_once sep [] = none
split_once sep (c ∷ cs) = if c == sep then some ([], cs) else cons_first c (split_once sep cs)

abbrev or_here : ℕ → ℕ → Text → Option (Text × Text) → Option (Text × Text)
or_here sep c cs (some (a, b)) = some (c ∷ a, b)
or_here sep c cs none = if c == sep then some ([], cs) else none

-- At the last separator.
unfoldable pub rsplit_once : ℕ → Text → Option (Text × Text)
rsplit_once sep [] = none
rsplit_once sep (c ∷ cs) = or_here sep c cs (rsplit_once sep cs)

unfoldable pub strip_prefix : Text → Text → Option Text
strip_prefix [] s = some s
strip_prefix (p ∷ ps) [] = none
strip_prefix (p ∷ ps) (c ∷ cs) = if p == c then strip_prefix ps cs else none

-- No byte of the text is the separator.
abbrev pub lacks : ℕ → Text → Bool
lacks sep = all (λ c. not (c == sep))

pub split_once-append :
    (sep : ℕ) (a b : Text) → lacks sep a ≡ true → split_once sep (a ++ (sep ∷ b)) ≡ some (a, b)
unfolding split_once
split_once-append sep [] b h = ground arith
split_once-append sep (c ∷ cs) b h = ground (arith, split_once-append sep cs b)

pub split_once-eq-append :
    (sep : ℕ) (s a b : Text) → split_once sep s ≡ some (a, b) → s ≡ a ++ (sep ∷ b)
unfolding split_once
split_once-eq-append sep [] a b h = cc
split_once-eq-append sep (c ∷ cs) [] b h = ground arith
split_once-eq-append sep (c ∷ cs) (x ∷ a) b h = ground (arith, split_once-eq-append sep cs a b)

rsplit_once-none : (sep : ℕ) (s : Text) → lacks sep s ≡ true → rsplit_once sep s ≡ none
unfolding rsplit_once
rsplit_once-none sep [] h = refl
rsplit_once-none sep (c ∷ cs) h = ground (arith, rsplit_once-none sep cs)

pub rsplit_once-append :
    (sep : ℕ) (a b : Text) → lacks sep b ≡ true → rsplit_once sep (a ++ (sep ∷ b)) ≡ some (a, b)
unfolding rsplit_once
rsplit_once-append sep [] b h = ground (arith, rsplit_once-none sep b)
rsplit_once-append sep (c ∷ cs) b h = ground (arith, rsplit_once-append sep cs b h)

pub strip_prefix-append : (p s : Text) → strip_prefix p (p ++ s) ≡ some s
unfolding strip_prefix
strip_prefix-append [] s = refl
strip_prefix-append (p ∷ ps) s = ground (arith, strip_prefix-append ps s)

pub strip_prefix-eq-append : (p s r : Text) → strip_prefix p s ≡ some r → s ≡ p ++ r
unfolding strip_prefix
strip_prefix-eq-append [] s r h = ground arith
strip_prefix-eq-append (p ∷ ps) [] r h = cc
strip_prefix-eq-append (p ∷ ps) (c ∷ cs) r h = ground (arith, strip_prefix-eq-append ps cs r)

-- Unicode white space in UTF-8, by the number of its bytes.
abbrev white_one : ℕ → Bool
white_one a = leb 9 a && leb a 13 || a == 32

abbrev white_two : ℕ → ℕ → Bool
white_two a b = a == 0xC2 && (b == 0x85 || b == 0xA0)

abbrev white_three : ℕ → ℕ → ℕ → Bool
white_three a b c =
    a == 0xE1 && b == 0x9A && c == 0x80
    || a == 0xE2 && b == 0x80 && (leb 0x80 c && leb c 0x8A || c == 0xA8 || c == 0xA9 || c == 0xAF)
    || a == 0xE2 && b == 0x81 && c == 0x9F
    || a == 0xE3 && b == 0x80 && c == 0x80

-- The number of bytes of the white space that the text begins with; 0 if there is none.
unfoldable pub white_len : Text → ℕ
white_len [] = 0
white_len (a ∷ []) = if white_one a then 1 else 0
white_len (a ∷ b ∷ []) = if white_one a then 1 else if white_two a b then 2 else 0
white_len (a ∷ b ∷ c ∷ rest) =
    if white_one a then 1 else if white_two a b then 2 else if white_three a b c then 3 else 0

-- The same at the end of a text that is given backwards.
white_len_back : Text → ℕ
white_len_back [] = 0
white_len_back (a ∷ []) = if white_one a then 1 else 0
white_len_back (b ∷ a ∷ []) = if white_one b then 1 else if white_two a b then 2 else 0
white_len_back (c ∷ b ∷ a ∷ rest) =
    if white_one c then 1 else if white_two b c then 2 else if white_three a b c then 3 else 0

-- Drops `skip` bytes, then white space as `len` sees it.
drop_white : (Text → ℕ) → ℕ → Text → Text
drop_white len skip [] = []
drop_white len (suc skip) (c ∷ cs) = drop_white len skip cs
drop_white len zero (c ∷ cs) = elim (len (c ∷ cs)) [
  | zero ↦ c ∷ cs
  | suc skip ↦ drop_white len skip cs
]

unfoldable pub trim : Text → Text
unfolding white_len white_len_back drop_white
trim s = reverse (drop_white white_len_back 0 (reverse (drop_white white_len 0 s)))

-- The order of strings by their bytes.
abbrev pub lt_text : Text → Text → Bool
lt_text [] [] = false
lt_text [] (y ∷ ys) = true
lt_text (x ∷ xs) [] = false
lt_text (x ∷ xs) (y ∷ ys) = ltb x y || x == y && lt_text xs ys

-- `BTreeMap<String, V>`, as the list of its entries in the order of the keys.
module _ {ℓ} {V : Type ℓ} where
  unfoldable pub map_get : Text → List (Text × V) → Option V
  map_get k [] = none
  map_get k ((j, v) ∷ m) = if j =ᵗ k then some v else map_get k m

  unfoldable pub map_insert : Text → V → List (Text × V) → List (Text × V)
  map_insert k v [] = (k, v) ∷ []
  map_insert k v ((j, w) ∷ m) =
      let rest = map_insert k v m in
      if j =ᵗ k then (k, v) ∷ m else if lt_text k j then (k, v) ∷ (j, w) ∷ m else (j, w) ∷ rest

module _ {ℓ} {V : Type ℓ} (P : Text × V → Type 0) where
  pub All-map_insert :
      (k : Text) (v : V) (m : List (Text × V)) → P (k, v) → All P m → All P (map_insert k v m)
  unfolding map_insert
  All-map_insert k v [] p a = (p, tt)
  All-map_insert k v ((j, w) ∷ m) p a = elim (Bool-cases (j =ᵗ k)) [
    | inl same ↦ rw same (p, a.1)
    | inr other ↦ rw other (elim (Bool-cases (lt_text k j)) [
      | inl before ↦ rw before (p, a)
      | inr after ↦ rw after (a.0, All-map_insert k v m p a.1)
    ])
  ]

  pub All-map_get :
      (k : Text) (m : List (Text × V)) {v : V} → All P m → map_get k m ≡ some v → P (k, v)
  unfolding map_get
  All-map_get k [] a h = cc
  All-map_get k ((j, w) ∷ m) {v} a h = elim (Bool-cases (j =ᵗ k)) [
    | inl same ↦
        let found : some w ≡ some v = rw same at h in
        subst (λ (x : Text × V). P x)
          (ap₂ (λ (x : Text) (y : V). (x, y)) ((eqt_iff j k).0 same) (some-injective w v found)) a.0
    | inr other ↦ All-map_get k m a.1 (rw other at h)
  ]
