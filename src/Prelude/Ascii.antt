-- ===== src/Prelude/Ascii.antt =====
-- Byte strings: `u8::is_ascii_…`, `eq_ignore_ascii_case`, literals, and the prefix order.
use Prim.Native.Nat.{ℕ, ◌+◌, ◌≤◌}
use Prim.Native.Char.{code}
use Prim.Native.String.{String}
use mathlib.Core.Path.{◌≡◌, ap}
use mathlib.Core.Bool.{Bool, true, ◌&&◌, ◌||◌}
use mathlib.Core.List.{List, [], ◌∷◌, ◌++◌, map}
use native.Mathlib.Omega.{arith}
use snapdog_os_installer.Prelude.Tests.{leb, if◌then◌else◌}
use snapdog_os_installer.Prelude.Lists.{◌=ᵗ◌, eqt_refl, length, length-append}

abbrev pub Bytes : Type 0
Bytes = List ℕ

abbrev pub Text : Type 0
Text = List ℕ

-- A literal of the source; it stays shut in proofs.
unfoldable pub text : String → Text
text String.[] = []
text (String.◌∷◌ c s) = code c ∷ text s

abbrev pub is_ascii_digit : ℕ → Bool
is_ascii_digit c = leb b'0' c && leb c b'9'

abbrev pub is_ascii_hexdigit : ℕ → Bool
is_ascii_hexdigit c = is_ascii_digit c || leb b'a' c && leb c b'f' || leb b'A' c && leb c b'F'

abbrev pub is_ascii_alphanumeric : ℕ → Bool
is_ascii_alphanumeric c = is_ascii_digit c || leb b'a' c && leb c b'z' || leb b'A' c && leb c b'Z'

unfoldable pub to_ascii_lowercase : ℕ → ℕ
to_ascii_lowercase c = if leb b'A' c && leb c b'Z' then c + 32 else c

unfoldable pub eq_ignore_ascii_case : Text → Text → Bool
unfolding to_ascii_lowercase
eq_ignore_ascii_case s t = map to_ascii_lowercase s =ᵗ map to_ascii_lowercase t

pub eq_ignore_ascii_case_refl : (s : Text) → eq_ignore_ascii_case s s ≡ true
unfolding eq_ignore_ascii_case
eq_ignore_ascii_case_refl s = eqt_refl (map to_ascii_lowercase s)

-- `xs` is an initial part of `ys`.
abbrev pub Prefix : Bytes → Bytes → Type 0
Prefix xs ys = (rest : Bytes) × (xs ++ rest ≡ ys)

pub Prefix-length : (xs ys : Bytes) → Prefix xs ys → length xs ≤ length ys
Prefix-length xs ys (rest, e) = omega (arith, length-append xs rest, ap length e)
