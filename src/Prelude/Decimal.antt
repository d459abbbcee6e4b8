-- ===== src/Prelude/Decimal.antt =====
-- Decimal numbers: `{n}` in a format string, and `str::parse::<u64>` and `::<u32>`.
use Prim.Native.Nat.{ℕ, zero, suc, ◌+◌, ◌-◌, ◌*◌, ◌/◌, ◌%◌, ◌≤◌, ◌<◌}
use mathlib.Core.Path.{◌≡◌, refl, ◌∙◌}
use mathlib.Core.Bool.{Bool, true, false, not, ◌&&◌}
use mathlib.Core.Logic.{inl, inr}
use mathlib.Core.Option.{Option, none, some}
use mathlib.Core.List.{[], ◌∷◌, ◌++◌}
use native.Mathlib.Omega.{arith}
use snapdog_os_installer.Prelude.Tests.{
  ltb, ◌==◌, if◌then◌else◌, Bool-cases, ltb→lt, ltb_false→le, lt→ltb,
}
use snapdog_os_installer.Prelude.Lists.{all, is_empty, all-append}
use snapdog_os_installer.Prelude.Ascii.{Text, is_ascii_digit}

-- The digits of a number, the last one first peeled off. The fuel bounds their number.
show_fuel : ℕ → ℕ → Text
show_fuel zero n = []
show_fuel (suc f) n =
    let rest = show_fuel f (n / 10) in
    if ltb n 10 then (b'0' + n) ∷ [] else rest ++ ((b'0' + n % 10) ∷ [])

unfoldable pub show : ℕ → Text
unfolding show_fuel
show n = show_fuel (suc n) n

abbrev value_from : ℕ → Text → ℕ
value_from acc [] = acc
value_from acc (c ∷ cs) = value_from (acc * 10 + (c - b'0')) cs

abbrev pub value : Text → ℕ
value = value_from 0

abbrev pub digits_only : Text → Bool
digits_only = all is_ascii_digit

-- A sign, as `from_str` accepts it.
abbrev unsigned : Text → Text
unsigned [] = []
unsigned (c ∷ cs) = if c == b'+' then cs else c ∷ cs

-- `str::parse` for an unsigned type whose values are below `bound`.
unfoldable pub parse_below : ℕ → Text → Option ℕ
parse_below bound s =
    let digits = unsigned s in
    if not (is_empty digits) && digits_only digits && ltb (value digits) bound
    then some (value digits)
    else none

value_from-snoc :
    (acc : ℕ) (cs : Text) (d : ℕ)
    → value_from acc (cs ++ (d ∷ [])) ≡ value_from acc cs * 10 + (d - b'0')
value_from-snoc acc [] d = refl
value_from-snoc acc (c ∷ cs) d = value_from-snoc (acc * 10 + (c - b'0')) cs d

digits-snoc :
    (cs : Text) (d : ℕ)
    → digits_only cs ≡ true
    → d < 10
    → digits_only (cs ++ ((b'0' + d) ∷ [])) ≡ true
digits-snoc cs d h l = ground (arith, all-append is_ascii_digit cs ((b'0' + d) ∷ []))

show_fuel-value : (f n : ℕ) → n < f → value (show_fuel f n) ≡ n
unfolding show_fuel
show_fuel-value zero n h = absurd (omega arith)
show_fuel-value (suc f) n h = elim (Bool-cases (ltb n 10)) [
  | inl small ↦ rw small (omega arith)
  | inr big ↦
      let l : 10 ≤ n = ltb_false→le n 10 big in
      rw big (
        value_from-snoc 0 (show_fuel f (n / 10)) (b'0' + n % 10)
        ∙ omega (arith, show_fuel-value f (n / 10) (omega arith)))
]

show_fuel-digits : (f n : ℕ) → digits_only (show_fuel f n) ≡ true
unfolding show_fuel
show_fuel-digits zero n = refl
show_fuel-digits (suc f) n = elim (Bool-cases (ltb n 10)) [
  | inl small ↦ let l : n < 10 = ltb→lt n 10 small in rw small (digits-snoc [] n refl l)
  | inr big ↦
      rw big
        (digits-snoc (show_fuel f (n / 10)) (n % 10) (show_fuel-digits f (n / 10)) (omega arith))
]

pub value-show : (n : ℕ) → value (show n) ≡ n
unfolding show
value-show n = show_fuel-value (suc n) n (omega arith)

pub show-digits : (n : ℕ) → digits_only (show n) ≡ true
unfolding show
show-digits n = show_fuel-digits (suc n) n

is_empty-snoc : (cs : Text) (d : ℕ) → is_empty (cs ++ (d ∷ [])) ≡ false
is_empty-snoc [] d = refl
is_empty-snoc (c ∷ cs) d = refl

pub show-nonempty : (n : ℕ) → is_empty (show n) ≡ false
unfolding show show_fuel
show-nonempty n = elim (Bool-cases (ltb n 10)) [
  | inl small ↦ rw small
  | inr big ↦ rw big (is_empty-snoc _ _)
]

unsigned-digits : (cs : Text) → digits_only cs ≡ true → unsigned cs ≡ cs
unsigned-digits [] h = refl
unsigned-digits (c ∷ cs) h = ground arith

-- What is printed is parsed back.
pub parse_below-show : (bound n : ℕ) → n < bound → parse_below bound (show n) ≡ some n
unfolding parse_below
parse_below-show bound n h =
    rw (unsigned-digits (show n) (show-digits n))
      (rw (show-nonempty n) (rw (show-digits n) (rw (value-show n) (rw (lt→ltb n bound h)))))

pub parse_below-lt : (bound : ℕ) (s : Text) {n : ℕ} → parse_below bound s ≡ some n → n < bound
unfolding parse_below
parse_below-lt bound s h = ground arith
