-- ===== src/Prelude/Result.antt =====
-- `Result<A, E>`: the `?` operator is `>>=`, with `map_err` where the error types differ.
use mathlib.Core.Path.{◌≡◌, refl}
use mathlib.Core.Bool.{Bool, true, false}
use mathlib.Core.Option.{Option, none, some}

pub data Result {ℓ} (E A : Type ℓ) : Type ℓ where
  ok : A → Result E A
  err : E → Result E A

infixl 5 ◌>>=◌
abbrev pub ◌>>=◌ {ℓ} : {E A B : Type ℓ} → Result E A → (A → Result E B) → Result E B
err e >>= next = err e
ok a >>= next = next a

infixl 5 ◌>>◌
abbrev pub ◌>>◌ {ℓ} : {E A B : Type ℓ} → Result E A → Result E B → Result E B
r >> next = r >>= λ _. next

-- `if bad { return Err(e) }`
abbrev pub reject_if {ℓ} : {E : Type ℓ} → Bool → E → Result E Unit
reject_if true e = err e
reject_if false e = ok tt

-- `Option::ok_or_else`
abbrev pub ok_or {ℓ} : {E A : Type ℓ} → Option A → E → Result E A
ok_or none e = err e
ok_or (some a) e = ok a

abbrev pub map_err {ℓ} : {E F A : Type ℓ} → (E → F) → Result E A → Result F A
map_err f (ok a) = ok a
map_err f (err e) = err (f e)

-- Inversion of a successful `?`.
pub >>=-eq-ok {ℓ} :
    {E A B : Type ℓ} (r : Result E A) (next : A → Result E B) {final : B}
    → r >>= next ≡ ok final
    → (x : A) × (r ≡ ok x) × (next x ≡ ok final)
>>=-eq-ok (err e) next h = cc
>>=-eq-ok (ok x) next h = (x, refl, h)

pub reject_if-eq-ok {ℓ} :
    {E : Type ℓ} (b : Bool) (e : E) {u : Unit} → reject_if b e ≡ ok u → b ≡ false
reject_if-eq-ok true e h = cc
reject_if-eq-ok false e h = refl

pub ok-injective {ℓ} : {E A : Type ℓ} {a b : A} → ◌≡◌ {A = Result E A} (ok a) (ok b) → a ≡ b
ok-injective h = cc (h)
