-- ===== src/Prelude/Exec.antt =====
-- Stateful code that may fail: what was done before an error stays done, so the state comes back
-- beside the error too. `Triple` is its Hoare triple, with a condition for each way to leave.
use mathlib.Core.Path.{◌≡◌, refl, sym, subst}
use mathlib.Core.Bool.{Bool, true, false}
use snapdog_os_installer.Prelude.Tests.{if◌then◌else◌}
use snapdog_os_installer.Prelude.Result.{Result, ok, err}

abbrev pub Exec : Type 0 → Type 0 → Type 0 → Type 0
Exec S E A = S → Result E A × S

module _ {S E A : Type 0} where
  unfoldable pub pure : A → Exec S E A
  pure a s = (ok a, s)

  unfoldable pub raise : E → Exec S E A
  raise e s = (err e, s)

  unfoldable pub lift : Result E A → Exec S E A
  lift r s = (r, s)

unfoldable pub modify : {S E : Type 0} → (S → S) → Exec S E Unit
modify f s = (ok tt, f s)

-- `map_err`, or the conversion that `?` makes.
module _ {S E F A : Type 0} where
  abbrev pub convert : (E → F) → Result E A × S → Result F A × S
  convert f (ok a, s) = (ok a, s)
  convert f (err e, s) = (err (f e), s)

  unfoldable pub map_error : (E → F) → Exec S E A → Exec S F A
  map_error f m s = convert f (m s)

-- `let _ = m;` and `if let Err(e) = &r { … }; r`
module _ {S E F A : Type 0} where
  unfoldable pub attempt : Exec S E A → Exec S F (Result E A)
  attempt m s = (ok (m s).0, (m s).1)

-- `if bad { return Err(e); }`
unfoldable pub fail_if : {S E : Type 0} → Bool → E → Exec S E Unit
unfolding pure raise
fail_if bad e = if bad then raise e else pure tt

module _ {S E A B : Type 0} where
  abbrev pub continue : Result E A → S → (A → Exec S E B) → Result E B × S
  continue (ok a) s f = f a s
  continue (err e) s f = (err e, s)

  infixl 5 ◌>>=◌ ◌>>◌
  -- Shut, so that the rule for it below finds its parts; opening it opens the other actions too.
  unfoldable pub ◌>>=◌ : Exec S E A → (A → Exec S E B) → Exec S E B
  unfolding pure raise lift modify attempt map_error fail_if
  ◌>>=◌ m f s = continue (m s).0 (m s).1 f

  abbrev pub ◌>>◌ : Exec S E A → Exec S E B → Exec S E B
  m >> k = m >>= λ _. k

module _ {S E A : Type 0} (Q : A → S → Type 0) (R : E → S → Type 0) where
  abbrev pub Post : Result E A → S → Type 0
  Post (ok a) s = Q a s
  Post (err e) s = R e s

pub record Triple {S E A : Type 0} (P : S → Type 0) (m : Exec S E A) (Q : A → S → Type 0)
    (R : E → S → Type 0) : Type 0 where
  pub at : (s : S) → P s → Post Q R (m s).0 (m s).1

module _ {S E A B : Type 0} where
  Post-continue :
      {R : E → S → Type 0} (Q : A → S → Type 0) (T : B → S → Type 0) (f : A → Exec S E B)
      (r : Result E A) (s : S)
      → ((a : A) → Triple (Q a) (f a) T R)
      → Post Q R r s
      → Post T R (continue r s f).0 (continue r s f).1
  Post-continue Q T f (ok a) s k q = (k a).at s q
  Post-continue Q T f (err e) s k q = q

  pub Triple-bind :
      {P : S → Type 0} {R : E → S → Type 0} {m : Exec S E A} {f : A → Exec S E B}
      (Q : A → S → Type 0) {T : B → S → Type 0}
      → Triple P m Q R
      → ((a : A) → Triple (Q a) (f a) T R)
      → Triple P (m >>= f) T R
  unfolding ◌>>=◌
  Triple-bind {m} {f} Q {T} h k = record {
    at = λ s p. Post-continue Q T f (m s).0 (m s).1 k (h.at s p);
  }

module _ {S E : Type 0} {P : S → Type 0} {R : E → S → Type 0} where
  pub Triple-raise :
      {A : Type 0} {Q : A → S → Type 0} (e : E) → ((s : S) → P s → R e s) → Triple P (raise e) Q R
  unfolding raise
  Triple-raise e h = record { at = h }

  pub Triple-modify :
      {Q : Unit → S → Type 0} (f : S → S) → ((s : S) → P s → Q tt (f s)) → Triple P (modify f) Q R
  unfolding modify
  Triple-modify f h = record { at = h }

  pub Triple-pure :
      {A : Type 0} {Q : A → S → Type 0} (a : A) → ((s : S) → P s → Q a s) → Triple P (pure a) Q R
  unfolding pure
  Triple-pure a h = record { at = h }

  -- What the result of a call without effect is known to be.
  pub Triple-lift :
      {A : Type 0} (r : Result E A)
      → ((e : E) (s : S) → P s → R e s)
      → Triple P (lift r) (λ a s. P s × (r ≡ ok a)) R
  unfolding lift
  Triple-lift (ok a) h = record { at = λ s p. (p, refl) }
  Triple-lift (err e) h = record { at = λ s p. h e s p }

  pub Triple-assume :
      {A X : Type 0} {Q : A → S → Type 0} {m : Exec S E A}
      → (X → Triple P m Q R)
      → Triple (λ s. P s × X) m Q R
  Triple-assume h = record { at = λ s p. (h p.1).at s p.0 }

  pub Triple-if :
      {A : Type 0} {Q : A → S → Type 0} (b : Bool) {m n : Exec S E A}
      → (b ≡ true → Triple P m Q R)
      → (b ≡ false → Triple P n Q R)
      → Triple P (if b then m else n) Q R
  Triple-if true h k = h refl
  Triple-if false h k = k refl

  pub Triple-fail_if :
      (bad : Bool) (e : E)
      → ((s : S) → P s → R e s)
      → Triple P (fail_if bad e) (λ _ s. P s × (bad ≡ false)) R
  unfolding fail_if raise pure
  Triple-fail_if true e h = record { at = h }
  Triple-fail_if false e h = record { at = λ s p. (p, refl) }

  pub Triple-pre :
      {A : Type 0} {Q : A → S → Type 0} {P' : S → Type 0} {m : Exec S E A}
      → ((s : S) → P s → P' s)
      → Triple P' m Q R
      → Triple P m Q R
  Triple-pre h k = record { at = λ s p. k.at s (h s p) }

module _ {S E A : Type 0} where
  Post-Post :
      (Q Q' : A → S → Type 0) (R R' : E → S → Type 0) (r : Result E A) (s : S)
      → ((a : A) (s : S) → Q a s → Q' a s)
      → ((e : E) (s : S) → R e s → R' e s)
      → Post Q R r s
      → Post Q' R' r s
  Post-Post Q Q' R R' (ok a) s h k q = h a s q
  Post-Post Q Q' R R' (err e) s h k q = k e s q

  pub Triple-post :
      {P : S → Type 0} {m : Exec S E A} {Q Q' : A → S → Type 0} {R R' : E → S → Type 0}
      → ((a : A) (s : S) → Q a s → Q' a s)
      → ((e : E) (s : S) → R e s → R' e s)
      → Triple P m Q R
      → Triple P m Q' R'
  Triple-post {m} {Q} {Q'} {R} {R'} h k t = record {
    at = λ s p. Post-Post Q Q' R R' (m s).0 (m s).1 h k (t.at s p);
  }

module _ {S E F A : Type 0} where
  Post-convert :
      (Q : A → S → Type 0) (R : S → Type 0) (f : E → F) (r : Result E A) (s : S)
      → Post Q (λ _. R) r s
      → Post Q (λ _. R) (convert f (r, s)).0 (convert f (r, s)).1
  Post-convert Q R f (ok a) s q = q
  Post-convert Q R f (err e) s q = q

  pub Triple-map_error :
      {P : S → Type 0} {Q : A → S → Type 0} {R : S → Type 0} {m : Exec S E A} (f : E → F)
      → Triple P m Q (λ _. R)
      → Triple P (map_error f m) Q (λ _. R)
  unfolding map_error
  Triple-map_error {Q} {R} {m} f t = record {
    at = λ s p. Post-convert Q R f (m s).0 (m s).1 (t.at s p);
  }

module _ {S E F A : Type 0} where
  pub Triple-attempt :
      {P : S → Type 0} {Q : A → S → Type 0} {R : E → S → Type 0} {m : Exec S E A}
      {R' : F → S → Type 0}
      → Triple P m Q R
      → Triple P (attempt m) (λ r. Post Q R r) R'
  unfolding attempt
  Triple-attempt t = record { at = λ s p. t.at s p }

-- After a call that cannot return normally.
pub Triple-absurd :
    {S E A : Type 0} {m : Exec S E A} {Q : A → S → Type 0} {R : E → S → Type 0}
    → Triple (λ _. ⊥) m Q R
Triple-absurd = record { at = λ s p. absurd p }

-- `let _ = m;`, where the same holds after a success and after a failure.
module _ {S E A : Type 0} (X : S → Type 0) where
  Post-same : (r : Result E A) (s : S) → Post (λ _. X) (λ _. X) r s → X s
  Post-same (ok a) s x = x
  Post-same (err e) s x = x

  pub Triple-attempt_same :
      {F : Type 0} {P : S → Type 0} {m : Exec S E A} {R' : F → S → Type 0}
      → Triple P m (λ _. X) (λ _. X)
      → Triple P (attempt m) (λ _. X) R'
  unfolding attempt
  Triple-attempt_same {m} t = record { at = λ s p. Post-same (m s).0 (m s).1 (t.at s p) }

-- A call without effect whose result is known.
module _ {S E A B : Type 0} where
  pub Triple-lift_ok :
      {P : S → Type 0} {Q : B → S → Type 0} {R : E → S → Type 0} (f : A → Exec S E B)
      (r : Result E A) (a : A)
      → r ≡ ok a
      → Triple P (f a) Q R
      → Triple P (lift r >>= f) Q R
  unfolding ◌>>=◌ lift
  Triple-lift_ok {P} {Q} {R} f r a e t =
      subst (λ (x : Result E A). Triple P (lift x >>= f) Q R) (sym e) (record { at = t.at })
