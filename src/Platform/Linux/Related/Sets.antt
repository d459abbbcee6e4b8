-- ===== src/Platform/Linux/Related/Sets.antt =====
-- The sets of device numbers of src/worker/linux.rs.
use snapdog_os_installer.Prelude.{
  ℕ, suc, ◌≤◌, ◌<◌, ◌≡◌, refl, sym, ap, ◌∙◌, ◌↔◌, ◌⊎◌, inl, inr, Bool, true, false, ◌||◌, List, [],
  ◌∷◌, length, ◌==◌, ==_iff, and_iff, arith, subst, if◌then◌else◌,
}
use mathlib.Core.Path.{ap₂}
use snapdog_os_installer.Platform.Linux.Types.{DeviceNumber, same_device, device_before}
use snapdog_os_installer.Platform.Linux.Mountinfo.{contains}
use snapdog_os_installer.Platform.Linux.Related.{insert}

pub same_device_iff : (a b : DeviceNumber) → (same_device a b ≡ true) ↔ (a ≡ b)
same_device_iff a b = (
  λ h.
      let (e, f) = (and_iff (a.major == b.major) (a.minor == b.minor)).0 h in
      ap₂ (λ x y. record { major = x; minor = y }) ((==_iff a.major b.major).0 e)
        ((==_iff a.minor b.minor).0 f),
  λ h. (and_iff (a.major == b.major) (a.minor == b.minor)).1 (
    (==_iff a.major b.major).1 (ap (λ (d : DeviceNumber). d.major) h),
    (==_iff a.minor b.minor).1 (ap (λ (d : DeviceNumber). d.minor) h),
  ),
)

-- `d` is a member of the set.
abbrev pub Has : List DeviceNumber → DeviceNumber → Type 0
Has devices d = contains devices d ≡ true

or_cases : (a b : Bool) → (a || b) ≡ true → (a ≡ true) ⊎ (b ≡ true)
or_cases true b h = inl refl
or_cases false b h = inr h

or_left : (a b : Bool) → a ≡ true → (a || b) ≡ true
or_left true b h = refl
or_left false b h = cc

or_right : (a b : Bool) → b ≡ true → (a || b) ≡ true
or_right true b h = refl
or_right false b h = h

pub Has-cons_iff :
    (d x : DeviceNumber) (xs : List DeviceNumber) → Has (x ∷ xs) d ↔ ((x ≡ d) ⊎ Has xs d)
unfolding contains
Has-cons_iff d x xs = (forth, back)
  where
    forth : Has (x ∷ xs) d → (x ≡ d) ⊎ Has xs d
    forth h = elim (or_cases (same_device x d) (contains xs d) h) [
      | inl e ↦ inl ((same_device_iff x d).0 e)
      | inr e ↦ inr e
    ]

    back : (x ≡ d) ⊎ Has xs d → Has (x ∷ xs) d
    back (inl e) = or_left (same_device x d) (contains xs d) ((same_device_iff x d).1 e)
    back (inr h) = or_right (same_device x d) (contains xs d) h

insert_at :
    (h x d : DeviceNumber) (xs rest : List DeviceNumber) (b c : Bool)
    → (b ≡ true → x ≡ h)
    → Has rest d ↔ ((h ≡ d) ⊎ Has xs d)
    → Has (if b then x ∷ xs else if c then h ∷ x ∷ xs else x ∷ rest) d ↔ ((h ≡ d) ⊎ Has (x ∷ xs) d)
insert_at h x d xs rest true c e i = (inr, back)
  where
    back : (h ≡ d) ⊎ Has (x ∷ xs) d → Has (x ∷ xs) d
    back (inl same) = (Has-cons_iff d x xs).1 (inl (e refl ∙ same))
    back (inr there) = there
insert_at h x d xs rest false true e i = Has-cons_iff d h (x ∷ xs)
insert_at h x d xs rest false false e i = (forth, back)
  where
    forth : Has (x ∷ rest) d → (h ≡ d) ⊎ Has (x ∷ xs) d
    forth there = elim ((Has-cons_iff d x rest).0 there) [
      | inl same ↦ inr ((Has-cons_iff d x xs).1 (inl same))
      | inr later ↦ elim (i.0 later) [
        | inl same ↦ inl same
        | inr old ↦ inr ((Has-cons_iff d x xs).1 (inr old))
      ]
    ]

    back : (h ≡ d) ⊎ Has (x ∷ xs) d → Has (x ∷ rest) d
    back (inl same) = (Has-cons_iff d x rest).1 (inr (i.1 (inl same)))
    back (inr there) = elim ((Has-cons_iff d x xs).0 there) [
      | inl same ↦ (Has-cons_iff d x rest).1 (inl same)
      | inr old ↦ (Has-cons_iff d x rest).1 (inr (i.1 (inr old)))
    ]

-- `insert` adds the device and nothing else.
pub Has-insert :
    (h : DeviceNumber) (ds : List DeviceNumber) (d : DeviceNumber)
    → Has (insert h ds) d ↔ ((h ≡ d) ⊎ Has ds d)
unfolding insert
Has-insert h [] d = Has-cons_iff d h []
Has-insert h (x ∷ xs) d =
    insert_at h x d xs (insert h xs) (same_device x h) (device_before h x) (same_device_iff x h).0
      (Has-insert h xs d)

pub length-insert_le :
    (h : DeviceNumber) (ds : List DeviceNumber) → length (insert h ds) ≤ suc (length ds)
unfolding insert
length-insert_le h [] = omega arith
length-insert_le h (x ∷ xs) = by_tests (same_device x h) (device_before h x) (length-insert_le h xs)
  where
    by_tests :
        (b c : Bool)
        → length (insert h xs) ≤ suc (length xs)
        → length (if b then x ∷ xs else if c then h ∷ x ∷ xs else x ∷ insert h xs)
          ≤ suc (length (x ∷ xs))
    by_tests true c i = omega arith
    by_tests false true i = omega arith
    by_tests false false i = omega arith

-- How many of the first list are not in the second.
abbrev pub missing : List DeviceNumber → List DeviceNumber → ℕ
missing [] ds = 0
missing (u ∷ us) ds = if contains ds u then missing us ds else suc (missing us ds)

pub missing-le : (us ds : List DeviceNumber) → missing us ds ≤ length us
missing-le [] ds = omega arith
missing-le (u ∷ us) ds = by_test (contains ds u) (missing-le us ds)
  where
    by_test :
        (b : Bool)
        → missing us ds ≤ length us
        → (if b then missing us ds else suc (missing us ds)) ≤ suc (length us)
    by_test true i = omega arith
    by_test false i = omega arith

impossible : {A : Type 0} → false ≡ true → A
impossible h = cc

step_lt :
    (b c : Bool) (m n : ℕ)
    → (b ≡ true → c ≡ true)
    → n < m
    → (if c then n else suc n) < (if b then m else suc m)
step_lt true true m n e h = h
step_lt true false m n e h = impossible (e refl)
step_lt false true m n e h = omega arith
step_lt false false m n e h = omega arith

found_lt :
    (b c : Bool) (m n : ℕ)
    → b ≡ false
    → c ≡ true
    → n ≤ m
    → (if c then n else suc n) < (if b then m else suc m)
found_lt true c m n e f h = impossible (sym e)
found_lt false false m n e f h = impossible f
found_lt false true m n e f h = omega arith

step_le :
    (b c : Bool) (m n : ℕ)
    → (b ≡ true → c ≡ true)
    → n ≤ m
    → (if c then n else suc n) ≤ (if b then m else suc m)
step_le true true m n e h = h
step_le true false m n e h = impossible (e refl)
step_le false true m n e h = omega arith
step_le false false m n e h = omega arith

missing-insert_le :
    (us : List DeviceNumber) (h : DeviceNumber) (ds : List DeviceNumber)
    → missing us (insert h ds) ≤ missing us ds
missing-insert_le [] h ds = omega arith
missing-insert_le (u ∷ us) h ds =
    step_le (contains ds u) (contains (insert h ds) u) _ _ (λ e. (Has-insert h ds u).1 (inr e))
      (missing-insert_le us h ds)

-- A device that was missing and is inserted is missing no more.
pub missing-insert_lt :
    (us : List DeviceNumber) (h : DeviceNumber) (ds : List DeviceNumber)
    → Has us h
    → contains ds h ≡ false
    → missing us (insert h ds) < missing us ds
unfolding contains
missing-insert_lt [] h ds there new = impossible there
missing-insert_lt (u ∷ us) h ds there new = elim ((Has-cons_iff h u us).0 there) [
  | inl same ↦
      found_lt (contains ds u) (contains (insert h ds) u) _ _
        (subst (λ (d : DeviceNumber). contains ds d ≡ false) (sym same) new)
        ((Has-insert h ds u).1 (inl (sym same))) (missing-insert_le us h ds)
  | inr later ↦
      step_lt (contains ds u) (contains (insert h ds) u) _ _ (λ e. (Has-insert h ds u).1 (inr e))
        (missing-insert_lt us h ds later new)
]
