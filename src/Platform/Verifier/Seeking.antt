-- ===== src/Platform/Verifier/Seeking.antt =====
-- `seek` of the verifiers of src/worker/linux.rs and src/worker/windows.rs.
use snapdog_os_installer.Prelude.{
  ℕ, suc, ◌+◌, ◌-◌, ◌≤◌, ◌≡◌, refl, Bool, true, false, ltb, leb, arith, ◌↔◌, ◌<◌, subst, sym,
  if◌then◌else◌,
}
use snapdog_os_installer.Prelude.Integers.{ℤ, pos, negsuc, ◌+ℤ◌}
use snapdog_os_installer.Prelude.Exec.{Post, Triple}
use snapdog_os_installer.Platform.Verifier.Transfer.{Limits}
use snapdog_os_installer.Platform.Verifier.Read.{
  DiskFile, Verifier, SeekFrom, start, current, end, target, seek_unless, seek_to, seek,
}

-- The place that is asked for, without signed numbers.
abbrev pub Offset : ℕ → ℤ → ℕ → Type 0
Offset p (pos d) n = n ≡ p + d
Offset p (negsuc d) n = n + suc d ≡ p

abbrev pub Reaches : ℕ → SeekFrom → ℕ → ℕ → Type 0
Reaches capacity (start m) p n = n ≡ m
Reaches capacity (current offset) p n = Offset p offset n
Reaches capacity (end offset) p n = Offset capacity offset n

-- The number itself, if it is not negative.
abbrev Is : ℤ → ℕ → Type 0
Is (pos m) n = n ≡ m
Is (negsuc m) n = ⊥

subtract_iff :
    (p d n : ℕ) → Is (if leb (suc d) p then pos (p - suc d) else negsuc (d - p)) n ↔ (n + suc d ≡ p)
subtract_iff p d n = by_test (leb (suc d) p) refl
  where
    by_test :
        (b : Bool)
        → leb (suc d) p ≡ b
        → Is (if b then pos (p - suc d) else negsuc (d - p)) n ↔ (n + suc d ≡ p)
    by_test true e = let l : suc d ≤ p = ground arith in ((λ h. omega arith), (λ h. omega arith))
    by_test false e =
        let l : p < suc d = ground arith in ((λ h. absurd h), (λ h. absurd (omega arith)))

signed_lem : (p : ℕ) (offset : ℤ) (n : ℕ) → Is (pos p +ℤ offset) n ↔ Offset p offset n
signed_lem p (pos d) n = ((λ h. h), (λ h. h))
signed_lem p (negsuc d) n = subtract_iff p d n

module _ {W : Type 0} (limits : Limits) (file : DiskFile W) (capacity : ℕ) where
  target_iff :
      (from : SeekFrom) (p n : ℕ)
      → Is (target limits file capacity from p) n ↔ Reaches capacity from p n
  target_iff (start m) p n = ((λ h. h), (λ h. h))
  target_iff (current offset) p n = signed_lem p offset n
  target_iff (end offset) p n = signed_lem capacity offset n

  abbrev pub Reached : SeekFrom → ℕ → ℕ → Verifier W → Type 0
  Reached from p n v = (v.position ≡ n) × (n ≤ capacity) × Reaches capacity from p n

  abbrev pub Unmoved : SeekFrom → ℕ → Verifier W → Type 0
  Unmoved from p v = (v.position ≡ p) × ((n : ℕ) → n ≤ capacity → Reaches capacity from p n → ⊥)

  seek_to_lem :
      (from : SeekFrom) (p : ℕ) (z : ℤ) (v : Verifier W)
      → ((n : ℕ) → Is z n ↔ Reaches capacity from p n)
      → v.position ≡ p
      → Post
          (Reached from p)
          (λ _. Unmoved from p)
          (seek_to limits file capacity z v).0
          (seek_to limits file capacity z v).1
  seek_to_lem from p (negsuc m) v i e = (e, λ n l r. (i n).1 r)
  seek_to_lem from p (pos m) v i e = by_test (ltb capacity m) refl
    where
      by_test :
          (b : Bool)
          → ltb capacity m ≡ b
          → Post
              (Reached from p)
              (λ _. Unmoved from p)
              (seek_unless limits file capacity b m v).0
              (seek_unless limits file capacity b m v).1
      by_test true h = (
        e,
        λ n l r.
            let same : n ≡ m = (i n).1 r in let out : capacity < m = ground arith in omega arith,
      )
      by_test false h = (refl, (let l : m ≤ capacity = ground arith in l), (i m).0 refl)

  -- When `seek` succeeds, it has moved to the place asked for and returned it, and that place lies
  -- within the capacity; when it fails, the place lies outside and the position is unchanged.
  pub seek_lem :
      (from : SeekFrom) (p : ℕ)
      → Triple
          (λ v. v.position ≡ p)
          (seek limits file capacity from)
          (Reached from p)
          (λ _. Unmoved from p)
  unfolding seek
  seek_lem from p = record {
    at = λ v e.
        seek_to_lem from p (target limits file capacity from v.position) v
          (subst
            (λ q. (n : ℕ) → Is (target limits file capacity from q) n ↔ Reaches capacity from p n)
            (sym e) (target_iff from p))
          e;
  }
