-- ===== src/Platform/Verifier/Reading.antt =====
-- The verifiers of src/worker/linux.rs and src/worker/windows.rs read the bytes of the disk.
use snapdog_os_installer.Prelude.{
  ℕ, ◌+◌, ◌-◌, ◌≤◌, ◌<◌, ◌≡◌, refl, sym, ap, ◌∙◌, min, true, false, not, ◌||◌, [], ◌∷◌, Bytes,
  length, take, drop, length-drop, length-take_eq, drop-drop, take-drop-take, leb, ◌==◌, ◌%◌,
  u64_mod, arith, or_false,
}
use snapdog_os_installer.Prelude.Result.{Result, ok, err}
use snapdog_os_installer.Prelude.Exec.{
  Exec, pure, lift, ◌>>=◌, Post, Triple, Triple-bind, Triple-pure, Triple-modify, Triple-fail_if,
  Triple-if, Triple-assume, Triple-lift_ok,
}
use snapdog_os_installer.Flash.Types.{IoError}
use snapdog_os_installer.Drives.Windows.{valid_sector_geometry}
use snapdog_os_installer.Platform.Verifier.Transfer.{
  Limits, Transfer, transfer, linux_limits, windows_limits,
}
use snapdog_os_installer.Platform.Verifier.Read.{
  DiskFile, Verifier, on_file, hand_on, run_transfer, read, read_direct, read_unbuffered,
}
use snapdog_os_installer.Platform.Verifier.Bounds.{
  IsSound, Serves, linux_transfer, windows_transfer,
}

-- A disk with these bytes: a read returns some of them from the position on, at most as many as asked.
-- `At n w`: the file stands at `n`; `I w`: it stands somewhere.
pub record DiskContract {W : Type 0} (file : DiskFile W) (disk : Bytes) (At : ℕ → W → Type 0)
    (I : W → Type 0) : Type 0 where
  pub seek_start : (n : ℕ) → Triple I (file.seek_start n) (λ _. At n) (λ _. I)
  pub read :
      (n k : ℕ)
      → Triple
          (At n)
          (file.read k)
          (λ b w. I w × (b ≡ take (length b) (drop n disk)) × (length b ≤ k))
          (λ _. I)

-- The part of what the file returned that is handed on.
slice_lem :
    (disk bytes : Bytes) (start prefix copied : ℕ)
    → bytes ≡ take (length bytes) (drop start disk)
    → prefix + copied ≤ length bytes
    → (length (take copied (drop prefix bytes)) ≡ copied)
      × (take copied (drop prefix bytes) ≡ take copied (drop (start + prefix) disk))
slice_lem disk bytes start prefix copied e h =
    let d : length (drop prefix bytes) ≡ length bytes - prefix = length-drop prefix bytes in
    (
      length-take_eq copied (drop prefix bytes) (omega arith),
      ap (λ (b : Bytes). take copied (drop prefix b)) e
          ∙ take-drop-take copied prefix (length bytes) (drop start disk) h
          ∙ ap (λ (b : Bytes). take copied b) (drop-drop prefix start disk),
    )

module _ {W : Type 0} (disk : Bytes) (capacity : ℕ) (I : W → Type 0) where
  -- Some bytes of the disk from `p` on were returned, no more than the output takes, and the position
  -- has moved behind them, not past the capacity.
  pub record IsNext (p output : ℕ) (b : Bytes) (v : Verifier W) : Type 0 where
    pub kept : I v.world
    pub bytes : b ≡ take (length b) (drop p disk)
    pub room : length b ≤ output
    pub moved : v.position ≡ p + length b
    pub inside : p ≤ capacity → v.position ≤ capacity

  abbrev pub Stands : ℕ → Verifier W → Type 0
  Stands p v = I v.world × (v.position ≡ p)

paired :
    {W A : Type 0} (Q : A → W → Type 0) (R : W → Type 0) {p q : ℕ} (r : Result IoError A) (w : W)
    → q ≡ p
    → Post Q (λ _. R) r w
    → Post
        (λ a (v : Verifier W). Q a v.world × (v.position ≡ p))
        (λ _ (v : Verifier W). R v.world × (v.position ≡ p))
        r
        (record { position = q; world = w })
paired Q R (ok a) w e h = (h, e)
paired Q R (err x) w e h = (h, e)

module _ {W : Type 0} (limits : Limits) (file : DiskFile W) (disk : Bytes) (capacity : ℕ)
    {At : ℕ → W → Type 0} {I : W → Type 0} (k : DiskContract file disk At I) where
  on_file_lem :
      {A : Type 0} {P R : W → Type 0} {Q : A → W → Type 0} (p : ℕ) (m : Exec W IoError A)
      → Triple P m Q (λ _. R)
      → Triple
          (λ (v : Verifier W). P v.world × (v.position ≡ p))
          (on_file limits file capacity m)
          (λ a v. Q a v.world × (v.position ≡ p))
          (λ _ v. R v.world × (v.position ≡ p))
  unfolding on_file
  on_file_lem p m t = record {
    at = λ v h. paired _ _ (m v.world).0 (m v.world).1 h.1 (t.at v.world h.0);
  }

  hand_on_lem :
      (p output : ℕ) (t : Transfer) (bytes : Bytes)
      → IsSound limits.sector_size capacity p output t
      → bytes ≡ take (length bytes) (drop t.start disk)
      → Triple
          (Stands disk capacity I p)
          (hand_on limits file capacity t bytes)
          (IsNext disk capacity I p output)
          (λ _. Stands disk capacity I p)
  unfolding hand_on
  hand_on_lem p output t [] sound e = Triple-pure [] λ v h. record {
    kept = h.0;
    bytes = refl;
    room = omega arith;
    moved = h.1 ∙ (let z : p ≡ p + 0 = omega arith in z);
    inside = λ l. omega arith;
  }
  hand_on_lem p output t (b ∷ bs) sound e =
      let at : t.start + t.prefix ≡ p = sound.at in
      let room : t.available ≤ output = sound.room in
      let inside : p + t.available ≤ capacity = sound.inside in
      let bytes : Bytes = b ∷ bs in
      let copied : ℕ = min t.available (length bytes - t.prefix) in
      Triple-bind
        (λ _ v.
          Stands disk capacity I p v
          × ((not (length bytes % limits.sector_size == 0) || leb (length bytes) t.prefix) ≡ false))
        (Triple-fail_if _ _ λ v h. h)
        λ _. Triple-assume λ tested.
          let (_, more) =
            or_false (not (length bytes % limits.sector_size == 0)) (leb (length bytes) t.prefix)
              tested in
          let behind : t.prefix < length bytes = ground arith in
          let (l, s) = slice_lem disk bytes t.start t.prefix copied e (omega arith) in
          let lc : length (take copied (drop t.prefix bytes)) ≡ copied = l in
          Triple-bind (λ _ v. I v.world × (v.position ≡ p + copied))
            (Triple-modify _ λ v h. (h.0, ap (λ (n : ℕ). n + copied) h.1))
            λ _. Triple-pure (take copied (drop t.prefix bytes)) λ v h. record {
              kept = h.0;
              bytes =
                  s
                  ∙ ap (λ (n : ℕ). take copied (drop n disk)) at
                  ∙ ap (λ (n : ℕ). take n (drop p disk)) (sym l);
              room = omega arith;
              moved = h.1 ∙ ap (λ (n : ℕ). p + n) (sym l);
              inside = λ q. omega arith;
            }

  run_transfer_lem :
      (p output : ℕ) (t : Transfer)
      → IsSound limits.sector_size capacity p output t
      → Triple
          (Stands disk capacity I p)
          (run_transfer limits file capacity t)
          (IsNext disk capacity I p output)
          (λ _. Stands disk capacity I p)
  unfolding run_transfer
  run_transfer_lem p output t sound =
      Triple-bind (λ _ v. At t.start v.world × (v.position ≡ p))
        (on_file_lem p _ (k.seek_start t.start))
        λ _.
          Triple-bind
            (λ bytes v.
              (I v.world
                × (bytes ≡ take (length bytes) (drop t.start disk))
                × (length bytes ≤ t.length))
              × (v.position ≡ p))
            (on_file_lem p _ (k.read t.start t.length))
            λ bytes. record {
              at = λ v h. (hand_on_lem p output t bytes sound h.0.1).at v (h.0.0, h.1);
            }

  nothing_lem :
      (p output : ℕ)
      → Triple {E = IoError}
          (Stands disk capacity I p)
          (pure [])
          (IsNext disk capacity I p output)
          (λ _. Stands disk capacity I p)
  nothing_lem p output = Triple-pure [] λ v h. record {
    kept = h.0;
    bytes = refl;
    room = omega arith;
    moved = h.1 ∙ (let z : p ≡ p + 0 = omega arith in z);
    inside = λ l. omega arith;
  }

  something_lem :
      (p q output : ℕ)
      → (p < capacity → 0 < output → Serves limits capacity p output)
      → q ≡ p
      → (output == 0 || leb capacity q) ≡ false
      → Triple
          (Stands disk capacity I p)
          (do t ← lift (transfer limits capacity q output); run_transfer limits file capacity t)
          (IsNext disk capacity I p output)
          (λ _. Stands disk capacity I p)
  something_lem p q output serves e tested =
      let (t, r, sound) = serves (ground arith) (ground arith) in
      Triple-lift_ok (run_transfer limits file capacity) (transfer limits capacity q output) t
        (ap (λ (n : ℕ). transfer limits capacity n output) e ∙ r)
        (run_transfer_lem p output t sound)

  read_lem :
      (p output : ℕ)
      → (p < capacity → 0 < output → Serves limits capacity p output)
      → Triple
          (Stands disk capacity I p)
          (read limits file capacity output)
          (IsNext disk capacity I p output)
          (λ _. Stands disk capacity I p)
  unfolding read
  read_lem p output serves = record {
    at = λ v h.
        (Triple-if (output == 0 || leb capacity v.position) (λ _. nothing_lem p output)
            (something_lem p v.position output serves h.1)).at
          v h;
  }

-- For a disk whose reads return its bytes, on Linux: `read` returns the bytes of the disk from its
-- position on, not more than the output takes, and moves the position behind them, not past the
-- capacity; after an error the position is unchanged.
pub linux_read_lem :
    {W : Type 0} (file : DiskFile W) (disk : Bytes) (capacity : ℕ) {At : ℕ → W → Type 0}
    {I : W → Type 0}
    → DiskContract file disk At I
    → (p output : ℕ)
    → Triple
        (Stands disk capacity I p)
        (read_direct file capacity output)
        (IsNext disk capacity I p output)
        (λ _. Stands disk capacity I p)
linux_read_lem file disk capacity k p output =
    read_lem linux_limits file disk capacity k p output (linux_transfer capacity p output)

-- For a disk whose reads return its bytes, on Windows, where the geometry was found valid and the
-- capacity has 64 bits: `read` returns the bytes of the disk from its position on, not more than the
-- output takes, and moves the position behind them, not past the capacity; after an error the position
-- is unchanged.
pub windows_read_lem :
    {W : Type 0} (file : DiskFile W) (disk : Bytes) (capacity : ℕ) {At : ℕ → W → Type 0}
    {I : W → Type 0} (logical physical : ℕ)
    → DiskContract file disk At I
    → valid_sector_geometry capacity logical physical ≡ true
    → capacity < u64_mod
    → (p output : ℕ)
    → Triple
        (Stands disk capacity I p)
        (read_unbuffered file capacity logical physical output)
        (IsNext disk capacity I p output)
        (λ _. Stands disk capacity I p)
windows_read_lem file disk capacity logical physical k g b p output =
    read_lem (windows_limits logical physical) file disk capacity k p output
      (windows_transfer capacity logical physical p output g b)
