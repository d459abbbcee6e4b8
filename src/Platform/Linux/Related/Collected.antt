-- ===== src/Platform/Linux/Related/Collected.antt =====
-- What `collect_related_device_numbers` of src/worker/linux.rs returns, and that it returns.
use snapdog_os_installer.Prelude.{
  ℕ, suc, ◌+◌, ◌≤◌, ◌≡◌, refl, sym, ap, ◌∙◌, ◌⊎◌, inl, inr, Bool, true, false, Option, some, List,
  [], ◌∷◌, length, All, arith, subst, if◌then◌else◌,
}
use snapdog_os_installer.Prelude.Result.{Result, ok, err, map_err, >>=-eq-ok, ok-injective}
use snapdog_os_installer.Flash.Types.{IoError}
use snapdog_os_installer.Worker.Types.{WorkerError}
use snapdog_os_installer.Platform.Linux.Types.{DeviceNumber, SysEntry, Entries, BlockRoot, Kernel}
use snapdog_os_installer.Platform.Linux.Names.{file_error, read_device_number}
use snapdog_os_installer.Platform.Linux.Related.{
  insert, map_ok, add_partition, add_partitions, whole_and_partitions, stack_of, close,
  collect_related_device_numbers,
}
use snapdog_os_installer.Platform.Linux.Related.Sets.{
  Has, Has-insert, Has-cons_iff, missing, missing-le, length-insert_le,
}
use snapdog_os_installer.Platform.Linux.Related.Closure.{
  HoldersIn, Names, IsCollected, not_nil, close_lem,
}

-- The number of a partition is in the set.
abbrev pub PartitionIn : List DeviceNumber → Result IoError SysEntry → Type 0
PartitionIn ds (err e) = Unit
PartitionIn ds (ok entry) =
    entry.is_partition ≡ true → (n : DeviceNumber) → read_device_number entry.dev ≡ ok n → Has ds n

record Found (entries : List (Result IoError SysEntry)) (devices found : List DeviceNumber)
    : Type 0 where
  grows : (d : DeviceNumber) → Has devices d → Has found d
  partitions : All (PartitionIn found) entries
  short : length found ≤ length devices + length entries

record FoundOne (entry : SysEntry) (devices found : List DeviceNumber) : Type 0 where
  grows : (d : DeviceNumber) → Has devices d → Has found d
  partition : PartitionIn found (ok entry)
  short : length found ≤ suc (length devices)

impossible : {A : Type 0} → false ≡ true → A
impossible h = cc

add_partition_lem :
    (entry : SysEntry) (devices found : List DeviceNumber)
    → add_partition entry devices ≡ ok found
    → FoundOne entry devices found
add_partition_lem entry devices found = by_test entry.is_partition refl
  where
    inserted :
        (number : Result WorkerError DeviceNumber)
        → read_device_number entry.dev ≡ number
        → map_ok (λ device. insert device devices) number ≡ ok found
        → FoundOne entry devices found
    inserted (err e) r h = cc
    inserted (ok device) r h =
        subst (λ (x : List DeviceNumber). FoundOne entry devices x) (ok-injective h)
          (record {
            grows = λ d i. (Has-insert device devices d).1 (inr i);
            partition = λ p n q. (Has-insert device devices n).1 (inl (ok-injective (sym r ∙ q)));
            short = length-insert_le device devices;
          })

    by_test :
        (b : Bool)
        → entry.is_partition ≡ b
        → (if b
            then map_ok (λ device. insert device devices) (read_device_number entry.dev)
            else ok devices)
          ≡ ok found
        → FoundOne entry devices found
    by_test true e h = inserted (read_device_number entry.dev) refl h
    by_test false e h =
        subst (λ (x : List DeviceNumber). FoundOne entry devices x) (ok-injective h)
          (record {
            grows = λ d i. i;
            partition = λ p n q. impossible (sym e ∙ p);
            short = omega arith;
          })

PartitionIn-grows :
    (ds es : List DeviceNumber) (entry : SysEntry)
    → ((d : DeviceNumber) → Has ds d → Has es d)
    → PartitionIn ds (ok entry)
    → PartitionIn es (ok entry)
PartitionIn-grows ds es entry g h = λ p n r. g n (h p n r)

add_partitions_lem :
    (entries : List (Result IoError SysEntry)) (devices found : List DeviceNumber)
    → add_partitions entries devices ≡ ok found
    → Found entries devices found
unfolding add_partitions
add_partitions_lem [] devices found h =
    subst (λ (x : List DeviceNumber). Found [] devices x) (ok-injective h)
      (record { grows = λ d i. i; partitions = tt; short = omega arith })
add_partitions_lem (err e ∷ rest) devices found h = cc
add_partitions_lem (ok entry ∷ rest) devices found h =
    let (more, r, k) = >>=-eq-ok (add_partition entry devices) _ h in
    let a = add_partitions_lem rest more found k in
    let b = add_partition_lem entry devices more r in
    let s : length found ≤ length more + length rest = a.short in
    let t : length more ≤ suc (length devices) = b.short in
    record {
      grows = λ d i. a.grows d (b.grows d i);
      partitions = (PartitionIn-grows more found entry a.grows b.partition, a.partitions);
      short = omega arith;
    }

abbrev pub entries_count : Entries → ℕ
entries_count (err e) = 0
entries_count (ok entries) = length entries

-- The disk and its partitions.
record Starts (root : BlockRoot) (devices : List DeviceNumber) : Type 0 where
  whole : (n : DeviceNumber) → read_device_number root.dev ≡ ok n → Has devices n
  partitions :
      (entries : List (Result IoError SysEntry))
      → root.entries ≡ ok entries
      → All (PartitionIn devices) entries
  short : length devices ≤ suc (entries_count root.entries)

entries_ok :
    (entries : Entries) (list : List (Result IoError SysEntry))
    → map_err file_error entries ≡ ok list
    → entries ≡ ok list
entries_ok (err e) list h = cc
entries_ok (ok entries) list h = ap ok (ok-injective h)

whole_and_partitions_lem :
    (root : BlockRoot) (devices : List DeviceNumber)
    → whole_and_partitions root ≡ ok devices
    → Starts root devices
unfolding whole_and_partitions insert
whole_and_partitions_lem root devices h =
    let (whole, r, k) = >>=-eq-ok (read_device_number root.dev) _ h in
    let (entries, q, m) = >>=-eq-ok (map_err file_error root.entries) _ k in
    let found = add_partitions_lem entries (whole ∷ []) devices m in
    let same = entries_ok root.entries entries q in
    let s : length devices ≤ 1 + length entries = found.short in
    let c : entries_count root.entries ≡ length entries = ap entries_count same in
    record {
      whole = λ n e. found.grows n ((Has-cons_iff n whole []).1 (inl (ok-injective (sym r ∙ e))));
      partitions = λ list e.
          subst (λ (l : List (Result IoError SysEntry)). All (PartitionIn devices) l)
            (ok-injective (sym same ∙ e)) found.partitions;
      short = omega arith;
    }

stack_of-Has :
    (ds below : List DeviceNumber) (d : DeviceNumber)
    → Has ds d ⊎ Has below d
    → Has (stack_of ds below) d
stack_of-Has [] below d (inr h) = h
stack_of-Has [] below d (inl h) = absurd (not_nil d h)
stack_of-Has (x ∷ xs) below d (inr h) =
    stack_of-Has xs (x ∷ below) d (inr ((Has-cons_iff d x below).1 (inr h)))
stack_of-Has (x ∷ xs) below d (inl h) = elim ((Has-cons_iff d x xs).0 h) [
  | inl same ↦ stack_of-Has xs (x ∷ below) d (inr ((Has-cons_iff d x below).1 (inl same)))
  | inr later ↦ stack_of-Has xs (x ∷ below) d (inl later)
]

stack_of-length :
    (ds below : List DeviceNumber) → length (stack_of ds below) ≡ length ds + length below
stack_of-length [] below = omega arith
stack_of-length (x ∷ xs) below = omega (arith, stack_of-length xs (x ∷ below))

-- The set has the disk and its partitions, and with each device all of its holders.
pub record IsRelated (kernel : Kernel) (root : BlockRoot) (ds : List DeviceNumber) : Type 0 where
  pub whole : (n : DeviceNumber) → read_device_number root.dev ≡ ok n → Has ds n
  pub partitions :
      (entries : List (Result IoError SysEntry))
      → root.entries ≡ ok entries
      → All (PartitionIn ds) entries
  pub closed : (d : DeviceNumber) → Has ds d → HoldersIn kernel d ds

abbrev pub IsRelatedResult : Kernel → BlockRoot → Result WorkerError (List DeviceNumber) → Type 0
IsRelatedResult kernel root (err e) = Unit
IsRelatedResult kernel root (ok ds) = IsRelated kernel root ds

related_lem :
    (kernel : Kernel) (root : BlockRoot) (devices : List DeviceNumber)
    (r : Result WorkerError (List DeviceNumber))
    → Starts root devices
    → IsCollected kernel devices r
    → IsRelatedResult kernel root r
related_lem kernel root devices (err e) s c = tt
related_lem kernel root devices (ok ds) s c = record {
  whole = λ n e. c.starts n (s.whole n e);
  partitions = λ entries e. all_in entries (s.partitions entries e);
  closed = c.closed;
}
  where
    one_in : (entry : Result IoError SysEntry) → PartitionIn devices entry → PartitionIn ds entry
    one_in (err e) h = tt
    one_in (ok entry) h = PartitionIn-grows devices ds entry c.starts h

    all_in :
        (entries : List (Result IoError SysEntry))
        → All (PartitionIn devices) entries
        → All (PartitionIn ds) entries
    all_in [] h = tt
    all_in (entry ∷ rest) h = (one_in entry h.0, all_in rest h.1)

abbrev pub Returns : Kernel → BlockRoot → Option (Result WorkerError (List DeviceNumber)) → Type 0
Returns kernel root o =
    (r : Result WorkerError (List DeviceNumber)) × (o ≡ some r) × IsRelatedResult kernel root r

started_lem :
    (kernel : Kernel) (us : List DeviceNumber) (fuel : ℕ) (root : BlockRoot)
    → Names kernel us
    → length us + suc (entries_count root.entries) ≤ fuel
    → (start : Result WorkerError (List DeviceNumber)) → whole_and_partitions root ≡ start
    → Returns kernel root (elim start [
      | err e ↦ some (err e)
      | ok devices ↦ close kernel fuel devices (stack_of devices [])
    ])
started_lem kernel us fuel root names l (err e) h = (err e, refl, tt)
started_lem kernel us fuel root names l (ok devices) h =
    let s = whole_and_partitions_lem root devices h in
    let a : length devices ≤ suc (entries_count root.entries) = s.short in
    let b : missing us devices ≤ length us = missing-le us devices in
    let c : length (stack_of devices []) ≡ length devices + 0 = stack_of-length devices [] in
    let (r, e, q) =
      close_lem kernel us names fuel devices (stack_of devices []) (omega arith)
        (λ d i. inl (stack_of-Has devices [] d (inl i))) in
    (r, e, related_lem kernel root devices r s q)

-- If all the numbers that the kernel names as holders stand in one finite list, then the collection
-- returns within as many rounds as the list and the disk's directory have entries, and one more. When it
-- returns a set, this has the disk, its partitions, and with each device all of its holders.
pub collect_related_lem :
    (kernel : Kernel) (us : List DeviceNumber) (fuel : ℕ) (root : BlockRoot)
    → Names kernel us
    → length us + suc (entries_count root.entries) ≤ fuel
    → Returns kernel root (collect_related_device_numbers kernel fuel root)
unfolding collect_related_device_numbers
collect_related_lem kernel us fuel root names l =
    started_lem kernel us fuel root names l (whole_and_partitions root) refl
