-- ===== src/Platform/Linux/Related/Closure.antt =====
-- `collect_related_device_numbers` of src/worker/linux.rs ends, and what it collects is closed.
use snapdog_os_installer.Prelude.{
  ℕ, zero, suc, ◌+◌, ◌≤◌, ◌<◌, ◌≡◌, refl, sym, ◌∙◌, ◌⊎◌, inl, inr, Bool, true, false, Option, some,
  List, [], ◌∷◌, length, All, arith, subst, if◌then◌else◌,
}
use snapdog_os_installer.Prelude.Result.{Result, ok, err, >>=-eq-ok, ok-injective}
use snapdog_os_installer.Flash.Types.{IoError}
use snapdog_os_installer.Worker.Types.{WorkerError}
use snapdog_os_installer.Platform.Linux.Types.{
  DeviceNumber, not_found, other, SysEntry, Entries, Kernel,
}
use snapdog_os_installer.Platform.Linux.Names.{read_device_number, format_device_number}
use snapdog_os_installer.Platform.Linux.Mountinfo.{contains}
use snapdog_os_installer.Platform.Linux.Related.{
  insert, Work, add_device, add_holders, visit, close,
}
use snapdog_os_installer.Platform.Linux.Related.Sets.{
  Has, Has-insert, Has-cons_iff, missing, missing-insert_lt,
}

-- The number that the entry names is in the set.
abbrev pub EntryIn : List DeviceNumber → Result IoError SysEntry → Type 0
EntryIn ds (err e) = Unit
EntryIn ds (ok entry) = (n : DeviceNumber) → read_device_number entry.dev ≡ ok n → Has ds n

-- All the holders of the device are in the set.
abbrev pub HoldersIn : Kernel → DeviceNumber → List DeviceNumber → Type 0
HoldersIn kernel d ds =
    (entries : List (Result IoError SysEntry))
    → kernel.holders (format_device_number d) ≡ ok entries
    → All (EntryIn ds) entries

EntryIn-grows :
    (ds es : List DeviceNumber) (entry : Result IoError SysEntry)
    → ((d : DeviceNumber) → Has ds d → Has es d)
    → EntryIn ds entry
    → EntryIn es entry
EntryIn-grows ds es (err e) g h = tt
EntryIn-grows ds es (ok entry) g h = λ n r. g n (h n r)

All-grows :
    (ds es : List DeviceNumber) (entries : List (Result IoError SysEntry))
    → ((d : DeviceNumber) → Has ds d → Has es d)
    → All (EntryIn ds) entries
    → All (EntryIn es) entries
All-grows ds es [] g h = tt
All-grows ds es (entry ∷ rest) g h = (EntryIn-grows ds es entry g h.0, All-grows ds es rest g h.1)

-- A finite set of all the numbers that the kernel names as holders.
abbrev pub Names : Kernel → List DeviceNumber → Type 0
Names kernel us = (d : DeviceNumber) → HoldersIn kernel d us

abbrev left : List DeviceNumber → Work → ℕ
left us work = missing us work.devices + length work.pending

-- What the holders of one device add.
record Added (us : List DeviceNumber) (entries : List (Result IoError SysEntry)) (work next : Work)
    : Type 0 where
  grows : (d : DeviceNumber) → Has work.devices d → Has next.devices d
  keeps : (d : DeviceNumber) → Has work.pending d → Has next.pending d
  new : (d : DeviceNumber) → Has next.devices d → Has work.devices d ⊎ Has next.pending d
  added : All (EntryIn next.devices) entries
  fewer : left us next ≤ left us work

record OneAdded (us : List DeviceNumber) (holder : DeviceNumber) (work next : Work) : Type 0 where
  grows : (d : DeviceNumber) → Has work.devices d → Has next.devices d
  keeps : (d : DeviceNumber) → Has work.pending d → Has next.pending d
  new : (d : DeviceNumber) → Has next.devices d → Has work.devices d ⊎ Has next.pending d
  added : Has next.devices holder
  fewer : left us next ≤ left us work

add_device_lem :
    (us : List DeviceNumber) (holder : DeviceNumber) (work : Work)
    → Has us holder
    → OneAdded us holder work (add_device holder work)
add_device_lem us holder work u = by_test (contains work.devices holder) refl
  where
    by_test :
        (b : Bool)
        → contains work.devices holder ≡ b
        → OneAdded us holder work (
            if b
            then work
            else record { devices = insert holder work.devices; pending = holder ∷ work.pending })
    by_test true e = record {
      grows = λ d h. h;
      keeps = λ d h. h;
      new = λ d h. inl h;
      added = e;
      fewer = omega arith;
    }
    by_test false e =
        let l : missing us (insert holder work.devices) < missing us work.devices =
          missing-insert_lt us holder work.devices u e in
        record {
          grows = λ d h. (Has-insert holder work.devices d).1 (inr h);
          keeps = λ d h. (Has-cons_iff d holder work.pending).1 (inr h);
          new = λ d h. elim ((Has-insert holder work.devices d).0 h) [
            | inl same ↦ inr ((Has-cons_iff d holder work.pending).1 (inl same))
            | inr old ↦ inl old
          ];
          added = (Has-insert holder work.devices holder).1 (inl refl);
          fewer = omega arith;
        }

add_holders_lem :
    (us : List DeviceNumber) (entries : List (Result IoError SysEntry)) (work next : Work)
    → All (EntryIn us) entries
    → add_holders entries work ≡ ok next
    → Added us entries work next
unfolding add_holders
add_holders_lem us [] work next u h =
    subst (λ (x : Work). Added us [] work x) (ok-injective h)
      (record {
        grows = λ d i. i;
        keeps = λ d i. i;
        new = λ d i. inl i;
        added = tt;
        fewer = omega arith;
      })
add_holders_lem us (err e ∷ rest) work next u h = cc
add_holders_lem us (ok entry ∷ rest) work next u h =
    let (holder, r, k) = >>=-eq-ok (read_device_number entry.dev) _ h in
    let one = add_device_lem us holder work (u.0 holder r) in
    let more = add_holders_lem us rest (add_device holder work) next u.1 k in
    let f1 : left us (add_device holder work) ≤ left us work = one.fewer in
    let f2 : left us next ≤ left us (add_device holder work) = more.fewer in
    record {
      grows = λ d i. more.grows d (one.grows d i);
      keeps = λ d i. more.keeps d (one.keeps d i);
      new = λ d i. elim (more.new d i) [
        | inl early ↦ elim (one.new d early) [ inl old ↦ inl old | inr p ↦ inr (more.keeps d p) ]
        | inr p ↦ inr p
      ];
      added = (
        λ n q. more.grows n (
            subst (λ (x : DeviceNumber). Has (add_device holder work).devices x)
              (ok-injective (sym r ∙ q)) one.added),
        more.added,
      );
      fewer = omega arith;
    }

-- The holders of a device whose directory answers so.
abbrev AnswersIn : List DeviceNumber → Entries → Type 0
AnswersIn ds entries =
    (list : List (Result IoError SysEntry)) → entries ≡ ok list → All (EntryIn ds) list

record Visited (us : List DeviceNumber) (entries : Entries) (work next : Work) : Type 0 where
  grows : (d : DeviceNumber) → Has work.devices d → Has next.devices d
  keeps : (d : DeviceNumber) → Has work.pending d → Has next.pending d
  new : (d : DeviceNumber) → Has next.devices d → Has work.devices d ⊎ Has next.pending d
  added : AnswersIn next.devices entries
  fewer : left us next ≤ left us work

visit_lem :
    (us : List DeviceNumber) (entries : Entries) (work next : Work)
    → AnswersIn us entries
    → visit entries work ≡ ok next
    → Visited us entries work next
unfolding visit
visit_lem us (err not_found) work next u h =
    subst (λ (x : Work). Visited us (err not_found) work x) (ok-injective h)
      (record {
        grows = λ d i. i;
        keeps = λ d i. i;
        new = λ d i. inl i;
        added = λ list e. cc;
        fewer = omega arith;
      })
visit_lem us (err (other e)) work next u h = cc
visit_lem us (ok entries) work next u h =
    let a = add_holders_lem us entries work next (u entries refl) h in
    record {
      grows = a.grows;
      keeps = a.keeps;
      new = a.new;
      added = λ list e.
          subst (λ (l : List (Result IoError SysEntry)). All (EntryIn next.devices) l)
            (ok-injective e) a.added;
      fewer = a.fewer;
    }

-- The set has the devices of the start, and with each device all of its holders.
pub record IsClosed (kernel : Kernel) (start ds : List DeviceNumber) : Type 0 where
  pub starts : (d : DeviceNumber) → Has start d → Has ds d
  pub closed : (d : DeviceNumber) → Has ds d → HoldersIn kernel d ds

abbrev pub IsCollected :
    Kernel → List DeviceNumber → Result WorkerError (List DeviceNumber) → Type 0
IsCollected kernel start (err e) = Unit
IsCollected kernel start (ok ds) = IsClosed kernel start ds

abbrev pub Collects :
    Kernel → List DeviceNumber → Option (Result WorkerError (List DeviceNumber)) → Type 0
Collects kernel start o =
    (r : Result WorkerError (List DeviceNumber)) × (o ≡ some r) × IsCollected kernel start r

abbrev pub Pends : Kernel → List DeviceNumber → List DeviceNumber → Type 0
Pends kernel devices pending =
    (d : DeviceNumber) → Has devices d → Has pending d ⊎ HoldersIn kernel d devices

pub not_nil : (d : DeviceNumber) → Has [] d → ⊥
unfolding contains
not_nil d h = cc

HoldersIn-grows :
    (kernel : Kernel) (d : DeviceNumber) (ds es : List DeviceNumber)
    → ((x : DeviceNumber) → Has ds x → Has es x)
    → HoldersIn kernel d ds
    → HoldersIn kernel d es
HoldersIn-grows kernel d ds es g h = λ entries e. All-grows ds es entries g (h entries e)

-- What waited waits, or is the one that was visited; what is new waits.
Visited-Pends :
    (kernel : Kernel) (us devices : List DeviceNumber) (device : DeviceNumber)
    (pending : List DeviceNumber) (next : Work)
    → Pends kernel devices (device ∷ pending)
    → Visited us
        (kernel.holders (format_device_number device))
        (record { devices = devices; pending = pending })
        next
    → Pends kernel next.devices next.pending
Visited-Pends kernel us devices device pending next p v = λ d h. elim (v.new d h) [
  | inr waits ↦ inl waits
  | inl old ↦ elim (p d old) [
    | inr done ↦ inr (HoldersIn-grows kernel d devices next.devices v.grows done)
    | inl waited ↦ elim ((Has-cons_iff d device pending).0 waited) [
      | inr later ↦ inl (v.keeps d later)
      | inl same ↦ inr (subst (λ (x : DeviceNumber). HoldersIn kernel x next.devices) same v.added)
    ]
  ]
]

-- One round of the loop, given what the rounds after it do.
round_lem :
    (kernel : Kernel) (us : List DeviceNumber)
    → Names kernel us
    → (fuel : ℕ) (devices : List DeviceNumber) (device : DeviceNumber) (pending : List DeviceNumber)
    → missing us devices + length (device ∷ pending) ≤ suc fuel
    → Pends kernel devices (device ∷ pending)
    → ((ds ps : List DeviceNumber)
        → missing us ds + length ps ≤ fuel
        → Pends kernel ds ps
        → Collects kernel ds (close kernel fuel ds ps))
    → (v : Result WorkerError Work)
    → visit
        (kernel.holders (format_device_number device))
        (record { devices = devices; pending = pending })
      ≡ v
    → Collects kernel devices
        (elim v [ err e ↦ some (err e) | ok work ↦ close kernel fuel work.devices work.pending ])
round_lem kernel us names fuel devices device pending l p rest (err e) h = (err e, refl, tt)
round_lem kernel us names fuel devices device pending l p rest (ok next) h =
    let before : Work = record { devices = devices; pending = pending } in
    let v =
      visit_lem us (kernel.holders (format_device_number device)) before next (names device) h in
    let f : left us next ≤ left us before = v.fewer in
    let (r, e, c) =
      rest next.devices next.pending (omega arith)
        (Visited-Pends kernel us devices device pending next p v) in
    (r, e, from_start kernel devices next.devices r v.grows c)
  where
    from_start :
        (kernel : Kernel) (ds es : List DeviceNumber) (r : Result WorkerError (List DeviceNumber))
        → ((d : DeviceNumber) → Has ds d → Has es d)
        → IsCollected kernel es r
        → IsCollected kernel ds r
    from_start kernel ds es (err e) g c = tt
    from_start kernel ds es (ok xs) g c = record {
      starts = λ d h. c.starts d (g d h);
      closed = c.closed;
    }

pub close_lem :
    (kernel : Kernel) (us : List DeviceNumber)
    → Names kernel us
    → (fuel : ℕ) (devices pending : List DeviceNumber) → missing us devices + length pending ≤ fuel
    → Pends kernel devices pending
    → Collects kernel devices (close kernel fuel devices pending)
unfolding close
close_lem kernel us names zero devices [] l p = (
  ok devices,
  refl,
  record {
    starts = λ d h. h;
    closed = λ d h. elim (p d h) [ inl n ↦ absurd (not_nil d n) | inr k ↦ k ];
  },
)
close_lem kernel us names (suc fuel) devices [] l p = (
  ok devices,
  refl,
  record {
    starts = λ d h. h;
    closed = λ d h. elim (p d h) [ inl n ↦ absurd (not_nil d n) | inr k ↦ k ];
  },
)
close_lem kernel us names zero devices (device ∷ pending) l p = absurd (omega arith)
close_lem kernel us names (suc fuel) devices (device ∷ pending) l p =
    round_lem kernel us names fuel devices device pending l p (close_lem kernel us names fuel)
      (visit (kernel.holders (format_device_number device))
        (record { devices = devices; pending = pending }))
      refl
