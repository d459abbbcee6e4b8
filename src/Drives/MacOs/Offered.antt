-- ===== src/Drives/MacOs/Offered.antt =====
-- What the macOS build offers: drives that its own worker accepts.
use snapdog_os_installer.Prelude.{
  ℕ, ◌<◌, ◌≡◌, refl, sym, ap, subst, ◌∙◌, Bool, true, false, Option, none, some, some-injective,
  List, [], ◌∷◌, ◌++◌, Text, text, eqt_refl, map_get, map_insert, All-map_insert, All-map_get, All,
  Any, All-found, Any-map, All-Any, inl, inr, ==_iff, ◌==◌, lt→ltb, u64_mod, arith, if◌then◌else◌,
}
use snapdog_os_installer.Prelude.Result.{Result, ok, err, >>=-eq-ok, ok-injective}
use snapdog_os_installer.Model.{Drive}
use snapdog_os_installer.Pipeline.Job.{worker_drive}
use snapdog_os_installer.Drives.MacOs.{
  DiskRecord, SafeMedia, DriveError, valid_identifier, format_stable_identifier, is_unsafe,
  contains_id, safe_media, has_key, media_loop, safe_media_records, name_or_default, drive_of,
  drive_of_parts, registry_drive, keep_some, offered_drives, removable_drives, valid_worker_drive,
}
use snapdog_os_installer.Drives.MacOs.Identity.{split-format}

abbrev Entry : Type 0
Entry = Text × SafeMedia

if_err :
    {A : Type 0} (b : Bool) (e : DriveError) (m : Result DriveError A) {a : A}
    → (if b then err e else m) ≡ ok a
    → m ≡ ok a
if_err true e m h = cc
if_err false e m h = h

-- One round of the loop: the record is passed over, or taken in, or it stops the loop.
round_lem :
    {A : Type 0} {G : Type 0} (unsafe : Bool) (r : DiskRecord) (ids : List ℕ) (m : List Entry)
    (skipped kept : Result DriveError A) {a : A}
    → (skipped ≡ ok a → G)
    → (is_unsafe r ≡ false → kept ≡ ok a → G)
    → is_unsafe r ≡ unsafe
    → (if unsafe
        then skipped
        else if contains_id r.registry_entry_id ids
        then err (DriveError.duplicate_entry_id r.registry_entry_id)
        else if has_key (map_get r.bsd_name m)
        then err (DriveError.duplicate_identity r.bsd_name)
        else kept)
      ≡ ok a
    → G
round_lem true r ids m skipped kept skip keep e h = skip h
round_lem false r ids m skipped kept skip keep e h = keep e (
    if_err (has_key (map_get r.bsd_name m)) _ _
      (if_err (contains_id r.registry_entry_id ids) _ _ h))

-- What holds of every entry that a safe record makes holds of the whole map.
media_loop_lem :
    (P : Entry → Type 0) (records : List DiskRecord) (ids : List ℕ) (m out : List Entry)
    → All (λ (r : DiskRecord). is_unsafe r ≡ false → P (r.bsd_name, safe_media r)) records
    → All P m
    → media_loop records ids m ≡ ok out
    → All P out
unfolding media_loop
media_loop_lem P [] ids m out new old h = subst (λ (x : List Entry). All P x) (ok-injective h) old
media_loop_lem P (r ∷ rest) ids m out new old h =
    round_lem (is_unsafe r) r ids m _ _ (media_loop_lem P rest ids m out new.1 old)
      (λ safe.
        media_loop_lem P rest (r.registry_entry_id ∷ ids) (map_insert r.bsd_name (safe_media r) m)
          out new.1 (All-map_insert P r.bsd_name (safe_media r) m (new.0 safe) old))
      refl h

-- The entry is what a safe record makes.
record IsMade (r : DiskRecord) (entry : Entry) : Type 0 where
  safe : is_unsafe r ≡ false
  key : entry.0 ≡ r.bsd_name
  entry_id : entry.1.registry_entry_id ≡ r.registry_entry_id
  size : entry.1.size ≡ r.size

pub record IsOffer (d : Drive) (r : DiskRecord) : Type 0 where
  pub safe : is_unsafe r ≡ false
  pub device : d.device ≡ text "/dev/" ++ r.bsd_name
  pub id : d.id ≡ format_stable_identifier r.bsd_name r.registry_entry_id
  pub capacity : d.capacity ≡ r.size
  pub valid : valid_worker_drive (worker_drive d) ≡ true

record SafeParts (r : DiskRecord) : Type 0 where
  name : valid_identifier r.bsd_name ≡ true
  entry_id : 0 < r.registry_entry_id
  size : 0 < r.size

safe_parts : (r : DiskRecord) → is_unsafe r ≡ false → SafeParts r
unfolding is_unsafe
safe_parts r h = record { name = ground arith; entry_id = ground arith; size = ground arith }

offer_lem :
    (r : DiskRecord) (d : Drive)
    → is_unsafe r ≡ false
    → r.registry_entry_id < u64_mod
    → d.device ≡ text "/dev/" ++ r.bsd_name
    → d.id ≡ format_stable_identifier r.bsd_name r.registry_entry_id
    → d.capacity ≡ r.size
    → IsOffer d r
unfolding valid_worker_drive
offer_lem r d safe small device id capacity = record {
  safe = safe;
  device = device;
  id = id;
  capacity = capacity;
  valid = rw id (
      rw
        (split-format r.bsd_name r.registry_entry_id (safe_parts r safe).name
          (safe_parts r safe).entry_id small)
        (rw device (
          rw capacity (
            rw (lt→ltb 0 r.size (safe_parts r safe).size)
              (rw (eqt_refl (text "/dev/" ++ r.bsd_name)) refl)))));
}

-- The key and the id of an entry that a safe record makes.
record Keyed (k : Text) (media : SafeMedia) : Type 0 where
  name : valid_identifier k ≡ true
  entry_id : 0 < media.registry_entry_id
  small : media.registry_entry_id < u64_mod

Any-elim {ℓ} :
    {A : Type ℓ} {P : A → Type 0} {G : Type 0} (f : (a : A) → P a → G) (xs : List A) → Any P xs → G
Any-elim f [] i = elim i [ ]
Any-elim f (x ∷ xs) (inl p) = f x p
Any-elim f (x ∷ xs) (inr i) = Any-elim f xs i

keyed :
    (records : List DiskRecord) (k : Text) (media : SafeMedia)
    → All (λ (r : DiskRecord). r.registry_entry_id < u64_mod) records
    → Any (λ r. IsMade r (k, media)) records
    → Keyed k media
keyed records k media fits found =
    Any-elim (λ r p. p) records
      (All-Any {R = λ _. Keyed k media}
        (λ r fit m. record {
          name = ap valid_identifier m.key ∙ (safe_parts r m.safe).name;
          entry_id = subst (λ (x : ℕ). 0 < x) (sym m.entry_id) (safe_parts r m.safe).entry_id;
          small = subst (λ (x : ℕ). x < u64_mod) (sym m.entry_id) fit;
        })
        records fits found)

made_lem :
    (records : List DiskRecord) (out : List Entry)
    → safe_media_records records ≡ ok out
    → All (λ (e : Entry). Any (λ r. IsMade r e) records) out
unfolding safe_media_records
made_lem records out h =
    media_loop_lem (λ e. Any (λ r. IsMade r e) records) records [] [] out
      (All-found (λ (a r : DiskRecord). (is_unsafe a ≡ false) → IsMade r (a.bsd_name, safe_media a))
        (λ a. is_unsafe a ≡ false → Any (λ r. IsMade r (a.bsd_name, safe_media a)) records) records
        (λ a safe. record { safe = safe; key = refl; entry_id = refl; size = refl })
        (λ a found safe. Any-map (λ r f. f safe) records found))
      tt h

-- The records carry 64-bit registry entry ids.
abbrev pub Fits : List DiskRecord → Type 0
Fits records = All (λ (r : DiskRecord). r.registry_entry_id < u64_mod) records

-- What looking up the identifier of a medium gives.
record Looked (k : Text) (n : ℕ) (media : SafeMedia) (d : Drive) : Type 0 where
  same_id : media.registry_entry_id ≡ n
  device : d.device ≡ text "/dev/" ++ k
  id : d.id ≡ format_stable_identifier k n
  capacity : d.capacity ≡ media.size

drive_of_lem :
    (k : Text) (n : ℕ) (o : Option SafeMedia) (d : Drive)
    → drive_of k n o ≡ some d
    → (media : SafeMedia) × (o ≡ some media) × Looked k n media d
drive_of_lem k n none d h = cc
drive_of_lem k n (some media) d h = go (media.registry_entry_id == n) refl h
  where
    made : Drive
    made = record {
      device = text "/dev/" ++ k;
      id = format_stable_identifier k n;
      name = name_or_default media.name;
      capacity = media.size;
    }

    go :
        (same : Bool)
        → (media.registry_entry_id == n) ≡ same
        → (if same then some made else none) ≡ some d
        → (m : SafeMedia) × (some media ≡ some m) × Looked k n m d
    go true e g =
        let q : made ≡ d = some-injective _ _ g in
        (
          media,
          refl,
          record {
            same_id = (==_iff media.registry_entry_id n).0 e;
            device = sym (ap (λ (x : Drive). x.device) q);
            id = sym (ap (λ (x : Drive). x.id) q);
            capacity = sym (ap (λ (x : Drive). x.capacity) q);
          },
        )
    go false e g = cc

lookup_lem :
    (k : Text) (n : ℕ) (records : List DiskRecord) (entries : List Entry) (d : Drive)
    → Fits records
    → All (λ (e : Entry). Any (λ r. IsMade r e) records) entries
    → valid_identifier k ≡ true
    → 0 < n
    → n < u64_mod
    → registry_drive (format_stable_identifier k n) entries ≡ some d
    → Any (λ r. IsOffer d r) records
unfolding registry_drive
lookup_lem k n records entries d fits made valid pos small h =
    let e : drive_of k n (map_get k entries) ≡ some d =
      sym (
        ap (λ (p : Option (Text × ℕ)). drive_of_parts p entries) (split-format k n valid pos small))
      ∙ h in
    let (media, found, looked) = drive_of_lem k n (map_get k entries) d e in
    let source : Any (λ r. IsMade r (k, media)) records =
      All-map_get (λ (e : Entry). Any (λ r. IsMade r e) records) k entries made found in
    All-Any
      (λ r fit m.
        offer_lem r d m.safe fit (looked.device ∙ ap (λ (x : Text). text "/dev/" ++ x) m.key)
          (looked.id
            ∙ ap (λ (x : Text). format_stable_identifier x n) m.key
            ∙ ap (λ (x : ℕ). format_stable_identifier r.bsd_name x)
                (sym looked.same_id ∙ m.entry_id))
          (looked.capacity ∙ m.size))
      records fits source

keep_some_lem :
    {P : Drive → Type 0} (o : Option Drive) (drives : List Drive)
    → ((d : Drive) → o ≡ some d → P d)
    → All P drives
    → All P (keep_some o drives)
keep_some_lem none drives f a = a
keep_some_lem (some d) drives f a = (f d refl, a)

offered_lem :
    (records : List DiskRecord) (entries rest : List Entry)
    → Fits records
    → All (λ (e : Entry). Any (λ r. IsMade r e) records) entries
    → All (λ (e : Entry). Any (λ r. IsMade r e) records) rest
    → All (λ (d : Drive). Any (λ r. IsOffer d r) records) (offered_drives entries rest)
unfolding offered_drives
offered_lem records entries [] fits made left = tt
offered_lem records entries ((k, media) ∷ rest) fits made left =
    keep_some_lem (registry_drive (format_stable_identifier k media.registry_entry_id) entries)
      (offered_drives entries rest)
      (λ d h.
        let key = keyed records k media fits left.0 in
        lookup_lem k media.registry_entry_id records entries d fits made key.name key.entry_id
          key.small h)
      (offered_lem records entries rest fits made left.1)

-- For records with 64-bit entry ids, when the macOS build lists drives without an error, each of
-- them is of a record that passed every safety test, with that record's device, identity and size,
-- and is one that the worker's own check accepts.
pub macos_drives-Offered :
    (records : List DiskRecord) (drives : List Drive)
    → Fits records
    → removable_drives records ≡ ok drives
    → All (λ (d : Drive). Any (λ r. IsOffer d r) records) drives
unfolding removable_drives
macos_drives-Offered records drives fits h =
    let (entries, found, e) = >>=-eq-ok (safe_media_records records) _ h in
    let made = made_lem records entries found in
    subst (λ (x : List Drive). All (λ (d : Drive). Any (λ r. IsOffer d r) records) x)
      (ok-injective e) (offered_lem records entries entries fits made made)
