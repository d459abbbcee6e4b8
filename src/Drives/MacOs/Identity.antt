-- ===== src/Drives/MacOs/Identity.antt =====
-- Stable identifiers on macOS: what is written is read back.
use snapdog_os_installer.Prelude.{
  ℕ, ◌<◌, ◌≡◌, refl, sym, ap, ◌∙◌, true, not, ◌&&◌, ◌||◌, Option, none, some, [], ◌∷◌, ◌++◌, Text,
  text, show, parse_below, parse_below-show, parse_below-lt, show-digits, show-nonempty,
  digits_only, is_empty, split_once, split_once-append, strip_prefix, strip_prefix-eq-append, lacks,
  all-append, ◌==◌, u64_mod, arith, Option-cases, inl, inr, and_iff, Bool-cases,
}
use snapdog_os_installer.Drives.MacOs.{
  at_sign, valid_identifier, format_stable_identifier, nonzero_entry, split_parts,
  split_stable_identifier,
}

-- A text of digits has no separator.
digits-lacks : (s : Text) → digits_only s ≡ true → lacks at_sign s ≡ true
digits-lacks [] h = refl
digits-lacks (c ∷ cs) h = ground (arith, digits-lacks cs)

suffix-lacks :
    (p s : Text) → lacks at_sign p ≡ true → digits_only s ≡ true → lacks at_sign (p ++ s) ≡ true
suffix-lacks p s h d =
    ground (arith, all-append (λ (c : ℕ). not (c == at_sign)) p s, digits-lacks s)

disk-lacks : lacks at_sign (text "disk") ≡ true
unfolding text
disk-lacks = refl

pub valid-lacks : (id : Text) → valid_identifier id ≡ true → lacks at_sign id ≡ true
unfolding valid_identifier
valid-lacks id h = elim (Option-cases (strip_prefix (text "disk") id)) [
  | inl none_left ↦ cc (none_left, h)
  | inr (suffix, e) ↦
      let digits : not (is_empty suffix) && digits_only suffix ≡ true = sym (rw e) ∙ h in
      rw (strip_prefix-eq-append (text "disk") id suffix e)
        (suffix-lacks (text "disk") suffix disk-lacks ((and_iff _ _).0 digits).1)
]

-- A valid name and a positive 64-bit entry id survive the trip through a stable identifier.
pub split-format :
    (disk_id : Text) (entry : ℕ)
    → valid_identifier disk_id ≡ true
    → 0 < entry
    → entry < u64_mod
    → split_stable_identifier (format_stable_identifier disk_id entry) ≡ some (disk_id, entry)
unfolding split_stable_identifier format_stable_identifier
split-format disk_id entry valid pos small =
    rw (split_once-append at_sign disk_id (show entry) (valid-lacks disk_id valid)) (
      rw valid (
        rw (show-nonempty entry)
          (rw (show-digits entry) (rw (parse_below-show u64_mod entry small) (ground arith)))))

nonzero_entry_sound :
    (p : Text) (o : Option ℕ) (disk_id : Text) (entry : ℕ)
    → nonzero_entry p o ≡ some (disk_id, entry)
    → (p ≡ disk_id) × (o ≡ some entry) × (0 < entry)
nonzero_entry_sound p none disk_id entry h = cc
nonzero_entry_sound p (some n) disk_id entry h = ground arith

none_absurd : {A : Type 0} {a : A} {C : Type 0} → none ≡ some a → C
none_absurd h = cc

split_parts_sound :
    (d e disk_id : Text) (entry : ℕ)
    → split_parts (some (d, e)) ≡ some (disk_id, entry)
    → (valid_identifier disk_id ≡ true) × (0 < entry) × (entry < u64_mod)
split_parts_sound d e disk_id entry h =
    elim (Bool-cases (not (valid_identifier d) || is_empty e || not (digits_only e))) [
      | inl bad ↦ none_absurd (sym (rw bad) ∙ h)
      | inr good ↦
          let parts =
            nonzero_entry_sound d (parse_below u64_mod e) disk_id entry (sym (rw good) ∙ h) in
          ground (arith, parse_below-lt u64_mod e parts.1)
    ]

-- What is read from a stable identifier is a valid name and a positive 64-bit number.
pub split_sound :
    (s disk_id : Text) (entry : ℕ)
    → split_stable_identifier s ≡ some (disk_id, entry)
    → (valid_identifier disk_id ≡ true) × (0 < entry) × (entry < u64_mod)
unfolding split_stable_identifier
split_sound s disk_id entry h = elim (Option-cases (split_once at_sign s)) [
  | inl missing ↦ cc (sym (ap split_parts missing) ∙ h)
  | inr ((d, e), found) ↦ split_parts_sound d e disk_id entry (sym (ap split_parts found) ∙ h)
]
