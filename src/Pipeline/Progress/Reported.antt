-- ===== src/Pipeline/Progress/Reported.antt =====
-- The events that `ProgressTail` passes on are those of the lines of the whole file.
use snapdog_os_installer.Prelude.{
  ◌≡◌, ◌⊎◌, inl, inr, refl, sym, ap, ◌∙◌, Bool, true, false, not, ◌&&◌, List, [], ◌∷◌, ◌++◌,
  append_assoc, append-nil, Bytes, Text, text, length, all, all-append, lacks, ltb, ◌==◌, ==_iff, ℕ,
  arith, subst, if◌then◌else◌,
}
use snapdog_os_installer.Prelude.Result.{Result, ok, err, ok-injective}
use snapdog_os_installer.Flash.Types.{IoError}
use snapdog_os_installer.Worker.Types.{WorkerProgress}
use snapdog_os_installer.Pipeline.Types.{WorkerRunnerError, invalid_progress}
use snapdog_os_installer.Pipeline.Progress.{
  max_progress_record, max_progress_read, is_ascii_whitespace, Drained, too_large, failed,
  read_record, handle, handle_line, take_lines, check_rest, checked, drain, and_then, drain_read,
  complete, finish, follow,
}

-- The lines, each with its end.
abbrev pub joined : List Bytes → Bytes
joined [] = []
joined (line ∷ lines) = line ++ (b'\n' ∷ joined lines)

module _ (from_slice : Bytes → Result Text WorkerProgress) where
  -- One event for each line that is not blank, in their order: what the line says.
  abbrev pub Reports : List Bytes → List WorkerProgress → Type 0
  Reports [] events = events ≡ []
  Reports (line ∷ lines) events =
      (lacks b'\n' line ≡ true)
      × (((all is_ascii_whitespace line ≡ true) × Reports lines events)
          ⊎ ((event : WorkerProgress) × (rest : List WorkerProgress) × (events ≡ event ∷ rest)
              × (read_record from_slice line ≡ ok event)
              × Reports lines rest))

  -- The bytes are lines that were reported, and what is left over, in which no line ends.
  pub record IsReported (bytes : Bytes) (events : List WorkerProgress) (rest : Bytes) : Type 0 where
    pub lines : List Bytes
    pub split : bytes ≡ joined lines ++ rest
    pub unended : lacks b'\n' rest ≡ true
    pub reports : Reports lines events

  -- A drained part that ended well.
  abbrev Reported : Bytes → Drained → Type 0
  Reported bytes d = (rest : Bytes) → d.outcome ≡ ok rest → IsReported bytes d.events rest

  line_lem :
      (line cs : Bytes) (d : Drained)
      → lacks b'\n' line ≡ true
      → Reported cs d
      → Reported (line ++ (b'\n' ∷ cs)) (handle_line from_slice line d)
  unfolding handle_line
  line_lem line cs d l r = by_test (all is_ascii_whitespace line) refl
    where
      more :
          (line : Bytes) (i : List Bytes) (rest : Bytes)
          → cs ≡ joined i ++ rest
          → line ++ (b'\n' ∷ cs) ≡ joined (line ∷ i) ++ rest
      more line i rest e =
          ap (λ (x : Bytes). line ++ (b'\n' ∷ x)) e
          ∙ sym (append_assoc line (b'\n' ∷ joined i) rest)

      by_record :
          (event : Result WorkerRunnerError WorkerProgress)
          → read_record from_slice line ≡ event
          → Reported (line ++ (b'\n' ∷ cs)) (handle from_slice event d)
      by_record (err e) h rest o = cc
      by_record (ok event) h rest o =
          let i = r rest o in
          record {
            lines = line ∷ i.lines;
            split = more line i.lines rest i.split;
            unended = i.unended;
            reports = (l, inr (event, d.events, refl, h, i.reports));
          }

      by_test :
          (b : Bool)
          → all is_ascii_whitespace line ≡ b
          → Reported
              (line ++ (b'\n' ∷ cs))
              (if b then d else handle from_slice (read_record from_slice line) d)
      by_test true e rest o =
          let i = r rest o in
          record {
            lines = line ∷ i.lines;
            split = more line i.lines rest i.split;
            unended = i.unended;
            reports = (l, inl (e, i.reports));
          }
      by_test false e rest o = by_record (read_record from_slice line) refl rest o

  lacks-snoc :
      (line : Bytes) (c : ℕ)
      → lacks b'\n' line ≡ true
      → (c == b'\n') ≡ false
      → lacks b'\n' (line ++ (c ∷ [])) ≡ true
  lacks-snoc line c h k = ground (arith, all-append (λ (x : ℕ). not (x == b'\n')) line (c ∷ []))

  take_lines_lem :
      (line cs : Bytes)
      → lacks b'\n' line ≡ true
      → Reported (line ++ cs) (take_lines from_slice line cs)
  unfolding take_lines
  take_lines_lem line [] l rest o = record {
    lines = [];
    split = append-nil line ∙ ok-injective o;
    unended = subst (λ (x : Bytes). lacks b'\n' x ≡ true) (ok-injective o) l;
    reports = refl;
  }
  take_lines_lem line (c ∷ cs) l rest o =
      by_test (c == b'\n') refl (take_lines_lem [] cs refl)
        (λ k. take_lines_lem (line ++ (c ∷ [])) cs (lacks-snoc line c l k)) rest o
    where
      by_test :
          (b : Bool)
          → (c == b'\n') ≡ b
          → Reported cs (take_lines from_slice [] cs)
          → ((c == b'\n') ≡ false
              → Reported ((line ++ (c ∷ [])) ++ cs) (take_lines from_slice (line ++ (c ∷ [])) cs))
          → Reported (line ++ (c ∷ cs)) (
              if b
              then handle_line from_slice line (take_lines from_slice [] cs)
              else take_lines from_slice (line ++ (c ∷ [])) cs)
      by_test true e ended longer =
          subst
            (λ (x : ℕ).
              Reported (line ++ (x ∷ cs))
                (handle_line from_slice line (take_lines from_slice [] cs)))
            (sym ((==_iff c b'\n').0 e)) (line_lem line cs (take_lines from_slice [] cs) l ended)
      by_test false e ended longer =
          subst (λ (x : Bytes). Reported x (take_lines from_slice (line ++ (c ∷ [])) cs))
            (append_assoc line (c ∷ []) cs) (longer e)

  check_rest_lem :
      (r : Result WorkerRunnerError Bytes) (rest : Bytes)
      → check_rest from_slice r ≡ ok rest
      → r ≡ ok rest
  check_rest_lem (err e) rest h = cc
  check_rest_lem (ok x) rest h = by_test (ltb max_progress_record (length x)) h
    where
      by_test :
          (b : Bool)
          → ◌≡◌ {A = Result WorkerRunnerError Bytes} (if b then err too_large else ok x) (ok rest)
          → ◌≡◌ {A = Result WorkerRunnerError Bytes} (ok x) (ok rest)
      by_test true h = cc
      by_test false h = h

  drain_lem : (pending chunk : Bytes) → Reported (pending ++ chunk) (drain from_slice pending chunk)
  unfolding drain
  drain_lem pending chunk =
      by_tests (ltb max_progress_read (length chunk))
        (ltb max_progress_record (length (pending ++ chunk)) && lacks b'\n' (pending ++ chunk))
    where
      by_tests :
          (a b : Bool)
          → Reported (pending ++ chunk) (
              if a
              then failed (invalid_progress (text "worker progress grew too quickly"))
              else if b
              then failed too_large
              else checked from_slice (take_lines from_slice [] (pending ++ chunk)))
      by_tests true b rest o = cc
      by_tests false true rest o = cc
      by_tests false false rest o =
          let i = take_lines_lem [] (pending ++ chunk) refl rest (check_rest_lem _ rest o) in
          record { lines = i.lines; split = i.split; unended = i.unended; reports = i.reports }

  -- All that was read, if no call of it failed.
  abbrev pub bytes_of : Result IoError Bytes → Bytes
  bytes_of (err e) = []
  bytes_of (ok chunk) = chunk

  abbrev pub all_bytes : List (Result IoError Bytes) → Result IoError Bytes → Bytes
  all_bytes [] last = bytes_of last
  all_bytes (read ∷ reads) last = bytes_of read ++ all_bytes reads last

  drain_read_lem :
      (pending : Bytes) (read : Result IoError Bytes)
      → Reported (pending ++ bytes_of read) (drain_read from_slice pending read)
  drain_read_lem pending (err e) rest o = cc
  drain_read_lem pending (ok chunk) rest o = drain_lem pending chunk rest o

  joined-append : (ls ms : List Bytes) → joined (ls ++ ms) ≡ joined ls ++ joined ms
  joined-append [] ms = refl
  joined-append (a ∷ ls) ms =
      ap (λ (x : Bytes). a ++ (b'\n' ∷ x)) (joined-append ls ms)
      ∙ sym (append_assoc a (b'\n' ∷ joined ls) (joined ms))

  Reports-append :
      (ls ms : List Bytes) (es fs : List WorkerProgress)
      → Reports ls es
      → Reports ms fs
      → Reports (ls ++ ms) (es ++ fs)
  Reports-append [] ms es fs h k =
      subst (λ (x : List WorkerProgress). Reports ms (x ++ fs)) (sym h) k
  Reports-append (a ∷ ls) ms es fs (l, inl (e, h)) k = (l, inl (e, Reports-append ls ms es fs h k))
  Reports-append (a ∷ ls) ms es fs (l, inr (event, rest, e, r, h)) k = (
    l,
    inr (
      event,
      rest ++ fs,
      ap (λ (x : List WorkerProgress). x ++ fs) e,
      r,
      Reports-append ls ms rest fs h k,
    ),
  )

  -- Two reported parts, where the second begins with what the first left over.
  IsReported-append :
      (xs ys : Bytes) (es fs : List WorkerProgress) (middle rest : Bytes)
      → IsReported xs es middle
      → IsReported (middle ++ ys) fs rest
      → IsReported (xs ++ ys) (es ++ fs) rest
  IsReported-append xs ys es fs middle rest i j = record {
    lines = i.lines ++ j.lines;
    split =
        ap (λ (x : Bytes). x ++ ys) i.split
        ∙ append_assoc (joined i.lines) middle ys
        ∙ ap (λ (x : Bytes). joined i.lines ++ x) j.split
        ∙ sym (append_assoc (joined i.lines) (joined j.lines) rest)
        ∙ ap (λ (x : Bytes). x ++ rest) (sym (joined-append i.lines j.lines));
    unended = j.unended;
    reports = Reports-append i.lines j.lines es fs i.reports j.reports;
  }

  -- A drained part that ended well, with nothing but white space left over at its end.
  abbrev pub Finished : Bytes → Drained → Type 0
  Finished bytes d =
      (rest : Bytes)
      → d.outcome ≡ ok rest
      → IsReported bytes d.events rest × (all is_ascii_whitespace rest ≡ true)

  and_then_lem :
      (xs ys : Bytes) (events : List WorkerProgress) (outcome : Result WorkerRunnerError Bytes)
      (next : Bytes → Drained)
      → ((rest : Bytes) → outcome ≡ ok rest → IsReported xs events rest)
      → ((middle : Bytes) → lacks b'\n' middle ≡ true → Finished (middle ++ ys) (next middle))
      → Finished (xs ++ ys) (and_then from_slice events outcome next)
  and_then_lem xs ys events (err e) next h k rest o = cc
  and_then_lem xs ys events (ok middle) next h k rest o =
      let (j, w) = k middle (h middle refl).unended rest o in
      (IsReported-append xs ys events (next middle).events middle rest (h middle refl) j, w)

  complete_lem :
      (pending : Bytes)
      → lacks b'\n' pending ≡ true
      → Finished pending (complete from_slice pending)
  complete_lem pending l = by_test (all is_ascii_whitespace pending) refl
    where
      by_test :
          (b : Bool)
          → all is_ascii_whitespace pending ≡ b
          → Finished pending (
              if b
              then record { events = []; outcome = ok pending }
              else failed
                  (invalid_progress (text "worker exited with an incomplete JSON-lines record")))
      by_test true e rest o =
          let same : pending ≡ rest = ok-injective o in
          (
            record {
              lines = [];
              split = same;
              unended = subst (λ (x : Bytes). lacks b'\n' x ≡ true) same l;
              reports = refl;
            },
            subst (λ (x : Bytes). all is_ascii_whitespace x ≡ true) same e,
          )
      by_test false e rest o = cc

  finish_lem :
      (pending : Bytes) (read : Result IoError Bytes)
      → Finished (pending ++ bytes_of read) (finish from_slice pending read)
  unfolding finish
  finish_lem pending read =
      subst (λ (x : Bytes). Finished x (finish from_slice pending read))
        (append-nil (pending ++ bytes_of read))
        (and_then_lem (pending ++ bytes_of read) [] _ _ (complete from_slice)
          (drain_read_lem pending read)
          (λ middle l.
            subst (λ (x : Bytes). Finished x (complete from_slice middle)) (sym (append-nil middle))
              (complete_lem middle l)))

  follow_from :
      (reads : List (Result IoError Bytes)) (pending : Bytes) (last : Result IoError Bytes)
      → Finished (pending ++ all_bytes reads last) (follow from_slice pending reads last)
  unfolding follow
  follow_from [] pending last = finish_lem pending last
  follow_from (read ∷ reads) pending last =
      subst (λ (x : Bytes). Finished x (follow from_slice pending (read ∷ reads) last))
        (append_assoc pending (bytes_of read) (all_bytes reads last))
        (and_then_lem (pending ++ bytes_of read) (all_bytes reads last) _ _
          (λ rest. follow from_slice rest reads last) (drain_read_lem pending read)
          (λ middle l. follow_from reads middle last))

  -- However the bytes of the progress file come in: if no call of `drain` or `finish` fails, then the
  -- events passed on are, in their order, what the lines of the whole file say that are not blank, each
  -- of them a record of at most the permitted size and of the known schema, and after the last line end
  -- there is nothing but white space.
  pub follow_lem :
      (reads : List (Result IoError Bytes)) (last : Result IoError Bytes) (rest : Bytes)
      → (follow from_slice [] reads last).outcome ≡ ok rest
      → IsReported (all_bytes reads last) (follow from_slice [] reads last).events rest
        × (all is_ascii_whitespace rest ≡ true)
  follow_lem reads last = follow_from reads [] last
