-- ===== src/Pipeline/Progress.antt =====
-- `ProgressTail` of src/pipeline/linux.rs, and of src/pipeline/windows.rs and src/pipeline/macos.rs,
-- which differ in `saw_event` only; `validate_progress` of src/pipeline.rs. `from_slice` is that of
-- serde_json. What was read before an error is not looked at again.
pub mod Reported
use snapdog_os_installer.Prelude.{
  ℕ, ◌+◌, ◌*◌, Bool, true, false, not, ◌&&◌, ◌||◌, Option, none, some, List, [], ◌∷◌, ◌++◌, Bytes,
  Text, text, show, length, all, is_empty, lacks, leb, ltb, ◌==◌, if◌then◌else◌,
}
use snapdog_os_installer.Prelude.Result.{Result, ok, err, map_err, reject_if, ◌>>=◌, ◌>>◌}
use snapdog_os_installer.Flash.Types.{IoError}
use snapdog_os_installer.Worker.Types.{WorkerProgress, worker_progress_schema_version}
use snapdog_os_installer.Pipeline.Types.{WorkerRunnerError, invalid_progress}

abbrev pub max_progress_record : ℕ
max_progress_record = 64 * 1024

abbrev pub max_progress_read : ℕ
max_progress_read = 1024 * 1024

unfoldable pub validate_progress : WorkerProgress → Result WorkerRunnerError Unit
unfolding text show
validate_progress progress =
    if progress.schema_version == worker_progress_schema_version
    then ok tt
    else err (
        invalid_progress
          (text "unsupported worker progress schema " ++ show progress.schema_version))

-- `u8::is_ascii_whitespace`
abbrev pub is_ascii_whitespace : ℕ → Bool
is_ascii_whitespace b = b == 9 || b == 10 || b == 12 || b == 13 || b == 32

abbrev pub too_large : WorkerRunnerError
too_large = invalid_progress (text "worker progress record is too large")

-- The events passed on, and what is left over, or the error.
pub record Drained : Type 0 where
  pub events : List WorkerProgress
  pub outcome : Result WorkerRunnerError Bytes

abbrev pub pass_on : WorkerProgress → Drained → Drained
pass_on event drained = record drained { events = event ∷ drained.events }

abbrev pub failed : WorkerRunnerError → Drained
failed e = record { events = []; outcome = err e }

module _ (from_slice : Bytes → Result Text WorkerProgress) where
  unfoldable pub read_record : Bytes → Result WorkerRunnerError WorkerProgress
  unfolding validate_progress
  read_record line = do
    reject_if (ltb max_progress_record (length line)) too_large
    event ← map_err invalid_progress (from_slice line)
    validate_progress event
    ok event

  abbrev pub handle : Result WorkerRunnerError WorkerProgress → Drained → Drained
  handle (ok event) rest = pass_on event rest
  handle (err e) rest = failed e

  -- One complete line, and what comes after it.
  unfoldable pub handle_line : Bytes → Drained → Drained
  unfolding read_record
  handle_line line rest =
      if all is_ascii_whitespace line then rest else handle (read_record line) rest

  -- The loop over the line ends; the bytes of the line that has not ended come first.
  unfoldable pub take_lines : Bytes → Bytes → Drained
  unfolding handle_line
  take_lines line [] = record { events = []; outcome = ok line }
  take_lines line (c ∷ cs) =
      let ended = take_lines [] cs in
      let longer = take_lines (line ++ (c ∷ [])) cs in
      if c == b'\n' then handle_line line ended else longer

  abbrev pub check_rest : Result WorkerRunnerError Bytes → Result WorkerRunnerError Bytes
  check_rest (err e) = err e
  check_rest (ok rest) = if ltb max_progress_record (length rest) then err too_large else ok rest

  abbrev pub checked : Drained → Drained
  checked drained = record drained { outcome = check_rest drained.outcome }

  -- `drain`, for what was left over and the chunk that is read now.
  unfoldable pub drain : Bytes → Bytes → Drained
  unfolding take_lines text
  drain pending chunk =
      if ltb max_progress_read (length chunk)
      then failed (invalid_progress (text "worker progress grew too quickly"))
      else if ltb max_progress_record (length (pending ++ chunk)) && lacks b'\n' (pending ++ chunk)
      then failed too_large
      else checked (take_lines [] (pending ++ chunk))

  abbrev pub and_then :
      List WorkerProgress → Result WorkerRunnerError Bytes → (Bytes → Drained) → Drained
  and_then events (err e) next = record { events = events; outcome = err e }
  and_then events (ok pending) next = record {
    events = events ++ (next pending).events;
    outcome = (next pending).outcome;
  }

  abbrev pub drain_read : Bytes → Result IoError Bytes → Drained
  drain_read pending (err e) = failed (WorkerRunnerError.io e)
  drain_read pending (ok chunk) = drain pending chunk

  abbrev pub complete : Bytes → Drained
  complete pending =
      if all is_ascii_whitespace pending
      then record { events = []; outcome = ok pending }
      else failed (invalid_progress (text "worker exited with an incomplete JSON-lines record"))

  -- `finish`
  unfoldable pub finish : Bytes → Result IoError Bytes → Drained
  unfolding drain text
  finish pending read =
      and_then (drain_read pending read).events (drain_read pending read).outcome complete

  -- The calls of `drain` while the worker runs, with what each of them reads, and `finish` at its end.
  unfoldable pub follow : Bytes → List (Result IoError Bytes) → Result IoError Bytes → Drained
  unfolding drain finish
  follow pending [] last = finish pending last
  follow pending (read ∷ reads) last =
      and_then (drain_read pending read).events (drain_read pending read).outcome
        (λ rest. follow rest reads last)
