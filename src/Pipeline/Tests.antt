-- ===== src/Pipeline/Tests.antt =====
-- A run of the pipeline in memory, and calls of `cancel` while it registers its markers.
use snapdog_os_installer.Prelude.{
  Bytes, Text, all, ◌≡◌, ℕ, refl, Bool, true, false, none, some, List, [], ◌∷◌, text, arith, zero,
  suc,
}
use snapdog_os_installer.Prelude.Result.{Result, ok, err}
use snapdog_os_installer.Prelude.Exec.{◌>>=◌, Triple}
use snapdog_os_installer.Flash.Types.{IoError, Crypto, PreparedImage}
use snapdog_os_installer.Worker.Types.{WorkerProgress, WorkerPhase, valid_sha256}
use snapdog_os_installer.Worker.Job.{validate_fields}
use snapdog_os_installer.Pipeline.Types.{PipelineRequest, Answer, State, PipelineError}
use snapdog_os_installer.Pipeline.Progress.{is_ascii_whitespace, follow}
use snapdog_os_installer.Pipeline.Progress.Reported.{IsReported, all_bytes, follow_lem}
use snapdog_os_installer.Pipeline.Job.{build_worker_job, ensure_target_capacity}
use snapdog_os_installer.Pipeline.Run.{run_pipeline, job_for, join}
use snapdog_os_installer.Pipeline.Run.Outcome.{IsDelivered, AtMostOne, run_pipeline_lem}
use snapdog_os_installer.Pipeline.Run.Steps.{After}
use snapdog_os_installer.Pipeline.Run.Accepted.{job_for-validate_fields}
use snapdog_os_installer.Pipeline.Memory.{
  Files, run_directory, run_io, content, run_io-FileContract,
}
use snapdog_os_installer.Pipeline.Quoting.{native_command_line}
use snapdog_os_installer.Pipeline.Quoting.Reading.{CommandLine, native_command_line-CommandLine}
use snapdog_os_installer.Pipeline.Control.{
  Flag, cancel, skip, file_of, Choice, by_runner, by_caller, run, at_start,
}
use snapdog_os_installer.Pipeline.Control.Interleaving.{run-markers}

abbrev run_crypto : Crypto
run_crypto = record {
  sha256 = λ b. b;
  hex_encode = λ b. text "0123456789abcdef0123456789abcdef0123456789abcdef0123456789abcdef";
  hex_decode = λ t. some t;
}

abbrev completion : Bool → WorkerProgress
completion verified = record {
  schema_version = 1;
  phase = WorkerPhase.completed;
  bytes_processed = some 3;
  total_bytes = some 3;
  raw_sha256 = none;
  verified = some verified;
  message = none;
}

abbrev run_request : PipelineRequest
run_request = record {
  image_url = text "https://example.org/snapdog.img.gz";
  expected_compressed_sha256 = none;
  expected_compressed_size = none;
  expected_raw_size = some 3;
  expected_raw_sha256 = none;
  drive = record { id = text "disk"; device = text "/dev/sdb"; capacity = 100 };
  verify = true;
}

abbrev idle_state : State Files
idle_state = record {
  control = record { active = false; markers = none; launches = [] };
  world = λ p. none;
}

abbrev good_answer : Answer
good_answer = record { progress = completion true ∷ []; result = ok tt }

good_run :
    (run_pipeline (run_io good_answer) run_crypto false run_request idle_state).0
    ≡ ok (record {
      bytes_downloaded = 2;
      compressed_sha256 = [];
      raw_size = 3;
      raw_sha256 = text "0123456789abcdef0123456789abcdef0123456789abcdef0123456789abcdef";
      verified = true;
    })
unfolding run_pipeline ◌>>=◌ text
good_run = refl

-- What stands in the job's file at the end.
job_file :
    content
      ((run_pipeline (run_io good_answer) run_crypto false run_request idle_state).1).world
      (join run_directory (text "worker-job.json"))
    ≡ some (text "/dev/sdb\n")
unfolding run_pipeline ◌>>=◌ text build_worker_job
job_file = refl

-- A worker that ends well without a terminal event is not believed.
silent_run :
    (run_pipeline
      (run_io (record { progress = []; result = ok tt }))
      run_crypto
      false
      run_request
      idle_state).0
    ≡ err PipelineError.missing_terminal_event
unfolding run_pipeline ◌>>=◌ text
silent_run = refl

run_pipeline_example :
    Triple
      (After (λ launches. launches ≡ []))
      (run_pipeline (run_io good_answer) run_crypto true run_request)
      (λ report. After (IsDelivered (run_io good_answer) content run_crypto run_request report))
      (λ _. After (AtMostOne (run_io good_answer) content run_crypto run_request))
run_pipeline_example =
    run_pipeline_lem (run_io good_answer) content run_crypto run_request
      (run_io-FileContract good_answer) true

abbrev run_image : PreparedImage
run_image = record {
  bytes = 3;
  raw_sha256 = text "0123456789abcdef0123456789abcdef0123456789abcdef0123456789abcdef";
}

job_for_example :
    validate_fields
      (λ d. true)
      (job_for (run_io good_answer) true run_request run_directory run_image)
    ≡ ok tt
unfolding text valid_sha256 ensure_target_capacity
job_for_example =
    job_for-validate_fields (run_io good_answer) run_directory refl (λ d. true) true run_request
      run_image refl refl (omega arith) refl

abbrev both_flags : ℕ → Flag
both_flags zero = cancel
both_flags (suc n) = skip

-- The runner loads the flag before the call stores it, and the call touches the marker itself; the
-- request to skip comes before the registration.
abbrev late_cancel : List Choice
late_cancel =
    by_caller 1 true
    ∷ by_caller 1 true
    ∷ by_caller 1 true
    ∷ by_runner true
    ∷ by_runner true
    ∷ by_caller 0 true
    ∷ by_caller 0 true
    ∷ by_runner true
    ∷ by_caller 0 true
    ∷ by_runner true
    ∷ by_runner true
    ∷ []

run-markers_example :
    file_of
      ((run late_cancel (at_start both_flags)).callers 1).flag
      (run late_cancel (at_start both_flags)).shared
    ≡ true
unfolding run
run-markers_example = run-markers both_flags late_cancel 1 refl refl

-- A file of one record, whose two pieces meet inside a line.
abbrev said : Bytes → Result Text WorkerProgress
said line = ok (completion true)

abbrev pieces : List (Result IoError Bytes)
pieces = ok (text "{ }") ∷ ok (text " \n \n") ∷ []

follow_example :
    IsReported said (all_bytes said pieces (ok [])) (completion true ∷ []) []
    × (all is_ascii_whitespace [] ≡ true)
unfolding follow text
follow_example = follow_lem said pieces (ok []) [] refl

abbrev arguments : List Text
arguments = text "C:\\a b\\" ∷ text "say \"no\"" ∷ []

quotes : native_command_line arguments ≡ text "\"C:\\a b\\\\\" \"say \\\"no\\\"\""
unfolding native_command_line text
quotes = refl

native_command_line_example : CommandLine (native_command_line arguments) arguments
native_command_line_example = native_command_line-CommandLine arguments
