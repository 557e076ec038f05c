-- ===== src/App/Statuses.antt =====
-- The exit statuses of src/main.rs.
use jkq.Prelude.{
  ltb, ◌==◌, if◌then◌else◌, Bool-cases, Bytes, Result, ok, err, Result-cases, ℕ, ◌+◌, ◌*◌, ◌≡◌,
  refl, subst, inl, inr, Bool, true, false, not, ◌&&◌, ◌||◌, Option, none, some, arith,
}
use jkq.Output.Base64.{}
use jkq.Cli.{RawCli}
use jkq.Runtime.Signals.{SignalControl, signal_startup, try_begin_processing}
use jkq.Runtime.Writing.{PipelineError, output_error, runtime_error}
use jkq.App.{
  from_pipeline, is_broken_pipe, Ending, main, Finish, end_of, run, AppError, exit_code, IoError,
  run_returns, output_failed, interrupted, runtime_failed, process_exits, run_with_writer, consume,
  Writer, not_prepared, no_signal_handler, direct, buffered, consumed, stdout_buffer_bytes, checked,
  other_kind, broken_pipe,
}
use jkq.Cli.Config.{RuntimeConfig}
use jkq.Cli.Resolve.{resolve}
use jkq.Transform.Engine.{Engine}

-- What the outcome of the pipeline asks for: 0 at its end and when nobody reads the output, 130 and
-- 143 for SIGINT and SIGTERM, and 1 for any other failure.
abbrev pipeline_status : Result (PipelineError IoError) (Option ℕ) → ℕ
pipeline_status (ok none) = 0
pipeline_status (ok (some signal)) = if signal == 2 then 130 else if signal == 15 then 143 else 1
pipeline_status (err (runtime_error message)) = 1
pipeline_status (err (output_error e)) = elim e.kind [ broken_pipe ↦ 0 | other_kind ↦ 1 ]

returns-pipeline_status :
    (F : Type 0) (stats : Bool) (r : Result (PipelineError IoError) (Option ℕ))
    → (end_of {F = F} (run_returns stats (consumed r))).status ≡ pipeline_status r
unfolding end_of consumed from_pipeline is_broken_pipe exit_code
returns-pipeline_status F stats (ok none) = refl
returns-pipeline_status F stats (ok (some signal)) = ground arith
returns-pipeline_status F stats (err (runtime_error message)) = refl
returns-pipeline_status F stats (err (output_error e)) = ground arith

module _ {F : Type 0} where
  exit_code-not_2 : (e : AppError F) → (exit_code e == 2) ≡ false
  unfolding exit_code
  exit_code-not_2 (interrupted signal) = ground arith
  exit_code-not_2 (runtime_failed message) = refl
  exit_code-not_2 (output_failed e) = refl

  exit_code-positive : (e : AppError F) → ltb 0 (exit_code e) ≡ true
  unfolding exit_code
  exit_code-positive (interrupted signal) = ground arith
  exit_code-positive (runtime_failed message) = refl
  exit_code-positive (output_failed e) = refl

  -- A result of `run` that ends neither with status 2 nor with an error and status 0.
  abbrev EndsWell : Finish F → Type 0
  EndsWell f =
      let ending : Ending = end_of f in
      (not (ending.status == 2) && (not ending.reported || ltb 0 ending.status)) ≡ true

  returns-EndsWell :
      (stats : Bool) (r : Result (AppError F) (Unit {0})) → EndsWell (run_returns stats r)
  unfolding end_of
  returns-EndsWell stats (ok u) = refl
  returns-EndsWell stats (err e) = ground (arith, exit_code-not_2 e, exit_code-positive e)

module _ {F Inputs : Type 0} (engine : Engine) (install : Result Bytes SignalControl)
    (prepare : RuntimeConfig engine → Result F Inputs)
    (run_pipeline : RuntimeConfig engine
      → Inputs
      → Writer
      → SignalControl
      → Result (PipelineError IoError) (Option ℕ)) where
  consume-EndsWell :
      (config : RuntimeConfig engine) (inputs : Inputs) (writer : Writer) (signals : SignalControl)
      → EndsWell (consume engine install prepare run_pipeline config inputs writer signals)
  unfolding consume end_of try_begin_processing
  consume-EndsWell config inputs writer signals =
      elim (Bool-cases (signals.received == signal_startup)) [
        | inl first ↦
            let result : Result (AppError F) (Unit {0}) =
              consumed (run_pipeline config inputs writer (record signals { received = 0 })) in
            let same : run_returns config.stats result
                ≡ consume engine install prepare run_pipeline config inputs writer signals =
              rw first refl in
            subst EndsWell same (returns-EndsWell config.stats result)
        | inr late ↦
            let same : process_exits (128 + signals.received)
                ≡ consume engine install prepare run_pipeline config inputs writer signals =
              rw late refl in
            subst EndsWell same (ground arith)
      ]

  run-EndsWell :
      (config : RuntimeConfig engine) → EndsWell (run engine install prepare run_pipeline config)
  unfolding run run_with_writer
  run-EndsWell config = elim (Result-cases install) [
    | inl (e, f) ↦
        let refused : Result (AppError F) (Unit {0}) = err (runtime_failed (no_signal_handler e)) in
        let same : run_returns false refused ≡ run engine install prepare run_pipeline config =
          ground arith in
        subst EndsWell same (returns-EndsWell false refused)
    | inr (signals, f) ↦ elim (Result-cases (prepare config)) [
      | inl (e, g) ↦
          let refused : Result (AppError F) (Unit {0}) = err (runtime_failed (not_prepared e)) in
          let same : run_returns false refused ≡ run engine install prepare run_pipeline config =
            ground arith in
          subst EndsWell same (returns-EndsWell false refused)
      | inr (inputs, g) ↦
          let writer = if config.unbuffered then direct else buffered stdout_buffer_bytes in
          let same : consume engine install prepare run_pipeline config inputs writer signals
              ≡ run engine install prepare run_pipeline config =
            ground arith in
          subst EndsWell same (consume-EndsWell config inputs writer signals)
    ]
  ]

  -- The status of a run that is more than a check.
  abbrev run_status : RuntimeConfig engine → ℕ
  run_status config = elim install [
    | err e ↦ 1
    | ok signals ↦ elim (prepare config) [
      | err e ↦ 1
      | ok inputs ↦
          let writer = if config.unbuffered then direct else buffered (64 * 1024) in
          if signals.received == signal_startup
          then pipeline_status (run_pipeline config inputs writer (record signals { received = 0 }))
          else 128 + signals.received
    ]
  ]

  run-run_status :
      (config : RuntimeConfig engine)
      → (end_of (run engine install prepare run_pipeline config)).status ≡ run_status config
  unfolding run run_with_writer consume end_of try_begin_processing
  run-run_status config = elim (Result-cases install) [
    | inl (e, f) ↦ unfold is_broken_pipe exit_code in ground arith
    | inr (signals, f) ↦ elim (Result-cases (prepare config)) [
      | inl (e, g) ↦ unfold is_broken_pipe exit_code in ground arith
      | inr (inputs, g) ↦
          let writer = if config.unbuffered then direct else buffered stdout_buffer_bytes in
          let result = run_pipeline config inputs writer (record signals { received = 0 }) in
          let table = returns-pipeline_status F config.stats result in ground arith
    ]
  ]

  module _ (read_to_string : Bytes → Result Bytes Bytes)
      (validate_config : RuntimeConfig engine → Result Bytes (Unit {0})) where
    -- Whether the options are refused, by `resolve` or, where only a check is asked for, by librdkafka.
    abbrev is_refused : RawCli → Bool
    is_refused raw = elim (resolve engine read_to_string raw) [
      | err e ↦ true
      | ok config ↦ config.check && elim (validate_config config) [ ok u ↦ false | err e ↦ true ]
    ]

    -- The status that the outcome of each part asks for.
    abbrev exit_status : RawCli → ℕ
    exit_status raw = elim (resolve engine read_to_string raw) [
      | err e ↦ 2
      | ok config ↦
          if config.check
          then (elim (validate_config config) [ ok u ↦ 0 | err e ↦ 2 ])
          else run_status config
    ]

    -- The exit status of the program for every outcome of its parts. It is 2 if resolve refuses
    -- the options and, where only a check is asked for, 2 or 0 as librdkafka refuses or accepts
    -- the configuration, and 2 in no other case. Without a check it is 1 if the signal handlers
    -- cannot be installed or prepare fails, be it for a client property that librdkafka refuses;
    -- 128 and the number of a signal that came before processing began; and otherwise 0 for a
    -- pipeline that completes or whose output nobody reads, 130 or 143 for one that SIGINT or
    -- SIGTERM ended, and 1 for any other failure. An error is reported only with a status other
    -- than 0.
    pub main-exit_status :
        (raw : RawCli)
        → let ending : Ending =
            main engine install prepare run_pipeline read_to_string validate_config raw in
          (ending.status ≡ exit_status raw)
          × (((ending.status == 2) ≡ is_refused raw)
              × ((not ending.reported || ltb 0 ending.status) ≡ true))
    unfolding main checked
    main-exit_status raw = elim (Result-cases (resolve engine read_to_string raw)) [
      | inl (e, f) ↦ ground arith
      | inr (config, f) ↦ elim (Result-cases (validate_config config)) [
        | inl (e, g) ↦ ground (arith, run-EndsWell config, run-run_status config)
        | inr (u, g) ↦ ground (arith, run-EndsWell config, run-run_status config)
      ]
    ]
