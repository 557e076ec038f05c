-- ===== src/App.antt =====
-- src/app.rs and src/main.rs: how a run ends. The parameters are the installation of the signal
-- handlers, `prepare`, the pipeline and the check of a configuration by librdkafka.
pub mod Statuses
pub mod Tests
use jkq.Prelude.{
  ◌==◌, if◌then◌else◌, Bytes, Result, ok, err, ◌>>=◌, ◌>>◌, map_err, ℕ, ◌+◌, ◌*◌, Bool, true, false,
  Option, none, some,
}
use jkq.Cli.{RawCli}
use jkq.Cli.Config.{RuntimeConfig}
use jkq.Cli.Resolve.{resolve}
use jkq.Runtime.Signals.{SignalControl, try_begin_processing}
use jkq.Runtime.Writing.{PipelineError, RuntimeMessage, runtime_error, output_error}
use jkq.Transform.Engine.{Engine}

pub data ErrorKind : Type 0 where
  broken_pipe other_kind : ErrorKind

pub record IoError : Type 0 where
  pub kind : ErrorKind
  pub text : Bytes

pub data AppMessage (F : Type 0) : Type 0 where
  no_signal_handler : Bytes → AppMessage F
  not_prepared : F → AppMessage F
  pipeline_failed : RuntimeMessage → AppMessage F

pub data AppError (F : Type 0) : Type 0 where
  runtime_failed : AppMessage F → AppError F
  output_failed : IoError → AppError F
  interrupted : ℕ → AppError F

module _ {F : Type 0} where
  unfoldable pub is_broken_pipe : AppError F → Bool
  is_broken_pipe (output_failed e) = elim e.kind [ broken_pipe ↦ true | other_kind ↦ false ]
  is_broken_pipe _ = false

  unfoldable pub exit_code : AppError F → ℕ
  exit_code (interrupted signal) = if signal == 2 then 130 else if signal == 15 then 143 else 1
  exit_code _ = 1

  unfoldable pub from_pipeline : PipelineError IoError → AppError F
  from_pipeline (runtime_error message) = runtime_failed (pipeline_failed message)
  from_pipeline (output_error e) = output_failed e

pub data Writer : Type 0 where
  direct : Writer
  buffered : ℕ → Writer

abbrev pub stdout_buffer_bytes : ℕ
stdout_buffer_bytes = 64 * 1024

-- A signal at the start ends the process; else `run` returns, and says whether it has reported the
-- statistics.
pub data Finish (F : Type 0) : Type 0 where
  process_exits : ℕ → Finish F
  run_returns : Bool → Result (AppError F) (Unit {0}) → Finish F

-- The exit status, and whether an error is reported.
pub record Ending : Type 0 where
  pub status : ℕ
  pub reported : Bool

module _ {F : Type 0} where
  -- What `consume` makes of the pipeline's result.
  unfoldable pub consumed :
      Result (PipelineError IoError) (Option ℕ) → Result (AppError F) (Unit {0})
  unfolding from_pipeline
  consumed result = do
    signal ← map_err from_pipeline result
    elim signal [ some number ↦ err (interrupted number) | none ↦ ok tt ]

  unfoldable pub end_of : Finish F → Ending
  unfolding is_broken_pipe exit_code
  end_of (process_exits status) = record { status = status; reported = false }
  end_of (run_returns stats (ok u)) = record { status = 0; reported = false }
  end_of (run_returns stats (err e)) =
      if is_broken_pipe e
      then record { status = 0; reported = false }
      else record { status = exit_code e; reported = true }

module _ {F Inputs : Type 0} (engine : Engine) (install : Result Bytes SignalControl)
    (prepare : RuntimeConfig engine → Result F Inputs)
    (run_pipeline : RuntimeConfig engine
      → Inputs
      → Writer
      → SignalControl
      → Result (PipelineError IoError) (Option ℕ)) where
  unfoldable pub consume : RuntimeConfig engine → Inputs → Writer → SignalControl → Finish F
  unfolding try_begin_processing consumed
  consume config inputs writer signals =
      let (begun, may_begin) = try_begin_processing signals in
      if may_begin
      then run_returns config.stats (consumed (run_pipeline config inputs writer begun))
      else process_exits (128 + begun.received)

  unfoldable pub run_with_writer : RuntimeConfig engine → Writer → Finish F
  unfolding consume
  run_with_writer config writer = elim install [
    | err e ↦ run_returns false (err (runtime_failed (no_signal_handler e)))
    | ok signals ↦ elim (prepare config) [
      | err e ↦ run_returns false (err (runtime_failed (not_prepared e)))
      | ok inputs ↦ consume config inputs writer signals
    ]
  ]

  unfoldable pub run : RuntimeConfig engine → Finish F
  unfolding run_with_writer
  run config =
      run_with_writer config (if config.unbuffered then direct else buffered stdout_buffer_bytes)

  module _ (read_to_string : Bytes → Result Bytes Bytes)
      (validate_config : RuntimeConfig engine → Result Bytes (Unit {0})) where
    unfoldable pub checked : RuntimeConfig engine → Ending
    checked config = elim (validate_config config) [
      | ok u ↦ record { status = 0; reported = false }
      | err e ↦ record { status = 2; reported = true }
    ]

    unfoldable pub main : RawCli → Ending
    unfolding resolve checked run end_of
    main raw = elim (resolve engine read_to_string raw) [
      | err e ↦ record { status = 2; reported = true }
      | ok config ↦ if config.check then checked config else end_of (run config)
    ]
