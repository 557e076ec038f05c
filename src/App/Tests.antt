-- ===== src/App/Tests.antt =====
-- src/main.rs at options that are resolved, with a signal to the pipeline and without.
use jkq.Prelude.{
  ltb, ◌==◌, Bytes, Result, ok, err, ℕ, ◌≡◌, refl, true, false, not, ◌||◌, Option, some, [], codes,
}
use jkq.Cli.Resolve.{resolve}
use jkq.App.{Ending, main, Writer, IoError, ErrorKind}
use jkq.App.Statuses.{main-exit_status}
use jkq.Cli.Config.{RuntimeConfig}
use jkq.Cli.Tests.{raw, read_to_string}
use jkq.Runtime.Signals.{SignalControl, new}
use jkq.Runtime.Writing.{PipelineError, output_error}
use jkq.Transform.Tests.{small_engine}

abbrev install : Result Bytes SignalControl
install = ok new

-- The number of consumers stands for their inputs.
abbrev consumers : RuntimeConfig small_engine → Result Bytes ℕ
consumers config = ok config.consumers

-- Writing has failed because nobody reads.
abbrev unread :
    RuntimeConfig small_engine
    → ℕ
    → Writer
    → SignalControl
    → Result (PipelineError IoError) (Option ℕ)
unread config inputs writer signals =
    err (output_error (record { kind = ErrorKind.broken_pipe; text = [] }))

-- A SIGTERM has come.
abbrev stopped :
    RuntimeConfig small_engine
    → ℕ
    → Writer
    → SignalControl
    → Result (PipelineError IoError) (Option ℕ)
stopped config inputs writer signals = ok (some 15)

abbrev valid : RuntimeConfig small_engine → Result Bytes (Unit {0})
valid config = ok tt

nobody_reads :
    main small_engine install consumers unread read_to_string valid raw
    ≡ record { status = 0; reported = false }
unfolding main new
nobody_reads = refl

terminated :
    main small_engine install consumers stopped read_to_string valid raw
    ≡ record { status = 143; reported = true }
unfolding main new
terminated = refl

-- A client refuses a property.
abbrev refused_client : RuntimeConfig small_engine → Result Bytes ℕ
refused_client config = err (codes "No such configuration property")

refused_late :
    main small_engine install refused_client stopped read_to_string valid raw
    ≡ record { status = 1; reported = true }
unfolding main
refused_late = refl

main-exit_status_example :
    let ending : Ending =
      main small_engine install refused_client stopped read_to_string valid raw in
    (ending.status ≡ 1)
    × (((ending.status == 2) ≡ false) × ((not ending.reported || ltb 0 ending.status) ≡ true))
unfolding resolve
main-exit_status_example =
    main-exit_status small_engine install refused_client stopped read_to_string valid raw
