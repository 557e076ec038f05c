-- ===== src/Runtime/Signals.antt =====
-- `SignalControl` of src/runtime.rs: signal handlers that run over each other and over the start of
-- processing. Every load, swap, store and compare-and-exchange is a step of its own.
use jkq.Prelude.{
  ◌==◌, if◌then◌else◌, sum_by, word_mod, ℕ, zero, suc, ◌+◌, ◌-◌, ◌≤◌, ◌≡◌, refl, Bool, true, false,
  not, ◌&&◌, ◌||◌, List, [], ◌∷◌, arith,
}

-- `usize::MAX`.
abbrev pub signal_startup : ℕ
signal_startup = word_mod - 1

pub record SignalControl : Type 0 where
  pub shutdown : Bool
  pub received : ℕ

unfoldable pub new : SignalControl
new = record { shutdown = false; received = signal_startup }

pub data Signal : Type 0 where
  sigint sigterm : Signal

abbrev pub signal_number : Signal → ℕ
signal_number sigint = 2
signal_number sigterm = 15

-- The value that was there before, tested.
unfoldable pub record_signal : SignalControl → Signal → SignalControl × Bool
record_signal c signal = (record c { received = signal_number signal }, not (c.received == 0))

-- How far a handler is: it has yet to load the shutdown flag, to swap, or to store; it has returned,
-- or it has ended the process.
pub data Phase : Type 0 where
  entered : Phase
  loaded : Bool → Phase
  claimed_signal returned process_exited : Phase

pub record Handler : Type 0 where
  pub signal : Signal
  pub phase : Phase

unfoldable pub step_handler : SignalControl → Handler → SignalControl × Handler
unfolding record_signal
step_handler c h = elim h.phase [
  | entered ↦ (c, record h { phase = loaded c.shutdown })
  | loaded already_stopping ↦
      let (c', forced) = record_signal c h.signal in
      (
        c',
        record h { phase = if forced || already_stopping then process_exited else claimed_signal },
      )
  | claimed_signal ↦ (record c { shutdown = true }, record h { phase = returned })
  | returned ↦ (c, h)
  | process_exited ↦ (c, h)
]

-- The next step of the handler at an index.
unfoldable pub step_at : ℕ → SignalControl → List Handler → SignalControl × List Handler
unfolding step_handler
step_at i c [] = (c, [])
step_at zero c (h ∷ handlers) = let (c', h') = step_handler c h in (c', h' ∷ handlers)
step_at (suc i) c (h ∷ handlers) = let (c', handlers') = step_at i c handlers in (c', h ∷ handlers')

-- Whether processing may begin.
unfoldable pub try_begin_processing : SignalControl → SignalControl × Bool
try_begin_processing c =
    if c.received == signal_startup then (record c { received = 0 }, true) else (c, false)

pub record Process : Type 0 where
  pub control : SignalControl
  pub handlers : List Handler
  pub processing : Bool

pub data Event : Type 0 where
  signal_arrives : Signal → Event
  handler_steps : ℕ → Event
  begins : Event

unfoldable pub happen : Event → Process → Process
unfolding step_at try_begin_processing
happen (signal_arrives signal) s = record s {
  handlers = record { signal = signal; phase = entered } ∷ s.handlers;
}
happen (handler_steps i) s =
    let (control, handlers) = step_at i s.control s.handlers in
    record s { control = control; handlers = handlers }
happen begins s =
    let (control, begun) = try_begin_processing s.control in
    record s { control = control; processing = s.processing || begun }

unfoldable pub run_events : List Event → Process → Process
unfolding happen
run_events [] s = s
run_events (event ∷ events) s = run_events events (happen event s)

abbrev pub started : Process
started = record { control = new; handlers = []; processing = false }

-- A handler that does not end the process.
abbrev survives : Phase → ℕ
survives claimed_signal = 1
survives returned = 1
survives _ = 0

abbrev pub survivors : List Handler → ℕ
survivors = sum_by (λ h. survives h.phase)

abbrev is_open : ℕ → ℕ
is_open received = if received == 0 then 1 else 0

abbrev pub as_number : Bool → ℕ
as_number b = if b then 1 else 0

-- Handlers that survive, and the gate if it is open for one more.
abbrev potential : SignalControl → List Handler → ℕ
potential c handlers = survivors handlers + is_open c.received

phases :
    (c : SignalControl) (signal : Signal) (phase : Phase)
    → survives (step_handler c (record { signal = signal; phase = phase })).1.phase
        + is_open (step_handler c (record { signal = signal; phase = phase })).0.received
      ≤ survives phase + is_open c.received
unfolding step_handler record_signal
phases c signal entered = ground arith
phases c sigint (loaded stopping) = ground arith
phases c sigterm (loaded stopping) = ground arith
phases c signal claimed_signal = ground arith
phases c signal returned = ground arith
phases c signal process_exited = ground arith

step_handler-potential :
    (c : SignalControl) (h : Handler)
    → survives (step_handler c h).1.phase + is_open (step_handler c h).0.received
      ≤ survives h.phase + is_open c.received
unfolding step_handler
step_handler-potential c h = phases c h.signal h.phase

step_at-potential :
    (i : ℕ) (c : SignalControl) (handlers : List Handler)
    → potential (step_at i c handlers).0 (step_at i c handlers).1 ≤ potential c handlers
unfolding step_at
step_at-potential i c [] = omega arith
step_at-potential zero c (h ∷ handlers) = ground (arith, step_handler-potential c h)
step_at-potential (suc i) c (h ∷ handlers) = ground (arith, step_at-potential i c handlers)

-- Once processing has begun the gate holds no startup value.
abbrev holds_startup : Process → Bool
holds_startup s = s.processing && s.control.received == signal_startup

step_handler-startup :
    (c : SignalControl) (h : Handler)
    → (c.received == signal_startup) ≡ false
    → ((step_handler c h).0.received == signal_startup) ≡ false
unfolding step_handler record_signal
step_handler-startup c h other = ground arith

step_at-startup :
    (i : ℕ) (c : SignalControl) (handlers : List Handler)
    → (c.received == signal_startup) ≡ false
    → ((step_at i c handlers).0.received == signal_startup) ≡ false
unfolding step_at
step_at-startup i c [] other = other
step_at-startup zero c (h ∷ handlers) other = step_handler-startup c h other
step_at-startup (suc i) c (h ∷ handlers) other = step_at-startup i c handlers other

abbrev IsGated : Process → Type 0
IsGated s = (potential s.control s.handlers ≤ as_number s.processing) × (holds_startup s ≡ false)

happen-IsGated : (event : Event) (s : Process) → IsGated s → IsGated (happen event s)
unfolding happen try_begin_processing
happen-IsGated (signal_arrives signal) s (few, other) = (ground arith, other)
happen-IsGated (handler_steps i) s (few, other) =
    let fewer = step_at-potential i s.control s.handlers in
    (omega (arith, few, fewer), ground (arith, step_at-startup i s.control s.handlers))
happen-IsGated begins s (few, other) = ground arith

run_events-IsGated : (events : List Event) (s : Process) → IsGated s → IsGated (run_events events s)
unfolding run_events
run_events-IsGated [] s gated = gated
run_events-IsGated (event ∷ events) s gated =
    run_events-IsGated events (happen event s) (happen-IsGated event s gated)

-- However signals arrive and their handlers' loads, swaps and stores interleave with each other
-- and with the start of processing, at most one handler goes on without ending the process, and
-- none before processing has begun.
pub one_handler_survives :
    (events : List Event)
    → survivors (run_events events started).handlers
      ≤ as_number (run_events events started).processing
unfolding new
one_handler_survives events =
    let (few, other) = run_events-IsGated events started ((ground arith, refl)) in
    omega (arith, few)
