-- ===== src/Logger/Calls.antt =====
-- The calls of a program on a logger: include/logger/logger.hpp, the logging functions, and `flush`
-- of src/logger.cpp.
use logparse.Base.{
  ℕ, Bool, ◌≡◌, refl, true, false, Bool-cases, inl, inr, List, [], ◌∷◌, Bytes, if◌then◌else◌,
}
use logparse.Async.{Async, flush_ready, counted_up, Event, took, silent}
use logparse.Async.Steps.{
  Run, start, then_step, push_taken, push_refused, count, flush_passes, full,
}
use logparse.Backend.{Backend, flush_sinks}
use logparse.Level.{Level, lt}
use logparse.Logger.{
  Logger, Caller, AnyBackend, on_caller, on_worker, LogResult, returned, sleeps, fault, logged, log,
  submit, create_record, count_pushed,
}
use logparse.Platform.{Platform}
use logparse.Queue
use logparse.Queue.{Queue}
use logparse.Queue.Fifo.{PushResult}
use logparse.Record.{LogRecord, SourceLocation}

module _ {Tm : Type 0} (os : Platform Tm) where
  unfoldable pub trace : Logger → Caller → SourceLocation → Bytes → LogResult Logger
  trace l c location text = log os l c Level.trace location text

  unfoldable pub debug : Logger → Caller → SourceLocation → Bytes → LogResult Logger
  debug l c location text = log os l c Level.debug location text

  unfoldable pub info : Logger → Caller → SourceLocation → Bytes → LogResult Logger
  info l c location text = log os l c Level.info location text

  unfoldable pub warn : Logger → Caller → SourceLocation → Bytes → LogResult Logger
  warn l c location text = log os l c Level.warn location text

  unfoldable pub error : Logger → Caller → SourceLocation → Bytes → LogResult Logger
  error l c location text = log os l c Level.error location text

  unfoldable pub fatal : Logger → Caller → SourceLocation → Bytes → LogResult Logger
  fatal l c location text = log os l c Level.fatal location text

-- A call of `m_backend->flush()` that finds its condition false sleeps.
unfoldable pub flush_backend : AnyBackend → LogResult AnyBackend
flush_backend (on_caller b) = returned (on_caller (flush_sinks b))
flush_backend (on_worker a) =
    if flush_ready a
    then returned (on_worker (record a { backend = flush_sinks a.backend }))
    else sleeps

unfoldable pub flush : Logger → LogResult Logger
flush l = logged l (flush_backend l.m_backend)

module _ {Tm : Type 0} (os : Platform Tm) where
  -- A call that returns: the backend's steps with these events lead to where it leaves the backend.
  abbrev pub RunsFrom : Logger → Async → List Event → (Async → Type 0) → LogResult Logger → Type 0
  RunsFrom l a es Left o =
      (t : Async) × (o ≡ returned (record l { m_backend = on_worker t })) × Run os a es t × Left t

  -- What is left of a state behind a call that counts a record or none.
  abbrev pub CallLeaves : Async → Queue LogRecord → ℕ → Backend → Async → Type 0
  CallLeaves a q n b t =
      (t.queue ≡ q) × (t.submitted ≡ n) × (t.uncounted ≡ a.uncounted) × (t.backend ≡ b)

  -- A logging call whose record is pushed, by what the queue says to it.
  abbrev pub Submits :
      Logger → Async → LogRecord → PushResult (Queue LogRecord) → LogResult Logger → Type 0
  Submits l a r (PushResult.returned true q) o =
      RunsFrom l a (took r (full a.queue) ∷ silent ∷ [])
        (CallLeaves a q (counted_up a.submitted) a.backend) o
  Submits l a r (PushResult.returned false q) o =
      RunsFrom l a (silent ∷ []) (CallLeaves a q a.submitted a.backend) o
  Submits l a r PushResult.blocked o = o ≡ sleeps
  Submits l a r PushResult.fault o = o ≡ fault

  -- A logging call, by whether its level is below the logger's.
  abbrev pub Logs : Logger → Async → LogRecord → Bool → LogResult Logger → Type 0
  Logs l a r true o = o ≡ returned l
  Logs l a r false o = Submits l a r (Queue.push a.queue r) o

  -- A `flush`, by whether every counted record is processed.
  abbrev pub Flushes : Logger → Async → Bool → LogResult Logger → Type 0
  Flushes l a true o =
      RunsFrom l a (silent ∷ []) (CallLeaves a a.queue a.submitted (flush_sinks a.backend)) o
  Flushes l a false o = o ≡ sleeps

  count_pushed-Submits :
      (l : Logger) (a : Async) (r : LogRecord) (p : PushResult (Queue LogRecord))
      → Queue.push a.queue r ≡ p
      → Submits l a r p (logged l (count_pushed a p))
  count_pushed-Submits l a r PushResult.blocked e = refl
  count_pushed-Submits l a r PushResult.fault e = refl
  count_pushed-Submits l a r (PushResult.returned true q) e = (
    _,
    refl,
    then_step (then_step start (push_taken r q e) refl) (count a.uncounted refl) refl,
    (refl, refl, refl, refl),
  )
  count_pushed-Submits l a r (PushResult.returned false q) e =
      (_, refl, then_step start (push_refused r q e) refl, (refl, refl, refl, refl))

  -- The calls of an asynchronous logger. A logging call below the level returns and changes nothing.
  -- Any other pushes its record: if the queue takes it, the call is the push and the count of that
  -- record; if the queue refuses it, the call is that step alone and nothing is counted; and it waits
  -- for room, or divides by zero, when `push` does. `flush` flushes the sinks in one step where every
  -- counted record is processed, and sleeps where not. None of them throws.
  pub calls-RunsFrom :
      (l : Logger) (a : Async) (c : Caller) (at : Level) (location : SourceLocation) (text : Bytes)
      → l.m_backend ≡ on_worker a
      → Logs l a
          (record (create_record c at location) { message = text })
          (lt at l.m_level)
          (log os l c at location text)
        × Flushes l a (flush_ready a) (flush l)
  unfolding log submit flush flush_backend
  calls-RunsFrom l a c at location text e =
      let r = record (create_record c at location) { message = text } in
      (
        elim (Bool-cases (lt at l.m_level)) [
          | inl h ↦ rw h refl
          | inr h ↦ rw (h, e) (count_pushed-Submits l a r (Queue.push a.queue r) refl)
        ],
        elim (Bool-cases (flush_ready a)) [
          | inl h ↦
              rw (e, h) (_, refl, then_step start (flush_passes h) refl, (refl, refl, refl, refl))
          | inr h ↦ rw (e, h) refl
        ],
      )
