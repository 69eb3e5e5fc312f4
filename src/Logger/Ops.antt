-- ===== src/Logger/Ops.antt =====
-- The settings of a logger through its life.
use logparse.Base.{
  ◌≡◌, refl, ap, ◌∙◌, sym, true, false, Bool-cases, inl, inr, List, [], ◌∷◌, Bytes, Option, none,
  some,
}
use logparse.Async.{Async}
use logparse.Backend.{Backend, emit}
use logparse.Formatter.{make_formatter, set_pattern as set_formatter_pattern}
use logparse.Level.{Level, lt}
use logparse.Logger.{
  Logger, AnyBackend, on_caller, on_worker, shared, with_shared, logged, log, submit, create_record,
  add_sink, set_level, set_pattern, ended_with, count_pushed,
}
use logparse.Logger.Lines.{Call, after}
use logparse.Platform.{Platform}
use logparse.Queue
use logparse.Queue.{Queue}
use logparse.Queue.Fifo.{PushResult}
use logparse.Record.{LogRecord}
use logparse.Sink.{Sink, SinkError}

-- One operation of the interface that changes the logger.
pub data Op : Type 0 where
  logs : Call → Op
  sets_level : Level → Op
  sets_pattern : Bytes → Op
  adds_sink : Sink → Op

-- The formatter works on the pattern that the logger's settings show.
abbrev pub IsTuned : Logger → Type 0
IsTuned l = (shared l.m_backend).formatter ≡ make_formatter l.m_config.pattern

module _ {Tm : Type 0} (os : Platform Tm) where
  abbrev pub step : Logger → Op → Logger
  step l (logs c) = after l (log os l c.caller c.at c.location c.text)
  step l (sets_level at) = set_level l at
  step l (sets_pattern p) = set_pattern l p
  step l (adds_sink s) = add_sink l s

  unfoldable pub run : Logger → List Op → Logger
  run l [] = l
  run l (o ∷ os') = run (step l o) os'

pub formatter-with_shared : (a : AnyBackend) (b : Backend) → shared (with_shared a b) ≡ b
formatter-with_shared (on_caller _) b = refl
formatter-with_shared (on_worker a) b = refl

pub add_sink-IsTuned : (l : Logger) (s : Sink) → IsTuned l → IsTuned (add_sink l s)
unfolding add_sink
add_sink-IsTuned l s t = rw formatter-with_shared t

set_pattern-IsTuned : (l : Logger) (p : Bytes) → IsTuned (set_pattern l p)
unfolding set_pattern set_formatter_pattern make_formatter
set_pattern-IsTuned l p = rw formatter-with_shared refl

pushed-IsTuned :
    (l : Logger) (x : PushResult (Queue LogRecord))
    → IsTuned l
    → (a : Async) → l.m_backend ≡ on_worker a
    → IsTuned (after l (logged l (count_pushed a x)))
pushed-IsTuned l PushResult.blocked t a e = t
pushed-IsTuned l PushResult.fault t a e = t
pushed-IsTuned l (PushResult.returned true q) t a e = ap (λ b. (shared b).formatter) (sym e) ∙ t
pushed-IsTuned l (PushResult.returned false q) t a e = ap (λ b. (shared b).formatter) (sym e) ∙ t

module _ {Tm : Type 0} (os : Platform Tm) where
  submit-IsTuned :
      (l : Logger) (r : LogRecord)
      → IsTuned l
      → IsTuned (after l (logged l (submit os l.m_backend r)))
  unfolding submit
  submit-IsTuned l r t = go l.m_backend refl
    where
      emitted :
          (b : Backend) (x : Backend × Option SinkError)
          → x.0.formatter ≡ b.formatter
          → l.m_backend ≡ on_caller b
          → IsTuned (after l (logged l (ended_with x)))
      emitted b (b', none) f e = f ∙ ap (λ y. (shared y).formatter) (sym e) ∙ t
      emitted b (b', some x) f e = f ∙ ap (λ y. (shared y).formatter) (sym e) ∙ t

      go : (y : AnyBackend) → l.m_backend ≡ y → IsTuned (after l (logged l (submit os y r)))
      go (on_caller b) e = emitted b (emit os b r) (unfold emit in refl) e
      go (on_worker a) e = pushed-IsTuned l (Queue.push a.queue r) t a e

  log-IsTuned : (l : Logger) (c : Call) → IsTuned l → IsTuned (step os l (logs c))
  unfolding log
  log-IsTuned l c t = elim (Bool-cases (lt c.at l.m_level)) [
    | inl h ↦ rw h t
    | inr h ↦
        rw h (
          submit-IsTuned l (record (create_record c.caller c.at c.location) { message = c.text }) t)
  ]

  step-IsTuned : (l : Logger) (o : Op) → IsTuned l → IsTuned (step os l o)
  step-IsTuned l (logs c) t = log-IsTuned l c t
  step-IsTuned l (sets_level at) t = unfold set_level in t
  step-IsTuned l (sets_pattern p) t = set_pattern-IsTuned l p
  step-IsTuned l (adds_sink s) t = add_sink-IsTuned l s t

  -- If the formatter works on the pattern that `config()` shows, it does so after any sequence of
  -- logging calls, `set_level`, `set_pattern` and `add_sink`.
  pub run-IsTuned : (l : Logger) (ops : List Op) → IsTuned l → IsTuned (run os l ops)
  unfolding run
  run-IsTuned l [] t = t
  run-IsTuned l (o ∷ os') t = run-IsTuned (step os l o) os' (step-IsTuned l o t)
