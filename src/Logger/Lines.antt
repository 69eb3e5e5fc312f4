-- ===== src/Logger/Lines.antt =====
-- What a synchronous logger writes.
use logparse.Base.{
  ◌≡◌, refl, ap, ◌∙◌, sym, true, false, Bool-cases, inl, inr, List, [], ◌∷◌, Bytes, Option, none,
  some, if◌then◌else◌,
}
use logparse.Backend.{Backend, emit}
use logparse.Backend.Emit.{emit_lem}
use logparse.Config.{Config}
use logparse.Formatter.{make_formatter}
use logparse.Formatter.Cache.{IsWarm, line}
use logparse.Formatter.Reads.{Piece, Reads}
use logparse.Level.{Level, lt}
use logparse.Logger.{
  Logger, Caller, on_caller, LogResult, returned, threw, sleeps, fault, shared, logged, ended_with,
  log, submit, create_record,
}
use logparse.Platform.{Platform, IsFaithful}
use logparse.Record.{LogRecord, SourceLocation}
use logparse.Sink.{Sink, SinkError, write_all}
use logparse.Sink.Disk.{World}

-- The arguments of one call of `log`.
pub record Call : Type 0 where
  pub caller : Caller
  pub at : Level
  pub location : SourceLocation
  pub text : Bytes

abbrev pub record_of : Call → LogRecord
record_of c = record (create_record c.caller c.at c.location) { message = c.text }

-- The logger after a call; a caller catches what is thrown.
abbrev pub after : Logger → LogResult Logger → Logger
after l (returned l') = l'
after l (threw l' e) = l'
after l sleeps = l
after l fault = l

-- The records of the calls at or above a level.
unfoldable pub kept : Level → List Call → List LogRecord
kept at [] = []
kept at (c ∷ cs) = let rest = kept at cs in if lt c.at at then rest else record_of c ∷ rest

abbrev pub sync_logger : Config → Level → Backend → Logger
sync_logger c at b = record { m_config = c; m_level = at; m_backend = on_caller b }

module _ {Tm : Type 0} (os : Platform Tm) where
  unfoldable pub log_all : Logger → List Call → Logger
  log_all l [] = l
  log_all l (c ∷ cs) = log_all (after l (log os l c.caller c.at c.location c.text)) cs

  -- The sinks and the world behind the writes of the records' lines, one after the other.
  unfoldable pub deliver : List Piece → List LogRecord → List Sink → World → List Sink × World
  deliver ps [] sinks w = (sinks, w)
  deliver ps (r ∷ rs) sinks w =
      let o = write_all os sinks (line os ps r) w in deliver ps rs o.object o.world

after-logged :
    (l : Logger) (x : Backend × Option SinkError)
    → after l (logged l (ended_with x)) ≡ record l { m_backend = on_caller x.0 }
after-logged l (b, none) = refl
after-logged l (b, some e) = refl

module _ {Tm : Type 0} (os : Platform Tm) (g : Config) (at : Level) (b : Backend) (c : Call) where
  abbrev after_call : Logger
  after_call =
      after (sync_logger g at b) (log os (sync_logger g at b) c.caller c.at c.location c.text)

  pub after-below : lt c.at at ≡ true → after_call ≡ sync_logger g at b
  unfolding log
  after-below h = rw h refl

  pub after-kept : lt c.at at ≡ false → after_call ≡ sync_logger g at (emit os b (record_of c)).0
  unfolding log submit
  after-kept h = rw h (after-logged (sync_logger g at b) (emit os b (record_of c)))

pub kept-below :
    (at : Level) (c : Call) (cs : List Call) → lt c.at at ≡ true → kept at (c ∷ cs) ≡ kept at cs
unfolding kept
kept-below at c cs h = rw h refl

pub kept-kept :
    (at : Level) (c : Call) (cs : List Call)
    → lt c.at at ≡ false
    → kept at (c ∷ cs) ≡ record_of c ∷ kept at cs
unfolding kept
kept-kept at c cs h = rw h refl

-- What a logger's sinks are, and the world that they wrote to.
abbrev pub outcome : Logger → List Sink × World
outcome l = ((shared l.m_backend).sinks, (shared l.m_backend).world)

module _ {Tm : Type 0} (os : Platform Tm) (faithful : IsFaithful os) where
  -- The calls on a synchronous logger hand to the sinks, in order, the lines of the records at or
  -- above its level, each as the formatter's pattern reads, and nothing else. The thread's
  -- timestamp cache is valid at first, fmt writes a text as it is, and a caller goes on behind a
  -- call that throws.
  pub log_all_lem :
      {p : Bytes} {ps : List Piece} (g : Config) (at : Level) (b : Backend) (cs : List Call)
      → b.formatter ≡ make_formatter p
      → Reads p ps
      → IsWarm os b.cache
      → outcome (log_all os (sync_logger g at b) cs) ≡ deliver os ps (kept at cs) b.sinks b.world
  unfolding log_all deliver
  log_all_lem g at b [] f reads warm = unfold kept in refl
  log_all_lem {p} {ps} g at b (k ∷ cs) f reads warm = elim (Bool-cases (lt k.at at)) [
    | inl h ↦
        ap (λ l. outcome (log_all os l cs)) (after-below os g at b k h)
        ∙ log_all_lem g at b cs f reads warm
        ∙ ap (λ rs. deliver os ps rs b.sinks b.world) (sym (kept-below at k cs h))
    | inr h ↦
        let r = record_of k in
        let (sinks, world, thrown, same, warm') = emit_lem os faithful b r f reads warm in
        ap (λ l. outcome (log_all os l cs)) (after-kept os g at b k h)
        ∙ log_all_lem g at (emit os b r).0 cs (same ∙ f) reads warm'
        ∙ ap (λ x. deliver os ps (kept at cs) x (emit os b r).0.world) sinks
        ∙ ap
            (λ x. deliver os ps (kept at cs) (write_all os b.sinks (line os ps r) b.world).object x)
            world
        ∙ ap (λ rs. deliver os ps rs b.sinks b.world) (sym (kept-kept at k cs h))
  ]
