-- ===== src/Backend/Emit.antt =====
-- What one log call of a backend writes.
use logparse.Base.{◌≡◌, refl, ap, List, [], Bytes}
use logparse.Backend.{Backend, emit}
use logparse.Formatter.{make_formatter}
use logparse.Formatter.Cache.{IsWarm, line, format_lem}
use logparse.Formatter.Reads.{Piece, Reads}
use logparse.Platform.{Platform, IsFaithful}
use logparse.Record.{LogRecord}
use logparse.Sink.{write_all}

module _ {Tm : Type 0} (os : Platform Tm) (faithful : IsFaithful os) where
  -- A log call hands the line of its record to the sinks, in order and once, and nothing of an
  -- earlier line: not from the thread's buffer, and not from its timestamp cache, which is valid
  -- at first and stays valid. fmt writes a text as it is.
  pub emit_lem :
      {p : Bytes} {ps : List Piece} (b : Backend) (r : LogRecord)
      → b.formatter ≡ make_formatter p
      → Reads p ps
      → IsWarm os b.cache
      → let (b', thrown) = emit os b r in
        let o = write_all os b.sinks (line os ps r) b.world in
        (b'.sinks ≡ o.object)
        × (b'.world ≡ o.world)
        × (thrown ≡ o.thrown)
        × (b'.formatter ≡ b.formatter)
        × IsWarm os b'.cache
  unfolding emit
  emit_lem {p} {ps} b r f reads warm =
      let (text, warm') = format_lem os faithful b.cache [] r reads warm in
      rw f (
        ap (λ l. (write_all os b.sinks l b.world).object) text,
        ap (λ l. (write_all os b.sinks l b.world).world) text,
        ap (λ l. (write_all os b.sinks l b.world).thrown) text,
        refl,
        warm',
      )
