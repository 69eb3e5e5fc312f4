-- ===== src/Backend/Keeping.antt =====
-- The calls of a backend, seen from one of its sinks.
use logparse.Base.{◌≡◌, ◌∙◌, ℕ, none, List, ◌++◌, Bytes}
use logparse.Backend.{Backend, emit, flush_sinks}
use logparse.Backend.Emit.{emit_lem}
use logparse.Formatter.{make_formatter}
use logparse.Formatter.Cache.{IsWarm, line}
use logparse.Formatter.Reads.{Piece, Reads}
use logparse.Platform.{Platform, IsFaithful}
use logparse.Record.{LogRecord}
use logparse.Sink.{Sink}
use logparse.Sink.Disk.{World}
use logparse.Sink.Keeper.{Keeper}
use logparse.Sink.Keeping.{Safe, write_all-Safe, flush_all-Safe}

module _ {Tm : Type 0} (os : Platform Tm) (k : ℕ) (Has : Bytes → List Sink → World → Type 0)
    (keeper : Keeper os k Has) where
  -- A backend that logs by a pattern, one of whose sinks has the bytes, and none of the others can
  -- throw.
  pub record Keeping (p so_far : Bytes) (b : Backend) : Type 0 where
    pub pattern : b.formatter ≡ make_formatter p
    pub warm : IsWarm os b.cache
    pub safe : Safe os k Has keeper so_far b.sinks b.world

  module _ (faithful : IsFaithful os) {p : Bytes} {ps : List Piece} (reads : Reads p ps)
      {so_far : Bytes} (b : Backend) (h : Keeping p so_far b) where
    -- A log call gives the sink the line of its record, once.
    pub emit-Keeping :
        (r : LogRecord)
        → ((emit os b r).1 ≡ none) × Keeping p (so_far ++ line os ps r) (emit os b r).0
    emit-Keeping r =
        let (sinks, world, thrown, same, warm) = emit_lem os faithful b r h.pattern reads h.warm in
        let (quiet, safe) =
          write_all-Safe os k Has keeper b.sinks so_far (line os ps r) b.world h.safe in
        (
          thrown ∙ quiet,
          record { pattern = same ∙ h.pattern; warm = warm; safe = rw (sinks, world) safe },
        )

    pub flush_sinks-Keeping : Keeping p so_far (flush_sinks b)
    unfolding flush_sinks
    flush_sinks-Keeping = record {
      pattern = h.pattern;
      warm = h.warm;
      safe = flush_all-Safe os k Has keeper b.sinks so_far b.world h.safe;
    }
