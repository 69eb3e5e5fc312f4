-- ===== src/Threads/Alone.antt =====
-- A call that no other thread interrupts does what the backend's own function does.
use logparse.Base.{ℕ, ◌≡◌, List, [], ◌∷◌, Bytes}
use logparse.Backend.{Backend, emit, flush_sinks}
use logparse.Formatter.{format}
use logparse.Platform.{Platform}
use logparse.Record.{LogRecord}
use logparse.Sink.{Sink}
use logparse.Threads.{Event, Machine, put, writes, flushes, began, silent}
use logparse.Threads.Returned.{Left, Returned}

module _ {Tm : Type 0} (os : Platform Tm) where
  module _ (t : ℕ) where
    -- What a thread works on.
    abbrev pub backend_of : Machine → Bytes → Backend
    backend_of m buffer = record {
      formatter = m.formatter;
      sinks = m.sinks;
      world = m.world;
      tls_buffer = buffer;
      cache = m.caches t;
    }

    -- A call that began at `m` has come back, and has done what the backend's function does.
    abbrev pub Done : Machine → Backend → Machine → Type 0
    Done m b o = Left os t m.formatter b.cache b.sinks b.world o

    -- What a thread did between two rests, by what its first step shows.
    abbrev pub Did : Machine → Bytes → List Event → Machine → Type 0
    Did m buffer (began u r line ∷ es) o = Done m (emit os (backend_of m buffer) r).0 o
    Did m buffer (silent ∷ es) o = Done m (flush_sinks (backend_of m buffer)) o
    Did m buffer es o = ⊥

    abbrev formatted : Machine → LogRecord → Machine
    formatted m r =
        let (line, warm) = format os m.formatter (m.caches t) [] r in
        record m { progress = put m.progress t (writes line 0); caches = put m.caches t warm }

    abbrev flushing : Machine → Machine
    flushing m = record m { progress = put m.progress t (flushes 0) }

    -- What the first step of a call leaves.
    abbrev Begins : Machine → Event → Machine → Type 0
    Begins m (began u r line) n = n ≡ formatted m r
    Begins m silent n = n ≡ flushing m
    Begins m e n = ⊥
