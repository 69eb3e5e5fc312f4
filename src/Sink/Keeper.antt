-- ===== src/Sink/Keeper.antt =====
-- What one sink among others has of the lines that it is given.
use logparse.Base.{ℕ, ◌≡◌, ◌≢◌, ◌<◌, none, some, List, ◌++◌, Bytes, get_elem?, set, length}
use logparse.Platform.{Platform}
use logparse.Sink.{Sink, write, flush}
use logparse.Sink.Disk.{World}

module _ {Tm : Type 0} (os : Platform Tm) where
  -- A statement on the sinks and the world: the sink at an index has so many bytes. Its own calls
  -- take each line once and throw nothing, and the calls of the others change nothing of it.
  pub record Keeper (k : ℕ) (Has : Bytes → List Sink → World → Type 0) : Type 0 where
    pub there : (b : Bytes) (sinks : List Sink) (w : World) → Has b sinks w → k < length sinks
    pub own_write :
        (b line : Bytes) (sinks : List Sink) (w : World) (s : Sink)
        → Has b sinks w
        → get_elem? sinks k ≡ some s
        → let o = write os s line w in
          (o.thrown ≡ none) × Has (b ++ line) (set sinks k o.object) o.world
    pub own_flush :
        (b : Bytes) (sinks : List Sink) (w : World) (s : Sink)
        → Has b sinks w
        → get_elem? sinks k ≡ some s
        → let o = flush s w in Has b (set sinks k o.object) o.world
    pub other_write :
        (b line : Bytes) (sinks : List Sink) (w : World) (j : ℕ) (s : Sink)
        → Has b sinks w
        → j ≢ k
        → get_elem? sinks j ≡ some s
        → let o = write os s line w in Has b (set sinks j o.object) o.world
    pub other_flush :
        (b : Bytes) (sinks : List Sink) (w : World) (j : ℕ) (s : Sink)
        → Has b sinks w
        → j ≢ k
        → get_elem? sinks j ≡ some s
        → let o = flush s w in Has b (set sinks j o.object) o.world
