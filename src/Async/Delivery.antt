-- ===== src/Async/Delivery.antt =====
-- What the worker of src/async_backend.cpp has written of what the queue took.
use logparse.Base.{ℕ, ◌≡◌, ◌<◌, size_mod, ◌≢◌, refl, ◌∙◌, sym, List, [], ◌++◌, append-nil}
use logparse.Async.{Async, make_async, ended, Event}
use logparse.Async.Steps.{Run, taken, written}
use logparse.Backend.{Backend}
use logparse.Config.{OverflowPolicy, block, drop_oldest}
use logparse.Platform.{Platform}
use logparse.Queue.{init}
use logparse.Queue.Inv.{init-IsValid}
use logparse.Queue.Refine.{items, window}
use logparse.Record.{LogRecord}
use logparse.Async.Order.{Ordered, Run-Ordered, in_hand}

module _ {Tm : Type 0} (os : Platform Tm) where
  module _ (b : Backend) (n : ℕ) (p : OverflowPolicy) (blank : LogRecord) where
    pub make_async-Ordered :
        0 < n → n < size_mod → p ≢ drop_oldest → Ordered p [] (make_async b n p blank)
    unfolding make_async taken written init window
    make_async-Ordered pos h other = record {
      valid = init-IsValid blank n p pos h;
      policy = refl;
      other = other;
      in_order = refl;
      drained = λ e d. cc d;
    }

    -- Under every policy but `DropOldest`, whatever the threads do and in whatever order: the
    -- records that the queue took are those that the worker wrote, in the same order, then the one
    -- that it holds, then those in the queue. The capacity is positive and fits `std::size_t`.
    pub written_in_order :
        {s : Async} {es : List Event}
        → 0 < n
        → n < size_mod
        → p ≢ drop_oldest
        → Run os (make_async b n p blank) es s
        → taken es ≡ written es ++ (in_hand s.worker ++ items s.queue)
    written_in_order pos h other r = (Run-Ordered os r (make_async-Ordered pos h other)).in_order

    -- Under `Block`, once the worker has ended, it has written every record that the queue took, in
    -- the same order. The capacity is positive and fits `std::size_t`.
    pub all_written :
        {s : Async} {es : List Event}
        → 0 < n
        → n < size_mod
        → p ≡ block
        → Run os (make_async b n p blank) es s
        → s.worker ≡ ended
        → written es ≡ taken es
    all_written {s} {es} pos h e r w =
        let o = Run-Ordered os r (make_async-Ordered pos h (λ d. cc (e, d))) in
        sym (o.in_order ∙ rw (w, (o.drained e (rw w)).0) (append-nil (written es)))
