-- ===== src/Queue/Tests.antt =====
-- Runs of the queue, and each theorem at a concrete queue.
use logparse.Base.{ℕ, ◌≡◌, refl, true, false, List, [], ◌∷◌, ◌++◌, none, some, arith}
use logparse.Config.{block, drop_oldest}
use logparse.Queue.{Queue, init, push, pop, shutdown}
use logparse.Queue.Inv.{IsValid}
use logparse.Queue.Refine.{items, view, window}
use logparse.Queue.Run.{
  Call, pushes, pops, shuts, waits, closes, pushed, popped, run, taken, handed, queue_ops, fifo_ops,
  run-IsValid, run_refines, run_keeps_order,
}
use logparse.Queue.Closed.{drained, pops_of, shutdown_drains}
use logparse.Queue.Zero.{zero_replies, zero_capacity}

-- 8, then 9, round the end of the buffer.
abbrev wrapped : Queue ℕ
wrapped = record {
  buffer = 9 ∷ 7 ∷ 8 ∷ [];
  head = 2;
  tail = 1;
  size = 2;
  capacity = 3;
  policy = block;
  is_shutdown = false;
}

abbrev overwriting : Queue ℕ
overwriting = record {
  buffer = 9 ∷ 8 ∷ [];
  head = 1;
  tail = 1;
  size = 2;
  capacity = 2;
  policy = drop_oldest;
  is_shutdown = false;
}

abbrev closed : Queue ℕ
closed = record wrapped { is_shutdown = true }

abbrev calls : List (Call ℕ)
calls = pushes 1 ∷ pushes 2 ∷ pops ∷ pops ∷ shuts ∷ pops ∷ pops ∷ []

wrapped-IsValid : IsValid wrapped
wrapped-IsValid = omega arith

overwriting-IsValid : IsValid overwriting
overwriting-IsValid = omega arith

closed-IsValid : IsValid closed
closed-IsValid = omega arith

items-wrapped : items wrapped ≡ 8 ∷ 9 ∷ []
unfolding window
items-wrapped = refl

run-wrapped :
    (run queue_ops wrapped calls).0
    ≡ pushed true
      ∷ waits
      ∷ popped (some 8)
      ∷ popped (some 9)
      ∷ closes
      ∷ popped (some 1)
      ∷ popped none
      ∷ []
unfolding run push pop shutdown
run-wrapped = refl

run-IsValid_example : IsValid (run queue_ops wrapped calls).1
run-IsValid_example = run-IsValid wrapped calls wrapped-IsValid

run_refines_example :
    let (rs, t) = run queue_ops wrapped calls in (rs, view t) ≡ run fifo_ops (view wrapped) calls
run_refines_example = run_refines wrapped calls wrapped-IsValid

run_keeps_order_example :
    let (rs, t) = run queue_ops wrapped calls in
    items wrapped ++ taken calls rs ≡ handed rs ++ items t
run_keeps_order_example = run_keeps_order wrapped calls wrapped-IsValid (cc)

shutdown_drains_example : (run queue_ops closed (pops_of 3)).0 ≡ drained (8 ∷ 9 ∷ [])
unfolding window
shutdown_drains_example = shutdown_drains closed closed-IsValid refl

abbrev zero_calls : List (Call ℕ)
zero_calls = pushes 3 ∷ pops ∷ shuts ∷ pushes 4 ∷ []

zero_capacity_example :
    let replies = (run queue_ops (init 0 0 drop_oldest) zero_calls).0 in
    (replies ≡ zero_replies drop_oldest false zero_calls) × (taken zero_calls replies ≡ [])
zero_capacity_example = zero_capacity 0 drop_oldest zero_calls
