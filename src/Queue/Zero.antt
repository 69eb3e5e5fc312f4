-- ===== src/Queue/Zero.antt =====
-- A queue of capacity zero.
use logparse.Base.{◌≡◌, refl, ap, ◌∙◌, Bool, true, false, List, [], ◌∷◌, none, arith, if◌then◌else◌}
use logparse.Config.{OverflowPolicy, block, drop_newest, drop_oldest, discard}
use logparse.Queue.{Queue, init, push, pop, shutdown, admission, conclude, drop_head}
use logparse.Queue.Run.{
  Call, pushes, pops, shuts, Reply, waits, faults, closes, pushed, popped, run, step, queue_ops,
  taken,
}

module _ {A : Type 0} where
  -- What a caller sees of such a queue, by its policy and by whether it is shut down.
  abbrev pub zero_push : OverflowPolicy → Bool → Reply A
  zero_push block closed = if closed then pushed false else waits
  zero_push drop_newest closed = pushed false
  zero_push drop_oldest closed = faults
  zero_push discard closed = pushed false

  abbrev pub zero_reply : OverflowPolicy → Bool → Call A → Reply A
  zero_reply p closed (pushes a) = zero_push p closed
  zero_reply p closed pops = if closed then popped none else waits
  zero_reply p closed shuts = closes

  abbrev closed_by : Bool → Call A → Bool
  closed_by closed shuts = true
  closed_by closed _ = closed

  unfoldable pub zero_replies : OverflowPolicy → Bool → List (Call A) → List (Reply A)
  zero_replies p closed [] = []
  zero_replies p closed (c ∷ cs) = zero_reply p closed c ∷ zero_replies p (closed_by closed c) cs

  abbrev left_by : Queue A → Call A → Queue A
  left_by q shuts = shutdown q
  left_by q _ = q

  push-zero :
      (q : Queue A) (a : A) (p : OverflowPolicy)
      → q.policy ≡ p
      → q.size ≡ 0
      → q.capacity ≡ 0
      → step queue_ops q (pushes a) ≡ (zero_push p q.is_shutdown, q)
  unfolding push admission conclude drop_head
  push-zero q a block e s c = rw e (ground arith)
  push-zero q a drop_newest e s c = rw e (ground arith)
  push-zero q a drop_oldest e s c = rw e (ground arith)
  push-zero q a discard e s c = rw e (ground arith)

  step-zero :
      (q : Queue A) (c : Call A)
      → q.size ≡ 0
      → q.capacity ≡ 0
      → step queue_ops q c ≡ (zero_reply q.policy q.is_shutdown c, left_by q c)
  unfolding pop
  step-zero q (pushes a) s c = push-zero q a q.policy refl s c
  step-zero q pops s c = ground arith
  step-zero q shuts s c = refl

  run-zero :
      (q : Queue A) (cs : List (Call A))
      → q.size ≡ 0
      → q.capacity ≡ 0
      → (run queue_ops q cs).0 ≡ zero_replies q.policy q.is_shutdown cs
  unfolding run zero_replies shutdown
  run-zero q [] s c = refl
  run-zero q (pushes a ∷ cs) s c =
      rw (step-zero q (pushes a) s c)
        (ap (◌∷◌ (zero_push q.policy q.is_shutdown)) (run-zero q cs s c))
  run-zero q (pops ∷ cs) s c =
      rw (step-zero q pops s c)
        (ap (◌∷◌ (if q.is_shutdown then popped none else waits)) (run-zero q cs s c))
  run-zero q (shuts ∷ cs) s c = ap (◌∷◌ closes) (run-zero (shutdown q) cs s c)

  taken-zero :
      (p : OverflowPolicy) (closed : Bool) (cs : List (Call A))
      → taken cs (zero_replies p closed cs) ≡ []
  unfolding taken zero_replies
  taken-zero p closed [] = refl
  taken-zero block true (pushes a ∷ cs) = taken-zero block true cs
  taken-zero block false (pushes a ∷ cs) = taken-zero block false cs
  taken-zero drop_newest closed (pushes a ∷ cs) = taken-zero drop_newest closed cs
  taken-zero drop_oldest closed (pushes a ∷ cs) = taken-zero drop_oldest closed cs
  taken-zero discard closed (pushes a ∷ cs) = taken-zero discard closed cs
  taken-zero p closed (pops ∷ cs) = taken-zero p closed cs
  taken-zero p closed (shuts ∷ cs) = taken-zero p true cs

  -- A queue of capacity zero takes no item, whatever calls are made: until `shutdown`, a `push` waits
  -- under `Block` and so does every `pop`; under `DropNewest` and `Discard` each item is refused; and
  -- under `DropOldest` each push divides by zero. Behind `shutdown`, `Block` refuses and `pop` returns
  -- `false`.
  pub zero_capacity :
      (blank : A) (p : OverflowPolicy) (cs : List (Call A))
      → let replies = (run queue_ops (init blank 0 p) cs).0 in
        (replies ≡ zero_replies p false cs) × (taken cs replies ≡ [])
  unfolding init
  zero_capacity blank p cs =
      let same = run-zero (init blank 0 p) cs refl refl in
      (same, ap (taken cs) same ∙ taken-zero p false cs)
