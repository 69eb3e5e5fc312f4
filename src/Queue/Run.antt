-- ===== src/Queue/Run.antt =====
-- Sequences of calls on a queue: what the callers see, and what becomes of the accepted items.
use logparse.Base.{
  ◌≡◌, ◌≢◌, refl, ap, ◌∙◌, sym, Bool, true, List, [], ◌∷◌, ◌++◌, Option, some, append-nil,
  append_assoc, arith, subst,
}
use logparse.Config.{drop_oldest}
use logparse.Queue.{Queue, push, pop, shutdown}
use logparse.Queue.Fifo
use logparse.Queue.Fifo.{Fifo, PushResult, PopResult, map_push, map_pop}
use logparse.Queue.Inv.{IsValid, push-IsValid, pop-IsValid}
use logparse.Queue.Refine.{view, items, push_refines, pop_refines}

pub data Call (A : Type 0) : Type 0 where
  pushes : A → Call A
  pops shuts : Call A

-- What a caller sees. A call that waits is not made: the caller sleeps and the state stays.
pub data Reply (A : Type 0) : Type 0 where
  waits faults closes : Reply A
  pushed : Bool → Reply A
  popped : Option A → Reply A

-- The operations of a queue over a state `S`.
pub record QueueOps (S A : Type 0) : Type 0 where
  pub push_op : S → A → PushResult S
  pub pop_op : S → PopResult S A
  pub shutdown_op : S → S

module _ {S A : Type 0} where
  abbrev pub after_push : S → PushResult S → Reply A × S
  after_push s PushResult.blocked = (waits, s)
  after_push s PushResult.fault = (faults, s)
  after_push s (PushResult.returned b t) = (pushed b, t)

  abbrev pub after_pop : S → PopResult S A → Reply A × S
  after_pop s PopResult.blocked = (waits, s)
  after_pop s PopResult.fault = (faults, s)
  after_pop s (PopResult.returned o t) = (popped o, t)

  abbrev pub step : QueueOps S A → S → Call A → Reply A × S
  step m s (pushes a) = after_push s (m.push_op s a)
  step m s pops = after_pop s (m.pop_op s)
  step m s shuts = (closes, m.shutdown_op s)

  unfoldable pub run : QueueOps S A → S → List (Call A) → List (Reply A) × S
  run m s [] = ([], s)
  run m s (c ∷ cs) = let (r, t) = step m s c in let (rs, u) = run m t cs in (r ∷ rs, u)

module _ {A : Type 0} where
  -- What one call put into the queue.
  abbrev pub taken_by : Call A → Reply A → List A
  taken_by (pushes a) (pushed true) = a ∷ []
  taken_by _ _ = []

  -- What one call handed out.
  abbrev pub handed_by : Reply A → List A
  handed_by (popped (some a)) = a ∷ []
  handed_by _ = []

  -- The items that the queue took, in the order of the calls.
  unfoldable pub taken : List (Call A) → List (Reply A) → List A
  taken (c ∷ cs) (r ∷ rs) = taken_by c r ++ taken cs rs
  taken _ _ = []

  -- The items that `pop` handed out.
  unfoldable pub handed : List (Reply A) → List A
  handed [] = []
  handed (r ∷ rs) = handed_by r ++ handed rs

module _ {A : Type 0} where
  abbrev pub queue_ops : QueueOps (Queue A) A
  queue_ops = record { push_op = push; pop_op = pop; shutdown_op = shutdown }

  abbrev pub fifo_ops : QueueOps (Fifo A) A
  fifo_ops = record { push_op = Fifo.push; pop_op = Fifo.pop; shutdown_op = Fifo.shutdown }

  pub shutdown-IsValid : {q : Queue A} → IsValid q → IsValid (shutdown q)
  unfolding shutdown
  shutdown-IsValid v = ground arith

  step-IsValid : (q : Queue A) (c : Call A) → IsValid q → IsValid (step queue_ops q c).1
  step-IsValid q (pushes a) v = ground (arith, push-IsValid q a v)
  step-IsValid q pops v = ground (arith, pop-IsValid q v)
  step-IsValid q shuts v = shutdown-IsValid v

  step_refines :
      (q : Queue A) (c : Call A)
      → IsValid q
      → let (r, t) = step queue_ops q c in (r, view t) ≡ step fifo_ops (view q) c
  unfolding shutdown Fifo.shutdown
  step_refines q (pushes a) v = ground (arith, push_refines q a v)
  step_refines q pops v = ground (arith, pop_refines q v)
  step_refines q shuts v = refl

  -- Whatever calls are made on a valid queue, in whatever order, it stays valid.
  pub run-IsValid : (q : Queue A) (cs : List (Call A)) → IsValid q → IsValid (run queue_ops q cs).1
  unfolding run
  run-IsValid q [] v = v
  run-IsValid q (c ∷ cs) v = run-IsValid (step queue_ops q c).1 cs (step-IsValid q c v)

  -- No sequence of calls tells a valid queue from the bounded list of its items: the callers see
  -- the same replies, and the items that are left are the same.
  pub run_refines :
      (q : Queue A) (cs : List (Call A))
      → IsValid q
      → let (rs, t) = run queue_ops q cs in (rs, view t) ≡ run fifo_ops (view q) cs
  unfolding run
  run_refines q [] v = refl
  run_refines q (c ∷ cs) v =
      rw (← step_refines q c v, ← run_refines (step queue_ops q c).1 cs (step-IsValid q c v))

  abbrev Keeps : Fifo A → List (Call A) → Type 0
  Keeps f cs = let (rs, t) = run fifo_ops f cs in f.items ++ taken cs rs ≡ handed rs ++ t.items

  step-policy : (f : Fifo A) (c : Call A) → (step fifo_ops f c).1.policy ≡ f.policy
  unfolding Fifo.push Fifo.pop Fifo.shutdown
  step-policy f (pushes a) = ground arith
  step-policy f pops = ground arith
  step-policy f shuts = refl

  -- One call: what was there, and what it took, is what it handed out and what is left.
  step-Keeps :
      (f : Fifo A) (c : Call A)
      → f.policy ≢ drop_oldest
      → let (r, g) = step fifo_ops f c in f.items ++ taken_by c r ≡ handed_by r ++ g.items
  unfolding Fifo.push Fifo.pop Fifo.shutdown
  step-Keeps f (pushes a) h = ground (arith, append-nil f.items)
  step-Keeps f pops h = ground (arith, append-nil f.items)
  step-Keeps f shuts h = append-nil f.items

  run-Keeps : (f : Fifo A) (cs : List (Call A)) → f.policy ≢ drop_oldest → Keeps f cs
  unfolding run taken handed
  run-Keeps f [] h = append-nil f.items
  run-Keeps f (c ∷ cs) h =
      let (r, g) = step fifo_ops f c in
      let (rs, u) = run fifo_ops g cs in
      sym (append_assoc f.items (taken_by c r) (taken cs rs))
      ∙ ap (λ l. l ++ taken cs rs) (step-Keeps f c h)
      ∙ append_assoc (handed_by r) g.items (taken cs rs)
      ∙ ap (λ l. handed_by r ++ l) (run-Keeps g cs (rw (step-policy f c) h))
      ∙ sym (append_assoc (handed_by r) (handed rs) u.items)

  -- Under every policy but `DropOldest` a valid queue loses, duplicates and reorders no accepted
  -- item: the items held at first, followed by those that the calls put in, are those that the
  -- calls handed out, followed by those that are left.
  pub run_keeps_order :
      (q : Queue A) (cs : List (Call A))
      → IsValid q
      → q.policy ≢ drop_oldest
      → let (rs, t) = run queue_ops q cs in items q ++ taken cs rs ≡ handed rs ++ items t
  run_keeps_order q cs v h =
      subst (λ (p : List (Reply A) × Fifo A). items q ++ taken cs p.0 ≡ handed p.0 ++ p.1.items)
        (sym (run_refines q cs v)) (run-Keeps (view q) cs h)
