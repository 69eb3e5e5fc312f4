-- ===== src/Queue/Closed.antt =====
-- The queue after `shutdown`.
use logparse.Base.{
  ℕ, zero, suc, ◌≡◌, ◌≢◌, refl, ap, ◌∙◌, true, false, List, [], ◌∷◌, none, some, arith, length,
  subst,
}
use logparse.Config.{block}
use logparse.Queue.{Queue, push}
use logparse.Queue.Fifo
use logparse.Queue.Fifo.{Fifo, PushResult, PopResult}
use logparse.Queue.Inv.{IsValid}
use logparse.Queue.Refine.{view, items, length-items}
use logparse.Queue.Run.{Call, pops, Reply, popped, run, queue_ops, fifo_ops, run_refines}

module _ {A : Type 0} where
  -- The replies to as many `pop`s as there are items, and one more.
  abbrev pub drained : List A → List (Reply A)
  drained [] = popped none ∷ []
  drained (x ∷ xs) = popped (some x) ∷ drained xs

  abbrev pub pops_of : ℕ → List (Call A)
  pops_of zero = []
  pops_of (suc n) = pops ∷ pops_of n

  fifo_drains :
      (xs : List A) (f : Fifo A)
      → f.closed ≡ true
      → f.items ≡ xs
      → (run fifo_ops f (pops_of (suc (length xs)))).0 ≡ drained xs
  unfolding run Fifo.pop
  fifo_drains [] f c e = ground arith
  fifo_drains (x ∷ xs) f c e = ground (arith, fifo_drains xs (record f { items = xs }))

  -- A valid queue that is shut down does not keep its consumer waiting: each `pop` hands out the
  -- next item until none is left, and the one after that returns `false`.
  pub shutdown_drains :
      (q : Queue A)
      → IsValid q
      → q.is_shutdown ≡ true
      → (run queue_ops q (pops_of (suc q.size))).0 ≡ drained (items q)
  shutdown_drains q v c =
      ap (λ (p : List (Reply A) × Fifo A). p.0) (run_refines q (pops_of (suc q.size)) v)
      ∙ subst (λ n. (run fifo_ops (view q) (pops_of (suc n))).0 ≡ drained (items q))
          (length-items q v) (fifo_drains (items q) (view q) c refl)

  -- A queue that is shut down does not keep a producer waiting, under any policy; under `Block`
  -- the item is refused.
  pub push-shutdown :
      (q : Queue A) (a : A)
      → q.is_shutdown ≡ true
      → (push q a ≢ PushResult.blocked)
        × (q.policy ≡ block → push q a ≡ PushResult.returned false q)
  unfolding push
  push-shutdown q a c = (ground arith, ground arith)
