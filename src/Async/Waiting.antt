-- ===== src/Async/Waiting.antt =====
-- When a call on the queue does not wait, and what it then returns.
use logparse.Base.{◌⊎◌, inl, inr, ◌<◌, ◌≡◌, ◌≢◌, refl, ap, true, false, none, some, arith, length}
use logparse.Queue
use logparse.Queue.{Queue}
use logparse.Queue.Fifo.{PushResult, PopResult}
use logparse.Queue.Inv.{IsValid, push-IsValid, pop-IsValid, PushedValid, PoppedValid}
use logparse.Queue.Refine.{length-items}
use logparse.Record.{LogRecord}
use logparse.Async.Queueing.{pop-record, pop-nothing}

module _ (q : Queue LogRecord) (v : IsValid q) where
  -- What a `pop` that does not wait returns.
  abbrev pub PopMade : Type 0
  PopMade =
      ((r : LogRecord) × (q'' : Queue LogRecord) × (Queue.pop q ≡ PopResult.returned (some r) q''))
      ⊎ ((q'' : Queue LogRecord) × (Queue.pop q ≡ PopResult.returned none q''))

  pop_made :
      (x : PopResult (Queue LogRecord) LogRecord)
      → Queue.pop q ≡ x
      → PoppedValid x
      → x ≢ PopResult.blocked
      → PopMade
  pop_made PopResult.blocked e h n = absurd (n refl)
  pop_made PopResult.fault e h n = absurd h
  pop_made (PopResult.returned none q') e h n = inr (q', e)
  pop_made (PopResult.returned (some r) q') e h n = inl (r, q', e)

  closed-ne-blocked : q.is_shutdown ≡ true → Queue.pop q ≢ PopResult.blocked
  unfolding Queue.pop
  closed-ne-blocked h = ground arith

  filled-ne-blocked : 0 < q.size → Queue.pop q ≢ PopResult.blocked
  unfolding Queue.pop
  filled-ne-blocked h = ground arith

  -- A queue that is shut down does not keep the worker waiting.
  pub pop-closed : q.is_shutdown ≡ true → PopMade
  pop-closed h = pop_made (Queue.pop q) refl (pop-IsValid q v) (closed-ne-blocked h)

  -- A queue with a record hands one out.
  pub pop-filled :
      0 < q.size
      → (r : LogRecord) × (q' : Queue LogRecord) × (Queue.pop q ≡ PopResult.returned (some r) q')
  pop-filled h = elim (pop_made (Queue.pop q) refl (pop-IsValid q v) (filled-ne-blocked h)) [
    | inl popped ↦ popped
    | inr (q', e) ↦ absurd (omega (arith, length-items q v, ap length (pop-nothing q q' v e).1))
  ]

  push_made :
      (r : LogRecord) (x : PushResult (Queue LogRecord))
      → Queue.push q r ≡ x
      → PushedValid x
      → x ≢ PushResult.blocked
      → ((q' : Queue LogRecord) → x ≢ PushResult.returned false q')
      → (q' : Queue LogRecord) × (Queue.push q r ≡ PushResult.returned true q')
  push_made r PushResult.blocked e h n k = absurd (n refl)
  push_made r PushResult.fault e h n k = absurd h
  push_made r (PushResult.returned true q') e h n k = (q', e)
  push_made r (PushResult.returned false q') e h n k = absurd (k q' refl)

  pub roomy-ne-blocked : (r : LogRecord) → q.size < q.capacity → Queue.push q r ≢ PushResult.blocked
  unfolding Queue.push
  roomy-ne-blocked r h = ground arith

  roomy-ne-refused :
      (r : LogRecord) (q' : Queue LogRecord)
      → q.size < q.capacity
      → q.is_shutdown ≡ false
      → Queue.push q r ≢ PushResult.returned false q'
  unfolding Queue.push
  roomy-ne-refused r q' h k = ground arith

  -- An open queue with a free slot takes a record.
  pub push-roomy :
      (r : LogRecord)
      → q.size < q.capacity
      → q.is_shutdown ≡ false
      → (q' : Queue LogRecord) × (Queue.push q r ≡ PushResult.returned true q')
  push-roomy r h k =
      push_made r (Queue.push q r) refl (push-IsValid q r v) (roomy-ne-blocked r h)
        (λ q'. roomy-ne-refused r q' h k)

-- What makes a producer wait.
pub push-blocked :
    (q : Queue LogRecord) (r : LogRecord)
    → IsValid q
    → Queue.push q r ≡ PushResult.blocked
    → 0 < q.size
unfolding Queue.push
push-blocked q r v e = let pos = v.positive in ground arith

pop-capacity :
    (q q' : Queue LogRecord) (r : LogRecord)
    → Queue.pop q ≡ PopResult.returned (some r) q'
    → q'.capacity ≡ q.capacity
unfolding Queue.pop
pop-capacity q q' r e = ground arith

-- A queue that a record was popped from has a free slot.
pub pop-roomy :
    (q q' : Queue LogRecord) (r : LogRecord)
    → IsValid q
    → Queue.pop q ≡ PopResult.returned (some r) q'
    → q'.size < q'.capacity
pop-roomy q q' r v e = omega (arith, v.size_in, (pop-record q q' v r e).3, pop-capacity q q' r e)
