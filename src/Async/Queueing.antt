-- ===== src/Async/Queueing.antt =====
-- What a call on the queue means for its items, read off the bounded list that the queue refines.
use logparse.Base.{
  ◌⊎◌, suc, ◌<◌, ==_iff, ◌≡◌, ◌≢◌, Option, refl, ap, ◌∙◌, sym, subst, Bool, true, false, List, [],
  ◌∷◌, ◌++◌, none, some, arith, length, length-append,
}
use logparse.Async.Steps.{full}
use logparse.Config.{block, drop_oldest}
use logparse.Queue
use logparse.Queue.{Queue}
use logparse.Queue.Fifo
use logparse.Queue.Fifo.{Fifo, PushResult, PopResult, map_push, map_pop}
use logparse.Queue.Inv.{IsValid, push-IsValid, pop-IsValid, PushedValid, PoppedValid}
use logparse.Queue.Refine.{view, items, length-items, push_refines, pop_refines}
use logparse.Record.{LogRecord}

-- What the bounded list says of a taken record.
record Taken (f g : Fifo LogRecord) (r : LogRecord) : Type 0 where
  same_policy : g.policy ≡ f.policy
  same_closed : g.closed ≡ f.closed
  behind : f.policy ≢ drop_oldest → g.items ≡ f.items ++ r ∷ []
  full_size : length f.items ≡ f.limit → length g.items ≡ length f.items
  free_size : length f.items ≢ f.limit → length g.items ≡ suc (length f.items)
  still_open : f.policy ≡ block → f.closed ≡ false

length-concat : (xs : List LogRecord) (r : LogRecord) → length (xs ++ r ∷ []) ≡ suc (length xs)
length-concat xs r = omega (arith, length-append xs (r ∷ []))

length-behind_first :
    (xs : List LogRecord) → 0 < length xs → suc (length (Fifo.behind_first xs)) ≡ length xs
length-behind_first [] h = absurd (omega arith)
length-behind_first (x ∷ xs) h = refl

fifo-Taken :
    (f g : Fifo LogRecord) (r : LogRecord)
    → 0 < f.limit
    → Fifo.push f r ≡ PushResult.returned true g
    → Taken f g r
unfolding Fifo.push
fifo-Taken f g r pos e = ground (
  arith,
  length-concat f.items r,
  length-concat (Fifo.behind_first f.items) r,
  length-behind_first f.items,
)

fifo_queued :
    (f g : Fifo LogRecord) (r : LogRecord)
    → Fifo.push f r ≡ PushResult.returned true g
    → (g.items ≡ f.items ++ r ∷ []) ⊎ (g.items ≡ Fifo.behind_first f.items ++ r ∷ [])
unfolding Fifo.push
fifo_queued f g r e = ground arith

fifo_popped :
    (f g : Fifo LogRecord) (r : LogRecord)
    → Fifo.pop f ≡ PopResult.returned (some r) g
    → (g.policy ≡ f.policy) × (f.items ≡ r ∷ g.items) × (g.closed ≡ f.closed)
unfolding Fifo.pop
fifo_popped f g r e = ground arith

fifo_empty :
    (f g : Fifo LogRecord)
    → Fifo.pop f ≡ PopResult.returned none g
    → (f.items ≡ []) × (f.closed ≡ true)
unfolding Fifo.pop
fifo_empty f g e = ground arith

module _ (q q' : Queue LogRecord) (v : IsValid q) where
  abbrev fifo_push : LogRecord → PushResult (Fifo LogRecord)
  fifo_push r = Fifo.push (view q) r

  pushed-IsValid :
      (r : LogRecord) (b : Bool) → Queue.push q r ≡ PushResult.returned b q' → IsValid q'
  pushed-IsValid r b e = subst PushedValid e (push-IsValid q r v)

  pushed-view :
      (r : LogRecord) (b : Bool)
      → Queue.push q r ≡ PushResult.returned b q'
      → fifo_push r ≡ PushResult.returned b (view q')
  pushed-view r b e = sym (push_refines q r v) ∙ ap (map_push view) e

  popped-IsValid : (o : Option LogRecord) → Queue.pop q ≡ PopResult.returned o q' → IsValid q'
  popped-IsValid o e = subst PoppedValid e (pop-IsValid q v)

  popped-view :
      (o : Option LogRecord)
      → Queue.pop q ≡ PopResult.returned o q'
      → Fifo.pop (view q) ≡ PopResult.returned o (view q')
  popped-view o e = sym (pop_refines q v) ∙ ap (map_pop view) e

  -- A taken record goes behind the items; only `DropOldest` on a full queue gives up the first.
  pub push-taken :
      (r : LogRecord)
      → Queue.push q r ≡ PushResult.returned true q'
      → IsValid q'
        × (q'.policy ≡ q.policy)
        × (q.policy ≢ drop_oldest → items q' ≡ items q ++ r ∷ [])
        × ((full q ≡ true) → q'.size ≡ q.size)
        × ((full q ≡ false) → q'.size ≡ suc q.size)
        × ((q.policy ≡ block) → q.is_shutdown ≡ false)
        × (q'.is_shutdown ≡ q.is_shutdown)
  push-taken r e =
      let v' = pushed-IsValid r true e in
      let t = fifo-Taken (view q) (view q') r v.positive (pushed-view r true e) in
      let before = length-items q v in
      let after = length-items q' v' in
      (
        v',
        t.same_policy,
        t.behind,
        (λ h. sym after ∙ t.full_size (before ∙ (==_iff q.size q.capacity).0 h) ∙ before),
        (λ h.
            sym after
            ∙ t.free_size (λ k. cc (h, (==_iff q.size q.capacity).1 (sym before ∙ k)))
            ∙ ap suc before),
        t.still_open,
        t.same_closed,
      )

  -- A taken record goes behind the items, or behind those but the first.
  pub push-queued :
      (r : LogRecord)
      → Queue.push q r ≡ PushResult.returned true q'
      → IsValid q'
        × ((items q' ≡ items q ++ r ∷ []) ⊎ (items q' ≡ Fifo.behind_first (items q) ++ r ∷ []))
  push-queued r e =
      (pushed-IsValid r true e, fifo_queued (view q) (view q') r (pushed-view r true e))

  pub push-refused : (r : LogRecord) → Queue.push q r ≡ PushResult.returned false q' → q' ≡ q
  unfolding Queue.push
  push-refused r e = ground arith

  -- A popped record was the first item.
  pub pop-record :
      (r : LogRecord)
      → Queue.pop q ≡ PopResult.returned (some r) q'
      → IsValid q'
        × (q'.policy ≡ q.policy)
        × (items q ≡ r ∷ items q')
        × (q.size ≡ suc q'.size)
        × (q'.is_shutdown ≡ q.is_shutdown)
  pop-record r e =
      let v' = popped-IsValid (some r) e in
      let (p, i, c) = fifo_popped (view q) (view q') r (popped-view (some r) e) in
      (v', p, i, sym (length-items q v) ∙ ap length i ∙ ap suc (length-items q' v'), c)

  pop-same : Queue.pop q ≡ PopResult.returned none q' → q' ≡ q
  unfolding Queue.pop
  pop-same e = ground arith

  -- `pop` returns `false` only on an empty queue that is shut down.
  pub pop-nothing :
      Queue.pop q ≡ PopResult.returned none q' → (q' ≡ q) × (items q ≡ []) × (q.is_shutdown ≡ true)
  pop-nothing e =
      let (i, c) = fifo_empty (view q) (view q') (popped-view none e) in (pop-same e, i, c)
