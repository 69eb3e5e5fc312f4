-- ===== src/Async/Thinning.antt =====
-- What is left, behind each call, of the records that the queue took.
use mathlib.Core.List.Sublistᴰ
use mathlib.Core.List.{Sublistᴰ}
use logparse.Base.{
  length, length-append, arith, ◌+◌, suc, Bool-cases, ◌≡◌, true, refl, ap, ◌∙◌, sym, List, [], ◌∷◌,
  ◌++◌, some, inl, inr, append-nil, append_assoc,
}
use logparse.Async.{Async, Event, took, wrote_out, silent}
use logparse.Async.Counters.{length-taken}
use logparse.Async.Order.{in_hand, taken-silent, written-silent}
use logparse.Async.Queueing.{push-taken, push-queued, pop-record}
use logparse.Async.Steps.{
  taken, written, taken-concat, written-concat, dropped, dropped-concat, full,
}
use logparse.Queue
use logparse.Queue.{Queue, shutdown, init}
use logparse.Queue.Fifo.{PushResult, PopResult, behind_first}
use logparse.Queue.Inv.{IsValid}
use logparse.Queue.Refine.{length-items, items}
use logparse.Record.{LogRecord}

-- What the worker has written, and what it is still to write, in order.
abbrev pub kept : List Event → Async → List LogRecord
kept es s = written es ++ (in_hand s.worker ++ items s.queue)

pub record Thinned (es : List Event) (s : Async) : Type 0 where
  pub valid : IsValid s.queue
  pub part : Sublistᴰ (kept es s) (taken es)
  pub sum : length (kept es s) + dropped es ≡ length (taken es)

undropped :
    (es : List Event) (e : Event) → dropped (e ∷ []) ≡ 0 → dropped (es ++ e ∷ []) ≡ dropped es
undropped es e h = omega (arith, dropped-concat es e, h)

length-kept :
    (es : List Event) (s : Async)
    → length (kept es s)
      ≡ length (written es) + (length (in_hand s.worker) + length (items s.queue))
length-kept es s = omega (
  arith,
  length-append (written es) (in_hand s.worker ++ items s.queue),
  length-append (in_hand s.worker) (items s.queue),
)

behind_first-part : (l : List LogRecord) → Sublistᴰ (behind_first l) l
behind_first-part [] = Sublistᴰ.slnil
behind_first-part (x ∷ l) = Sublistᴰ.cons (Sublistᴰ.refl l)

-- A list without one element, behind and before others.
amid :
    (a b : List LogRecord) {l m : List LogRecord}
    → Sublistᴰ l m
    → Sublistᴰ (a ++ (b ++ l)) (a ++ (b ++ m))
amid a b h = Sublistᴰ.append (Sublistᴰ.refl a) (Sublistᴰ.append (Sublistᴰ.refl b) h)

-- A step that shows nothing and keeps what is to be written.
pub still :
    (es : List Event) {s t : Async}
    → IsValid t.queue
    → in_hand t.worker ++ items t.queue ≡ in_hand s.worker ++ items s.queue
    → Thinned es s
    → Thinned (es ++ silent ∷ []) t
unfolding dropped
still es v h o = record {
  valid = v;
  part = rw (taken-silent es, written-silent es, h) o.part;
  sum = rw (taken-silent es, written-silent es, undropped es silent refl, h) o.sum;
}

-- A record goes from the queue to the worker.
pub hands_out :
    (es : List Event) {s t : Async} (r : LogRecord)
    → Queue.pop s.queue ≡ PopResult.returned (some r) t.queue
    → in_hand s.worker ≡ []
    → in_hand t.worker ≡ r ∷ []
    → Thinned es s
    → Thinned (es ++ silent ∷ []) t
hands_out es {s} {t} r p h h' o =
    let (v, same, i, z, c) = pop-record s.queue t.queue o.valid r p in
    still es v (rw (h, h') (sym i)) o

-- The worker writes the record that it holds.
pub puts :
    (es : List Event) {s t : Async} (r : LogRecord)
    → t.queue ≡ s.queue
    → in_hand s.worker ≡ r ∷ []
    → in_hand t.worker ≡ []
    → Thinned es s
    → Thinned (es ++ wrote_out r ∷ []) t
unfolding taken written dropped
puts es {s} {t} r q h h' o =
    let moved : kept es s ≡ (written es ++ r ∷ []) ++ items s.queue =
      ap (λ l. written es ++ (l ++ items s.queue)) h
      ∙ sym (append_assoc (written es) (r ∷ []) (items s.queue)) in
    let now : kept (es ++ wrote_out r ∷ []) t ≡ kept es s =
      rw (written-concat es (wrote_out r), h', q) (sym moved) in
    let same : taken (es ++ wrote_out r ∷ []) ≡ taken es =
      taken-concat es (wrote_out r) ∙ append-nil (taken es) in
    record {
      valid = rw q o.valid;
      part = rw (same, now) o.part;
      sum = rw (same, now, undropped es (wrote_out r) refl) o.sum;
    }

-- The queue takes a record, and may give up its oldest for it.
pub takes :
    (es : List Event) (s : Async) {t : Async} (e : Event) (r : LogRecord)
    → taken (e ∷ []) ≡ r ∷ []
    → written (e ∷ []) ≡ []
    → t.worker ≡ s.worker
    → dropped (e ∷ []) + t.queue.size ≡ suc s.queue.size
    → Queue.push s.queue r ≡ PushResult.returned true t.queue
    → Thinned es s
    → Thinned (es ++ e ∷ []) t
takes es s {t} e r k n w d p o =
    let (v, queued) = push-queued s.queue t.queue o.valid r p in
    let longer : (l : List LogRecord)
        → items t.queue ≡ l ++ r ∷ []
        → Sublistᴰ l (items s.queue)
        → Sublistᴰ (kept (es ++ e ∷ []) t) (taken (es ++ e ∷ [])) =
      λ l i h.
        rw
          (
            taken-concat es e,
            written-concat es e,
            k,
            n,
            append-nil (written es),
            w,
            i,
            sym (append_assoc (in_hand s.worker) l (r ∷ [])),
            sym (append_assoc (written es) (in_hand s.worker ++ l) (r ∷ [])),
          )
          (Sublistᴰ.append (Sublistᴰ.trans (amid (written es) (in_hand s.worker) h) o.part)
            (Sublistᴰ.refl (r ∷ []))) in
    record {
      valid = v;
      sum = omega (
        arith,
        o.sum,
        d,
        dropped-concat es e,
        length-taken es e,
        ap length k,
        ap length (written-concat es e),
        length-append (written es) (written (e ∷ [])),
        ap length n,
        length-kept es s,
        length-kept (es ++ e ∷ []) t,
        ap (λ x. length (in_hand x)) w,
        length-items s.queue o.valid,
        length-items t.queue v,
      );
      part = elim queued [
        | inl i ↦ longer (items s.queue) i (Sublistᴰ.refl (items s.queue))
        | inr i ↦ longer (behind_first (items s.queue)) i (behind_first-part (items s.queue))
      ];
    }

-- A push into a full queue that returns `true` overwrites a record, and no other push does.
pub makes_room :
    (s : Async) (q : Queue LogRecord) (r : LogRecord)
    → IsValid s.queue
    → Queue.push s.queue r ≡ PushResult.returned true q
    → dropped (took r (full s.queue) ∷ []) + q.size ≡ suc s.queue.size
unfolding dropped
makes_room s q r v e =
    let pushed = push-taken s.queue q v r e in
    elim (Bool-cases (full s.queue)) [
      | inl h ↦ rw h (omega (arith, pushed.3 h))
      | inr h ↦ rw h (omega (arith, pushed.4 h))
    ]
