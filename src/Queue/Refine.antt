-- ===== src/Queue/Refine.antt =====
-- A valid queue behaves as the bounded list of the items that it holds.
use native.Mathlib.Nat.{mod-add-mod, mod-eq_of_lt, mod-eq-sub-mod, add-zero}
use native.Mathlib.Decide.{dec_lt}
use logparse.Base.{
  ℕ, zero, suc, ◌+◌, ◌-◌, ◌%◌, ◌≤◌, ◌<◌, ◌≡◌, ◌≢◌, ap, ◌∙◌, refl, List, [], ◌∷◌, ◌++◌, Option, none,
  some, length, get_elem?, set, sub_size, arith, get_elem?-in_range, get_elem?-set_self,
  get_elem?-set_ne,
}
use logparse.Config.{OverflowPolicy, block, drop_newest, drop_oldest, discard}
use logparse.Queue.{Queue, advance, drop_head, admission, store, conclude, push, pop}
use logparse.Queue.Fifo
use logparse.Queue.Fifo.{Fifo, PushResult, PopResult, map_push, map_pop, push_by}
use logparse.Queue.Inv.{IsValid, drop_head-IsValid}

-- Fewer steps than the capacity do not lead round to the start.
not_round : (c h k : ℕ) → h < c → suc k < c → (h + suc k) % c ≢ h
not_round c h k a b = elim (dec_lt (h + suc k) c) [
  | yes short ↦ omega (arith, mod-eq_of_lt short)
  | no long ↦ omega (
    arith,
    mod-eq-sub-mod {n = h + suc k} {m = c} (omega arith),
    mod-eq_of_lt {n = h + suc k - c} {m = c} (omega arith),
  )
]

module _ {A : Type 0} where
  abbrev pub onto : Option A → List A → List A
  onto none xs = xs
  onto (some a) xs = a ∷ xs

  -- The `n` items from index `h` on, going round at `c`.
  unfoldable pub window : List A → ℕ → ℕ → ℕ → List A
  window buf c h zero = []
  window buf c h (suc n) = onto (get_elem? buf h) (window buf c ((h + 1) % c) n)

  length-window :
      (buf : List A) (c h n : ℕ) → c ≤ length buf → h < c → length (window buf c h n) ≡ n
  unfolding window
  length-window buf c h zero s b = refl
  length-window buf c h (suc n) s b =
      let (a, e) = get_elem?-in_range buf h (omega arith) in
      rw e (ap suc (length-window buf c ((h + 1) % c) n s (omega arith)))

  -- A write just past a window makes it longer by that item.
  window-set :
      (buf : List A) (c n h i : ℕ) (a : A)
      → c ≤ length buf
      → h < c
      → n < c
      → i ≡ (h + n) % c
      → window (set buf i a) c h (suc n) ≡ window buf c h n ++ a ∷ []
  unfolding window
  window-set buf c zero h i a s b k e =
      rw (e, add-zero, mod-eq_of_lt b, get_elem?-set_self buf h a (omega arith))
  window-set buf c (suc n) h i a s b k e =
      let (x, there) = get_elem?-in_range buf h (omega arith) in
      rw (get_elem?-set_ne buf {i = i} {j = h} a (rw e (not_round c h n b k)), there)
        (ap (◌∷◌ x) (
          window-set buf c n ((h + 1) % c) i a s (omega arith) (omega arith)
            (e ∙ rw mod-add-mod (ap (λ t. t % c) (omega arith)))))

  abbrev pub items : Queue A → List A
  items q = window q.buffer q.capacity q.head q.size

  -- The queue as a bounded list.
  abbrev pub view : Queue A → Fifo A
  view q = record { items = items q; limit = q.capacity; policy = q.policy; closed = q.is_shutdown }

  pub length-items : (q : Queue A) → IsValid q → length (items q) ≡ q.size
  length-items q v = length-window q.buffer q.capacity q.head q.size (omega arith) v.head_in

  -- The code tests the size, the bounded list matches on its items.
  window_of_pos :
      (buf : List A) (c h n : ℕ)
      → c ≤ length buf
      → h < c
      → 0 < n
      → (a : A) × (get_elem? buf h ≡ some a)
        × (window buf c h n ≡ a ∷ window buf c ((h + 1) % c) (n - 1))
  unfolding window
  window_of_pos buf c h zero s b p = absurd (omega arith)
  window_of_pos buf c h (suc n) s b p =
      let (a, e) = get_elem?-in_range buf h (omega arith) in
      (a, e, rw e (ap (λ k. a ∷ window buf c ((h + 1) % c) k) (omega arith)))

  store_refines :
      (q : Queue A) (a : A)
      → IsValid q
      → q.size < q.capacity
      → map_push view (store q a) ≡ Fifo.append (view q) a
  unfolding store
  store_refines q a v room = ground (arith, window-set q.buffer q.capacity q.size q.head q.tail a)

  window_of_zero : (buf : List A) (c h n : ℕ) → n ≡ 0 → window buf c h n ≡ []
  unfolding window
  window_of_zero buf c h zero e = refl
  window_of_zero buf c h (suc n) e = absurd (omega arith)

  -- `DropOldest` on a full queue: the items without the first, and the new one behind them.
  overwrite_refines :
      (q : Queue A) (a : A)
      → IsValid q
      → q.size ≡ q.capacity
      → map_push view (conclude q a (drop_head q))
        ≡ Fifo.append (record (view q) { items = Fifo.behind_first (items q) }) a
  unfolding drop_head conclude
  overwrite_refines q a v e =
      let q' = record q { head = advance q q.head; size = sub_size q.size 1 } in
      let ok = drop_head-IsValid q v e in
      ground (arith, window_of_pos q.buffer q.capacity q.head q.size, store_refines q' a, ok)

  conclude_refines :
      (p : OverflowPolicy) (q : Queue A) (a : A)
      → IsValid q
      → map_push view (conclude q a (admission p q)) ≡ push_by p (view q) a
  unfolding conclude admission
  conclude_refines block q a v = ground (arith, length-items q v, store_refines q a v)
  conclude_refines drop_newest q a v = ground (arith, length-items q v, store_refines q a v)
  conclude_refines discard q a v = ground (arith, length-items q v, store_refines q a v)
  conclude_refines drop_oldest q a v =
      ground (arith, length-items q v, store_refines q a v, overwrite_refines q a v)

  -- On a valid queue `push` gives the result of the bounded list's `push` under the queue's
  -- policy, and leaves the queue with the items of that list.
  pub push_refines :
      (q : Queue A) (a : A) → IsValid q → map_push view (push q a) ≡ Fifo.push (view q) a
  unfolding push Fifo.push
  push_refines q a v = conclude_refines q.policy q a v

  -- On a valid queue `pop` gives the result of the bounded list's `pop`, and leaves the queue with
  -- the items of that list.
  pub pop_refines : (q : Queue A) → IsValid q → map_pop view (pop q) ≡ Fifo.pop (view q)
  unfolding pop Fifo.pop
  pop_refines q v = ground (
    arith,
    window_of_pos q.buffer q.capacity q.head q.size,
    window_of_zero q.buffer q.capacity q.head q.size,
  )
