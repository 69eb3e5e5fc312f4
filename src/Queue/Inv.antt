-- ===== src/Queue/Inv.antt =====
-- The representation invariant of `Queue`: every operation keeps it, and no operation faults.
use native.Mathlib.Nat.{mod-add-mod}
use logparse.Base.{
  ℕ, ◌+◌, ◌-◌, ◌%◌, ◌≤◌, ◌<◌, ◌≡◌, ap, size_mod, length, length-set, length-replicate, arith,
  get_elem?-in_range,
}
use logparse.Config.{OverflowPolicy, block, drop_newest, drop_oldest, discard}
use logparse.Queue.{Queue, init, drop_head, admission, Admission, admit, store, conclude, push, pop}
use logparse.Queue.Fifo.{PushResult, PopResult}

-- Moving the head on leaves the tail where it was.
tail_after_drop : (h n c : ℕ) → 0 < n → (h + n) % c ≡ ((h + 1) % c + (n - 1)) % c
tail_after_drop h n c p = rw mod-add-mod (ap (λ k. k % c) (omega arith))

tail_after_store : (h n c t : ℕ) → t ≡ (h + n) % c → (t + 1) % c ≡ (h + (n + 1)) % c
tail_after_store h n c t e = rw (e, mod-add-mod) (ap (λ k. k % c) (omega arith))

module _ {A : Type 0} where
  pub record IsValid (q : Queue A) : Type 0 where
    pub storage : length q.buffer ≡ q.capacity
    pub positive : 0 < q.capacity
    pub fits : q.capacity < size_mod
    pub head_in : q.head < q.capacity
    pub size_in : q.size ≤ q.capacity
    pub tail_at : q.tail ≡ (q.head + q.size) % q.capacity

  pub init-IsValid :
      (blank : A) (n : ℕ) (p : OverflowPolicy) → 0 < n → n < size_mod → IsValid (init blank n p)
  unfolding init
  init-IsValid blank n p h k = record {
    storage = length-replicate n blank;
    positive = h;
    fits = k;
    head_in = h;
    size_in = omega arith;
    tail_at = ground arith;
  }

  abbrev pub AdmitsValid : Queue A → Admission A → Type 0
  AdmitsValid q Admission.wait = Unit
  AdmitsValid q Admission.refuse = Unit
  AdmitsValid q Admission.fault = ⊥
  AdmitsValid q (admit q') = IsValid q' × (q'.size < q'.capacity) × (q'.capacity ≡ q.capacity)

  pub drop_head-IsValid :
      (q : Queue A) → IsValid q → q.size ≡ q.capacity → AdmitsValid q (drop_head q)
  unfolding drop_head
  drop_head-IsValid q v full = ground (arith, tail_after_drop q.head q.size q.capacity)

  admission-IsValid : (p : OverflowPolicy) (q : Queue A) → IsValid q → AdmitsValid q (admission p q)
  unfolding admission
  admission-IsValid block q v = ground (arith)
  admission-IsValid drop_newest q v = ground (arith)
  admission-IsValid drop_oldest q v = ground (arith, drop_head-IsValid q v)
  admission-IsValid discard q v = ground (arith)

  abbrev pub PushedValid : PushResult (Queue A) → Type 0
  PushedValid PushResult.blocked = Unit
  PushedValid PushResult.fault = ⊥
  PushedValid (PushResult.returned b q) = IsValid q

  store-IsValid : (q : Queue A) (a : A) → IsValid q → q.size < q.capacity → PushedValid (store q a)
  unfolding store
  store-IsValid q a v room = ground (
    arith,
    length-set q.buffer q.tail a,
    tail_after_store q.head q.size q.capacity q.tail v.tail_at,
  )

  conclude-IsValid :
      (q : Queue A) (a : A) (r : Admission A)
      → IsValid q
      → AdmitsValid q r
      → PushedValid (conclude q a r)
  unfolding conclude
  conclude-IsValid q a Admission.wait v h = tt
  conclude-IsValid q a Admission.refuse v h = v
  conclude-IsValid q a Admission.fault v h = h
  conclude-IsValid q a (admit q') v (v', room, _) = store-IsValid q' a v' room

  -- On a valid queue `push` does not fault, and the queue that it leaves is valid.
  pub push-IsValid : (q : Queue A) (a : A) → IsValid q → PushedValid (push q a)
  unfolding push
  push-IsValid q a v =
      conclude-IsValid q a (admission q.policy q) v (admission-IsValid q.policy q v)

  abbrev pub PoppedValid : PopResult (Queue A) A → Type 0
  PoppedValid PopResult.blocked = Unit
  PoppedValid PopResult.fault = ⊥
  PoppedValid (PopResult.returned o q) = IsValid q

  -- On a valid queue `pop` does not fault, and the queue that it leaves is valid.
  pub pop-IsValid : (q : Queue A) → IsValid q → PoppedValid (pop q)
  unfolding pop
  pop-IsValid q v =
      ground (arith, tail_after_drop q.head q.size q.capacity, get_elem?-in_range q.buffer q.head)
