-- ===== src/Queue.antt =====
-- include/logger/queue.hpp and src/queue.cpp: the bounded queue between producers and the worker.
-- A call runs under the mutex, so it is one function from the state to a result. Where its
-- `wait` predicate is false the call is `blocked` and the state stays; `fault` stands for
-- undefined behaviour (`%` by zero, an index out of range). Items are of any type, since the queue
-- only moves them; a slot that `pop` has moved from keeps its old value here, which nothing reads.
pub mod Fifo
pub mod Inv
pub mod Refine
pub mod Run
pub mod Closed
pub mod Zero
mod Tests
use logparse.Base.{
  ℕ, ◌%◌, Bool, true, false, not, ◌&&◌, ◌||◌, List, Option, none, some, ltb, ◌==◌, if◌then◌else◌,
  add_size, sub_size, length, get_elem?, set, replicate,
}
use logparse.Config.{OverflowPolicy, block, drop_newest, drop_oldest, discard}
use Fifo.{PushResult, PopResult}

pub record Queue (A : Type 0) : Type 0 where
  pub buffer : List A
  pub head : ℕ
  pub tail : ℕ
  pub size : ℕ
  pub capacity : ℕ
  pub policy : OverflowPolicy
  pub is_shutdown : Bool

module _ {A : Type 0} where
  -- The constructor; `blank` is a default-constructed record.
  unfoldable pub init : A → ℕ → OverflowPolicy → Queue A
  init blank capacity policy = record {
    buffer = replicate capacity blank;
    head = 0;
    tail = 0;
    size = 0;
    capacity = capacity;
    policy = policy;
    is_shutdown = false;
  }

  -- `(index + 1) % m_capacity`
  abbrev pub advance : Queue A → ℕ → ℕ
  advance q i = add_size i 1 % q.capacity

-- How the `switch` of `push` ends.
pub data Admission (A : Type 0) : Type 0 where
  wait refuse fault : Admission A
  admit : Queue A → Admission A

module _ {A : Type 0} where
  -- The overwritten record of `DropOldest`.
  unfoldable pub drop_head : Queue A → Admission A
  drop_head q =
      if q.capacity == 0
      then Admission.fault
      else admit (record q { head = advance q q.head; size = sub_size q.size 1 })

  unfoldable pub admission : OverflowPolicy → Queue A → Admission A
  unfolding drop_head
  admission block q =
      if ltb q.size q.capacity || q.is_shutdown
      then (if q.is_shutdown then refuse else admit q)
      else wait
  admission drop_newest q = if q.size == q.capacity then refuse else admit q
  admission drop_oldest q = if q.size == q.capacity then drop_head q else admit q
  admission discard q = if q.size == q.capacity then refuse else admit q

  unfoldable pub store : Queue A → A → PushResult (Queue A)
  store q a =
      if ltb q.tail (length q.buffer) && not (q.capacity == 0)
      then PushResult.returned true (record q {
        buffer = set q.buffer q.tail a;
        tail = advance q q.tail;
        size = add_size q.size 1;
      })
      else PushResult.fault

  -- What `push` does behind its `switch`.
  unfoldable pub conclude : Queue A → A → Admission A → PushResult (Queue A)
  unfolding store
  conclude q a wait = PushResult.blocked
  conclude q a refuse = PushResult.returned false q
  conclude q a Admission.fault = PushResult.fault
  conclude q a (admit q') = store q' a

  unfoldable pub push : Queue A → A → PushResult (Queue A)
  unfolding admission conclude
  push q a = conclude q a (admission q.policy q)

  unfoldable pub take_head : Queue A → PopResult (Queue A) A
  take_head q = elim (get_elem? q.buffer q.head) [
    | none ↦ PopResult.fault
    | some a ↦
        if q.capacity == 0
        then PopResult.fault
        else PopResult.returned (some a)
            (record q { head = advance q q.head; size = sub_size q.size 1 })
  ]

  -- The option is the record handed out; `none` is the result `false`.
  unfoldable pub pop : Queue A → PopResult (Queue A) A
  unfolding take_head
  pop q =
      if ltb 0 q.size || q.is_shutdown
      then (if q.size == 0 then PopResult.returned none q else take_head q)
      else PopResult.blocked

  unfoldable pub shutdown : Queue A → Queue A
  shutdown q = record q { is_shutdown = true }

  unfoldable pub empty : Queue A → Bool
  empty q = q.size == 0

  unfoldable pub full : Queue A → Bool
  full q = q.size == q.capacity

  unfoldable pub size_of : Queue A → ℕ
  size_of q = q.size

  unfoldable pub capacity_of : Queue A → ℕ
  capacity_of q = q.capacity
