-- ===== src/Queue/Fifo.antt =====
-- What the queue of queue.hpp promises: a list of at most `capacity` items, oldest first.
use logparse.Base.{
  ℕ, Bool, true, false, List, [], ◌∷◌, ◌++◌, Option, none, some, ◌==◌, if◌then◌else◌, length,
}
use logparse.Config.{OverflowPolicy, block, drop_newest, drop_oldest, discard}

-- The results of `push` and `pop` over a state `S`.
pub data PushResult (S : Type 0) : Type 0 where
  blocked fault : PushResult S
  returned : Bool → S → PushResult S

pub data PopResult (S A : Type 0) : Type 0 where
  blocked fault : PopResult S A
  returned : Option A → S → PopResult S A

abbrev pub map_push : {S T : Type 0} → (S → T) → PushResult S → PushResult T
map_push f PushResult.blocked = PushResult.blocked
map_push f PushResult.fault = PushResult.fault
map_push f (PushResult.returned b s) = PushResult.returned b (f s)

abbrev pub map_pop : {S T A : Type 0} → (S → T) → PopResult S A → PopResult T A
map_pop f PopResult.blocked = PopResult.blocked
map_pop f PopResult.fault = PopResult.fault
map_pop f (PopResult.returned o s) = PopResult.returned o (f s)

pub record Fifo (A : Type 0) : Type 0 where
  pub items : List A
  pub limit : ℕ
  pub policy : OverflowPolicy
  pub closed : Bool

module _ {A : Type 0} where
  abbrev pub behind_first : List A → List A
  behind_first [] = []
  behind_first (x ∷ xs) = xs

  abbrev pub append : Fifo A → A → PushResult (Fifo A)
  append f a = PushResult.returned true (record f { items = f.items ++ a ∷ [] })

  abbrev pub refused : Fifo A → PushResult (Fifo A)
  refused f = PushResult.returned false f

  abbrev pub is_full : Fifo A → Bool
  is_full f = length f.items == f.limit

  -- What each policy does with one more item.
  abbrev pub push_by : OverflowPolicy → Fifo A → A → PushResult (Fifo A)
  push_by block f a =
      if f.closed then refused f else if is_full f then PushResult.blocked else append f a
  push_by drop_newest f a = if is_full f then refused f else append f a
  push_by discard f a = if is_full f then refused f else append f a
  push_by drop_oldest f a =
      if is_full f then append (record f { items = behind_first f.items }) a else append f a

  unfoldable pub push : Fifo A → A → PushResult (Fifo A)
  push f = push_by f.policy f

  abbrev pub pop_from : List A → Fifo A → PopResult (Fifo A) A
  pop_from [] f = if f.closed then PopResult.returned none f else PopResult.blocked
  pop_from (x ∷ xs) f = PopResult.returned (some x) (record f { items = xs })

  unfoldable pub pop : Fifo A → PopResult (Fifo A) A
  pop f = pop_from f.items f

  unfoldable pub shutdown : Fifo A → Fifo A
  shutdown f = record f { closed = true }
