-- ===== src/Threads/Returned.antt =====
-- A run of one thread's steps alone, from the start of a call to where the thread rests again.
use mathlib.Core.Option.{some-injective}
use logparse.Base.{
  ℕ, suc, ◌≡◌, refl, ap, ◌∙◌, sym, none, some, Option, List, [], ◌∷◌, Bytes, get_elem?, ==_iff,
}
use logparse.Formatter.{Formatter, TimeCache}
use logparse.Platform.{Platform}
use logparse.Sink.{Sink, write, flush}
use logparse.Sink.Disk.{World}
use logparse.Threads.{
  Machine, Step, format_line, write_sink, write_throws, write_returns, flush_call, flush_sink,
  flush_returns, set_pattern, put, called, resting, writes, flushes, Progress, Event,
}

pub put_here : {A : Type 0} (f : ℕ → A) (t : ℕ) (a : A) → put f t a t ≡ a
put_here f t a = rw ((==_iff t t).1 refl) refl

module _ {Tm : Type 0} (os : Platform Tm) where
  -- The thread that makes a step of its own.
  unfoldable pub mover : {m n : Machine} {e : Event} → Step os m e n → Option ℕ
  mover (format_line t r line warm a e) = some t
  mover (write_sink t k line s a at e) = some t
  mover (write_throws t k line s x a at e) = some t
  mover (write_returns t k line a at) = some t
  mover (flush_call t a) = some t
  mover (flush_sink t k s a at) = some t
  mover (flush_returns t k a at) = some t
  mover (set_pattern p) = none

  -- Steps of thread `t` alone, up to the first state in which it rests.
  pub data Uninterrupted (t : ℕ) : Machine → List Event → Machine → Type 0 where
    comes_back :
        {m n : Machine} {e : Event} (st : Step os m e n)
        → mover st ≡ some t
        → n.progress t ≡ resting
        → Uninterrupted t m (e ∷ []) n
    goes_on :
        {m n o : Machine} {e : Event} {es : List Event} (st : Step os m e n)
        → mover st ≡ some t
        → ¬ (n.progress t ≡ resting)
        → Uninterrupted t n es o
        → Uninterrupted t m (e ∷ es) o

  -- What the next step of a thread inside a call leaves.
  abbrev write_next : ℕ → Machine → Bytes → ℕ → Option Sink → Machine
  write_next t m line k none = record m { progress = put m.progress t resting }
  write_next t m line k (some s) =
      let o = write os s line m.world in
      called m t k o (elim o.thrown [ none ↦ writes line (suc k) | some e ↦ resting ])

  abbrev flush_next : ℕ → Machine → ℕ → Option Sink → Machine
  flush_next t m k none = record m { progress = put m.progress t resting }
  flush_next t m k (some s) = called m t k (flush s m.world) (flushes (suc k))

  abbrev next_from : ℕ → Machine → Progress → Machine
  next_from t m resting = m
  next_from t m (writes line k) = write_next t m line k (get_elem? m.sinks k)
  next_from t m (flushes k) = flush_next t m k (get_elem? m.sinks k)

  next : ℕ → Machine → Machine
  next t m = next_from t m (m.progress t)

  Step-next :
      {m n : Machine} {e : Event} (t : ℕ) (st : Step os m e n)
      → mover st ≡ some t
      → ¬ (m.progress t ≡ resting)
      → n ≡ next t m
  unfolding mover next
  Step-next t (format_line u r line warm a e) by_t busy =
      absurd (busy (rw (sym (some-injective u t by_t)) a))
  Step-next t (write_sink u k line s a at e) by_t busy =
      rw (sym (some-injective u t by_t), a, at, e) refl
  Step-next t (write_throws u k line s x a at e) by_t busy =
      rw (sym (some-injective u t by_t), a, at, e) refl
  Step-next t (write_returns u k line a at) by_t busy =
      rw (sym (some-injective u t by_t), a, at) refl
  Step-next t (flush_call u a) by_t busy = absurd (busy (rw (sym (some-injective u t by_t)) a))
  Step-next t (flush_sink u k s a at) by_t busy = rw (sym (some-injective u t by_t), a, at) refl
  Step-next t (flush_returns u k a at) by_t busy = rw (sym (some-injective u t by_t), a, at) refl
  Step-next t (set_pattern p) by_t busy = cc by_t

  -- Inside a call a thread has one way on.
  pub Uninterrupted-unique :
      {t : ℕ} {m m' o o' : Machine} {es es' : List Event}
      → Uninterrupted t m es o
      → Uninterrupted t m' es' o'
      → m ≡ m'
      → ¬ (m.progress t ≡ resting)
      → o ≡ o'
  Uninterrupted-unique {t} (comes_back st a b) (comes_back st' a' b') e busy =
      Step-next t st a busy
      ∙ ap (next t) e
      ∙ sym (Step-next t st' a' (λ h. busy (ap (λ x. x.progress t) e ∙ h)))
  Uninterrupted-unique {t} (comes_back st a b) (goes_on st' a' b' r') e busy =
      let same =
        Step-next t st a busy
        ∙ ap (next t) e
        ∙ sym (Step-next t st' a' (λ h. busy (ap (λ x. x.progress t) e ∙ h))) in
      absurd (b' (sym (ap (λ x. x.progress t) same) ∙ b))
  Uninterrupted-unique {t} (goes_on st a b r) (comes_back st' a' b') e busy =
      let same =
        Step-next t st a busy
        ∙ ap (next t) e
        ∙ sym (Step-next t st' a' (λ h. busy (ap (λ x. x.progress t) e ∙ h))) in
      absurd (b (ap (λ x. x.progress t) same ∙ b'))
  Uninterrupted-unique {t} (goes_on st a b r) (goes_on st' a' b' r') e busy =
      let same =
        Step-next t st a busy
        ∙ ap (next t) e
        ∙ sym (Step-next t st' a' (λ h. busy (ap (λ x. x.progress t) e ∙ h))) in
      Uninterrupted-unique r r' same b

  -- A state in which thread `t` rests, with the formatter, its cache, the sinks and the world as given.
  pub record Left (t : ℕ) (f : Formatter) (cache : TimeCache) (sinks : List Sink) (world : World)
      (last : Machine) : Type 0 where
    pub rests : last.progress t ≡ resting
    pub same_formatter : last.formatter ≡ f
    pub same_cache : last.caches t ≡ cache
    pub new_sinks : last.sinks ≡ sinks
    pub new_world : last.world ≡ world

  -- Thread `t` alone comes back so from the state `m`.
  pub record Returned (t : ℕ) (m : Machine) (cache : TimeCache) (sinks : List Sink) (world : World)
      : Type 0 where
    pub events : List Event
    pub last : Machine
    pub alone : Uninterrupted t m events last
    pub left : Left t m.formatter cache sinks world last

  pub behind :
      {t : ℕ} {m n : Machine} {e : Event} {cache : TimeCache} {sinks : List Sink} {world : World}
      (st : Step os m e n)
      → mover st ≡ some t
      → ¬ (n.progress t ≡ resting)
      → n.formatter ≡ m.formatter
      → Returned t n cache sinks world
      → Returned t m cache sinks world
  behind {e} st a busy f h = record {
    events = e ∷ h.events;
    last = h.last;
    alone = goes_on st a busy h.alone;
    left = record {
      rests = h.left.rests;
      same_formatter = h.left.same_formatter ∙ f;
      same_cache = h.left.same_cache;
      new_sinks = h.left.new_sinks;
      new_world = h.left.new_world;
    };
  }

  -- A call whose last step is this one.
  pub at_end :
      (t : ℕ) (m n : Machine) {e : Event} (st : Step os m e n)
      → mover st ≡ some t
      → n.formatter ≡ m.formatter
      → n.progress t ≡ resting
      → Returned t m (n.caches t) n.sinks n.world
  at_end t m n {e} st a f rests = record {
    events = e ∷ [];
    last = n;
    alone = comes_back st a rests;
    left = record {
      rests = rests;
      same_formatter = f;
      same_cache = refl;
      new_sinks = refl;
      new_world = refl;
    };
  }

  pub moved :
      {t : ℕ} {m : Machine} {cache cache' : TimeCache} {sinks sinks' : List Sink} {world : World}
      → cache ≡ cache'
      → sinks ≡ sinks'
      → Returned t m cache sinks world
      → Returned t m cache' sinks' world
  moved c s h = record {
    events = h.events;
    last = h.last;
    alone = h.alone;
    left = record {
      rests = h.left.rests;
      same_formatter = h.left.same_formatter;
      same_cache = h.left.same_cache ∙ c;
      new_sinks = h.left.new_sinks ∙ s;
      new_world = h.left.new_world;
    };
  }
