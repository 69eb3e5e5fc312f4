-- ===== src/Threads/Keeper.antt =====
-- What a sink has of the lines that several threads bring it.
use logparse.Base.{
  ℕ, ◌≡◌, ◌≢◌, ap, ◌∙◌, sym, subst, Bool-cases, inl, inr, none, some, List, [], ◌++◌, Bytes, ◌==◌,
  ==_iff, get_elem?, set, append-nil, append_assoc,
}
use logparse.Platform.{Platform}
use logparse.Sink.{Sink, write, flush}
use logparse.Sink.Disk.{World}
use logparse.Threads.{
  Machine, Step, format_line, write_sink, write_throws, write_returns, flush_call, flush_sink,
  flush_returns, set_pattern, resting, Run, start, then_step, Event, wrote,
}
use logparse.Threads.Events.{gather, gather-concat, begins, enters, lines_of, texts, texts-append}
use logparse.Threads.Order.{losses, ahead, Run-Moved}
use logparse.Sink.Keeper.{Keeper}

module _ {Tm : Type 0} (os : Platform Tm) (k : ℕ) (Has : Bytes → List Sink → World → Type 0)
    (keeper : Keeper os k Has) where
  abbrev Holds : Bytes → Machine → Type 0
  Holds b m = Has b m.sinks m.world

  writing :
      (b line : Bytes) (m : Machine) (t j : ℕ) (s : Sink)
      → Holds b m
      → get_elem? m.sinks j ≡ some s
      → let o = write os s line m.world in
        Has (b ++ texts (enters k (wrote t j line))) (set m.sinks j o.object) o.world
  unfolding texts
  writing b line m t j s h at = elim (Bool-cases (j == k)) [
    | inl e ↦
        let i : k ≡ j = sym ((==_iff j k).0 e) in
        let o = write os s line m.world in
        let own = keeper.own_write b line m.sinks m.world s h (ap (get_elem? m.sinks) i ∙ at) in
        rw (e, append-nil line)
          (subst (λ x. Has (b ++ line) (set m.sinks x o.object) o.world) i own.1)
    | inr e ↦
        rw (e, append-nil b)
          (keeper.other_write b line m.sinks m.world j s h (λ i. cc ((==_iff j k).1 i, e)) at)
  ]

  throwing :
      (b line : Bytes) (m : Machine) (j : ℕ) (s : Sink)
      → Holds b m
      → get_elem? m.sinks j ≡ some s
      → (write os s line m.world).thrown ≢ none
      → let o = write os s line m.world in Has b (set m.sinks j o.object) o.world
  throwing b line m j s h at throws =
      keeper.other_write b line m.sinks m.world j s h
        (λ i.
          throws
            (keeper.own_write b line m.sinks m.world s h (ap (get_elem? m.sinks) (sym i) ∙ at)).0)
        at

  flushing :
      (b : Bytes) (m : Machine) (j : ℕ) (s : Sink)
      → Holds b m
      → get_elem? m.sinks j ≡ some s
      → let o = flush s m.world in Has b (set m.sinks j o.object) o.world
  flushing b m j s h at = elim (Bool-cases (j == k)) [
    | inl e ↦
        let i : k ≡ j = sym ((==_iff j k).0 e) in
        let o = flush s m.world in
        subst (λ x. Has b (set m.sinks x o.object) o.world) i
          (keeper.own_flush b m.sinks m.world s h (ap (get_elem? m.sinks) i ∙ at))
    | inr e ↦ keeper.other_flush b m.sinks m.world j s h (λ i. cc ((==_iff j k).1 i, e)) at
  ]

  Step-Holds :
      {b : Bytes} {m n : Machine} {e : Event}
      → Step os m e n
      → Holds b m
      → Holds (b ++ texts (enters k e)) n
  unfolding texts
  Step-Holds {b} (format_line t r line warm a e) h = rw (append-nil b) h
  Step-Holds {b} {m} (write_sink t j line s a at e) h = writing b line m t j s h at
  Step-Holds {b} {m} (write_throws t j line s x a at e) h =
      rw (append-nil b) (throwing b line m j s h at (λ q. cc (e, q)))
  Step-Holds {b} (write_returns t j line a at) h = rw (append-nil b) h
  Step-Holds {b} (flush_call t a) h = rw (append-nil b) h
  Step-Holds {b} {m} (flush_sink t j s a at) h = rw (append-nil b) (flushing b m j s h at)
  Step-Holds {b} (flush_returns t j a at) h = rw (append-nil b) h
  Step-Holds {b} (set_pattern q) h = rw (append-nil b) h

  pub Run-Holds :
      {b : Bytes} {m n : Machine} {es : List Event}
      → Run os m es n
      → Holds b m
      → Holds (b ++ texts (gather (enters k) es)) n
  unfolding gather texts
  Run-Holds {b} start h = rw (append-nil b) h
  Run-Holds {b} {n = o} (then_step {n} {es} {es'} {e} r st i) h =
      let joined : (b ++ texts (gather (enters k) es)) ++ texts (enters k e)
          ≡ b ++ texts (gather (enters k) es') =
        append_assoc b (texts (gather (enters k) es)) (texts (enters k e))
        ∙ ap (λ x. b ++ x)
            (sym (texts-append (gather (enters k) es) (enters k e))
              ∙ ap texts (sym (gather-concat (enters k) es e) ∙ ap (gather (enters k)) (sym i))) in
      subst (λ x. Holds x o) joined (Step-Holds st (Run-Holds r h))

  -- The sink has whole lines only, and those of each thread in order.
  pub run_lem :
      {b : Bytes} {m n : Machine} {es : List Event} (t : ℕ)
      → Run os m es n
      → Has b m.sinks m.world
      → m.progress t ≡ resting
      → n.progress t ≡ resting
      → gather (losses t) es ≡ []
      → Has (b ++ texts (gather (enters k) es)) n.sinks n.world
        × (lines_of t (gather (enters k) es) ≡ gather (begins t) es)
  run_lem {b} {m} {n} {es} t r h at_rest rests kept =
      let moved = Run-Moved os t k r (keeper.there b m.sinks m.world h) kept in
      (
        Run-Holds r h,
        sym (
            subst
              (λ q.
                ahead k q ++ gather (begins t) es
                ≡ lines_of t (gather (enters k) es) ++ ahead k (n.progress t))
              at_rest moved
            ∙ ap (λ q. lines_of t (gather (enters k) es) ++ ahead k q) rests
            ∙ append-nil (lines_of t (gather (enters k) es))),
      )
