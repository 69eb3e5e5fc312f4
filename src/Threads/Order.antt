-- ===== src/Threads/Order.antt =====
-- The lines of one thread, in the order in which a sink takes them.
use logparse.Base.{
  ℕ, suc, ◌≡◌, ◌≢◌, ◌<◌, refl, ap, ◌∙◌, sym, subst, false, Bool-cases, inl, inr, none, List, [],
  ◌∷◌, ◌++◌, Bytes, ◌==◌, ==_iff, leb, if◌then◌else◌, get_elem?, length, length-set,
  get_elem?-in_range, append-nil, append_assoc, arith,
}
use logparse.Platform.{Platform}
use logparse.Threads.{
  Machine, Step, format_line, write_sink, write_throws, write_returns, flush_call, flush_sink,
  flush_returns, set_pattern, put, Progress, writes, flushes, resting, Run, start, then_step, Event,
  began, wrote, failed,
}
use logparse.Threads.Events.{gather, gather-concat, begins, enters, lines_of, lines_of-append}

-- The lines of a thread that a sink threw away with an exception.
abbrev pub losses : ℕ → Event → List Bytes
losses t (failed u j line) = if u == t then line ∷ [] else []
losses t _ = []

-- The line that a thread has yet to bring to the sink at an index.
abbrev pub ahead : ℕ → Progress → List Bytes
ahead k (writes line j) = if leb j k then line ∷ [] else []
ahead k resting = []
ahead k (flushes j) = []

module _ {A : Type 0} where
  past : (xs : List A) (j k : ℕ) → get_elem? xs j ≡ none → k < length xs → leb j k ≡ false
  past xs j k at there = elim (Bool-cases (leb j k)) [
    | inl e ↦ let (a, found) = get_elem?-in_range xs j (ground arith) in cc (found, at)
    | inr e ↦ e
  ]

  pub append-nil_inv : {xs ys : List A} → xs ++ ys ≡ [] → (xs ≡ []) × (ys ≡ [])
  append-nil_inv {xs = []} e = (refl, e)
  append-nil_inv {xs = x ∷ xs} e = cc e

  chain :
      (a b c d x y z : List A) → a ++ b ≡ x ++ c → c ++ d ≡ y ++ z → a ++ (b ++ d) ≡ (x ++ y) ++ z
  chain a b c d x y z e f =
      sym (append_assoc a b d)
      ∙ ap (λ l. l ++ d) e
      ∙ append_assoc x c d
      ∙ ap (λ l. x ++ l) f
      ∙ sym (append_assoc x y z)

module _ {Tm : Type 0} (os : Platform Tm) where
  Step-length : {m n : Machine} {e : Event} → Step os m e n → length n.sinks ≡ length m.sinks
  Step-length (format_line t r line warm a e) = refl
  Step-length {m = m} (write_sink t j line s a at e) = length-set m.sinks j _
  Step-length {m = m} (write_throws t j line s x a at e) = length-set m.sinks j _
  Step-length (write_returns t j line a at) = refl
  Step-length (flush_call t a) = refl
  Step-length {m = m} (flush_sink t j s a at) = length-set m.sinks j _
  Step-length (flush_returns t j a at) = refl
  Step-length (set_pattern q) = refl

  -- What a step shows of a thread is what the sink takes of it, and what it has yet to bring.
  abbrev Moved : ℕ → ℕ → Machine → Event → Machine → Type 0
  Moved t k m e n =
      ahead k (m.progress t) ++ begins t e ≡ lines_of t (enters k e) ++ ahead k (n.progress t)

  -- A step of thread `u`, seen by thread `t`.
  of_thread :
      (q : ℕ → Progress) (t u k : ℕ) (now after : Progress) (b x : List Bytes)
      → q u ≡ now
      → (u ≡ t → ahead k now ++ b ≡ x ++ ahead k after)
      → (u ≢ t → (b ≡ []) × (x ≡ []))
      → ahead k (q t) ++ b ≡ x ++ ahead k (put q u after t)
  of_thread q t u k now after b x a own other = elim (Bool-cases (t == u)) [
    | inl e ↦
        let i : u ≡ t = sym ((==_iff t u).0 e) in
        rw e (subst (λ v. ahead k v ++ b ≡ x ++ ahead k after) (sym a ∙ ap q i) (own i))
    | inr e ↦
        let (nb, nx) = other (λ i. cc ((==_iff t u).1 (sym i), e)) in
        rw (e, nb, nx, append-nil) refl
  ]

  -- A step that neither formats a line nor brings one to a sink.
  quiet_step :
      (q : ℕ → Progress) (t u k : ℕ) (now after : Progress)
      → q u ≡ now
      → (u ≡ t → ahead k now ≡ ahead k after)
      → ahead k (q t) ++ [] ≡ lines_of t [] ++ ahead k (put q u after t)
  unfolding lines_of
  quiet_step q t u k now after a own =
      of_thread q t u k now after [] [] a (λ i. append-nil (ahead k now) ∙ own i)
        (λ i. (refl, refl))

  bring :
      (t u j k : ℕ) (line : Bytes)
      → (u ≡ t
          → ahead k (writes line j) ++ []
            ≡ lines_of t (enters k (wrote u j line)) ++ ahead k (writes line (suc j)))
        × (u ≢ t → ([] ≡ begins t (wrote u j line)) × (lines_of t (enters k (wrote u j line)) ≡ []))
  unfolding lines_of
  bring t u j k line = (
    λ i. ground (arith, ==_iff u t, ==_iff j k),
    λ i. (refl, ground (arith, ==_iff u t, ==_iff j k)),
  )

  Step-Moved :
      {m n : Machine} {e : Event} (t k : ℕ)
      → Step os m e n
      → k < length m.sinks
      → losses t e ≡ []
      → Moved t k m e n
  Step-Moved {m} t k (format_line u r line warm a e) there kept =
      of_thread m.progress t u k resting (writes line 0) (begins t (began u r line)) (lines_of t [])
        a (λ i. unfold lines_of in ground (arith, ==_iff u t))
        (λ i. unfold lines_of in (ground (arith, ==_iff u t), refl))
  Step-Moved {m} t k (write_sink u j line s a at e) there kept =
      let (own, other) = bring t u j k line in
      of_thread m.progress t u k (writes line j) (writes line (suc j)) []
        (lines_of t (enters k (wrote u j line))) a own other
  Step-Moved {m} t k (write_throws u j line s x a at e) there kept =
      quiet_step m.progress t u k (writes line j) resting a (λ i. ground (arith, ==_iff u t))
  Step-Moved {m} t k (write_returns u j line a at) there kept =
      quiet_step m.progress t u k (writes line j) resting a
        (λ i. rw (past m.sinks j k at there) refl)
  Step-Moved {m} t k (flush_call u a) there kept =
      quiet_step m.progress t u k resting (flushes 0) a (λ i. refl)
  Step-Moved {m} t k (flush_sink u j s a at) there kept =
      quiet_step m.progress t u k (flushes j) (flushes (suc j)) a (λ i. refl)
  Step-Moved {m} t k (flush_returns u j a at) there kept =
      quiet_step m.progress t u k (flushes j) resting a (λ i. refl)
  Step-Moved {m} t k (set_pattern q) there kept =
      unfold lines_of in append-nil (ahead k (m.progress t))

  pub split {ℓ} :
      {A : Type ℓ} (f : Event → List A) (es : List Event) {es' : List Event} (e : Event)
      → es' ≡ es ++ e ∷ []
      → gather f es' ≡ gather f es ++ f e
  split f es e i = ap (gather f) i ∙ gather-concat f es e

  Run-length : {m n : Machine} {es : List Event} → Run os m es n → length n.sinks ≡ length m.sinks
  Run-length start = refl
  Run-length (then_step r st i) = Step-length st ∙ Run-length r

  -- What a run shows of a thread: a sink takes its lines in the order in which it formatted them.
  pub Run-Moved :
      {m n : Machine} {es : List Event} (t k : ℕ)
      → Run os m es n
      → k < length m.sinks
      → gather (losses t) es ≡ []
      → ahead k (m.progress t) ++ gather (begins t) es
        ≡ lines_of t (gather (enters k) es) ++ ahead k (n.progress t)
  unfolding gather lines_of
  Run-Moved {m} t k start there kept = append-nil (ahead k (m.progress t))
  Run-Moved {m} {n = o} t k (then_step {n} {es} {es'} {e} r st i) there kept =
      let (kept, held) = append-nil_inv (sym (split (losses t) es e i) ∙ kept) in
      let first = Run-Moved t k r there kept in
      let last = Step-Moved t k st (subst (λ l. k < l) (sym (Run-length r)) there) held in
      rw (split (begins t) es e i, split (enters k) es e i, lines_of-append)
        (chain (ahead k (m.progress t)) (gather (begins t) es) (ahead k (n.progress t)) (begins t e)
          (lines_of t (gather (enters k) es)) (lines_of t (enters k e)) (ahead k (o.progress t))
          first last)
