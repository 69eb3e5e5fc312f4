-- ===== src/Sink/Keeping.antt =====
-- The loops of `SinkManager`, seen from one of its sinks.
use logparse.Base.{
  ℕ, suc, ◌≡◌, ◌≢◌, ◌<◌, refl, ap, ◌∙◌, sym, subst, Bool-cases, inl, inr, none, some, List, [], ◌∷◌,
  ◌++◌, Bytes, ◌==◌, ==_iff, leb, if◌then◌else◌, get_elem?, set, length, append-nil, append_assoc,
  arith,
}
use logparse.Platform.{Platform}
use logparse.Sink.{Sink, Outcome, write, flush, write_all, flush_all}
use logparse.Sink.Disk.{World}
use logparse.Sink.Files.{write_all-cons}
use logparse.Sink.Keeper.{Keeper}
use logparse.Sink.Others.{OthersAre, OthersAre-set, get_elem?-behind, set-behind, length-one_more}
use logparse.Sink.Steady.{IsSteady, write-IsSteady, flush-IsSteady}

-- What the sink at an index still takes of a line, when the loop is at another index.
abbrev still : ℕ → ℕ → Bytes → Bytes
still i k line = if leb i k then line else []

still-later : (i k : ℕ) (line : Bytes) → i ≢ k → still (suc i) k line ≡ still i k line
still-later i k line ne = ground arith

still-own : (k : ℕ) (line : Bytes) → still k k line ≡ line
still-own k line = ground arith

still-over : (k : ℕ) (line : Bytes) → still (suc k) k line ≡ []
still-over k line = ground arith

still-first : (k : ℕ) (line : Bytes) → still 0 k line ≡ line
still-first k line = ground arith

still-none : (i k : ℕ) (line : Bytes) → k < i → still i k line ≡ []
still-none i k line lt = ground arith

module _ {Tm : Type 0} (os : Platform Tm) (k : ℕ) (Has : Bytes → List Sink → World → Type 0)
    (keeper : Keeper os k Has) where
  -- The sink has the bytes, and no other sink can throw.
  abbrev pub Safe : Bytes → List Sink → World → Type 0
  Safe b sinks w = Has b sinks w × OthersAre IsSteady k sinks

  -- A sink of the list is written to: what it takes of the line for the sink at the index.
  record Wrote (b line : Bytes) (sinks : List Sink) (i : ℕ) (o : Outcome Sink) : Type 0 where
    quiet : o.thrown ≡ none
    taken : Bytes
    rest : taken ++ still (suc i) k line ≡ still i k line
    safe : Safe (b ++ taken) (set sinks i o.object) o.world

  write_one :
      (b line : Bytes) (sinks : List Sink) (w : World) (i : ℕ) (s : Sink)
      → Safe b sinks w
      → get_elem? sinks i ≡ some s
      → Wrote b line sinks i (write os s line w)
  write_one b line sinks w i s (has, steady) at = elim (Bool-cases (i == k)) [
    | inl e ↦
        let same : k ≡ i = sym ((==_iff i k).0 e) in
        let o = write os s line w in
        let (quiet, longer) =
          keeper.own_write b line sinks w s has (ap (get_elem? sinks) same ∙ at) in
        record {
          quiet = quiet;
          taken = line;
          rest =
              subst (λ j. line ++ still (suc j) k line ≡ still j k line) same
                (ap (λ x. line ++ x) (still-over k line)
                  ∙ append-nil line
                  ∙ sym (still-own k line));
          safe = (
            subst (λ j. Has (b ++ line) (set sinks j o.object) o.world) same longer,
            OthersAre-set IsSteady k sinks o.object i at (λ ne. absurd (ne (sym same))) steady,
          );
        }
    | inr e ↦
        let ne : i ≢ k = λ x. cc ((==_iff i k).1 x, e) in
        let o = write os s line w in
        let (quiet, calm) = write-IsSteady os s line w (steady i s ne at) in
        record {
          quiet = quiet;
          taken = [];
          rest = still-later i k line ne;
          safe = (
            rw (append-nil b) (keeper.other_write b line sinks w i s has ne at),
            OthersAre-set IsSteady k sinks o.object i at (λ x. calm) steady,
          );
        }
  ]

  write_loop :
      (before ss : List Sink) (b line : Bytes) (w : World)
      → Safe b (before ++ ss) w
      → let o = write_all os ss line w in
        (o.thrown ≡ none) × Safe (b ++ still (length before) k line) (before ++ o.object) o.world
  unfolding write_all
  write_loop before [] b line w (has, steady) =
      let there = keeper.there b (before ++ []) w has in
      let over =
        still-none (length before) k line (subst (λ l. k < length l) (append-nil before) there) in
      (refl, rw (over, append-nil b) (has, steady))
  write_loop before (s ∷ ss) b line w safe =
      let i = length before in
      let o = write os s line w in
      let one = write_one b line (before ++ s ∷ ss) w i s safe (get_elem?-behind before s ss) in
      let put = set-behind before s o.object ss in
      let (quiet, taken) =
        write_loop (before ++ o.object ∷ []) ss (b ++ one.taken) line o.world
          (subst (λ x. Safe (b ++ one.taken) x o.world) put one.safe) in
      let rest = write_all os ss line o.world in
      let all_taken : (b ++ one.taken) ++ still (length (before ++ o.object ∷ [])) k line
          ≡ b ++ still i k line =
        ap (λ j. (b ++ one.taken) ++ still j k line) (length-one_more before o.object)
        ∙ append_assoc b one.taken (still (suc i) k line)
        ∙ ap (λ x. b ++ x) one.rest in
      let whole = write_all-cons os line s ss w one.quiet in
      (
        ap (λ x. x.thrown) whole ∙ quiet,
        subst (λ x. Safe (b ++ still i k line) (before ++ x.object) x.world) (sym whole)
            (subst (λ x. Safe (b ++ still i k line) x rest.world)
              (append_assoc before (o.object ∷ []) rest.object)
              (subst (λ x. Safe x ((before ++ o.object ∷ []) ++ rest.object) rest.world) all_taken
                taken)),
      )

  -- A call of `SinkManager::write` gives the sink the line once, and throws nothing.
  pub write_all-Safe :
      (sinks : List Sink) (b line : Bytes) (w : World)
      → Safe b sinks w
      → let o = write_all os sinks line w in (o.thrown ≡ none) × Safe (b ++ line) o.object o.world
  write_all-Safe sinks b line w safe =
      let o = write_all os sinks line w in
      let (quiet, done) = write_loop [] sinks b line w safe in
      (quiet, subst (λ x. Safe (b ++ x) o.object o.world) (still-first k line) done)

  flush_one :
      (b : Bytes) (sinks : List Sink) (w : World) (i : ℕ) (s : Sink)
      → Safe b sinks w
      → get_elem? sinks i ≡ some s
      → let o = flush s w in Safe b (set sinks i o.object) o.world
  flush_one b sinks w i s (has, steady) at = elim (Bool-cases (i == k)) [
    | inl e ↦
        let same : k ≡ i = sym ((==_iff i k).0 e) in
        let o = flush s w in
        (
          subst (λ j. Has b (set sinks j o.object) o.world) same
              (keeper.own_flush b sinks w s has (ap (get_elem? sinks) same ∙ at)),
          OthersAre-set IsSteady k sinks o.object i at (λ ne. absurd (ne (sym same))) steady,
        )
    | inr e ↦
        let ne : i ≢ k = λ x. cc ((==_iff i k).1 x, e) in
        let o = flush s w in
        (
          keeper.other_flush b sinks w i s has ne at,
          OthersAre-set IsSteady k sinks o.object i at (λ x. flush-IsSteady s w (steady i s ne at))
              steady,
        )
  ]

  flush_loop :
      (before ss : List Sink) (b : Bytes) (w : World)
      → Safe b (before ++ ss) w
      → let (after, w') = flush_all ss w in Safe b (before ++ after) w'
  unfolding flush_all
  flush_loop before [] b w safe = safe
  flush_loop before (s ∷ ss) b w safe =
      let o = flush s w in
      let one =
        flush_one b (before ++ s ∷ ss) w (length before) s safe (get_elem?-behind before s ss) in
      let put = set-behind before s o.object ss in
      let (after, w') = flush_all ss o.world in
      subst (λ x. Safe b x w') (append_assoc before (o.object ∷ []) after)
        (flush_loop (before ++ o.object ∷ []) ss b o.world (subst (λ x. Safe b x o.world) put one))

  pub flush_all-Safe :
      (sinks : List Sink) (b : Bytes) (w : World)
      → Safe b sinks w
      → let (after, w') = flush_all sinks w in Safe b after w'
  flush_all-Safe sinks b w safe = flush_loop [] sinks b w safe
