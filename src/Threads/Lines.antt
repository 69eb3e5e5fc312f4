-- ===== src/Threads/Lines.antt =====
-- The lines of a thread, from its records, while no pattern is set.
use logparse.Base.{
  ℕ, ◌≡◌, refl, ap, ◌∙◌, sym, subst, true, false, List, [], ◌∷◌, ◌++◌, map, Bytes, ◌==◌,
  if◌then◌else◌, Bool,
}
use logparse.Formatter.Cache
use logparse.Formatter.Compile.{compile_pattern-Reads}
use logparse.Formatter.Reads.{Piece, Reads}
use logparse.Platform.{Platform, IsFaithful}
use logparse.Record.{LogRecord}
use logparse.Threads.{
  Machine, Step, format_line, write_sink, write_throws, write_returns, flush_call, flush_sink,
  flush_returns, set_pattern, Run, start, then_step, Event, began, wrote, failed, flushed, silent,
  patterned,
}
use logparse.Threads.Events.{gather, begins}
use logparse.Threads.Order.{append-nil_inv, split}
use logparse.Threads.Patterns.{IsPatterned, IsLine, formatted, in_force, Run-IsPatterned}

-- The records that a thread gave to `log`, and the patterns that were set.
abbrev pub asked : ℕ → Event → List LogRecord
asked t (began u r line) = if u == t then r ∷ [] else []
asked t _ = []

abbrev pub told : Event → List Bytes
told (patterned q) = q ∷ []
told _ = []

module _ {A B : Type 0} (f : A → B) where
  map-append : (xs ys : List A) → map f (xs ++ ys) ≡ map f xs ++ map f ys
  map-append [] ys = refl
  map-append (x ∷ xs) ys = ap (◌∷◌ (f x)) (map-append xs ys)

  map-if : (b : Bool) (x : A) → map f (if b then x ∷ [] else []) ≡ (if b then f x ∷ [] else [])
  map-if true x = refl
  map-if false x = refl

module _ {Tm : Type 0} (os : Platform Tm) (faithful : IsFaithful os) {p : Bytes} {ps : List Piece}
    (reads : Reads p ps) (t : ℕ) where
  abbrev lines : List LogRecord → List Bytes
  lines rs = map (λ r. Cache.line os ps r) rs

  only_line :
      {line : Bytes} (r : LogRecord) → IsLine os faithful p r line → line ≡ Cache.line os ps r
  only_line r (qs, reads', e) =
      e
      ∙ ap (λ x. Cache.line os x r)
          (sym (compile_pattern-Reads reads') ∙ compile_pattern-Reads reads)

  Step-lines :
      {m n : Machine} {e : Event}
      → Step os m e n
      → IsPatterned os faithful p m
      → begins t e ≡ lines (asked t e)
  Step-lines (format_line u r line warm a e) h =
      ap (λ x. if u == t then x ∷ [] else []) (only_line r (formatted os faithful u r h e).0)
      ∙ sym (map-if (λ x. Cache.line os ps x) (u == t) r)
  Step-lines (write_sink u j line s a at e) h = refl
  Step-lines (write_throws u j line s x a at e) h = refl
  Step-lines (write_returns u j line a at) h = refl
  Step-lines (flush_call u a) h = refl
  Step-lines (flush_sink u j s a at) h = refl
  Step-lines (flush_returns u j a at) h = refl
  Step-lines (set_pattern q) h = refl

  untold : (es : List Event) → gather told es ≡ [] → in_force p es ≡ p
  unfolding gather in_force
  untold [] none_told = refl
  untold (began u r line ∷ es) none_told = untold es none_told
  untold (wrote u k line ∷ es) none_told = untold es none_told
  untold (failed u k line ∷ es) none_told = untold es none_told
  untold (flushed u k ∷ es) none_told = untold es none_told
  untold (patterned q ∷ es) none_told = cc none_told
  untold (silent ∷ es) none_told = untold es none_told

  -- What a thread formats while no pattern is set: its records, as the pattern reads.
  pub Run-lines :
      {m n : Machine} {es : List Event}
      → Run os m es n
      → IsPatterned os faithful p m
      → gather told es ≡ []
      → gather (begins t) es ≡ lines (gather (asked t) es)
  unfolding gather
  Run-lines start h none_told = refl
  Run-lines (then_step {n} {es} {e = e} r st i) h none_told =
      let (none_yet, none_now) = append-nil_inv (sym (split os told es e i) ∙ none_told) in
      let patterned_so =
        subst (λ q. IsPatterned os faithful q n) (untold es none_yet)
          (Run-IsPatterned os faithful r h) in
      split os (begins t) es e i
      ∙ ap (λ x. x ++ begins t e) (Run-lines r h none_yet)
      ∙ ap (λ x. lines (gather (asked t) es) ++ x) (Step-lines st patterned_so)
      ∙ sym (map-append (λ x. Cache.line os ps x) (gather (asked t) es) (asked t e))
      ∙ ap lines (sym (split os (asked t) es e i))
