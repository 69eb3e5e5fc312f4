-- ===== src/Threads/Patterns.antt =====
-- The pattern behind each line, while other threads set patterns.
use logparse.Base.{
  ℕ, ◌≡◌, refl, ap, ◌∙◌, sym, subst, Bool-cases, inl, inr, List, [], ◌∷◌, ◌++◌, Bytes, ◌==◌,
}
use logparse.Formatter.{make_formatter}
use logparse.Formatter
use logparse.Formatter.Cache.{IsWarm, format_lem}
use logparse.Formatter.Cache
use logparse.Formatter.Escape.{compile_pattern_lem}
use logparse.Formatter.Reads.{Piece, Reads}
use logparse.Platform.{Platform, IsFaithful}
use logparse.Record.{LogRecord}
use logparse.Threads.{
  Machine, Step, format_line, write_sink, write_throws, write_returns, flush_call, flush_sink,
  flush_returns, set_pattern, put, Run, start, then_step, Event, began, wrote, failed, patterned,
  silent, flushed,
}

-- The last pattern that was set.
unfoldable pub in_force : Bytes → List Event → Bytes
in_force p [] = p
in_force p (patterned q ∷ es) = in_force q es
in_force p (e ∷ es) = in_force p es

pub after : Bytes → Event → Bytes
unfolding in_force
after p e = in_force p (e ∷ [])

in_force-concat :
    (p : Bytes) (es : List Event) (e : Event) → in_force p (es ++ e ∷ []) ≡ after (in_force p es) e
unfolding in_force after
in_force-concat p [] e = refl
in_force-concat p (began t r line ∷ es) e = in_force-concat p es e
in_force-concat p (wrote t k line ∷ es) e = in_force-concat p es e
in_force-concat p (failed t k line ∷ es) e = in_force-concat p es e
in_force-concat p (patterned q ∷ es) e = in_force-concat q es e
in_force-concat p (silent ∷ es) e = in_force-concat p es e
in_force-concat p (flushed t k ∷ es) e = in_force-concat p es e

module _ {Tm : Type 0} (os : Platform Tm) (faithful : IsFaithful os) where
  -- The formatter is that of a pattern, and every thread's cache is right.
  pub record IsPatterned (p : Bytes) (m : Machine) : Type 0 where
    pub formatter : m.formatter ≡ make_formatter p
    pub caches : (t : ℕ) → IsWarm os (m.caches t)

  -- `line` is what the pattern asks for: the text of the pieces that it reads as, and a line break.
  abbrev pub IsLine : Bytes → LogRecord → Bytes → Type 0
  IsLine p r line = (ps : List Piece) × Reads p ps × (line ≡ Cache.line os ps r)

  pub formatted :
      {p line : Bytes} {m : Machine} {warm : Formatter.TimeCache} (t : ℕ) (r : LogRecord)
      → IsPatterned p m
      → Formatter.format os m.formatter (m.caches t) [] r ≡ (line, warm)
      → IsLine p r line × IsWarm os warm
  formatted {p} {m = m} t r h e =
      let (reads, only) = compile_pattern_lem p in
      let (text, w) = format_lem os faithful (m.caches t) [] r reads (h.caches t) in
      let same = ap (λ f. Formatter.format os f (m.caches t) [] r) (sym h.formatter) ∙ e in
      ((_, reads, sym (ap (λ o. o.0) same) ∙ text), subst (λ o. IsWarm os o.1) same w)

  put-IsWarm :
      (caches : ℕ → Formatter.TimeCache) (t : ℕ) (warm : Formatter.TimeCache)
      → ((u : ℕ) → IsWarm os (caches u))
      → IsWarm os warm
      → (u : ℕ) → IsWarm os (put caches t warm u)
  put-IsWarm caches t warm all w u = elim (Bool-cases (u == t)) [
    | inl e ↦ rw e w
    | inr e ↦ rw e (all u)
  ]

  pub Step-IsPatterned :
      {p : Bytes} {m n : Machine} {e : Event}
      → Step os m e n
      → IsPatterned p m
      → IsPatterned (after p e) n
  unfolding after in_force
  Step-IsPatterned {p} {m} (format_line t r line warm a e) h = record {
    formatter = h.formatter;
    caches = put-IsWarm m.caches t warm h.caches (formatted t r h e).1;
  }
  Step-IsPatterned (write_sink t j line s a at e) h = record {
    formatter = h.formatter;
    caches = h.caches;
  }
  Step-IsPatterned (write_throws t j line s x a at e) h = record {
    formatter = h.formatter;
    caches = h.caches;
  }
  Step-IsPatterned (write_returns t j line a at) h = record {
    formatter = h.formatter;
    caches = h.caches;
  }
  Step-IsPatterned (flush_call t a) h = record { formatter = h.formatter; caches = h.caches }
  Step-IsPatterned (flush_sink t j s a at) h = record { formatter = h.formatter; caches = h.caches }
  Step-IsPatterned (flush_returns t j a at) h = record {
    formatter = h.formatter;
    caches = h.caches;
  }
  Step-IsPatterned (set_pattern q) h = record {
    formatter = unfold Formatter.set_pattern make_formatter in refl;
    caches = h.caches;
  }

  pub Run-IsPatterned :
      {p : Bytes} {m n : Machine} {es : List Event}
      → Run os m es n
      → IsPatterned p m
      → IsPatterned (in_force p es) n
  unfolding in_force
  Run-IsPatterned start h = h
  Run-IsPatterned {p} {n = o} (then_step {es} {e} r st i) h =
      subst (λ q. IsPatterned q o) (sym (ap (in_force p) i ∙ in_force-concat p es e))
        (Step-IsPatterned st (Run-IsPatterned r h))

  -- After any run of any threads, the next line that a thread formats is that of the pattern last
  -- set, whatever calls of `log`, `flush` and `set_pattern` went before, if the run starts with the
  -- formatter of a pattern and no cache that is wrong. fmt writes a text as it is.
  pub line_in_force :
      {p line : Bytes} {m n : Machine} {es : List Event} (t : ℕ) (r : LogRecord) (o : Machine)
      → IsPatterned p m
      → Run os m es n
      → Step os n (began t r line) o
      → IsLine (in_force p es) r line
  line_in_force t r o h run (format_line _ _ _ warm a e) =
      (formatted t r (Run-IsPatterned run h) e).0
