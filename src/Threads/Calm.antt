-- ===== src/Threads/Calm.antt =====
-- Threads whose sinks do not rotate: no call throws, and no line is lost.
use logparse.Base.{ℕ, ◌≡◌, refl, ap, ◌∙◌, List, [], ◌++◌, All}
use logparse.Platform.{Platform}
use logparse.Threads.{
  Machine, Step, format_line, write_sink, write_throws, write_returns, flush_call, flush_sink,
  flush_returns, set_pattern, Run, start, then_step, Event,
}
use logparse.Threads.Events.{gather, gather-concat}
use logparse.Threads.Order.{losses}
use logparse.Sink.Steady.{IsSteady, All-at, All-set, write-IsSteady, flush-IsSteady}

module _ {Tm : Type 0} (os : Platform Tm) (t : ℕ) where
  Step-IsSteady :
      {m n : Machine} {e : Event}
      → Step os m e n
      → All IsSteady m.sinks
      → All IsSteady n.sinks × (losses t e ≡ [])
  Step-IsSteady (format_line u r line warm a e) h = (h, refl)
  Step-IsSteady {m} (write_sink u j line s a at e) h = (
    All-set IsSteady m.sinks j h
        (write-IsSteady os s line m.world (All-at IsSteady m.sinks j h at)).1,
    refl,
  )
  Step-IsSteady {m} (write_throws u j line s x a at e) h =
      let (calm, still) = write-IsSteady os s line m.world (All-at IsSteady m.sinks j h at) in
      cc (calm, e)
  Step-IsSteady (write_returns u j line a at) h = (h, refl)
  Step-IsSteady (flush_call u a) h = (h, refl)
  Step-IsSteady {m} (flush_sink u j s a at) h = (
    All-set IsSteady m.sinks j h (flush-IsSteady s m.world (All-at IsSteady m.sinks j h at)),
    refl,
  )
  Step-IsSteady (flush_returns u j a at) h = (h, refl)
  Step-IsSteady (set_pattern q) h = (h, refl)

  pub Run-IsSteady :
      {m n : Machine} {es : List Event}
      → Run os m es n
      → All IsSteady m.sinks
      → All IsSteady n.sinks × (gather (losses t) es ≡ [])
  unfolding gather
  Run-IsSteady start h = (h, refl)
  Run-IsSteady (then_step {es} {e} r st i) h =
      let (steady, none_yet) = Run-IsSteady r h in
      let (still, none_now) = Step-IsSteady st steady in
      (
        still,
        ap (gather (losses t)) i
            ∙ gather-concat (losses t) es e
            ∙ ap (λ x. x ++ losses t e) none_yet
            ∙ none_now,
      )
