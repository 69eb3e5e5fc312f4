-- ===== src/Async/Solo.antt =====
-- Runs in which the worker of src/async_backend.cpp makes every step.
use logparse.Base.{ℕ, zero, suc, ◌≡◌, refl, ◌∙◌, List, [], ◌∷◌}
use logparse.Async.{Async, Event}
use logparse.Async.Steps.{Step, push_taken, Run, start, then_step, taken, taken-cons, Run-append}
use logparse.Async.Work.{by_worker}
use logparse.Platform.{Platform}

module _ {Tm : Type 0} (os : Platform Tm) where
  -- So many steps of the worker, and no step of another thread.
  pub data Solo : Async → ℕ → Async → Type 0 where
    rest : {s : Async} → Solo s zero s
    work_on :
        {s t u : Async} {e : Event} {n : ℕ} (st : Step os s e t)
        → by_worker os st ≡ 1
        → Solo t n u
        → Solo s (suc n) u

  -- The worker puts nothing into the queue.
  pub taken-by_worker :
      {s t : Async} {e : Event} (st : Step os s e t) → by_worker os st ≡ 1 → taken (e ∷ []) ≡ []
  unfolding by_worker taken
  taken-by_worker (push_taken r q e) h = cc h
  taken-by_worker _ h = refl

  -- Such a run is a run of the backend without a new record.
  pub Solo-Run :
      {s t : Async} {n : ℕ} → Solo s n t → (es : List Event) × Run os s es t × (taken es ≡ [])
  unfolding taken
  Solo-Run rest = ([], start, refl)
  Solo-Run (work_on {e} st w more) =
      let (es, r, none) = Solo-Run more in
      (
        e ∷ es,
        Run-append os (then_step start st refl) r,
        taken-cons e es ∙ cc (taken-by_worker st w, none),
      )
