-- ===== src/Logger/Files.antt =====
-- The log file of a logger, from its settings to its bytes.
use logparse.Base.{
  append-nil, length, ◌≢◌, ◌≡◌, ◌<◌, size_mod, refl, ap, ◌∙◌, sym, subst, true, Bool-cases, inl,
  inr, List, ◌++◌, some,
}
use logparse.Async.{Async, make_async, ended, joining, Event}
use logparse.Async.Output.{file_complete}
use logparse.Async.Solo.{Solo-Run}
use logparse.Async.Stop.{stop_returns}
use logparse.Async.Steps.{Run, Run-append, taken-append, taken}
use logparse.Backend.Files.{lines_text}
use logparse.Config.{Config, block, is_async}
use logparse.Formatter.Reads.{Piece, Reads}
use logparse.Logger.{Logger, on_worker, shared, make_logger}
use logparse.Platform.{Platform, IsFaithful}
use logparse.Record.{blank_record}
use logparse.Sink.Disk.{World, content}
use logparse.Logger.Prepared.{Prepared, housed, Prepared-made, console_part-IsFileless}
use logparse.Logger.Calls.{flush, flush_backend}
use logparse.Async.Flushed.{flush-content}
use logparse.Config.{drop_oldest}
use logparse.Logger.{returned, sleeps, logged}
use logparse.Async.{flush_ready}
use logparse.Backend.{flush_sinks}

-- A flush that returns had its condition, and flushed the sinks.
flush-on_worker :
    (l l' : Logger) (s : Async)
    → l.m_backend ≡ on_worker s
    → flush l ≡ returned l'
    → (flush_ready s ≡ true)
      × (l'.m_backend ≡ on_worker (record s { backend = flush_sinks s.backend }))
unfolding flush flush_backend
flush-on_worker l l' s e h =
    let shape : flush l ≡ logged l (flush_backend (on_worker s)) =
      ap (λ y. logged l (flush_backend y)) e in
    elim (Bool-cases (flush_ready s)) [
      | inl ready ↦
          let flushed : logged l (flush_backend (on_worker s))
              ≡ returned (record l {
                m_backend = on_worker (record s { backend = flush_sinks s.backend });
              }) =
            rw ready refl in
          (ready, sym (cc (sym flushed ∙ sym shape ∙ h)))
      | inr waits ↦
          let slept : logged l (flush_backend (on_worker s)) ≡ sleeps = rw waits refl in
          absurd (cc (sym slept ∙ sym shape ∙ h))
    ]

-- A run of the backend of a logger that was made, as a run from the backend's constructor.
from_made :
    {Tm : Type 0} (os : Platform Tm) (c : Config) (w : World) (l : Logger) (a : Async)
    (p : Prepared os c w l) {s : Async} {es : List Event}
    → is_async c ≡ true
    → l.m_backend ≡ on_worker a
    → Run os a es s
    → Run os (make_async p.backend c.queue_capacity c.overflow_policy blank_record) es s
from_made os c w l a p {s} {es} async is_a r =
    let same : a ≡ make_async p.backend c.queue_capacity c.overflow_policy blank_record = cc (
      sym is_a
      ∙ p.is_housed
      ∙ ap (λ on. housed on c.queue_capacity c.overflow_policy p.backend) async) in
    subst (λ x. Run os x es s) same r

module _ {Tm : Type 0} (os : Platform Tm) (faithful : IsFaithful os) {ps : List Piece} where
  -- From the settings to the bytes: a logger that was made with `mode = async`, `overflow_policy =
  -- block` and `file = true`. Whatever its threads do, once the worker has ended, the log file holds
  -- what it held before the constructor, and the line of every record that the queue took, each once
  -- and in order, as the pattern of the settings reads. The capacity is positive and fits
  -- `std::size_t`, and fmt writes a text as it is.
  pub async_file_complete :
      (c : Config) (w : World) (l : Logger) (a s : Async) (es : List Event)
      → is_async c ≡ true
      → c.overflow_policy ≡ block
      → c.enable_file ≡ true
      → 0 < c.queue_capacity
      → c.queue_capacity < size_mod
      → Reads c.pattern ps
      → (make_logger c w).made ≡ some l
      → l.m_backend ≡ on_worker a
      → Run os a es s
      → s.worker ≡ ended
      → content c.file_path s.backend.world ≡ content c.file_path w ++ lines_text os ps (taken es)
  async_file_complete c w l a s es async blocks files pos fits reads made is_a r w_ended =
      let p = Prepared-made os c w l files made in
      file_complete os faithful reads (console_part-IsFileless c.enable_console c.colored_output) tt
        p.backend c.queue_capacity c.overflow_policy blank_record pos fits blocks p.filing
        (from_made os c w l a p async is_a r) w_ended

  -- Behind `stop`: a logger that was made with `mode = async`, `overflow_policy = block` and
  -- `file = true`. From any state in which `stop` waits for the worker, however that was reached,
  -- the backend can run on until the worker has ended, and the log file then holds what it held
  -- before the constructor, and the line of every record that the queue took, each once and in
  -- order, as the pattern of the settings reads. The capacity is positive and fits `std::size_t`,
  -- and fmt writes a text as it is.
  pub stop_complete :
      (c : Config) (w : World) (l : Logger) (a s : Async) (es : List Event)
      → is_async c ≡ true
      → c.overflow_policy ≡ block
      → c.enable_file ≡ true
      → 0 < c.queue_capacity
      → c.queue_capacity < size_mod
      → Reads c.pattern ps
      → (make_logger c w).made ≡ some l
      → l.m_backend ≡ on_worker a
      → Run os a es s
      → s.stopper ≡ joining
      → (t : Async) × (fs : List Event) × Run os s fs t
        × (t.worker ≡ ended)
        × (content c.file_path t.backend.world
            ≡ content c.file_path w ++ lines_text os ps (taken es))
  stop_complete c w l a s es async blocks files pos fits reads made is_a r joins =
      let p = Prepared-made os c w l files made in
      let (t, k, alone, ends, few) =
        stop_returns os p.backend c.queue_capacity c.overflow_policy blank_record pos fits
          (from_made os c w l a p async is_a r) joins in
      let (fs, r', none_taken) = Solo-Run os alone in
      (
        t,
        fs,
        r',
        ends,
        async_file_complete c w l a t (es ++ fs) async blocks files pos fits reads made is_a
              (Run-append os r r') ends
            ∙ ap (λ rs. content c.file_path w ++ lines_text os ps rs)
                (taken-append es fs ∙ rw none_taken (append-nil (taken es))),
      )

  -- Behind `flush`: a logger that was made with `mode = async`, `file = true` and a
  -- policy other than `DropOldest`. Whatever its threads did, once every push is counted, a `flush`
  -- that returns leaves in the log file what it held before the constructor, and the line of every
  -- record that the queue took, each once and in order, as the pattern of the settings reads. The
  -- capacity is positive and fits `std::size_t`, fewer than 2 ^ 64 records were taken, and fmt
  -- writes a text as it is.
  pub flush_complete :
      (c : Config) (w : World) (l l' l'' : Logger) (a s : Async) (es : List Event)
      → is_async c ≡ true
      → c.overflow_policy ≢ drop_oldest
      → c.enable_file ≡ true
      → 0 < c.queue_capacity
      → c.queue_capacity < size_mod
      → Reads c.pattern ps
      → (make_logger c w).made ≡ some l
      → l.m_backend ≡ on_worker a
      → Run os a es s
      → length (taken es) < size_mod
      → s.uncounted ≡ 0
      → l'.m_backend ≡ on_worker s
      → flush l' ≡ returned l''
      → content c.file_path (shared l''.m_backend).world
        ≡ content c.file_path w ++ lines_text os ps (taken es)
  flush_complete c w l l' l'' a s es async other files pos fits reads made is_a r few counted_all
        now returns =
      let p = Prepared-made os c w l files made in
      let (ready, after) = flush-on_worker l' l'' s now returns in
      ap (λ x. content c.file_path (shared x).world) after
      ∙ flush-content os p.backend c.queue_capacity c.overflow_policy blank_record faithful reads
          (console_part-IsFileless c.enable_console c.colored_output) tt pos fits other p.filing
          (from_made os c w l a p async is_a r) few counted_all ready
