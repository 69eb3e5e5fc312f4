-- ===== src/Logger/Housing.antt =====
-- What the constructor of src/logger.cpp makes of the backend: with or without a queue, and with
-- the sinks that the settings ask for.
use logparse.Base.{
  either, ℕ, ◌≡◌, refl, ap, ◌∙◌, sym, Bool, true, false, List, [], ◌∷◌, ◌++◌, Bytes, All, Option,
  none, some, append-nil, if◌then◌else◌, equal_iff,
}
use logparse.Async.{make_async}
use logparse.Backend.{Backend}
use logparse.Config.{OverflowPolicy}
use logparse.Level.{Level}
use logparse.Logger.{
  Logger, AnyBackend, on_caller, on_worker, shared, with_shared, add_sink, with_file,
}
use logparse.Record.{blank_record}
use logparse.Sink
use logparse.Sink.{Sink, SinkError, FileSink, Made, make_file_sink, console_sink, file_sink, opened}
use logparse.Sink.Disk.{World, update, content, handed_over, open_append}
use logparse.Sink.Files.{IsFileless}

-- The world after a file was opened for appending.
abbrev reopened_world : World → Bytes → World
reopened_world w path = record w { files = update w.files path (some (content path w)) }

content-reopened_world :
    (w : World) (path : Bytes) → content path (reopened_world w path) ≡ content path w
content-reopened_world w path = rw ((equal_iff path path).1 refl) refl

pending-nil :
    {path : Bytes} (f : FileSink)
    → ◌≡◌ {A = Option FileSink}
        (some (record { path = path; stream = record { is_open = true; pending = [] } }))
        (some f)
    → f.stream.pending ≡ []
pending-nil f e = cc e

-- A file sink that was made is open, and its file holds what it held.
abbrev MadeOpen : World → Bytes → Made FileSink → Type 0
MadeOpen w path m =
    (f : FileSink)
    → m.made ≡ some f
    → (f.path ≡ path)
      × (f.stream.is_open ≡ true)
      × (handed_over path (f.stream, m.world) ≡ content path w)

pub make_file_sink-MadeOpen : (w : World) (path : Bytes) → MadeOpen w path (make_file_sink w path)
unfolding make_file_sink open_append
make_file_sink-MadeOpen w path =
    either (MadeOpen w path) (w.directory_refused path) (λ f e. cc e)
      (either (λ x. MadeOpen w path (opened (λ s. record { path = path; stream = s }) x))
        (w.open_refused path) (λ f e. cc e)
        (λ f e. (
          cc e,
          cc e,
          ap (λ x. content path (reopened_world w path) ++ x) (pending-nil f e)
              ∙ append-nil (content path (reopened_world w path))
              ∙ content-reopened_world w path,
        )))

-- The console sink that the settings ask for.
abbrev pub console_part : Bool → Bool → List Sink
console_part on colored = if on then console_sink colored ∷ [] else []

pub console_part-IsFileless : (on colored : Bool) → All IsFileless (console_part on colored)
console_part-IsFileless true colored = (tt, tt)
console_part-IsFileless false colored = tt

-- The backend and the level of a logger, if there is one.
abbrev backend_or : AnyBackend → Option Logger → AnyBackend
backend_or b none = b
backend_or b (some l) = l.m_backend

abbrev level_or : Level → Option Logger → Level
level_or at none = at
level_or at (some l) = l.m_level

-- The state that a logger's backend shares, changed.
abbrev changed : (Backend → Backend) → AnyBackend → AnyBackend
changed g y = with_shared y (g (shared y))

-- A backend as it is made: with a queue and a worker, or without.
abbrev pub housed : Bool → ℕ → OverflowPolicy → Backend → AnyBackend
housed on n p b = if on then on_worker (make_async b n p blank_record) else on_caller b

changed-housed :
    (on : Bool) (n : ℕ) (p : OverflowPolicy) (g : Backend → Backend) (b : Backend)
    → changed g (housed on n p b) ≡ housed on n p (g b)
unfolding make_async
changed-housed true n p g b = refl
changed-housed false n p g b = refl

module _ (house : Bool) (n : ℕ) (p : OverflowPolicy) where
  abbrev home : Backend → AnyBackend
  home = housed house n p

  add_sink-housed :
      (l : Logger) (b : Backend) (s : Sink)
      → l.m_backend ≡ home b
      → (add_sink l s).m_backend ≡ home (record b { sinks = Sink.add_sink b.sinks s })
  unfolding add_sink
  add_sink-housed l b s e =
      let put : Backend → Backend = λ x. record x { sinks = Sink.add_sink x.sinks s } in
      ap (changed put) e ∙ changed-housed house n p put b

  pub console-housed :
      (on colored : Bool) (l : Logger) (b : Backend)
      → l.m_backend ≡ home b
      → b.sinks ≡ []
      → (if on then add_sink l (console_sink colored) else l).m_backend
        ≡ home (record b { sinks = console_part on colored })
  unfolding Sink.add_sink
  console-housed true colored l b e k =
      add_sink-housed l b (console_sink colored) e
      ∙ ap (λ ss. home (record b { sinks = ss ++ console_sink colored ∷ [] })) k
  console-housed false colored l b e k = e ∙ ap (λ ss. home (record b { sinks = ss })) k

  pub file-housed :
      (l l' : Logger) (b : Backend) (w : World) (t : Option SinkError) (f : FileSink)
      → l.m_backend ≡ home b
      → (with_file l w t (some f)).made ≡ some l'
      → l'.m_backend ≡ home (record b { sinks = b.sinks ++ file_sink f ∷ []; world = w })
  unfolding Sink.add_sink add_sink
  file-housed l l' b w t f e h =
      let move : Backend → Backend = λ x. record x { world = w } in
      let put : Backend → Backend = λ x. record x { sinks = x.sinks ++ file_sink f ∷ [] } in
      ap (backend_or (home b)) (sym h)
      ∙ ap (λ y. changed put (changed move y)) e
      ∙ ap (changed put) (changed-housed house n p move b)
      ∙ changed-housed house n p put (move b)

pub console-level :
    (on colored : Bool) (l : Logger)
    → (if on then add_sink l (console_sink colored) else l).m_level ≡ l.m_level
unfolding add_sink
console-level true colored l = refl
console-level false colored l = refl

pub file-level :
    (l l' : Logger) (w : World) (t : Option SinkError) (f : FileSink)
    → (with_file l w t (some f)).made ≡ some l'
    → l'.m_level ≡ l.m_level
unfolding add_sink
file-level l l' w t f h = ap (level_or l.m_level) (sym h)
