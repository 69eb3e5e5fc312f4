-- ===== src/Logger/Setup.antt =====
-- The logger that the constructor makes.
use logparse.Base.{
  either, ◌≡◌, refl, ap, ◌∙◌, Bool, ℕ, Option, none, some, if◌then◌else◌, true, false,
}
use logparse.Async.{make_async}
use logparse.Backend.{make_backend}
use logparse.Config.{Config, RotationConfig, is_async}
use logparse.Formatter.{make_formatter}
use logparse.Level.{Level}
use logparse.Logger.{
  Logger, AnyBackend, shared, with_shared, add_sink, bare_logger, with_console, with_file,
  make_logger,
}
use logparse.Logger.Ops.{IsTuned, add_sink-IsTuned, formatter-with_shared}
use logparse.Sink.{Sink, SinkError, Made, FileSink, make_file_sink, console_sink, file_sink}
use logparse.Sink.Disk.{World}

-- What agrees on both branches agrees on the tests.
agreeing :
    {A B : Type 0} (f : A → B) (b : Bool) {x y x' y' : A}
    → f x ≡ f x'
    → f y ≡ f y'
    → f (if b then x else y) ≡ f (if b then x' else y')
agreeing f true h k = h
agreeing f false h k = k

bare_logger-IsTuned : (c : Config) (w : World) → IsTuned (bare_logger c w)
unfolding bare_logger make_backend make_async
bare_logger-IsTuned c w =
    either (λ a. (shared a).formatter ≡ make_formatter c.pattern) (is_async c) refl refl

with_console-IsTuned : (c : Config) (l : Logger) → IsTuned l → IsTuned (with_console c l)
with_console-IsTuned c l t =
    either IsTuned c.enable_console (add_sink-IsTuned l (console_sink c.colored_output) t) t

-- A constructed logger is tuned; one whose constructor threw is none.
abbrev pub MadeTuned : Made Logger → Type 0
MadeTuned m = elim m.made [ none ↦ Unit | some l ↦ IsTuned l ]

with_file-MadeTuned :
    (l : Logger) (w : World) (e : Option SinkError) (m : Option FileSink)
    → IsTuned l
    → MadeTuned (with_file l w e m)
with_file-MadeTuned l w e none t = tt
with_file-MadeTuned l w e (some f) t =
    let b = shared l.m_backend in
    add_sink-IsTuned (record l { m_backend = with_shared l.m_backend (record b { world = w }) })
      (file_sink f)
      (ap (λ x. x.formatter) (formatter-with_shared l.m_backend (record b { world = w })) ∙ t)

-- The constructor compiles the pattern of the settings, whichever backend and sinks they choose.
pub make_logger-MadeTuned : (c : Config) (w : World) → MadeTuned (make_logger c w)
unfolding make_logger
make_logger-MadeTuned c w =
    let l = with_console c (bare_logger c w) in
    let file = make_file_sink w c.file_path in
    let t = with_console-IsTuned c (bare_logger c w) (bare_logger-IsTuned c w) in
    either MadeTuned c.enable_file (with_file-MadeTuned l file.world file.thrown file.made t) t

-- What a constructor made, less the settings that `config()` shows.
abbrev pub behaviour : Made Logger → Option (Level × AnyBackend) × World × Option SinkError
behaviour m =
    (elim m.made [ none ↦ none | some l ↦ some (l.m_level, l.m_backend) ], m.world, m.thrown)

-- What a logger does, less the settings.
abbrev working : Logger → Level × AnyBackend
working l = (l.m_level, l.m_backend)

working-add_sink :
    (l l' : Logger) (s : Sink)
    → working l ≡ working l'
    → working (add_sink l s) ≡ working (add_sink l' s)
unfolding add_sink
working-add_sink l l' s e =
    ap (λ x. working (add_sink (record l { m_level = x.0; m_backend = x.1 }) s)) e

behaviour-with_file :
    (l l' : Logger) (w : World) (t : Option SinkError) (m : Option FileSink)
    → working l ≡ working l'
    → behaviour (with_file l w t m) ≡ behaviour (with_file l' w t m)
unfolding add_sink
behaviour-with_file l l' w t none e = refl
behaviour-with_file l l' w t (some f) e =
    ap (λ x. behaviour (with_file (record l { m_level = x.0; m_backend = x.1 }) w t (some f))) e

module _ (c : Config) (rotation : RotationConfig) (on_error : Bool) (interval : ℕ) where
  abbrev pub resettled : Config
  resettled = record c {
    rotation = rotation;
    flush_on_error = on_error;
    flush_interval_ms = interval;
  }

  module _ (w : World) where
    working-bare_logger : working (bare_logger resettled w) ≡ working (bare_logger c w)
    unfolding bare_logger is_async
    working-bare_logger = refl

    working-with_console :
        working (with_console resettled (bare_logger resettled w))
        ≡ working (with_console c (bare_logger c w))
    working-with_console =
        agreeing working c.enable_console
          (working-add_sink (bare_logger resettled w) (bare_logger c w)
            (console_sink c.colored_output) working-bare_logger)
          working-bare_logger

    -- The rotation settings, `flush_on_error` and `flush_interval_ms` do not change what the
    -- constructor makes: neither the level, nor the backend and its sinks, nor the files.
    pub make_logger-resettled : behaviour (make_logger resettled w) ≡ behaviour (make_logger c w)
    unfolding make_logger
    make_logger-resettled =
        let l = with_console resettled (bare_logger resettled w) in
        let l' = with_console c (bare_logger c w) in
        let file = make_file_sink w c.file_path in
        agreeing behaviour c.enable_file
          (behaviour-with_file l l' file.world file.thrown file.made working-with_console)
          (ap (λ x. (some x, w, none)) working-with_console)
