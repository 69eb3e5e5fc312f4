-- ===== src/Logger/Prepared.antt =====
-- The backend that `Logger::Logger` gives a logger with a log file.
pub use logparse.Logger.Housing.{console_part, console_part-IsFileless, housed}
use logparse.Logger.Housing.{
  make_file_sink-MadeOpen, console-housed, file-housed, console-level, file-level,
}
use logparse.Base.{
  ◌≡◌, refl, ◌∙◌, Bool, true, false, [], ◌∷◌, ◌++◌, Option, none, some, if◌then◌else◌,
}
use logparse.Backend.{Backend, make_backend}
use logparse.Backend.Files.{Filing}
use logparse.Config.{Config, is_async}
use logparse.Formatter.{make_formatter, cold}
use logparse.Logger.{Logger, bare_logger, with_console, with_file, make_logger}
use logparse.Platform.{Platform}
use logparse.Sink.{FileSink, Made, make_file_sink, file_sink, opened}
use logparse.Sink.Disk.{World, content}

-- The branch that the settings take.
taken_branch :
    (on : Bool) (x y : Made Logger) {l : Logger}
    → on ≡ true
    → (if on then x else y).made ≡ some l
    → x.made ≡ some l
taken_branch true x y e h = h
taken_branch false x y e h = cc e

-- The state of the backend, once the file sink was made.
abbrev file_backend : Config → FileSink → World → Backend
file_backend c f w = record {
  formatter = make_formatter c.pattern;
  sinks = console_part c.enable_console c.colored_output ++ file_sink f ∷ [];
  world = w;
  tls_buffer = [];
  cache = cold;
}

-- What the constructor leaves.
pub record Prepared {Tm : Type 0} (os : Platform Tm) (c : Config) (w : World) (l : Logger)
    : Type 0 where
  pub backend : Backend
  pub is_housed : l.m_backend ≡ housed (is_async c) c.queue_capacity c.overflow_policy backend
  pub level : l.m_level ≡ c.level
  pub filing :
      Filing os c.pattern
        (console_part c.enable_console c.colored_output)
        []
        c.file_path
        (content c.file_path w)
        backend

Prepared-with :
    {Tm : Type 0} (os : Platform Tm) (c : Config) (w : World) (l : Logger) (m : Option FileSink)
    → (make_file_sink w c.file_path).made ≡ m
    → (with_file
        (with_console c (bare_logger c w))
        (make_file_sink w c.file_path).world
        (make_file_sink w c.file_path).thrown
        m).made
      ≡ some l
    → Prepared os c w l
unfolding make_backend bare_logger
Prepared-with os c w l none e h = cc h
Prepared-with os c w l (some f) e h =
    let file = make_file_sink w c.file_path in
    let (path, opened, text) = make_file_sink-MadeOpen w c.file_path f e in
    let console =
      console-housed (is_async c) c.queue_capacity c.overflow_policy c.enable_console
        c.colored_output (bare_logger c w) (make_backend (make_formatter c.pattern) [] w) refl
        refl in
    record {
      backend = file_backend c f file.world;
      level =
          file-level (with_console c (bare_logger c w)) l file.world file.thrown f h
          ∙ console-level c.enable_console c.colored_output (bare_logger c w);
      is_housed =
          file-housed (is_async c) c.queue_capacity c.overflow_policy
            (with_console c (bare_logger c w)) l
            (record (make_backend (make_formatter c.pattern) [] w) {
              sinks = console_part c.enable_console c.colored_output;
            })
            file.world file.thrown f console h;
      filing = record {
        file = f;
        pattern = refl;
        warm = λ k. cc k;
        sinks = refl;
        at_path = path;
        is_open = opened;
        text = text;
      };
    }

pub Prepared-made :
    {Tm : Type 0} (os : Platform Tm) (c : Config) (w : World) (l : Logger)
    → c.enable_file ≡ true
    → (make_logger c w).made ≡ some l
    → Prepared os c w l
unfolding make_logger
Prepared-made os c w l e h =
    let file = make_file_sink w c.file_path in
    let l0 = with_console c (bare_logger c w) in
    Prepared-with os c w l file.made refl (
      taken_branch c.enable_file (with_file l0 file.world file.thrown file.made)
        (record { made = some l0; world = w; thrown = none }) e h)
