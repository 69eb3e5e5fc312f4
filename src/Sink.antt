-- ===== src/Sink.antt =====
-- include/logger/sink.hpp and src/sink.cpp: where formatted lines go. A sink's lock makes each of
-- its calls one step on the world of `Sink.Disk`.
pub mod Disk
pub mod Slots
pub mod Rotation
pub mod Archive
pub mod Reopened
pub mod History
pub mod Bounds
pub mod Manager
pub mod Files
pub mod Apart
pub mod Refusals
pub mod Others
pub mod Steady
pub mod Keeper
pub mod Keeping
pub mod Whole
pub mod Archived
mod Tests
use logparse.Base.{
  ℕ, zero, suc, Bool, true, List, [], ◌∷◌, ◌++◌, Option, none, some, Bytes, codes, leb, ◌==◌,
  if◌then◌else◌, add_size, length, or_else,
}
use logparse.Decimal.{to_string}
use logparse.Platform.{Platform}
use Disk.{
  World, Stream, closed_stream, content, exists, rename, open_append, stream_write, stream_flush,
  stream_close, print, print_flush,
}

-- What the constructors and `rotate` throw.
pub data SinkError : Type 0 where
  directory_error open_error reopen_error : SinkError

pub record FileSink : Type 0 where
  pub path : Bytes
  pub stream : Stream

pub record RotatingFileSink : Type 0 where
  pub path : Bytes
  pub stream : Stream
  pub max_file_size : ℕ
  pub max_files : ℕ

-- One constructor for each subclass of `Sink`.
pub data Sink : Type 0 where
  console_sink : Bool → Sink
  file_sink : FileSink → Sink
  rotating_sink : RotatingFileSink → Sink
  null_sink : Sink

-- An object of type `A` after a call, the world, and what was thrown.
pub record Outcome (A : Type 0) : Type 0 where
  pub object : A
  pub world : World
  pub thrown : Option SinkError

-- A constructor that opens a stream: the object, or what was thrown instead.
pub record Made (A : Type 0) : Type 0 where
  pub made : Option A
  pub world : World
  pub thrown : Option SinkError

abbrev pub opened : {A : Type 0} → (Stream → A) → Stream × World → Made A
opened build (s, w) =
    if s.is_open
    then record { made = some (build s); world = w; thrown = none }
    else record { made = none; world = w; thrown = some open_error }

abbrev refused : {A : Type 0} → World → Made A
refused w = record { made = none; world = w; thrown = some directory_error }

unfoldable pub make_file_sink : World → Bytes → Made FileSink
make_file_sink w file =
    if w.directory_refused file
    then refused w
    else opened (λ s. record { path = file; stream = s }) (open_append file w)

unfoldable pub make_rotating_sink : World → Bytes → ℕ → ℕ → Made RotatingFileSink
make_rotating_sink w file size files =
    if w.directory_refused file
    then refused w
    else opened (λ s. record { path = file; stream = s; max_file_size = size; max_files = files })
        (open_append file w)

unfoldable pub file_write : FileSink → Bytes → World → Outcome FileSink
file_write f buffer w =
    let (s, w') = stream_write f.path f.stream buffer w in
    record { object = record f { stream = s }; world = w'; thrown = none }

unfoldable pub file_flush : FileSink → World → Outcome FileSink
file_flush f w =
    let (s, w') = stream_flush f.path f.stream w in
    record { object = record f { stream = s }; world = w'; thrown = none }

unfoldable pub is_open : FileSink → Bool
is_open f = f.stream.is_open

-- `m_file.string() + "." + std::to_string(i)`
abbrev pub numbered : Bytes → ℕ → Bytes
numbered base i = base ++ (codes "." ++ to_string i)

-- The loop of `rotate`, at `i = k + 1`.
unfoldable pub rotate_loop : ℕ → Bytes → World → World
rotate_loop zero base w = w
rotate_loop (suc k) base w =
    let dest = numbered base (suc k) in
    let src = if suc k == 1 then base else numbered base k in
    rotate_loop k base (if exists src w then rename src dest w else w)

abbrev pub reopened : RotatingFileSink → Stream × World → Outcome RotatingFileSink
reopened r (s, w) =
    if s.is_open
    then record { object = record r { stream = s }; world = w; thrown = none }
    else record { object = record r { stream = s }; world = w; thrown = some reopen_error }

unfoldable pub rotate : RotatingFileSink → World → Outcome RotatingFileSink
rotate r w =
    let (s, w') = stream_close r.path r.stream w in
    reopened r (open_append r.path (rotate_loop r.max_files r.path w'))

unfoldable pub must_rotate : RotatingFileSink → Bytes → World → Bool
must_rotate r buffer w =
    let current_size = if exists r.path w then length (content r.path w) else 0 in
    leb r.max_file_size (add_size current_size (length buffer))

abbrev pub append_to : Bytes → Outcome RotatingFileSink → Outcome RotatingFileSink
append_to buffer o = elim o.thrown [
  | some e ↦ o
  | none ↦
      let (s, w) = stream_write o.object.path o.object.stream buffer o.world in
      record { object = record (o.object) { stream = s }; world = w; thrown = none }
]

unfoldable pub rotating_write : RotatingFileSink → Bytes → World → Outcome RotatingFileSink
rotating_write r buffer w =
    append_to buffer (
      if must_rotate r buffer w
      then rotate r w
      else record { object = r; world = w; thrown = none })

unfoldable pub rotating_flush : RotatingFileSink → World → Outcome RotatingFileSink
rotating_flush r w =
    let (s, w') = stream_flush r.path r.stream w in
    record { object = record r { stream = s }; world = w'; thrown = none }

abbrev as_sink : {A : Type 0} → (A → Sink) → Outcome A → Outcome Sink
as_sink f o = record { object = f o.object; world = o.world; thrown = o.thrown }

module _ {Tm : Type 0} (os : Platform Tm) where
  unfoldable pub console_write : Bool → Bytes → World → World
  console_write colored buffer w =
      print (if colored then os.format_white buffer else os.format_text buffer) w

  -- The virtual calls.
  unfoldable pub write : Sink → Bytes → World → Outcome Sink
  write (console_sink colored) buffer w = record {
    object = console_sink colored;
    world = console_write colored buffer w;
    thrown = none;
  }
  write (file_sink f) buffer w = as_sink file_sink (file_write f buffer w)
  write (rotating_sink r) buffer w = as_sink rotating_sink (rotating_write r buffer w)
  write null_sink buffer w = record { object = null_sink; world = w; thrown = none }

  -- `SinkManager::write`: an exception ends the loop.
  unfoldable pub write_all : List Sink → Bytes → World → Outcome (List Sink)
  write_all [] buffer w = record { object = []; world = w; thrown = none }
  write_all (s ∷ ss) buffer w =
      let o = write s buffer w in
      let rest = write_all ss buffer o.world in
      elim o.thrown [
        | some e ↦ record { object = o.object ∷ ss; world = o.world; thrown = some e }
        | none ↦ record {
          object = o.object ∷ rest.object;
          world = rest.world;
          thrown = rest.thrown;
        }
      ]

unfoldable pub console_flush : World → World
console_flush w = print_flush w

unfoldable pub flush : Sink → World → Outcome Sink
flush (console_sink colored) w = record {
  object = console_sink colored;
  world = console_flush w;
  thrown = none;
}
flush (file_sink f) w = as_sink file_sink (file_flush f w)
flush (rotating_sink r) w = as_sink rotating_sink (rotating_flush r w)
flush null_sink w = record { object = null_sink; world = w; thrown = none }

-- `SinkManager::flush`; no sink's `flush` throws.
unfoldable pub flush_all : List Sink → World → List Sink × World
flush_all [] w = ([], w)
flush_all (s ∷ ss) w =
    let o = flush s w in let (rest, w') = flush_all ss o.world in (o.object ∷ rest, w')

unfoldable pub add_sink : List Sink → Sink → List Sink
add_sink sinks s = sinks ++ s ∷ []

unfoldable pub empty : List Sink → Bool
empty sinks = length sinks == 0

unfoldable pub size : List Sink → ℕ
size sinks = length sinks
