-- ===== src/Fixtures.antt =====
-- A concrete platform, world and record, at which the theorems are tried.
use logparse.Base.{
  ◌++◌, ℕ, zero, suc, true, ◌≡◌, subst, some, false, [], ◌∷◌, refl, none, codes, length, List,
}
use logparse.Backend.{Backend}
use logparse.Decimal.{to_string}
use logparse.Formatter.{TokenKind, make_formatter, cold}
use logparse.Formatter.Cache.{IsWarm}
use logparse.Formatter.Reads.{meaning, begins, Piece, byte, field, Reads, stop, plain, directed}
use logparse.Level.{warn}
use logparse.Platform.{Platform, IsFaithful}
use logparse.Record.{LogRecord, SourceLocation}
use logparse.Sink.{null_sink, console_sink, rotating_sink, Sink, RotatingFileSink}
use logparse.Sink.Archived.{Archived, IsFarFrom}
use logparse.Sink.Others.{OthersAre}
use logparse.Sink.Reopened.{Cooperates}
use logparse.Sink.Disk.{World}

-- A clock in seconds, whose times print as numbers.
abbrev pub plain_os : Platform ℕ
plain_os = record {
  to_time_t = λ t. t;
  localtime = λ t. some t;
  zero_tm = 0;
  hash_thread = λ t. t;
  format_text = λ s. s;
  format_number = to_string;
  format_time = λ f t. to_string t;
  format_white = λ s. s;
}

pub plain_os-IsFaithful : IsFaithful plain_os
plain_os-IsFaithful = record { text_as_is = λ s. refl }

-- No file, and an environment that refuses nothing and writes through.
abbrev pub plain_world : World
plain_world = record {
  files = λ p. none;
  open_refused = λ p. false;
  rename_refused = λ s d. false;
  directory_refused = λ p. false;
  spill = λ waiting s. length (waiting ++ s);
  printed = [];
  print_pending = [];
}

abbrev pub sample_record : LogRecord
sample_record = record {
  timestamp = 7;
  level = warn;
  thread_id = 1;
  process_id = 2;
  file = codes "main.cpp";
  function = codes "main";
  line = 12;
  message = codes "disk is full";
  logger_name = [];
}

abbrev pub here : SourceLocation
here = record { file_name = codes "main.cpp"; function_name = codes "main"; line = 12 }

-- Lines of the message and a mark, to the console and to a null sink.
abbrev pub message_backend : Backend
message_backend = record {
  formatter = make_formatter (codes "%m!");
  sinks = console_sink false ∷ null_sink ∷ [];
  world = plain_world;
  tls_buffer = [];
  cache = cold;
}

-- What the pattern of this backend reads as.
abbrev pub message_pieces : List Piece
message_pieces = field TokenKind.message ∷ byte b'!' ∷ []

pub message_Reads : Reads (codes "%m!") message_pieces
unfolding meaning begins
message_Reads = directed refl refl (plain refl stop) refl

pub cold-IsWarm : IsWarm plain_os cold
cold-IsWarm = λ e. cc e

-- A rotating file of one byte at most, with one numbered file.
abbrev pub small_log : RotatingFileSink
small_log = record {
  path = codes "a.log";
  stream = record { is_open = true; pending = [] };
  max_file_size = 1;
  max_files = 1;
}

pub small_log-Cooperates : Cooperates small_log plain_world
small_log-Cooperates = record { renames = λ s d. refl; opens = refl }

pub others_null :
    (Is : Sink → Type 0) (x : Sink) → Is null_sink → OthersAre Is 0 (x ∷ null_sink ∷ [])
others_null Is x h zero s ne at = absurd (ne refl)
others_null Is x h (suc zero) s ne at = let e : null_sink ≡ s = cc at in subst Is e h
others_null Is x h (suc (suc j)) s ne at = cc at

pub small_log-Archived :
    Archived 0 (codes "a.log") 0 [] (rotating_sink small_log ∷ null_sink ∷ []) plain_world
small_log-Archived = record {
  file = small_log;
  at = refl;
  path = refl;
  is_open = refl;
  limit = refl;
  cooperates = small_log-Cooperates;
  lost = [];
  log = refl;
  others = others_null (IsFarFrom (codes "a.log")) (rotating_sink small_log) (λ i. tt);
}
