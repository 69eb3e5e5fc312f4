-- ===== src/Parser/Apply.antt =====
-- `apply`, `parse` and `parse_file` of src/parser.cpp.
use logparse.Base.{
  ℕ, suc, ◌+◌, List, [], ◌∷◌, Option, none, some, Bytes, codes, equal, ◌||◌, ◌==◌, if◌then◌else◌,
  or_else, take, drop,
}
use logparse.Config.{Config, default_config}
use logparse.Parser.Text.{trim, lower}
use logparse.Parser.Values.{parse_size, parse_level, parse_mode, parse_overflow_policy, parse_bool}

-- A branch `if (auto x = …) config.field = *x;` keeps the old value of the field on `nullopt`.
unfoldable pub assign : Config → Bytes → Bytes → Config
assign config normalized_key trimmed_value =
    if equal normalized_key (codes "mode")
    then record config { mode = or_else (parse_mode trimmed_value) config.mode }
    else if equal normalized_key (codes "level")
    then record config { level = or_else (parse_level trimmed_value) config.level }
    else if equal normalized_key (codes "pattern")
    then record config { pattern = trimmed_value }
    else if equal normalized_key (codes "queue_size")
        || equal normalized_key (codes "queue_capacity")
    then record config { queue_capacity = or_else (parse_size trimmed_value) config.queue_capacity }
    else if equal normalized_key (codes "overflow_policy")
    then record config {
      overflow_policy = or_else (parse_overflow_policy trimmed_value) config.overflow_policy;
    }
    else if equal normalized_key (codes "console") || equal normalized_key (codes "console_enabled")
    then record config { enable_console = or_else (parse_bool trimmed_value) config.enable_console }
    else if equal normalized_key (codes "file") || equal normalized_key (codes "file_enabled")
    then record config { enable_file = or_else (parse_bool trimmed_value) config.enable_file }
    else if equal normalized_key (codes "file_path")
    then record config { file_path = trimmed_value }
    else if equal normalized_key (codes "rotation")
        || equal normalized_key (codes "rotation_enabled")
    then record config {
      rotation = record rotation { enabled = or_else (parse_bool trimmed_value) rotation.enabled };
    }
    else if equal normalized_key (codes "rotation_max_file_size")
    then record config {
      rotation = record rotation {
        max_file_size = or_else (parse_size trimmed_value) rotation.max_file_size;
      };
    }
    else if equal normalized_key (codes "rotation_max_files")
    then record config {
      rotation = record rotation {
        max_file = or_else (parse_size trimmed_value) rotation.max_file;
      };
    }
    else if equal normalized_key (codes "flush_interval")
        || equal normalized_key (codes "flush_interval_ms")
    then record config {
      flush_interval_ms = or_else (parse_size trimmed_value) config.flush_interval_ms;
    }
    else if equal normalized_key (codes "colored_output")
    then record config { colored_output = or_else (parse_bool trimmed_value) config.colored_output }
    else if equal normalized_key (codes "flush_on_error")
    then record config { flush_on_error = or_else (parse_bool trimmed_value) config.flush_on_error }
    else config
  where
    open config use {rotation}

unfoldable pub apply : Config → Bytes → Bytes → Config
apply config key value = assign config (lower (trim key)) (trim value)

-- `find('=')`
unfoldable pub find_delimiter : Bytes → Option ℕ
find_delimiter [] = none
find_delimiter (c ∷ cs) =
    let rest = find_delimiter cs in
    if c == b'=' then some 0 else elim rest [ none ↦ none | some i ↦ some (suc i) ]

-- The body of the loop behind the tests of `stripped`.
abbrev pub apply_stripped : Config → Bytes → Option ℕ → Config
apply_stripped config stripped none = config
apply_stripped config stripped (some d) = apply config (take d stripped) (drop (d + 1) stripped)

abbrev pub step_stripped : Config → Bytes → Config
step_stripped config [] = config
step_stripped config (c ∷ cs) =
    if c == b'#' then config else apply_stripped config (c ∷ cs) (find_delimiter (c ∷ cs))

-- The body of the loop in `parse`.
unfoldable pub parse_line : Config → Bytes → Config
parse_line config line = step_stripped config (trim line)

abbrev onto_first : ℕ → List Bytes → List Bytes
onto_first c [] = (c ∷ []) ∷ []
onto_first c (l ∷ ls) = (c ∷ l) ∷ ls

-- What `std::getline` reads: no line follows a final line break.
unfoldable pub lines : Bytes → List Bytes
lines [] = []
lines (c ∷ cs) = let rest = lines cs in if c == b'\n' then [] ∷ rest else onto_first c rest

unfoldable pub parse_lines : Config → List Bytes → Config
parse_lines config [] = config
parse_lines config (l ∷ ls) = parse_lines (parse_line config l) ls

unfoldable pub parse : Bytes → Config
parse input = parse_lines default_config (lines input)

-- `open_failed` is the exception "failed to open logger config file".
pub data ParseFile : Type 0 where
  parsed_file : Config → ParseFile
  open_failed : Bytes → ParseFile

-- The file system gives the text of a file that opens.
unfoldable pub parse_file : (Bytes → Option Bytes) → Bytes → ParseFile
parse_file read path = elim (read path) [
  | none ↦ open_failed path
  | some text ↦ parsed_file (parse text)
]
