-- ===== src/Parser/Print.antt =====
-- A printer of settings in the format of the README, which `parse` reads back.
pub mod Fields
pub mod RoundTrip
use logparse.Base.{
  ℕ, zero, suc, ◌<◌, ◌≡◌, ◌≢◌, refl, ap, ◌∙◌, sym, subst, Bool, true, false, List, [], ◌∷◌, ◌++◌,
  Bytes, codes, arith, All, some, not, ◌&&◌, if◌then◌else◌, append_assoc, size_mod, length, take,
  equal, ◌==◌, or_else,
}
use logparse.Config.{
  Config, RotationConfig, LoggerMode, OverflowPolicy, block, drop_newest, drop_oldest, discard,
  default_config,
}
use logparse.Decimal.{to_string, is_digit, from_chars}
use logparse.Decimal.RoundTrip.{
  AllDigits, to_string-AllDigits, to_string-ne-nil, from_chars-to_string,
}
use logparse.Level.{Level, trace, debug, info, warn, error, fatal, off}
use logparse.Parser.{
  is_space, first_kept, last_kept, trim, to_lower, lower, assign, apply, parse_size, parse_level,
  parse_mode, parse_overflow_policy, parse_bool, parse_line, lines, parse_lines, parse,
}
use logparse.Parser.Lines.{Lacks, lacks, IsKey, is_key, lines-line, parse_line-setting}
use logparse.Parser.Trim.{trim-cons}

abbrev pub mode_text : LoggerMode → Bytes
mode_text LoggerMode.sync = codes "sync"
mode_text LoggerMode.async = codes "async"

abbrev pub level_text : Level → Bytes
level_text trace = codes "trace"
level_text debug = codes "debug"
level_text info = codes "info"
level_text warn = codes "warn"
level_text error = codes "error"
level_text fatal = codes "fatal"
level_text off = codes "off"

abbrev pub policy_text : OverflowPolicy → Bytes
policy_text block = codes "block"
policy_text drop_newest = codes "drop_newest"
policy_text drop_oldest = codes "drop_oldest"
policy_text discard = codes "discard"

abbrev pub bool_text : Bool → Bytes
bool_text true = codes "true"
bool_text false = codes "false"

-- One `key=value` for each field of the configuration.
unfoldable pub settings : Config → List (Bytes × Bytes)
settings c =
    (codes "mode", mode_text c.mode)
    ∷ (codes "level", level_text c.level)
    ∷ (codes "pattern", c.pattern)
    ∷ (codes "queue_capacity", to_string c.queue_capacity)
    ∷ (codes "overflow_policy", policy_text c.overflow_policy)
    ∷ (codes "console", bool_text c.enable_console)
    ∷ (codes "file", bool_text c.enable_file)
    ∷ (codes "file_path", c.file_path)
    ∷ (codes "rotation", bool_text c.rotation.enabled)
    ∷ (codes "rotation_max_file_size", to_string c.rotation.max_file_size)
    ∷ (codes "rotation_max_files", to_string c.rotation.max_file)
    ∷ (codes "flush_interval_ms", to_string c.flush_interval_ms)
    ∷ (codes "colored_output", bool_text c.colored_output)
    ∷ (codes "flush_on_error", bool_text c.flush_on_error)
    ∷ []

unfoldable pub render : List (Bytes × Bytes) → Bytes
render [] = []
render ((k, v) ∷ rest) = (k ++ b'=' ∷ v) ++ b'\n' ∷ render rest

-- The text of a configuration file with these settings.
unfoldable pub print : Config → Bytes
print c = render (settings c)

-- A text that stands on one line and has no space at either end.
abbrev pub IsPlain : Bytes → Type 0
IsPlain s = Lacks b'\n' s × (trim s ≡ s)

-- What `print` can express: plain texts, and numbers of `std::size_t`.
pub record IsPrintable (c : Config) : Type 0 where
  pub pattern_plain : IsPlain c.pattern
  pub path_plain : IsPlain c.file_path
  pub capacity_fits : c.queue_capacity < size_mod
  pub file_size_fits : c.rotation.max_file_size < size_mod
  pub files_fit : c.rotation.max_file < size_mod
  pub interval_fits : c.flush_interval_ms < size_mod

unfoldable pub apply_all : Config → List (Bytes × Bytes) → Config
apply_all c [] = c
apply_all c ((k, v) ∷ rest) = apply_all (apply c k v) rest

abbrev pub IsSetting : Bytes × Bytes → Type 0
IsSetting p = IsKey p.0 × Lacks b'\n' p.0 × Lacks b'\n' p.1

Lacks-append : (k v : Bytes) → Lacks b'\n' k → Lacks b'\n' v → Lacks b'\n' (k ++ b'=' ∷ v)
Lacks-append [] v h g = g
Lacks-append (c ∷ k) v h g = ground (arith, Lacks-append k v)

-- Settings that stand one to a line are applied in order.
pub parse_lines-render :
    (c : Config) (ps : List (Bytes × Bytes))
    → All IsSetting ps
    → parse_lines c (lines (render ps)) ≡ apply_all c ps
unfolding parse_lines render apply_all lines
parse_lines-render c [] h = refl
parse_lines-render c ((k, v) ∷ ps) ((is_key, key_line, value_line), rest) =
    unfold parse_lines in
    ap (parse_lines c)
      (lines-line (k ++ b'=' ∷ v) (render ps) (Lacks-append k v key_line value_line))
    ∙ ap (λ d. parse_lines d (lines (render ps))) (parse_line-setting c [] k v tt is_key)
    ∙ parse_lines-render (apply c k v) ps rest
