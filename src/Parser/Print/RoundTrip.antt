-- ===== src/Parser/Print/RoundTrip.antt =====
-- `parse` of src/parser.cpp on a printed configuration.
use logparse.Base.{ℕ, ◌≡◌, refl, ◌∙◌, Bool, true, All}
use logparse.Config.{Config, LoggerMode, OverflowPolicy, block, default_config}
use logparse.Decimal.{to_string}
use logparse.Decimal.RoundTrip.{to_string-AllDigits}
use logparse.Level.{Level, trace}
use logparse.Parser.{is_space, parse}
use logparse.Parser.Lines.{Lacks}
use logparse.Parser.Print.{
  mode_text, level_text, policy_text, bool_text, settings, print, IsPrintable, IsSetting,
  parse_lines-render,
}
use logparse.Parser.Print.Fields.{Lacks-AllDigits, apply_all-settings}

mode_line : (m : LoggerMode) → Lacks b'\n' (mode_text m)
mode_line LoggerMode.sync = refl
mode_line _ = refl

level_line : (l : Level) → Lacks b'\n' (level_text l)
level_line trace = refl
level_line _ = refl

policy_line : (p : OverflowPolicy) → Lacks b'\n' (policy_text p)
policy_line block = refl
policy_line _ = refl

bool_line : (b : Bool) → Lacks b'\n' (bool_text b)
bool_line true = refl
bool_line _ = refl

number_line : (n : ℕ) → Lacks b'\n' (to_string n)
number_line n = Lacks-AllDigits (to_string n) (to_string-AllDigits n)

settings-IsSetting : (c : Config) → IsPrintable c → All IsSetting (settings c)
unfolding settings is_space
settings-IsSetting c h = (
  (refl, refl, mode_line c.mode),
  (
    (refl, refl, level_line c.level),
    (
      (refl, refl, h.pattern_plain.0),
      (
        (refl, refl, number_line c.queue_capacity),
        (
          (refl, refl, policy_line c.overflow_policy),
          (
            (refl, refl, bool_line c.enable_console),
            (
              (refl, refl, bool_line c.enable_file),
              (
                (refl, refl, h.path_plain.0),
                (
                  (refl, refl, bool_line c.rotation.enabled),
                  (
                    (refl, refl, number_line c.rotation.max_file_size),
                    (
                      (refl, refl, number_line c.rotation.max_file),
                      (
                        (refl, refl, number_line c.flush_interval_ms),
                        (
                          (refl, refl, bool_line c.colored_output),
                          ((refl, refl, bool_line c.flush_on_error), tt),
                        ),
                      ),
                    ),
                  ),
                ),
              ),
            ),
          ),
        ),
      ),
    ),
  ),
)

-- `parse` reads back the configuration from its printed text, if the pattern and the path stand on
-- one line with no space at either end and the numbers fit in 64 bits.
pub parse-print : (c : Config) → IsPrintable c → parse (print c) ≡ c
unfolding parse print
parse-print c h =
    parse_lines-render default_config (settings c) (settings-IsSetting c h)
    ∙ apply_all-settings c default_config h
