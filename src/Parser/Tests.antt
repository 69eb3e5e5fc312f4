-- ===== src/Parser/Tests.antt =====
-- Runs of the parser, and each theorem at a concrete text.
use logparse.Base.{
  List, inl, inr, ◌↔◌, ◌≢◌, ◌<◌, [], size_mod, arith, some, ◌≡◌, refl, equal, Bytes, codes, ◌++◌,
  false, ◌∷◌,
}
use logparse.Config.{LoggerMode, drop_oldest, default_config}
use logparse.Decimal.{from_chars, value}
use logparse.Level.{debug, warn}
use logparse.Parser.{
  is_space, first_kept, last_kept, trim, lower, find_delimiter, lines, parse_lines, parse_line,
  parse, apply, assign, parse_size, parse_level, parse_mode, parse_overflow_policy, parse_bool,
}
use logparse.Parser.Keys.{Names, parse_level_iff}
use logparse.Parser.Document.{Line, ignored, setting, document, meaning, parse-document}
use logparse.Parser.Print.{print, IsPrintable}
use logparse.Parser.Print.RoundTrip.{parse-print}
use logparse.Decimal.RoundTrip.{AllDigits}
use logparse.Parser.Sizes.{IsSized, parse_size_iff, parse-IsSized}

abbrev sample : Bytes
sample =
    codes "mode=sync\nlevel=debug\nqueue_capacity=1024\n"
    ++ codes "console=false\noverflow_policy=drop_oldest\n"

-- The test ParsesKeyValueConfig of tests/logger_tests.cpp.
parse-sample : parse sample ≡ record default_config {
  mode = LoggerMode.sync;
  level = debug;
  queue_capacity = 1024;
  enable_console = false;
  overflow_policy = drop_oldest;
}
unfolding from_chars parse parse_lines parse_line lines find_delimiter trim lower apply assign equal
    parse_size parse_level parse_mode parse_overflow_policy parse_bool
parse-sample = refl

abbrev some_lines : List Line
some_lines =
    ignored (codes "# settings") refl (inr (inl (codes " settings", unfold trim is_space in refl)))
    ∷ setting (codes " ") (codes "mode") (codes " sync") (unfold is_space in (refl, tt))
        (unfold is_space in refl) refl
    ∷ []

parse-document_example : parse (document some_lines) ≡ meaning default_config some_lines
parse-document_example = parse-document some_lines

parse_level-warning :
    (parse_level (codes " Warning") ≡ some warn) ↔ Names warn (lower (trim (codes " Warning")))
parse_level-warning = parse_level_iff (codes " Warning") warn

parse_size_iff_example : (parse_size (codes " 42") ≡ some 42) ↔ (
    (trim (codes " 42") ≢ [])
    × AllDigits (trim (codes " 42"))
    × (42 ≡ value 0 (trim (codes " 42")))
    × (42 < size_mod))
parse_size_iff_example = parse_size_iff (codes " 42") 42

parse-sample_sizes : IsSized (parse sample)
parse-sample_sizes = parse-IsSized sample

default_config-IsPrintable : IsPrintable default_config
unfolding trim first_kept last_kept is_space
default_config-IsPrintable = record {
  pattern_plain = (refl, refl);
  path_plain = (refl, refl);
  capacity_fits = omega arith;
  file_size_fits = omega arith;
  files_fit = omega arith;
  interval_fits = omega arith;
}

parse-print_example : parse (print default_config) ≡ default_config
parse-print_example = parse-print default_config default_config-IsPrintable
