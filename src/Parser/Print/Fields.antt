-- ===== src/Parser/Print/Fields.antt =====
-- Each line of a printed configuration sets its field in `apply` of src/parser.cpp.
use logparse.Base.{
  ℕ, ◌<◌, ◌≡◌, refl, ap, ◌∙◌, Bool, true, [], ◌∷◌, Bytes, codes, arith, some, size_mod, length,
  take, equal, or_else,
}
use logparse.Config.{Config, LoggerMode, OverflowPolicy, block}
use logparse.Decimal.{to_string}
use logparse.Decimal.RoundTrip.{AllDigits, to_string-AllDigits, from_chars-to_string}
use logparse.Level.{Level, trace}
use logparse.Parser.{
  is_space, first_kept, last_kept, trim, lower, assign, apply, parse_size, parse_level, parse_mode,
  parse_overflow_policy, parse_bool,
}
use logparse.Parser.Lines.{Lacks}
use logparse.Parser.Trim.{trim-cons}
use logparse.Parser.Print.{
  mode_text, level_text, policy_text, bool_text, settings, IsPrintable, apply_all,
}

take-length : (s : Bytes) → take (length s) s ≡ s
take-length [] = refl
take-length (c ∷ s) = ap (◌∷◌ c) (take-length s)

last_kept-AllDigits : (s : Bytes) → AllDigits s → last_kept s ≡ length s
unfolding last_kept
last_kept-AllDigits [] h = refl
last_kept-AllDigits (c ∷ s) h = ground (arith, last_kept-AllDigits s)

trim-AllDigits : (s : Bytes) → AllDigits s → trim s ≡ s
trim-AllDigits [] h = unfold trim first_kept last_kept in refl
trim-AllDigits (c ∷ s) h =
    trim-cons c s (unfold is_space in ground arith)
    ∙ ap (◌∷◌ c) (rw (last_kept-AllDigits s h.1) (take-length s))

pub Lacks-AllDigits : (s : Bytes) → AllDigits s → Lacks b'\n' s
Lacks-AllDigits [] h = refl
Lacks-AllDigits (c ∷ s) h = ground (arith, Lacks-AllDigits s)

parse_size-to_string : (n : ℕ) → n < size_mod → parse_size (trim (to_string n)) ≡ some n
unfolding parse_size
parse_size-to_string n h =
    let tight = trim-AllDigits (to_string n) (to_string-AllDigits n) in
    rw (tight, tight, from_chars-to_string n h)

parse_level-text : (l : Level) → parse_level (trim (level_text l)) ≡ some l
unfolding parse_level trim lower equal
parse_level-text trace = refl
parse_level-text _ = refl

parse_mode-text : (m : LoggerMode) → parse_mode (trim (mode_text m)) ≡ some m
unfolding parse_mode trim lower equal
parse_mode-text LoggerMode.sync = refl
parse_mode-text _ = refl

parse_overflow_policy-text :
    (p : OverflowPolicy) → parse_overflow_policy (trim (policy_text p)) ≡ some p
unfolding parse_overflow_policy trim lower equal
parse_overflow_policy-text block = refl
parse_overflow_policy-text _ = refl

parse_bool-text : (b : Bool) → parse_bool (trim (bool_text b)) ≡ some b
unfolding parse_bool trim lower equal
parse_bool-text true = refl
parse_bool-text _ = refl

set_mode :
    (d : Config) (x : LoggerMode) → apply d (codes "mode") (mode_text x) ≡ record d { mode = x }
unfolding apply assign lower trim equal
set_mode d x = ap (λ o. record d { mode = or_else o d.mode }) (parse_mode-text x)

set_level :
    (d : Config) (x : Level) → apply d (codes "level") (level_text x) ≡ record d { level = x }
unfolding apply assign lower trim equal
set_level d x = ap (λ o. record d { level = or_else o d.level }) (parse_level-text x)

set_capacity :
    (d : Config) (x : ℕ)
    → x < size_mod
    → apply d (codes "queue_capacity") (to_string x) ≡ record d { queue_capacity = x }
unfolding apply assign lower trim equal
set_capacity d x h =
    ap (λ o. record d { queue_capacity = or_else o d.queue_capacity }) (parse_size-to_string x h)

set_policy :
    (d : Config) (x : OverflowPolicy)
    → apply d (codes "overflow_policy") (policy_text x) ≡ record d { overflow_policy = x }
unfolding apply assign lower trim equal
set_policy d x =
    ap (λ o. record d { overflow_policy = or_else o d.overflow_policy })
      (parse_overflow_policy-text x)

set_console :
    (d : Config) (x : Bool)
    → apply d (codes "console") (bool_text x) ≡ record d { enable_console = x }
unfolding apply assign lower trim equal
set_console d x =
    ap (λ o. record d { enable_console = or_else o d.enable_console }) (parse_bool-text x)

set_file :
    (d : Config) (x : Bool) → apply d (codes "file") (bool_text x) ≡ record d { enable_file = x }
unfolding apply assign lower trim equal
set_file d x = ap (λ o. record d { enable_file = or_else o d.enable_file }) (parse_bool-text x)

set_rotation :
    (d : Config) (x : Bool)
    → apply d (codes "rotation") (bool_text x)
      ≡ record d { rotation = record d.rotation { enabled = x } }
unfolding apply assign lower trim equal
set_rotation d x =
    ap (λ o. record d { rotation = record rotation { enabled = or_else o rotation.enabled } })
      (parse_bool-text x)
  where
    open d use {rotation}

set_file_size :
    (d : Config) (x : ℕ)
    → x < size_mod
    → apply d (codes "rotation_max_file_size") (to_string x)
      ≡ record d { rotation = record d.rotation { max_file_size = x } }
unfolding apply assign lower trim equal
set_file_size d x h =
    ap
      (λ o. record d {
        rotation = record rotation { max_file_size = or_else o rotation.max_file_size };
      })
      (parse_size-to_string x h)
  where
    open d use {rotation}

set_files :
    (d : Config) (x : ℕ)
    → x < size_mod
    → apply d (codes "rotation_max_files") (to_string x)
      ≡ record d { rotation = record d.rotation { max_file = x } }
unfolding apply assign lower trim equal
set_files d x h =
    ap (λ o. record d { rotation = record rotation { max_file = or_else o rotation.max_file } })
      (parse_size-to_string x h)
  where
    open d use {rotation}

set_interval :
    (d : Config) (x : ℕ)
    → x < size_mod
    → apply d (codes "flush_interval_ms") (to_string x) ≡ record d { flush_interval_ms = x }
unfolding apply assign lower trim equal
set_interval d x h =
    ap (λ o. record d { flush_interval_ms = or_else o d.flush_interval_ms })
      (parse_size-to_string x h)

set_colored :
    (d : Config) (x : Bool)
    → apply d (codes "colored_output") (bool_text x) ≡ record d { colored_output = x }
unfolding apply assign lower trim equal
set_colored d x =
    ap (λ o. record d { colored_output = or_else o d.colored_output }) (parse_bool-text x)

set_flush :
    (d : Config) (x : Bool)
    → apply d (codes "flush_on_error") (bool_text x) ≡ record d { flush_on_error = x }
unfolding apply assign lower trim equal
set_flush d x =
    ap (λ o. record d { flush_on_error = or_else o d.flush_on_error }) (parse_bool-text x)

set_pattern :
    (d : Config) (x : Bytes) → trim x ≡ x → apply d (codes "pattern") x ≡ record d { pattern = x }
unfolding apply assign lower trim equal
set_pattern d x h = ap (λ o. record d { pattern = o }) h

set_path :
    (d : Config) (x : Bytes)
    → trim x ≡ x
    → apply d (codes "file_path") x ≡ record d { file_path = x }
unfolding apply assign lower trim equal
set_path d x h = ap (λ o. record d { file_path = o }) h

-- Every field is set by its line, whatever the configuration was before.
pub apply_all-settings : (c d : Config) → IsPrintable c → apply_all d (settings c) ≡ c
unfolding apply_all settings
apply_all-settings c d h = rw (
  set_mode,
  set_level,
  set_pattern _ c.pattern h.pattern_plain.1,
  set_capacity _ c.queue_capacity h.capacity_fits,
  set_policy,
  set_console,
  set_file,
  set_path _ c.file_path h.path_plain.1,
  set_rotation,
  set_file_size _ c.rotation.max_file_size h.file_size_fits,
  set_files _ c.rotation.max_file h.files_fit,
  set_interval _ c.flush_interval_ms h.interval_fits,
  set_colored,
  set_flush,
)
