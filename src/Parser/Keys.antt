-- ===== src/Parser/Keys.antt =====
-- Which keys and values `parse` understands.
use logparse.Base.{
  ◌≡◌, ◌↔◌, inl, inr, refl, sym, Bool, true, false, some, List, [], ◌∷◌, Bytes, codes, equal,
  equal_iff, arith, All, ◌||◌, subst, Bool-cases,
}
use logparse.Config.{Config}
use logparse.Level.{Level, trace, debug, info, warn, error, fatal, off}
use logparse.Parser.{trim, lower, assign, apply, parse_level}

-- The names of a level in a configuration, in lower case.
pub data Names : Level → Bytes → Type 0 where
  is_trace : Names trace (codes "trace")
  is_debug : Names debug (codes "debug")
  is_info : Names info (codes "info")
  is_warn : Names warn (codes "warn")
  is_warning : Names warn (codes "warning")
  is_error : Names error (codes "error")
  is_fatal : Names fatal (codes "fatal")
  is_off : Names off (codes "off")

abbrev named : Level → Bytes → Bool
named trace s = equal s (codes "trace")
named debug s = equal s (codes "debug")
named info s = equal s (codes "info")
named warn s = equal s (codes "warn") || equal s (codes "warning")
named error s = equal s (codes "error")
named fatal s = equal s (codes "fatal")
named off s = equal s (codes "off")

abbrev known_keys : List Bytes
known_keys =
    codes "mode"
    ∷ codes "level"
    ∷ codes "pattern"
    ∷ codes "queue_size"
    ∷ codes "queue_capacity"
    ∷ codes "overflow_policy"
    ∷ codes "console"
    ∷ codes "console_enabled"
    ∷ codes "file"
    ∷ codes "file_enabled"
    ∷ codes "file_path"
    ∷ codes "rotation"
    ∷ codes "rotation_enabled"
    ∷ codes "rotation_max_file_size"
    ∷ codes "rotation_max_files"
    ∷ codes "flush_interval"
    ∷ codes "flush_interval_ms"
    ∷ codes "colored_output"
    ∷ codes "flush_on_error"
    ∷ []

abbrev pub IsUnknown : Bytes → Type 0
IsUnknown key = All (λ name. equal (lower (trim key)) name ≡ false) known_keys

-- A key that is none of the known ones, without the spaces round it and in lower case, leaves the
-- configuration as it is, whatever its value.
pub apply-IsUnknown : (c : Config) (k v : Bytes) → IsUnknown k → apply c k v ≡ c
unfolding apply assign
apply-IsUnknown c k v h = ground arith

parse_level-named :
    (s : Bytes) (l : Level) → parse_level s ≡ some l → named l (lower (trim s)) ≡ true
unfolding parse_level
parse_level-named s l h = ground arith

named-Names : (l : Level) (s : Bytes) → named l s ≡ true → Names l s
named-Names trace s h = subst (Names trace) (sym ((equal_iff s _).0 h)) is_trace
named-Names debug s h = subst (Names debug) (sym ((equal_iff s _).0 h)) is_debug
named-Names info s h = subst (Names info) (sym ((equal_iff s _).0 h)) is_info
named-Names warn s h = elim (Bool-cases (equal s (codes "warn"))) [
  | inl e ↦ subst (Names warn) (sym ((equal_iff s _).0 e)) is_warn
  | inr e ↦ subst (Names warn) (sym ((equal_iff s (codes "warning")).0 (rw e at h))) is_warning
]
named-Names error s h = subst (Names error) (sym ((equal_iff s _).0 h)) is_error
named-Names fatal s h = subst (Names fatal) (sym ((equal_iff s _).0 h)) is_fatal
named-Names off s h = subst (Names off) (sym ((equal_iff s _).0 h)) is_off

parse_level-Names :
    (s n : Bytes) (l : Level) → Names l n → lower (trim s) ≡ n → parse_level s ≡ some l
unfolding parse_level equal
parse_level-Names s n l is_trace e = rw e
parse_level-Names s n l is_debug e = rw e
parse_level-Names s n l is_info e = rw e
parse_level-Names s n l is_warn e = rw e
parse_level-Names s n l is_warning e = rw e
parse_level-Names s n l is_error e = rw e
parse_level-Names s n l is_fatal e = rw e
parse_level-Names s n l is_off e = rw e

-- `parse_level` gives a level exactly when the text, without the spaces round it and in lower
-- case, is a name of that level.
pub parse_level_iff : (s : Bytes) (l : Level) → (parse_level s ≡ some l) ↔ Names l (lower (trim s))
parse_level_iff s l = (
  λ h. named-Names l (lower (trim s)) (parse_level-named s l h),
  λ n. parse_level-Names s _ l n refl,
)
