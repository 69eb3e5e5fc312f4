-- ===== src/Parser/Values.antt =====
-- The readers of single values in src/parser.cpp.
use logparse.Base.{
  ℕ, Bool, true, false, [], Option, none, some, Bytes, codes, equal, ◌||◌, if◌then◌else◌,
}
use logparse.Config.{LoggerMode, OverflowPolicy, block, drop_newest, drop_oldest, discard}
use logparse.Decimal.{FromChars, parsed, from_chars}
use logparse.Level.{Level, trace, debug, info, warn, error, fatal, off}
use logparse.Parser.Text.{trim, lower}

-- `ec` and `ptr` of `from_chars`: a value, with nothing behind it.
abbrev pub whole : FromChars → Option ℕ
whole (parsed n []) = some n
whole _ = none

unfoldable pub parse_size : Bytes → Option ℕ
parse_size value = whole (from_chars (trim value))

unfoldable pub parse_level : Bytes → Option Level
parse_level value =
    let normalized = lower (trim value) in
    if equal normalized (codes "trace")
    then some trace
    else if equal normalized (codes "debug")
    then some debug
    else if equal normalized (codes "info")
    then some info
    else if equal normalized (codes "warn") || equal normalized (codes "warning")
    then some warn
    else if equal normalized (codes "error")
    then some error
    else if equal normalized (codes "fatal")
    then some fatal
    else if equal normalized (codes "off")
    then some off
    else none

unfoldable pub parse_mode : Bytes → Option LoggerMode
parse_mode value =
    let normalized = lower (trim value) in
    if equal normalized (codes "sync") || equal normalized (codes "synchronous")
    then some LoggerMode.sync
    else if equal normalized (codes "async") || equal normalized (codes "asynchronous")
    then some LoggerMode.async
    else none

unfoldable pub parse_overflow_policy : Bytes → Option OverflowPolicy
parse_overflow_policy value =
    let normalized = lower (trim value) in
    if equal normalized (codes "block")
    then some block
    else if equal normalized (codes "dropnewest") || equal normalized (codes "drop_newest")
    then some drop_newest
    else if equal normalized (codes "dropoldest") || equal normalized (codes "drop_oldest")
    then some drop_oldest
    else if equal normalized (codes "discard")
    then some discard
    else none

unfoldable pub parse_bool : Bytes → Option Bool
parse_bool value =
    let normalized = lower (trim value) in
    if equal normalized (codes "true")
      || equal normalized (codes "yes")
      || equal normalized (codes "on")
      || equal normalized (codes "1")
    then some true
    else if equal normalized (codes "false")
        || equal normalized (codes "no")
        || equal normalized (codes "off")
        || equal normalized (codes "0")
    then some false
    else none
