-- ===== src/Formatter/Pattern.antt =====
-- `compile_pattern` and the formatter's state.
use logparse.Base.{
  ℕ, zero, suc, ◌+◌, Bool, not, List, [], ◌∷◌, ◌++◌, Option, none, some, Bytes, codes, equal, leb,
  ◌==◌, ◌&&◌, if◌then◌else◌, length, take, drop,
}

pub data TokenKind : Type 0 where
  literal timestamp year month day hour minute second level thread_id process_id file function line
        logger_name message :
      TokenKind

pub record Token : Type 0 where
  pub kind : TokenKind
  pub text : Bytes

abbrev pub default_pattern : Bytes
default_pattern = codes "[%Y-%m-%d %H:%M:%S] [%l] [T%t] %m"

abbrev pub timestamp_pattern : Bytes
timestamp_pattern = codes "%Y-%m-%d %H:%M:%S"

unfoldable pub starts_with : Bytes → ℕ → Bytes → Bool
starts_with value offset prefix =
    leb (offset + length prefix) (length value)
    && equal (take (length prefix) (drop offset value)) prefix

-- The local variables of `compile_pattern`.
pub record Compiler : Type 0 where
  pub tokens : List Token
  pub pending : Bytes

abbrev pub push_token : Compiler → TokenKind → Bytes → Compiler
push_token s kind text = record s {
  tokens = s.tokens ++ (record { kind = kind; text = text }) ∷ [];
}

abbrev pub add_literal : Compiler → ℕ → Compiler
add_literal s c = record s { pending = s.pending ++ c ∷ [] }

abbrev pub flush_pending : Bytes → Compiler → Compiler
flush_pending [] s = s
flush_pending (c ∷ cs) s = record (push_token s TokenKind.literal (c ∷ cs)) { pending = [] }

unfoldable pub flush_literal : Compiler → Compiler
flush_literal s = flush_pending s.pending s

-- The cases of the `switch` that push a token with no text.
unfoldable pub switch_kind : ℕ → Option TokenKind
switch_kind c =
    if c == b'Y'
    then some TokenKind.year
    else if c == b'd'
    then some TokenKind.day
    else if c == b'H'
    then some TokenKind.hour
    else if c == b'M'
    then some TokenKind.minute
    else if c == b'S'
    then some TokenKind.second
    else if c == b'l'
    then some TokenKind.level
    else if c == b'L'
    then some TokenKind.level
    else if c == b't'
    then some TokenKind.thread_id
    else if c == b'p'
    then some TokenKind.process_id
    else if c == b'f'
    then some TokenKind.file
    else if c == b'F'
    then some TokenKind.function
    else if c == b'#'
    then some TokenKind.line
    else if c == b'n'
    then some TokenKind.logger_name
    else if c == b'm'
    then some TokenKind.message
    else if c == b'v'
    then some TokenKind.message
    else none

-- The rest of the `switch`: `%%`, and `default`.
abbrev pub direct : Compiler → ℕ → Option TokenKind → Compiler
direct s c (some kind) = push_token s kind []
direct s c none =
    if c == b'%'
    then push_token s TokenKind.literal (codes "%")
    else add_literal (add_literal s b'%') c

-- The whole `switch`, on the byte behind `%`.
unfoldable pub directive : Compiler → ℕ → Compiler
directive s c = direct s c (switch_kind c)

-- The loop, on what is left of the pattern. The number counts the bytes that `i` still jumps over.
-- What a `let` binds is the rest of the loop behind the branch that reads it.
unfoldable pub compile_from : ℕ → Bytes → Compiler → Compiler
compile_from k [] s = s
compile_from (suc k) (c ∷ cs) s = compile_from k cs s
compile_from zero (c ∷ []) s =
    if starts_with (c ∷ []) 0 timestamp_pattern
    then push_token (flush_literal s) TokenKind.timestamp []
    else if not (c == b'%')
    then add_literal s c
    else add_literal s b'%'
compile_from zero (c ∷ d ∷ cs) s =
    let stamped = compile_from 16 (d ∷ cs) (push_token (flush_literal s) TokenKind.timestamp []) in
    let copied = compile_from zero (d ∷ cs) (add_literal s c) in
    let directed = compile_from zero cs (directive (flush_literal s) d) in
    if starts_with (c ∷ d ∷ cs) 0 timestamp_pattern
    then stamped
    else if not (c == b'%')
    then copied
    else directed

abbrev pub empty_compiler : Compiler
empty_compiler = record { tokens = []; pending = [] }

unfoldable pub compile_pattern : Bytes → List Token
compile_pattern p = (flush_literal (compile_from zero p empty_compiler)).tokens

pub record Formatter : Type 0 where
  pub m_pattern : Bytes
  pub m_tokens : List Token

unfoldable pub make_formatter : Bytes → Formatter
make_formatter p = record { m_pattern = p; m_tokens = compile_pattern p }

unfoldable pub default_formatter : Formatter
default_formatter = make_formatter default_pattern

unfoldable pub pattern : Formatter → Bytes
pattern f = f.m_pattern

unfoldable pub set_pattern : Formatter → Bytes → Formatter
set_pattern f p = record f { m_pattern = p; m_tokens = compile_pattern p }
