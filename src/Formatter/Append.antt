-- ===== src/Formatter/Append.antt =====
-- `format` and the functions that append to its buffer.
use logparse.Base.{
  ℕ, Bool, true, false, not, List, [], ◌∷◌, ◌++◌, Bytes, ◌==◌, ◌||◌, if◌then◌else◌, or_else,
}
use logparse.Level
use logparse.Platform.{Platform, TimeFormat, full_time}
use logparse.Record.{LogRecord}
use logparse.Formatter.Pattern.{TokenKind, Token, Formatter}

-- The thread-local variables of `append_timestamp`.
pub record TimeCache : Type 0 where
  pub cached_seconds : ℕ
  pub cache_valid : Bool
  pub cached_timestamp : Bytes

-- As a thread starts with them.
abbrev pub cold : TimeCache
cold = record { cached_seconds = 0; cache_valid = false; cached_timestamp = [] }

module _ {Tm : Type 0} (os : Platform Tm) where
  -- A failing `localtime_r` leaves `tm{}` as it was.
  unfoldable pub local_time : ℕ → Tm
  local_time time = or_else (os.localtime time) os.zero_tm

  unfoldable pub append_timestamp : TimeCache → Bytes → LogRecord → Bytes × TimeCache
  append_timestamp cache buffer r =
      let seconds = os.to_time_t r.timestamp in
      let fresh : TimeCache = record {
        cached_seconds = seconds;
        cache_valid = true;
        cached_timestamp = os.format_time full_time (local_time seconds);
      } in
      let used =
        if not cache.cache_valid || not (cache.cached_seconds == seconds) then fresh else cache in
      (buffer ++ used.cached_timestamp, used)

  unfoldable pub append_time_component : Bytes → TokenKind → LogRecord → Bytes
  append_time_component buffer kind r =
      let tm = local_time (os.to_time_t r.timestamp) in
      elim kind [
        | TokenKind.year ↦ buffer ++ os.format_time TimeFormat.year tm
        | TokenKind.month ↦ buffer ++ os.format_time TimeFormat.month tm
        | TokenKind.day ↦ buffer ++ os.format_time TimeFormat.day tm
        | TokenKind.hour ↦ buffer ++ os.format_time TimeFormat.hour tm
        | TokenKind.minute ↦ buffer ++ os.format_time TimeFormat.minute tm
        | TokenKind.second ↦ buffer ++ os.format_time TimeFormat.second tm
        | _ ↦ buffer
      ]

  -- The `switch` on the token's kind.
  abbrev append_kind : TokenKind → Bytes → TimeCache → Bytes → LogRecord → Bytes × TimeCache
  append_kind TokenKind.literal text cache buffer r = (buffer ++ text, cache)
  append_kind TokenKind.timestamp text cache buffer r = append_timestamp cache buffer r
  append_kind TokenKind.year text cache buffer r =
      (append_time_component buffer TokenKind.year r, cache)
  append_kind TokenKind.month text cache buffer r =
      (append_time_component buffer TokenKind.month r, cache)
  append_kind TokenKind.day text cache buffer r =
      (append_time_component buffer TokenKind.day r, cache)
  append_kind TokenKind.hour text cache buffer r =
      (append_time_component buffer TokenKind.hour r, cache)
  append_kind TokenKind.minute text cache buffer r =
      (append_time_component buffer TokenKind.minute r, cache)
  append_kind TokenKind.second text cache buffer r =
      (append_time_component buffer TokenKind.second r, cache)
  append_kind TokenKind.level text cache buffer r =
      (buffer ++ os.format_text (Level.to_string r.level), cache)
  append_kind TokenKind.thread_id text cache buffer r =
      (buffer ++ os.format_number (os.hash_thread r.thread_id), cache)
  append_kind TokenKind.process_id text cache buffer r =
      (buffer ++ os.format_number r.process_id, cache)
  append_kind TokenKind.file text cache buffer r = (buffer ++ os.format_text r.file, cache)
  append_kind TokenKind.function text cache buffer r = (buffer ++ os.format_text r.function, cache)
  append_kind TokenKind.line text cache buffer r = (buffer ++ os.format_number r.line, cache)
  append_kind TokenKind.logger_name text cache buffer r =
      (buffer ++ os.format_text r.logger_name, cache)
  append_kind TokenKind.message text cache buffer r = (buffer ++ r.message, cache)

  unfoldable pub append_token : TimeCache → Bytes → Token → LogRecord → Bytes × TimeCache
  append_token cache buffer token r = append_kind token.kind token.text cache buffer r

  -- The loop over the tokens.
  unfoldable pub append_tokens : TimeCache → Bytes → List Token → LogRecord → Bytes × TimeCache
  append_tokens cache buffer [] r = (buffer, cache)
  append_tokens cache buffer (t ∷ ts) r =
      let (longer, warm) = append_token cache buffer t r in append_tokens warm longer ts r

  unfoldable pub format : Formatter → TimeCache → Bytes → LogRecord → Bytes × TimeCache
  format f cache buffer r =
      let (line, warm) = append_tokens cache buffer f.m_tokens r in (line ++ b'\n' ∷ [], warm)
