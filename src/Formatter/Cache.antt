-- ===== src/Formatter/Cache.antt =====
-- `format` against the plain reading of its pattern: the timestamp cache does not show.
use logparse.Base.{
  ◌≡◌, refl, ap, ◌∙◌, sym, true, List, [], ◌∷◌, ◌++◌, map, Bytes, append-nil, append_assoc, arith,
}
use logparse.Level
use logparse.Platform.{Platform, IsFaithful, TimeFormat, full_time}
use logparse.Record.{LogRecord}
use logparse.Formatter.{
  TokenKind, Token, TimeCache, local_time, append_timestamp, append_time_component, append_token,
  append_tokens, format, make_formatter, compile_pattern,
}
use logparse.Formatter.Reads.{Piece, byte, field, Reads, token_pieces, tokens_pieces}
use logparse.Formatter.Compile.{compile_pattern-Reads}

module _ {Tm : Type 0} (os : Platform Tm) (r : LogRecord) where
  abbrev pub time_text : TimeFormat → Bytes
  time_text f = os.format_time f (local_time os (os.to_time_t r.timestamp))

  -- What a field of the record looks like in a line.
  abbrev pub field_text : TokenKind → Bytes
  field_text TokenKind.literal = []
  field_text TokenKind.timestamp = time_text full_time
  field_text TokenKind.year = time_text TimeFormat.year
  field_text TokenKind.month = time_text TimeFormat.month
  field_text TokenKind.day = time_text TimeFormat.day
  field_text TokenKind.hour = time_text TimeFormat.hour
  field_text TokenKind.minute = time_text TimeFormat.minute
  field_text TokenKind.second = time_text TimeFormat.second
  field_text TokenKind.level = Level.to_string r.level
  field_text TokenKind.thread_id = os.format_number (os.hash_thread r.thread_id)
  field_text TokenKind.process_id = os.format_number r.process_id
  field_text TokenKind.file = r.file
  field_text TokenKind.function = r.function
  field_text TokenKind.line = os.format_number r.line
  field_text TokenKind.logger_name = r.logger_name
  field_text TokenKind.message = r.message

  -- The text of a list of pieces.
  unfoldable pub pieces_text : List Piece → Bytes
  pieces_text [] = []
  pieces_text (byte c ∷ ps) = c ∷ pieces_text ps
  pieces_text (field k ∷ ps) = field_text k ++ pieces_text ps

  pub pieces_text-append :
      (ps qs : List Piece) → pieces_text (ps ++ qs) ≡ pieces_text ps ++ pieces_text qs
  unfolding pieces_text
  pieces_text-append [] qs = refl
  pieces_text-append (byte c ∷ ps) qs = ap (◌∷◌ c) (pieces_text-append ps qs)
  pieces_text-append (field k ∷ ps) qs =
      ap (λ l. field_text k ++ l) (pieces_text-append ps qs)
      ∙ sym (append_assoc (field_text k) (pieces_text ps) (pieces_text qs))

  pub pieces_text-bytes : (s : Bytes) → pieces_text (map byte s) ≡ s
  unfolding pieces_text
  pieces_text-bytes [] = refl
  pieces_text-bytes (c ∷ s) = ap (◌∷◌ c) (pieces_text-bytes s)

module _ {Tm : Type 0} (os : Platform Tm) where
  -- A valid cache holds the text of the second that it names.
  abbrev pub IsWarm : TimeCache → Type 0
  IsWarm c =
      c.cache_valid ≡ true
      → c.cached_timestamp ≡ os.format_time full_time (local_time os c.cached_seconds)

  -- A buffer and a cache after `text` was appended to `buffer`.
  abbrev pub Appended : Bytes → Bytes → Bytes × TimeCache → Type 0
  Appended buffer text out = (out.0 ≡ buffer ++ text) × IsWarm out.1

  append_timestamp_lem :
      (c : TimeCache) (buffer : Bytes) (r : LogRecord)
      → IsWarm c
      → Appended buffer (time_text os r full_time) (append_timestamp os c buffer r)
  unfolding append_timestamp
  append_timestamp_lem c buffer r w = ground arith

  append_token_lem :
      (faithful : IsFaithful os) (c : TimeCache) (buffer : Bytes) (t : Token) (r : LogRecord)
      → IsWarm c
      → Appended buffer (pieces_text os r (token_pieces t)) (append_token os c buffer t r)
  unfolding append_token append_time_component pieces_text
  append_token_lem faithful c buffer t r w = go t.kind
    where
      plain : (s : Bytes) → Appended buffer (s ++ []) (buffer ++ s, c)
      plain s = (rw append-nil, w)

      text : (s : Bytes) → Appended buffer (s ++ []) (buffer ++ os.format_text s, c)
      text s = (rw (faithful.text_as_is s, append-nil), w)

      go :
          (k : TokenKind)
          → Appended buffer
              (pieces_text os r (token_pieces (record t { kind = k })))
              (append_token os c buffer (record t { kind = k }) r)
      go TokenKind.literal = (ap (λ l. buffer ++ l) (sym (pieces_text-bytes os r t.text)), w)
      go TokenKind.timestamp = rw append-nil (append_timestamp_lem c buffer r w)
      go TokenKind.level = text (Level.to_string r.level)
      go TokenKind.file = text r.file
      go TokenKind.function = text r.function
      go TokenKind.logger_name = text r.logger_name
      go TokenKind.message = plain r.message
      go TokenKind.thread_id = plain (os.format_number (os.hash_thread r.thread_id))
      go TokenKind.process_id = plain (os.format_number r.process_id)
      go TokenKind.line = plain (os.format_number r.line)
      go TokenKind.year = plain (time_text os r TimeFormat.year)
      go TokenKind.month = plain (time_text os r TimeFormat.month)
      go TokenKind.day = plain (time_text os r TimeFormat.day)
      go TokenKind.hour = plain (time_text os r TimeFormat.hour)
      go TokenKind.minute = plain (time_text os r TimeFormat.minute)
      go TokenKind.second = plain (time_text os r TimeFormat.second)

  append_tokens_lem :
      (faithful : IsFaithful os) (ts : List Token) (c : TimeCache) (buffer : Bytes) (r : LogRecord)
      → IsWarm c
      → Appended buffer (pieces_text os r (tokens_pieces ts)) (append_tokens os c buffer ts r)
  unfolding append_tokens tokens_pieces
  append_tokens_lem faithful [] c buffer r w = (unfold pieces_text in sym (append-nil buffer), w)
  append_tokens_lem faithful (t ∷ ts) c buffer r w =
      let (longer, warm) = append_token os c buffer t r in
      let (first, w') = append_token_lem faithful c buffer t r w in
      let (rest, w'') = append_tokens_lem faithful ts warm longer r w' in
      (
        rest
            ∙ ap (λ l. l ++ pieces_text os r (tokens_pieces ts)) first
            ∙ append_assoc buffer (pieces_text os r (token_pieces t))
                (pieces_text os r (tokens_pieces ts))
            ∙ ap (λ l. buffer ++ l)
                (sym (pieces_text-append os r (token_pieces t) (tokens_pieces ts))),
        w'',
      )

  -- The line of a record: its pieces, and a line break.
  abbrev pub line : List Piece → LogRecord → Bytes
  line ps r = pieces_text os r ps ++ b'\n' ∷ []

  -- `format` appends to its buffer the text of the pieces that the pattern reads as, and a line
  -- break, whatever a valid cache holds, and leaves a valid cache. fmt writes a text as it is.
  pub format_lem :
      {p : Bytes} {ps : List Piece} (faithful : IsFaithful os) (c : TimeCache) (buffer : Bytes)
      (r : LogRecord)
      → Reads p ps
      → IsWarm c
      → Appended buffer (line ps r) (format os (make_formatter p) c buffer r)
  unfolding format make_formatter
  format_lem {p} {ps} faithful c buffer r reads w =
      let (out, w') = append_tokens_lem faithful (compile_pattern p) c buffer r w in
      (
        ap (λ l. l ++ b'\n' ∷ [])
              (out ∙ ap (λ l. buffer ++ pieces_text os r l) (compile_pattern-Reads reads))
            ∙ append_assoc buffer (pieces_text os r ps) (b'\n' ∷ []),
        w',
      )
