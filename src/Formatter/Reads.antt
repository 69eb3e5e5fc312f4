-- ===== src/Formatter/Reads.antt =====
-- What a pattern of the formatter means, apart from `compile_pattern`.
use logparse.Base.{
  ℕ, ◌≡◌, Bool, true, false, ◌&&◌, codes, List, [], ◌∷◌, ◌++◌, map, Option, none, some, Bytes, ◌==◌,
  if◌then◌else◌,
}
use logparse.Formatter.{TokenKind, Token}

-- A byte that is copied, or a field of the record.
pub data Piece : Type 0 where
  byte : ℕ → Piece
  field : TokenKind → Piece

-- The README's table of tokens, besides the full timestamp and `%%`.
abbrev pub token_table : List (ℕ × TokenKind)
token_table =
    (b'Y', TokenKind.year)
    ∷ (b'd', TokenKind.day)
    ∷ (b'H', TokenKind.hour)
    ∷ (b'M', TokenKind.minute)
    ∷ (b'S', TokenKind.second)
    ∷ (b'l', TokenKind.level)
    ∷ (b'L', TokenKind.level)
    ∷ (b't', TokenKind.thread_id)
    ∷ (b'p', TokenKind.process_id)
    ∷ (b'f', TokenKind.file)
    ∷ (b'F', TokenKind.function)
    ∷ (b'#', TokenKind.line)
    ∷ (b'n', TokenKind.logger_name)
    ∷ (b'm', TokenKind.message)
    ∷ (b'v', TokenKind.message)
    ∷ []

unfoldable pub meaning : List (ℕ × TokenKind) → ℕ → Option TokenKind
meaning [] d = none
meaning ((c, kind) ∷ table) d = if d == c then some kind else meaning table d

abbrev pub pieces_at : ℕ → Option TokenKind → List Piece
pieces_at d (some kind) = field kind ∷ []
pieces_at d none = if d == b'%' then byte b'%' ∷ [] else byte b'%' ∷ byte d ∷ []

-- What `%` and the byte behind it stand for.
abbrev pub directive_pieces : ℕ → List Piece
directive_pieces d = pieces_at d (meaning token_table d)

-- The README's token for the full timestamp, and whether a pattern starts with it.
abbrev pub stamp_text : Bytes
stamp_text = codes "%Y-%m-%d %H:%M:%S"

unfoldable pub begins : Bytes → Bytes → Bool
begins [] p = true
begins (c ∷ cs) [] = false
begins (c ∷ cs) (d ∷ p) = d == c && begins cs p

abbrev pub stamps : Bytes → Bool
stamps p = begins stamp_text p

-- A pattern is read from the left: a full timestamp first, then a directive of two bytes, then a
-- single byte. A `%` at the very end stands for itself.
pub data Reads : Bytes → List Piece → Type 0 where
  stop : Reads [] []
  stamp :
      {p rest : Bytes} {ps : List Piece}
      → p ≡ stamp_text ++ rest
      → Reads rest ps
      → Reads p (field TokenKind.timestamp ∷ ps)
  plain :
      {c : ℕ} {cs : Bytes} {ps : List Piece}
      → (c == b'%') ≡ false
      → Reads cs ps
      → Reads (c ∷ cs) (byte c ∷ ps)
  lone : {c : ℕ} → c ≡ b'%' → Reads (c ∷ []) (byte b'%' ∷ [])
  directed :
      {c d : ℕ} {cs : Bytes} {ps qs : List Piece}
      → c ≡ b'%'
      → stamps (c ∷ d ∷ cs) ≡ false
      → Reads cs ps
      → qs ≡ directive_pieces d ++ ps
      → Reads (c ∷ d ∷ cs) qs

abbrev pub kind_pieces : TokenKind → Bytes → List Piece
kind_pieces TokenKind.literal text = map byte text
kind_pieces kind text = field kind ∷ []

abbrev pub token_pieces : Token → List Piece
token_pieces t = kind_pieces t.kind t.text

unfoldable pub tokens_pieces : List Token → List Piece
tokens_pieces [] = []
tokens_pieces (t ∷ ts) = token_pieces t ++ tokens_pieces ts
