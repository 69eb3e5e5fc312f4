-- ===== src/Formatter/Escape.antt =====
-- Every pattern has a reading, and any text can be written as a pattern.
use logparse.Base.{
  subst, ℕ, zero, suc, ◌≤◌, ◌≡◌, refl, ap, ◌∙◌, sym, true, false, List, [], ◌∷◌, ◌++◌, map, Bytes,
  ◌==◌, equal_iff, arith, Bool-cases, inl, inr, ==_iff, length, take, drop, take-append-drop,
  if◌then◌else◌,
}
use logparse.Platform.{Platform, IsFaithful}
use logparse.Record.{LogRecord}
use logparse.Formatter.{
  compile_pattern, TokenKind, TimeCache, timestamp_pattern, starts_with, make_formatter, format,
}
use logparse.Formatter.Cache.{IsWarm, pieces_text-bytes, format_lem}
use logparse.Formatter.Reads.{
  tokens_pieces, Piece, byte, field, Reads, stop, stamp, plain, lone, directed, stamps, stamp_text,
  begins, meaning, directive_pieces,
}
use logparse.Formatter.Compile.{compile_pattern-Reads, starts-stamps}

length-drop-le : (n : ℕ) (s : Bytes) → length (drop n s) ≤ length s
length-drop-le zero s = omega arith
length-drop-le (suc n) [] = omega arith
length-drop-le (suc n) (c ∷ s) = omega (arith, length-drop-le n s)

abbrev HasReading : Bytes → Type 0
HasReading p = (ps : List Piece) × Reads p ps

stamps-splits : (p : Bytes) → stamps p ≡ true → p ≡ stamp_text ++ drop 17 p
unfolding starts_with
stamps-splits p s =
    let h = starts-stamps p ∙ s in
    sym (take-append-drop 17 p)
    ∙ ap (λ l. l ++ drop 17 p) ((equal_iff (take 17 p) timestamp_pattern).0 (ground arith))

reading_within : (n : ℕ) (p : Bytes) → length p ≤ n → HasReading p
reading_within n [] h = ([], stop)
reading_within zero (c ∷ cs) h = absurd (omega arith)
reading_within (suc n) (c ∷ []) h = elim (Bool-cases (c == b'%')) [
  | inl e ↦ (byte b'%' ∷ [], lone ((==_iff c b'%').0 e))
  | inr e ↦ (byte c ∷ [], plain e stop)
]
reading_within (suc n) (c ∷ d ∷ cs) h = elim (Bool-cases (stamps (c ∷ d ∷ cs))) [
  | inl e ↦
      let (ps, r) = reading_within n (drop 15 cs) (omega (arith, length-drop-le 15 cs)) in
      (field TokenKind.timestamp ∷ ps, stamp (stamps-splits (c ∷ d ∷ cs) e) r)
  | inr e ↦ elim (Bool-cases (c == b'%')) [
    | inl percent ↦
        let (ps, r) = reading_within n cs (omega arith) in
        (directive_pieces d ++ ps, directed ((==_iff c b'%').0 percent) e r refl)
    | inr other ↦
        let (ps, r) = reading_within n (d ∷ cs) (omega arith) in (byte c ∷ ps, plain other r)
  ]
]

-- Every pattern reads as one list of pieces and no other.
reading : (p : Bytes) → (ps : List Piece) × Reads p ps × ((qs : List Piece) → Reads p qs → qs ≡ ps)
reading p =
    let (ps, r) = reading_within (length p) p (omega arith) in
    (ps, r, λ qs r'. sym (compile_pattern-Reads r') ∙ compile_pattern-Reads r)

-- The tokens that `compile_pattern` makes of a pattern spell the pieces that the pattern reads as,
-- and no pattern reads as anything else.
pub compile_pattern_lem :
    (p : Bytes)
    → Reads p (tokens_pieces (compile_pattern p))
      × ((qs : List Piece) → Reads p qs → qs ≡ tokens_pieces (compile_pattern p))
compile_pattern_lem p =
    let (ps, r, only) = reading p in
    (subst (Reads p) (sym (compile_pattern-Reads r)) r, λ qs r'. sym (compile_pattern-Reads r'))

-- A text with each `%` doubled.
unfoldable pub escape : Bytes → Bytes
escape [] = []
escape (c ∷ cs) = if c == b'%' then b'%' ∷ b'%' ∷ escape cs else c ∷ escape cs

stamps-percents : (cs : Bytes) → stamps (b'%' ∷ b'%' ∷ cs) ≡ false
unfolding begins
stamps-percents cs = ground arith

directive_pieces-percent : directive_pieces b'%' ≡ byte b'%' ∷ []
unfolding meaning
directive_pieces-percent = refl

pub escape-Reads : (s : Bytes) → Reads (escape s) (map byte s)
unfolding escape
escape-Reads [] = stop
escape-Reads (c ∷ cs) = elim (Bool-cases (c == b'%')) [
  | inl e ↦
      rw (e, (==_iff c b'%').0 e)
        (directed refl (stamps-percents (escape cs)) (escape-Reads cs)
          (ap (λ l. l ++ map byte cs) (sym directive_pieces-percent)))
  | inr e ↦ rw e (plain e (escape-Reads cs))
]

-- A text whose `%` are doubled is a pattern for lines with just this text, whatever the record and
-- a valid cache. fmt writes a text as it is.
pub format-escape :
    {Tm : Type 0} (os : Platform Tm) (faithful : IsFaithful os) (s : Bytes) (c : TimeCache)
    (r : LogRecord)
    → IsWarm os c
    → (format os (make_formatter (escape s)) c [] r).0 ≡ s ++ b'\n' ∷ []
format-escape os faithful s c r w =
    (format_lem os faithful c [] r (escape-Reads s) w).0
    ∙ ap (λ l. l ++ b'\n' ∷ []) (pieces_text-bytes os r s)
