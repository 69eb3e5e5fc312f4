-- ===== src/Formatter/Compile.antt =====
-- `compile_pattern` of src/formatter.cpp finds the pieces of a pattern.
use logparse.Base.{
  ℕ, zero, Bool, ◌≡◌, refl, ap, ◌∙◌, sym, true, false, List, [], ◌∷◌, ◌++◌, map, Option, none, some,
  Bytes, equal, ◌==◌, append-nil, append_assoc, arith, ==_iff, Bool-cases, inl, inr,
}
use logparse.Formatter.{
  TokenKind, Token, Compiler, timestamp_pattern, empty_compiler, starts_with, push_token,
  add_literal, flush_literal, direct, directive, switch_kind, compile_from, compile_pattern,
}
use logparse.Formatter.Reads.{
  Piece, byte, field, pieces_at, directive_pieces, stamps, stamp_text, begins, meaning, token_table,
  Reads, stop, stamp, plain, lone, directed, kind_pieces, token_pieces, tokens_pieces,
}

tokens_pieces-concat :
    (ts : List Token) (t : Token)
    → tokens_pieces (ts ++ t ∷ []) ≡ tokens_pieces ts ++ token_pieces t
unfolding tokens_pieces
tokens_pieces-concat [] t = append-nil (token_pieces t)
tokens_pieces-concat (x ∷ ts) t =
    ap (λ l. token_pieces x ++ l) (tokens_pieces-concat ts t)
    ∙ sym (append_assoc (token_pieces x) (tokens_pieces ts) (token_pieces t))

-- What the compiler holds: the pieces of its tokens, and the bytes that wait for a literal.
view : Compiler → List Piece
view s = tokens_pieces s.tokens ++ map byte s.pending

map-concat : (xs : Bytes) (c : ℕ) → map byte (xs ++ c ∷ []) ≡ map byte xs ++ byte c ∷ []
map-concat [] c = refl
map-concat (x ∷ xs) c = ap (◌∷◌ (byte x)) (map-concat xs c)

view-add_literal : (s : Compiler) (c : ℕ) → view (add_literal s c) ≡ view s ++ byte c ∷ []
unfolding view
view-add_literal s c =
    rw (map-concat s.pending c)
      (sym (append_assoc (tokens_pieces s.tokens) (map byte s.pending) (byte c ∷ [])))

view-push_token :
    (s : Compiler) (k : TokenKind) (text : Bytes)
    → s.pending ≡ []
    → view (push_token s k text) ≡ view s ++ kind_pieces k text
unfolding view
view-push_token s k text e =
    rw (e, append-nil, append-nil)
      (tokens_pieces-concat s.tokens (record { kind = k; text = text }))

flush_literal-pending : (s : Compiler) → (flush_literal s).pending ≡ []
unfolding flush_literal
flush_literal-pending s = ground arith

tokens-flush_literal : (s : Compiler) → tokens_pieces (flush_literal s).tokens ≡ view s
unfolding flush_literal view
tokens-flush_literal s = go s.pending refl
  where
    go : (p : Bytes) → s.pending ≡ p → tokens_pieces (flush_literal s).tokens ≡ view s
    go [] e = rw (e, flush_literal, append-nil)
    go (c ∷ cs) e =
        rw (e, flush_literal)
          (tokens_pieces-concat s.tokens (record { kind = TokenKind.literal; text = c ∷ cs }))

view-flush_literal : (s : Compiler) → view (flush_literal s) ≡ view s
unfolding view
view-flush_literal s = rw (flush_literal-pending s, append-nil) (tokens-flush_literal s)

-- One round of the loop, at a compiler whose literal is flushed.
view-push_flushed :
    (s : Compiler) (k : TokenKind)
    → view (push_token (flush_literal s) k []) ≡ view s ++ kind_pieces k []
view-push_flushed s k =
    view-push_token (flush_literal s) k [] (flush_literal-pending s)
    ∙ ap (λ l. l ++ kind_pieces k []) (view-flush_literal s)

switch_kind-ne_literal : (d : ℕ) → switch_kind d ≡ some TokenKind.literal → ⊥
unfolding switch_kind
switch_kind-ne_literal d e = ground arith

kind_pieces-field : (k : TokenKind) → (k ≡ TokenKind.literal → ⊥) → kind_pieces k [] ≡ field k ∷ []
kind_pieces-field TokenKind.literal h = absurd (h refl)
kind_pieces-field _ h = refl

view-direct :
    (s : Compiler) (d : ℕ) (o : Option TokenKind)
    → (o ≡ some TokenKind.literal → ⊥)
    → view (direct (flush_literal s) d o) ≡ view s ++ pieces_at d o
view-direct s d (some k) h =
    view-push_flushed s k ∙ ap (λ l. view s ++ l) (kind_pieces-field k (λ e. h (ap some e)))
view-direct s d none h = elim (Bool-cases (d == b'%')) [
  | inl percent ↦ rw percent (
      view-push_token (flush_literal s) TokenKind.literal (b'%' ∷ []) (flush_literal-pending s)
      ∙ ap (λ l. l ++ byte b'%' ∷ []) (view-flush_literal s))
  | inr other ↦
      let t = flush_literal s in
      rw other (
        view-add_literal (add_literal t b'%') d
        ∙ ap (λ l. l ++ byte d ∷ [])
            (view-add_literal t b'%' ∙ ap (λ l. l ++ byte b'%' ∷ []) (view-flush_literal s))
        ∙ append_assoc (view s) (byte b'%' ∷ []) (byte d ∷ []))
]

switch_kind-meaning : (d : ℕ) → switch_kind d ≡ meaning token_table d
unfolding switch_kind meaning
switch_kind-meaning d = refl

view-directive :
    (s : Compiler) (d : ℕ) → view (directive (flush_literal s) d) ≡ view s ++ directive_pieces d
unfolding directive
view-directive s d =
    view-direct s d (switch_kind d) (switch_kind-ne_literal d)
    ∙ ap (λ o. view s ++ pieces_at d o) (switch_kind-meaning d)

-- The two tests for the timestamp, and the two tables of directives.
starts_with-begins : (prefix p : Bytes) → starts_with p 0 prefix ≡ begins prefix p
unfolding starts_with begins equal
starts_with-begins [] p = ground arith
starts_with-begins (c ∷ cs) [] = ground arith
starts_with-begins (c ∷ cs) (d ∷ p) = ground (arith, starts_with-begins cs p)

abbrev starts : Bytes → Bool
starts p = starts_with p 0 timestamp_pattern

pub starts-stamps : (p : Bytes) → starts p ≡ stamps p
starts-stamps p = starts_with-begins stamp_text p

starts-timestamp : (rest : Bytes) → starts (timestamp_pattern ++ rest) ≡ true
unfolding starts_with equal
starts-timestamp rest = ground arith

starts-plain : (c : ℕ) (cs : Bytes) → (c == b'%') ≡ false → starts (c ∷ cs) ≡ false
unfolding starts_with equal
starts-plain c cs h = ground arith

starts-one : (c : ℕ) → starts (c ∷ []) ≡ false
unfolding starts_with
starts-one c = refl

compile_from-timestamp :
    (rest : Bytes) (s : Compiler)
    → compile_from zero (timestamp_pattern ++ rest) s
      ≡ compile_from zero rest (push_token (flush_literal s) TokenKind.timestamp [])
compile_from-timestamp rest s = unfold compile_from in rw (starts-timestamp rest)

compile_from-plain :
    (c : ℕ) (cs : Bytes) (s : Compiler)
    → (c == b'%') ≡ false
    → compile_from zero (c ∷ cs) s ≡ compile_from zero cs (add_literal s c)
unfolding compile_from
compile_from-plain c [] s h = rw (starts-plain c [] h, h)
compile_from-plain c (d ∷ cs) s h = rw (starts-plain c (d ∷ cs) h, h)

compile_from-directed :
    (c d : ℕ) (cs : Bytes) (s : Compiler)
    → (c == b'%') ≡ true
    → starts (c ∷ d ∷ cs) ≡ false
    → compile_from zero (c ∷ d ∷ cs) s ≡ compile_from zero cs (directive (flush_literal s) d)
unfolding compile_from
compile_from-directed c d cs s h e = rw (e, h)

-- The loop adds the pieces of the pattern behind those that it holds.
compile_from-Reads :
    {p : Bytes} {ps : List Piece} (s : Compiler)
    → Reads p ps
    → view (compile_from zero p s) ≡ view s ++ ps
compile_from-Reads s stop = unfold compile_from in sym (append-nil (view s))
compile_from-Reads s (stamp {p} {rest} {ps} e r) =
    ap (λ q. view (compile_from zero q s)) e
    ∙ ap view (compile_from-timestamp rest s)
    ∙ compile_from-Reads (push_token (flush_literal s) TokenKind.timestamp []) r
    ∙ ap (λ l. l ++ ps) (view-push_flushed s TokenKind.timestamp)
    ∙ append_assoc (view s) (field TokenKind.timestamp ∷ []) ps
compile_from-Reads s (plain {c} {cs} {ps} h r) =
    ap view (compile_from-plain c cs s h)
    ∙ compile_from-Reads (add_literal s c) r
    ∙ ap (λ l. l ++ ps) (view-add_literal s c)
    ∙ append_assoc (view s) (byte c ∷ []) ps
compile_from-Reads s (lone {c} e) =
    rw e (unfold compile_from in rw (starts-one b'%') (view-add_literal s b'%'))
compile_from-Reads s (directed {c} {d} {cs} {ps} e h r q) =
    ap view (compile_from-directed c d cs s ((==_iff c b'%').1 e) (starts-stamps (c ∷ d ∷ cs) ∙ h))
    ∙ compile_from-Reads (directive (flush_literal s) d) r
    ∙ ap (λ l. l ++ ps) (view-directive s d)
    ∙ append_assoc (view s) (directive_pieces d) ps
    ∙ ap (λ l. view s ++ l) (sym q)

-- If a pattern reads as some pieces, its compiled tokens spell these pieces, in order.
pub compile_pattern-Reads :
    {p : Bytes} {ps : List Piece} → Reads p ps → tokens_pieces (compile_pattern p) ≡ ps
unfolding compile_pattern
compile_pattern-Reads {p} r =
    tokens-flush_literal (compile_from zero p empty_compiler)
    ∙ compile_from-Reads empty_compiler r
    ∙ (unfold view tokens_pieces in refl)
