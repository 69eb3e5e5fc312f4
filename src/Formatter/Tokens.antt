-- ===== src/Formatter/Tokens.antt =====
-- The shape of the tokens that `compile_pattern` makes.
use logparse.Base.{
  ℕ, zero, suc, ◌≡◌, ◌≢◌, refl, [], ◌∷◌, Bytes, ◌==◌, arith, Bool-cases, inl, inr, All, All-append,
  ◌⊎◌, Option, none, some,
}
use mathlib.Core.List.{cons-ne-nil}
use logparse.Formatter.{
  TokenKind, Token, Compiler, timestamp_pattern, empty_compiler, starts_with, push_token,
  add_literal, flush_pending, flush_literal, direct, directive, switch_kind, compile_from,
  compile_pattern,
}

-- A literal has a text and no other token has one; the month stands only inside a timestamp.
pub record IsShaped (t : Token) : Type 0 where
  pub some_text : t.kind ≡ TokenKind.literal → t.text ≢ []
  pub no_text : t.kind ≢ TokenKind.literal → t.text ≡ []
  pub no_month : t.kind ≢ TokenKind.month

abbrev Shaped : Compiler → Type 0
Shaped s = All IsShaped s.tokens

push_token-Shaped :
    (s : Compiler) (k : TokenKind) (text : Bytes)
    → Shaped s
    → IsShaped (record { kind = k; text = text })
    → Shaped (push_token s k text)
push_token-Shaped s k text h g = All-append IsShaped s.tokens _ h (g, tt)

flush_pending-Shaped : (p : Bytes) (s : Compiler) → Shaped s → Shaped (flush_pending p s)
flush_pending-Shaped [] s h = h
flush_pending-Shaped (c ∷ cs) s h = push_token-Shaped s TokenKind.literal (c ∷ cs) h (record {
  some_text = λ e. cons-ne-nil c cs;
  no_text = λ ne. absurd (ne refl);
  no_month = λ e. cc;
})

flush_literal-Shaped : (s : Compiler) → Shaped s → Shaped (flush_literal s)
unfolding flush_literal
flush_literal-Shaped s h = flush_pending-Shaped s.pending s h

-- A field's token, for a kind that the compiler pushes.
field-IsShaped :
    (k : TokenKind)
    → k ≢ TokenKind.literal
    → k ≢ TokenKind.month
    → IsShaped (record { kind = k; text = [] })
field-IsShaped k a b = record { some_text = λ e. absurd (a e); no_text = λ ne. refl; no_month = b }

switch_kind-ne :
    (d : ℕ) (k : TokenKind)
    → switch_kind d ≡ some k
    → (k ≡ TokenKind.literal) ⊎ (k ≡ TokenKind.month)
    → ⊥
unfolding switch_kind
switch_kind-ne d k e h = ground arith

switch_kind-kinds :
    (d : ℕ) (k : TokenKind)
    → switch_kind d ≡ some k
    → (k ≢ TokenKind.literal) × (k ≢ TokenKind.month)
switch_kind-kinds d k e = (λ h. switch_kind-ne d k e (inl h), λ h. switch_kind-ne d k e (inr h))

direct-Shaped :
    (s : Compiler) (d : ℕ) (o : Option TokenKind)
    → ((k : TokenKind) → o ≡ some k → (k ≢ TokenKind.literal) × (k ≢ TokenKind.month))
    → Shaped s
    → Shaped (direct s d o)
direct-Shaped s d (some k) g h =
    push_token-Shaped s k [] h (field-IsShaped k (g k refl).0 (g k refl).1)
direct-Shaped s d none g h = elim (Bool-cases (d == b'%')) [
  | inl e ↦ rw e (
      push_token-Shaped s TokenKind.literal (b'%' ∷ []) h (record {
        some_text = λ e. cons-ne-nil b'%' [];
        no_text = λ ne. absurd (ne refl);
        no_month = λ e. cc;
      }))
  | inr e ↦ rw e h
]

stamped-Shaped :
    (s : Compiler) → Shaped s → Shaped (push_token (flush_literal s) TokenKind.timestamp [])
stamped-Shaped s h =
    push_token-Shaped (flush_literal s) TokenKind.timestamp [] (flush_literal-Shaped s h)
      (field-IsShaped TokenKind.timestamp (λ e. cc) (λ e. cc))

compile_from-Shaped : (k : ℕ) (p : Bytes) (s : Compiler) → Shaped s → Shaped (compile_from k p s)
unfolding compile_from
compile_from-Shaped zero [] s h = h
compile_from-Shaped (suc k) [] s h = h
compile_from-Shaped (suc k) (c ∷ cs) s h = compile_from-Shaped k cs s h
compile_from-Shaped zero (c ∷ []) s h = ground (arith, stamped-Shaped s h)
compile_from-Shaped zero (c ∷ d ∷ cs) s h =
    let flushed = flush_literal s in
    let directed = compile_from-Shaped zero cs (directive flushed d) (
      unfold directive in
      direct-Shaped flushed d (switch_kind d) (switch_kind-kinds d) (flush_literal-Shaped s h)) in
    let copied = compile_from-Shaped zero (d ∷ cs) (add_literal s c) h in
    let stamped =
      compile_from-Shaped 16 (d ∷ cs) (push_token flushed TokenKind.timestamp [])
        (stamped-Shaped s h) in
    elim (Bool-cases (starts_with (c ∷ d ∷ cs) 0 timestamp_pattern)) [
      | inl e ↦ rw e stamped
      | inr e ↦ elim (Bool-cases (c == b'%')) [
        | inl percent ↦ rw (e, percent) directed
        | inr other ↦ rw (e, other) copied
      ]
    ]

-- Every token of a compiled pattern is a literal with a text, or a field with none, and never the
-- month, which `compile_pattern` writes only as a part of the full timestamp.
pub compile_pattern-IsShaped : (p : Bytes) → All IsShaped (compile_pattern p)
unfolding compile_pattern
compile_pattern-IsShaped p = flush_literal-Shaped _ (compile_from-Shaped zero p empty_compiler tt)
