-- ===== src/Parser/Sizes.antt =====
-- Numbers in a configuration: what `parse_size` reads, and that every stored number fits 64 bits.
use logparse.Base.{◌↔◌}
use logparse.Base.{
  ℕ, ◌<◌, ◌≡◌, ◌≢◌, refl, ap, some, List, [], ◌∷◌, ◌++◌, Bytes, arith, size_mod, append-nil, subst,
  sym, or_else, Option-cases, inl, inr, take, drop, ◌+◌,
}
use logparse.Config.{Config, default_config}
use logparse.Decimal.{parsed, value, split_digits, from_chars}
use logparse.Decimal.RoundTrip.{AllDigits, from_chars-AllDigits}
use logparse.Parser.{
  trim, lower, assign, apply, parse_size, find_delimiter, step_stripped, parse_line, lines,
  parse_lines, parse,
}

split_digits-splits :
    (s : Bytes) → AllDigits (split_digits s).0 × ((split_digits s).0 ++ (split_digits s).1 ≡ s)
unfolding split_digits
split_digits-splits [] = (tt, refl)
split_digits-splits (c ∷ cs) = ground (arith, split_digits-splits cs)

from_chars-whole :
    (s : Bytes) (n : ℕ)
    → from_chars s ≡ parsed n []
    → (s ≢ []) × AllDigits s × (n ≡ value 0 s) × (n < size_mod)
unfolding from_chars
from_chars-whole s n h = ground (arith, split_digits-splits s, append-nil (split_digits s).0)

parse_size-parsed : (s : Bytes) (n : ℕ) → parse_size s ≡ some n → from_chars (trim s) ≡ parsed n []
unfolding parse_size
parse_size-parsed s n h = ground arith

-- `parse_size` accepts exactly the texts that are, without the spaces round them, one or more
-- digits that spell a number below 2 ^ 64, and gives that number.
pub parse_size_iff :
    (s : Bytes) (n : ℕ)
    → (parse_size s ≡ some n)
      ↔ ((trim s ≢ []) × AllDigits (trim s) × (n ≡ value 0 (trim s)) × (n < size_mod))
unfolding parse_size
parse_size_iff s n = (
  λ h. from_chars-whole (trim s) n (parse_size-parsed s n h),
  λ h.
      rw (from_chars-AllDigits (trim s) h.0 h.1 (subst (λ k. k < size_mod) h.2 h.3))
        (ap some (sym h.2)),
)

-- Every number of the configuration is a `std::size_t`.
pub record IsSized (c : Config) : Type 0 where
  pub capacity : c.queue_capacity < size_mod
  pub file_size : c.rotation.max_file_size < size_mod
  pub files : c.rotation.max_file < size_mod
  pub interval : c.flush_interval_ms < size_mod

stored-lt : (v : Bytes) (d : ℕ) → d < size_mod → or_else (parse_size v) d < size_mod
stored-lt v d h = elim (Option-cases (parse_size v)) [
  | inl e ↦ rw e h
  | inr (n, e) ↦ rw e ((parse_size_iff v n).0 e).3
]

assign-IsSized : (c : Config) (k v : Bytes) → IsSized c → IsSized (assign c k v)
unfolding assign
assign-IsSized c k v h = ground (
  arith,
  stored-lt v c.queue_capacity h.capacity,
  stored-lt v c.rotation.max_file_size h.file_size,
  stored-lt v c.rotation.max_file h.files,
  stored-lt v c.flush_interval_ms h.interval,
)

step_stripped-IsSized : (c : Config) (s : Bytes) → IsSized c → IsSized (step_stripped c s)
unfolding apply
step_stripped-IsSized c [] h = h
step_stripped-IsSized c (x ∷ s) h = elim (Option-cases (find_delimiter (x ∷ s))) [
  | inl e ↦ rw e (ground arith)
  | inr (d, e) ↦
      let set = assign-IsSized c (lower (trim (take d (x ∷ s)))) (trim (drop (d + 1) (x ∷ s))) h in
      rw e (ground (arith, set))
]

parse_lines-IsSized : (ls : List Bytes) (c : Config) → IsSized c → IsSized (parse_lines c ls)
unfolding parse_lines parse_line
parse_lines-IsSized [] c h = h
parse_lines-IsSized (l ∷ ls) c h =
    parse_lines-IsSized ls (parse_line c l) (step_stripped-IsSized c (trim l) h)

-- Whatever the text, every number of the parsed configuration fits in 64 bits.
pub parse-IsSized : (input : Bytes) → IsSized (parse input)
unfolding parse
parse-IsSized input = parse_lines-IsSized (lines input) default_config (omega arith)
