-- ===== src/Parser/Lines.antt =====
-- How the lines of a text are read: blank lines, comments, and lines with a `=`.
use Prim.Native.Nat.add
use native.Mathlib.Nat.{suc-add}
use native.Mathlib.Numerals.{add-one}
use logparse.Base.{
  ℕ, suc, ◌+◌, ◌≡◌, ◌≢◌, refl, ap, ◌∙◌, sym, Bool, true, false, List, [], ◌∷◌, ◌++◌, Bytes, ◌⊎◌,
  length, take, drop, arith, not, ◌&&◌, inl, inr, none, some, ◌==◌,
}
use logparse.Config.{Config, default_config}
use logparse.Parser.{
  is_space, last_kept, trim, apply, find_delimiter, step_stripped, parse_line, lines, parse_lines,
  parse,
}
use logparse.Parser.Trim.{last_kept-append, trim-cons, trim-take, trim-append_front, AllSpace}

-- No byte of the text is `c`.
abbrev pub lacks : ℕ → Bytes → Bool
lacks b [] = true
lacks b (c ∷ cs) = not (c == b) && lacks b cs

abbrev pub Lacks : ℕ → Bytes → Type 0
Lacks b s = lacks b s ≡ true

pub lines-line : (l rest : Bytes) → Lacks b'\n' l → lines (l ++ b'\n' ∷ rest) ≡ l ∷ lines rest
unfolding lines
lines-line [] rest h = refl
lines-line (c ∷ l) rest h = ground (arith, lines-line l rest)

lines-ne-nil : (a b : Bytes) → lines (a ++ b'\n' ∷ b) ≢ []
unfolding lines
lines-ne-nil [] b = ground arith
lines-ne-nil (c ∷ a) b = ground (arith, lines-ne-nil a b)

-- The lines of a text that is cut behind a line break.
lines-append : (a b : Bytes) → lines (a ++ b'\n' ∷ b) ≡ lines (a ++ b'\n' ∷ []) ++ lines b
unfolding lines
lines-append [] b = refl
lines-append (c ∷ a) b = ground (arith, lines-append a b, lines-ne-nil a [])

parse_lines-append :
    (c : Config) (xs ys : List Bytes) → parse_lines c (xs ++ ys) ≡ parse_lines (parse_lines c xs) ys
unfolding parse_lines
parse_lines-append c [] ys = refl
parse_lines-append c (x ∷ xs) ys = parse_lines-append (parse_line c x) xs ys

-- A text that is cut behind a line break is read piece by piece.
pub parse-append :
    (a b : Bytes) → parse (a ++ b'\n' ∷ b) ≡ parse_lines (parse (a ++ b'\n' ∷ [])) (lines b)
unfolding parse
parse-append a b =
    ap (parse_lines default_config) (lines-append a b)
    ∙ parse_lines-append default_config (lines (a ++ b'\n' ∷ [])) (lines b)

-- A line that is blank, a comment, or without a `=`.
abbrev pub IsIgnored : Bytes → Type 0
IsIgnored l =
    (trim l ≡ []) ⊎ ((rest : Bytes) × (trim l ≡ b'#' ∷ rest)) ⊎ (find_delimiter (trim l) ≡ none)

pub parse_line-IsIgnored : (c : Config) (l : Bytes) → IsIgnored l → parse_line c l ≡ c
unfolding parse_line
parse_line-IsIgnored c l (inl e) = rw e
parse_line-IsIgnored c l (inr (inl (rest, e))) = rw e
parse_line-IsIgnored c l (inr (inr e)) = no_delimiter (trim l) e
  where
    no_delimiter : (s : Bytes) → find_delimiter s ≡ none → step_stripped c s ≡ c
    no_delimiter [] e = refl
    no_delimiter (x ∷ s) e = ground arith

-- Behind a line break, a line that is blank, a comment or without a `=` can be left out without a
-- change to the result.
pub parse_skips :
    (a l b : Bytes)
    → Lacks b'\n' l
    → IsIgnored l
    → parse (a ++ b'\n' ∷ (l ++ b'\n' ∷ b)) ≡ parse (a ++ b'\n' ∷ b)
unfolding parse_lines
parse_skips a l b h i =
    parse-append a (l ++ b'\n' ∷ b)
    ∙ rw (lines-line l b h) (
        ap (λ c. parse_lines c (lines b)) (parse_line-IsIgnored (parse (a ++ b'\n' ∷ [])) l i)
        ∙ sym (parse-append a b))

find_delimiter-append :
    (k v : Bytes) → Lacks b'=' k → find_delimiter (k ++ b'=' ∷ v) ≡ some (length k)
unfolding find_delimiter
find_delimiter-append [] v h = refl
find_delimiter-append (c ∷ k) v h = ground (arith, find_delimiter-append k v)

take-length : (k v : Bytes) → take (length k) (k ++ v) ≡ k
take-length [] v = refl
take-length (x ∷ k) v = ap (◌∷◌ x) (take-length k v)

drop-length : (k v : Bytes) (c : ℕ) → drop (length k + 1) (k ++ c ∷ v) ≡ v
drop-length k v c = rw add-one (go k)
  where
    go : (k : Bytes) → drop (suc (length k)) (k ++ c ∷ v) ≡ v
    go [] = refl
    go (x ∷ k) = go k

take-past : (n : ℕ) (k v : Bytes) (c : ℕ) → take (length k + suc n) (k ++ c ∷ v) ≡ k ++ c ∷ take n v
take-past n [] v c = rw add.zero
take-past n (x ∷ k) v c = rw suc-add (ap (◌∷◌ x) (take-past n k v c))

-- A key as it can stand in front of `=`: it begins with no space and no `#`, and holds no `=`.
abbrev pub is_key : Bytes → Bool
is_key [] = false
is_key (c ∷ cs) = not (is_space c) && not (c == b'#') && lacks b'=' (c ∷ cs)

abbrev pub IsKey : Bytes → Type 0
IsKey k = is_key k ≡ true

trim-setting : (k v : Bytes) → IsKey k → trim (k ++ b'=' ∷ v) ≡ k ++ b'=' ∷ take (last_kept v) v
trim-setting [] v h = cc
trim-setting (c ∷ cs) v h =
    trim-cons c (cs ++ b'=' ∷ v) (ground arith)
    ∙ ap (◌∷◌ c) (rw (last_kept-append cs v b'=' equals_kept) (take-past (last_kept v) cs v b'='))
  where
    equals_kept : is_space b'=' ≡ false
    equals_kept = unfold is_space in refl

step_stripped-setting :
    (c : Config) (k v : Bytes) → IsKey k → step_stripped c (k ++ b'=' ∷ v) ≡ apply c k v
step_stripped-setting c [] v h = cc
step_stripped-setting c (x ∷ xs) v h =
    let mark : (x == b'#') ≡ false = ground arith in
    let clear : Lacks b'=' (x ∷ xs) = ground arith in
    rw (mark, find_delimiter-append (x ∷ xs) v clear)
      (rw (take-length (x ∷ xs) (b'=' ∷ v), drop-length (x ∷ xs) v b'='))

-- `apply` reads a value up to its last byte that is no space.
apply-take : (c : Config) (k v : Bytes) → apply c k (take (last_kept v) v) ≡ apply c k v
unfolding apply
apply-take c k v = rw (trim-take v)

-- A line `key=value`, with spaces in front or not, sets what `apply` sets for the key and the
-- value. The key has no `=` and does not start with a space or `#`.
pub parse_line-setting :
    (c : Config) (pad k v : Bytes)
    → AllSpace pad
    → IsKey k
    → parse_line c (pad ++ (k ++ b'=' ∷ v)) ≡ apply c k v
unfolding parse_line
parse_line-setting c pad k v p h =
    rw (trim-append_front pad (k ++ b'=' ∷ v) p, trim-setting k v h)
      (step_stripped-setting c k (take (last_kept v) v) h ∙ apply-take c k v)
