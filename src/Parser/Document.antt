-- ===== src/Parser/Document.antt =====
-- What a whole text of settings means, line by line.
use logparse.Base.{◌≡◌, refl, ap, ◌∙◌, List, [], ◌∷◌, ◌++◌, Bytes}
use logparse.Config.{Config, default_config}
use logparse.Parser.{apply, parse, parse_lines, lines}
use logparse.Parser.Lines.{
  Lacks, IsIgnored, IsKey, lines-line, parse_line-IsIgnored, parse_line-setting,
}
use logparse.Parser.Trim.{AllSpace}

-- A line that sets nothing, or a line `key=value` behind some spaces.
pub data Line : Type 0 where
  ignored : (l : Bytes) → Lacks b'\n' l → IsIgnored l → Line
  setting : (pad k v : Bytes) → AllSpace pad → IsKey k → Lacks b'\n' (pad ++ (k ++ b'=' ∷ v)) → Line

abbrev pub line_text : Line → Bytes
line_text (ignored l h i) = l
line_text (setting pad k v p i h) = pad ++ (k ++ b'=' ∷ v)

abbrev pub document : List Line → Bytes
document [] = []
document (x ∷ xs) = line_text x ++ b'\n' ∷ document xs

-- The settings, applied from the first to the last.
abbrev pub meaning : Config → List Line → Config
meaning c [] = c
meaning c (ignored l h i ∷ xs) = meaning c xs
meaning c (setting pad k v p i h ∷ xs) = meaning (apply c k v) xs

line_text-Lacks : (x : Line) → Lacks b'\n' (line_text x)
line_text-Lacks (ignored l h i) = h
line_text-Lacks (setting pad k v p i h) = h

parse_lines-document :
    (c : Config) (xs : List Line) → parse_lines c (lines (document xs)) ≡ meaning c xs
unfolding parse_lines
parse_lines-document c [] = unfold lines in refl
parse_lines-document c (ignored l h i ∷ xs) =
    ap (parse_lines c) (lines-line l (document xs) h)
    ∙ ap (λ d. parse_lines d (lines (document xs))) (parse_line-IsIgnored c l i)
    ∙ parse_lines-document c xs
parse_lines-document c (setting pad k v p i h ∷ xs) =
    ap (parse_lines c) (lines-line (pad ++ (k ++ b'=' ∷ v)) (document xs) h)
    ∙ ap (λ d. parse_lines d (lines (document xs))) (parse_line-setting c pad k v p i)
    ∙ parse_lines-document (apply c k v) xs

-- A text of any lines that are blank, comments, without a `=`, or `key=value` with spaces in front
-- or not: `parse` gives the default settings, changed by `apply` for each key and value in the order
-- of the lines. A key has no `=` and does not start with a
-- space or `#`, and each line ends in a line break and holds no other.
pub parse-document : (xs : List Line) → parse (document xs) ≡ meaning default_config xs
unfolding parse
parse-document xs = parse_lines-document default_config xs
