-- ===== src/Formatter/Tests.antt =====
-- Each theorem on patterns at a concrete pattern.
use logparse.Base.{List, ◌≡◌, [], ◌∷◌, ◌++◌, codes}
use logparse.Fixtures.{
  plain_os, plain_os-IsFaithful, sample_record, message_pieces, message_Reads, cold-IsWarm,
}
use logparse.Formatter.{cold, format, make_formatter, compile_pattern}
use logparse.Formatter.Cache.{Appended, line, format_lem}
use logparse.Formatter.Escape.{compile_pattern_lem, escape, format-escape}
use logparse.Formatter.Reads.{Piece, Reads, tokens_pieces}

format_lem_example :
    Appended plain_os []
      (line plain_os message_pieces sample_record)
      (format plain_os (make_formatter (codes "%m!")) cold [] sample_record)
format_lem_example =
    format_lem plain_os plain_os-IsFaithful cold [] sample_record message_Reads cold-IsWarm

format-percent :
    (format plain_os (make_formatter (escape (codes "5%"))) cold [] sample_record).0
    ≡ codes "5%" ++ b'\n' ∷ []
format-percent =
    format-escape plain_os plain_os-IsFaithful (codes "5%") cold sample_record cold-IsWarm

compile_pattern_lem_example :
    Reads (codes "%m!") (tokens_pieces (compile_pattern (codes "%m!")))
    × ((qs : List Piece)
        → Reads (codes "%m!") qs
        → qs ≡ tokens_pieces (compile_pattern (codes "%m!")))
compile_pattern_lem_example = compile_pattern_lem (codes "%m!")
