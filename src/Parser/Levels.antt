-- ===== src/Parser/Levels.antt =====
-- The parser of src/parser.cpp against the names of include/logger/level.hpp.
use logparse.Base.{◌≡◌, refl, some, equal}
use logparse.Level
use logparse.Level.{Level, level_code, trace}
use logparse.Parser.{first_kept, is_space, last_kept, lower, parse_level, trim}

-- The parser reads back the name that `to_string` gives a level.
pub parse_level-to_string : (l : Level) → parse_level (Level.to_string l) ≡ some l
unfolding parse_level Level.to_string trim lower equal first_kept last_kept is_space
parse_level-to_string trace = refl
parse_level-to_string _ = refl
