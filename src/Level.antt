-- ===== src/Level.antt =====
-- include/logger/level.hpp: severity levels, their names and colours, and their comparisons.
pub mod Order
use logparse.Base.{ℕ, Bool, not, Bytes, codes, ltb, leb, ◌==◌, List, [], ◌∷◌, get_or}

pub data Level : Type 0 where
  trace debug info warn error fatal off : Level

-- `static_cast<std::uint8_t>(level)`
unfoldable pub level_code : Level → ℕ
level_code trace = 0
level_code debug = 1
level_code info = 2
level_code warn = 3
level_code error = 4
level_code fatal = 5
level_code off = 6

abbrev pub level_names : List Bytes
level_names =
    codes "TRACE"
    ∷ codes "DEBUG"
    ∷ codes "INFO"
    ∷ codes "WARN"
    ∷ codes "ERROR"
    ∷ codes "FATAL"
    ∷ codes "OFF"
    ∷ []

-- the colours of `fmt::color` that the table names
pub data Color : Type 0 where
  light_gray cyan green yellow red crimson white : Color

abbrev pub level_colors : List Color
level_colors = light_gray ∷ cyan ∷ green ∷ yellow ∷ red ∷ crimson ∷ white ∷ []

unfoldable pub to_string : Level → Bytes
unfolding level_code
to_string l = get_or level_names (level_code l) []

unfoldable pub color : Level → Color
unfolding level_code
color l = get_or level_colors (level_code l) white

unfoldable pub lt : Level → Level → Bool
unfolding level_code
lt a b = ltb (level_code a) (level_code b)

unfoldable pub le : Level → Level → Bool
unfolding level_code
le a b = leb (level_code a) (level_code b)

unfoldable pub gt : Level → Level → Bool
unfolding level_code
gt a b = ltb (level_code b) (level_code a)

unfoldable pub ge : Level → Level → Bool
unfolding level_code
ge a b = leb (level_code b) (level_code a)

unfoldable pub eq : Level → Level → Bool
unfolding level_code
eq a b = level_code a == level_code b

unfoldable pub ne : Level → Level → Bool
unfolding level_code
ne a b = not (level_code a == level_code b)
