-- ===== src/Parser/Text.antt =====
-- `trim` and `lower` of src/parser.cpp.
use logparse.Base.{
  ℕ, suc, ◌+◌, ◌-◌, Bool, [], ◌∷◌, map, Bytes, leb, ◌==◌, ◌&&◌, ◌||◌, if◌then◌else◌, take, drop,
}

-- `std::isspace`
unfoldable pub is_space : ℕ → Bool
is_space c = c == b' ' || (leb 9 c && leb c 13)

-- The index of the first byte that is no space, or the length.
unfoldable pub first_kept : Bytes → ℕ
unfolding is_space
first_kept [] = 0
first_kept (c ∷ cs) = if is_space c then suc (first_kept cs) else 0

-- The index behind the last byte that is no space, or 0: the base of the reverse iterator.
unfoldable pub last_kept : Bytes → ℕ
unfolding is_space
last_kept [] = 0
last_kept (c ∷ cs) = let k = last_kept cs in if is_space c && k == 0 then 0 else suc k

unfoldable pub trim : Bytes → Bytes
unfolding first_kept last_kept
trim value =
    let first = first_kept value in
    let last = last_kept value in
    if leb last first then [] else take (last - first) (drop first value)

-- `std::tolower`
unfoldable pub to_lower : ℕ → ℕ
to_lower c = if leb b'A' c && leb c b'Z' then c + 32 else c

unfoldable pub lower : Bytes → Bytes
unfolding to_lower
lower = map to_lower
