-- ===== src/Decimal.antt =====
-- The decimal conversions of the standard library that the sources call: `std::to_string` and
-- `std::from_chars` on `std::size_t`.
pub mod RoundTrip
use logparse.Base.{
  ℕ, zero, suc, ◌+◌, ◌-◌, ◌*◌, ◌/◌, ◌%◌, Bool, List, [], ◌∷◌, Bytes, ltb, leb, ◌&&◌, if◌then◌else◌,
  size_mod,
}

abbrev pub is_digit : ℕ → Bool
is_digit c = leb b'0' c && leb c b'9'

-- One digit a round; fuel above the number is enough.
unfoldable pub digits : ℕ → ℕ → Bytes → Bytes
digits zero n acc = acc
digits (suc f) n acc =
    let rest = digits f (n / 10) ((b'0' + n % 10) ∷ acc) in
    if ltb n 10 then (b'0' + n) ∷ acc else rest

unfoldable pub to_string : ℕ → Bytes
unfolding digits
to_string n = digits (suc n) n []

-- The number that digits spell behind `n`.
unfoldable pub value : ℕ → Bytes → ℕ
value n [] = n
value n (c ∷ cs) = value (n * 10 + (c - b'0')) cs

abbrev pub prepend : ℕ → Bytes × Bytes → Bytes × Bytes
prepend c p = (c ∷ p.0, p.1)

-- The longest run of digits in front, and what follows it.
unfoldable pub split_digits : Bytes → Bytes × Bytes
split_digits [] = ([], [])
split_digits (c ∷ cs) =
    let rest = split_digits cs in if is_digit c then prepend c rest else ([], c ∷ cs)

-- `parsed` has the value and the text from `ptr` on.
pub data FromChars : Type 0 where
  parsed : ℕ → Bytes → FromChars
  invalid_argument result_out_of_range : FromChars

abbrev from_split : Bytes × Bytes → FromChars
from_split ([], rest) = invalid_argument
from_split (c ∷ cs, rest) =
    let n = value 0 (c ∷ cs) in if ltb n size_mod then parsed n rest else result_out_of_range

unfoldable pub from_chars : Bytes → FromChars
unfolding value split_digits
from_chars s = from_split (split_digits s)
