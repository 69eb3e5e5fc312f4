-- ===== src/Platform.antt =====
-- What the sources take from outside the repository: the C library's clock and time zone, and the
-- formatting of the fmt library. `Tm` is `std::tm`, which only these functions look into.
use logparse.Base.{ℕ, Option, Bytes, ◌≡◌}

-- The time formats that are handed to fmt: `%Y-%m-%d %H:%M:%S` as a whole, and its single fields.
pub data TimeFormat : Type 0 where
  full_time year month day hour minute second : TimeFormat

pub record Platform (Tm : Type 0) : Type 0 where
  -- `std::chrono::system_clock::to_time_t`
  pub to_time_t : ℕ → ℕ
  -- `localtime_r`, which may fail
  pub localtime : ℕ → Option Tm
  -- `std::tm tm{}`
  pub zero_tm : Tm
  -- `std::hash<std::thread::id>`
  pub hash_thread : ℕ → ℕ
  -- `fmt::format_to(…, "{}", view)` and `fmt::print("{}", view)` of a text
  pub format_text : Bytes → Bytes
  -- `fmt::format_to(…, "{}", n)` of an unsigned number
  pub format_number : ℕ → Bytes
  -- `fmt::format_to(…, "{:…}", tm)`
  pub format_time : TimeFormat → Tm → Bytes
  -- `fmt::print(fg(fmt::color::white), "{}", view)`
  pub format_white : Bytes → Bytes

-- fmt documents that `{}` writes a text as it is.
pub record IsFaithful {Tm : Type 0} (os : Platform Tm) : Type 0 where
  pub text_as_is : (s : Bytes) → os.format_text s ≡ s
