-- ===== src/Config.antt =====
-- include/logger/config.hpp: the settings of a logger and their defaults.
use logparse.Base.{ℕ, Bool, true, false, Bytes, codes, ◌*◌}
use logparse.Level.{Level, info}

pub data LoggerMode : Type 0 where
  sync async : LoggerMode

pub data OverflowPolicy : Type 0 where
  block drop_newest drop_oldest discard : OverflowPolicy

pub record RotationConfig : Type 0 where
  pub enabled : Bool
  pub max_file_size : ℕ
  pub max_file : ℕ

abbrev pub default_rotation : RotationConfig
default_rotation = record { enabled = false; max_file_size = 10 * 1024 * 1024; max_file = 5 }

-- `file_path`, a `std::filesystem::path`, is its text.
pub record Config : Type 0 where
  pub mode : LoggerMode
  pub level : Level
  pub colored_output : Bool
  pub flush_on_error : Bool
  pub pattern : Bytes
  pub enable_console : Bool
  pub enable_file : Bool
  pub file_path : Bytes
  pub rotation : RotationConfig
  pub queue_capacity : ℕ
  pub overflow_policy : OverflowPolicy
  pub flush_interval_ms : ℕ

-- `UINT16_MAX + 1`
abbrev pub default_capacity : ℕ
default_capacity = 65536

abbrev pub default_config : Config
default_config = record {
  mode = LoggerMode.async;
  level = info;
  colored_output = true;
  flush_on_error = true;
  pattern = codes "[%Y-%m-%d %H:%M:%S] [%l] [T%t] %m";
  enable_console = true;
  enable_file = false;
  file_path = codes "logs/application.log";
  rotation = default_rotation;
  queue_capacity = default_capacity;
  overflow_policy = block;
  flush_interval_ms = 1000;
}

unfoldable pub is_async : Config → Bool
is_async c = elim c.mode [ LoggerMode.async ↦ true | LoggerMode.sync ↦ false ]

unfoldable pub is_sync : Config → Bool
is_sync c = elim c.mode [ LoggerMode.async ↦ false | LoggerMode.sync ↦ true ]
