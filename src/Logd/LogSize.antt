-- ===== src/Logd/LogSize.antt =====
-- logd/LogSize.{h,cpp}: the sizes that a log buffer may have.
use android_system_logging.Common.{ℕ, ◌*◌, Bool, ◌&&◌, leb}

abbrev pub log_buffer_min_size : ℕ
log_buffer_min_size = 64 * 1024

abbrev log_buffer_max_size : ℕ
log_buffer_max_size = 256 * 1024 * 1024

abbrev default_log_buffer_size : ℕ
default_log_buffer_size = 256 * 1024

unfoldable pub is_valid_buffer_size : ℕ → Bool
is_valid_buffer_size value = leb log_buffer_min_size value && leb value log_buffer_max_size
