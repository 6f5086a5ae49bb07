-- ===== src/Liblog/LogId.antt =====
-- The log buffers of liblog/include/android/log.h, and the payload limit of
-- liblog/include/log/log.h. A log id is a number; `log_id_max` is how many there are.
use android_system_logging.Common.{ℕ}

abbrev pub log_id_main : ℕ
log_id_main = 0

abbrev pub log_id_radio : ℕ
log_id_radio = 1

abbrev pub log_id_events : ℕ
log_id_events = 2

abbrev pub log_id_system : ℕ
log_id_system = 3

abbrev log_id_crash : ℕ
log_id_crash = 4

abbrev pub log_id_stats : ℕ
log_id_stats = 5

abbrev pub log_id_security : ℕ
log_id_security = 6

abbrev pub log_id_kernel : ℕ
log_id_kernel = 7

abbrev pub log_id_max : ℕ
log_id_max = 8

abbrev pub logger_entry_max_payload : ℕ
logger_entry_max_payload = 4068
