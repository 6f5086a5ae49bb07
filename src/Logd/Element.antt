-- ===== src/Logd/Element.antt =====
-- LogBufferElement of logd/LogBufferElement.{h,cpp}: an entry of the lists of the simple and the
-- chatty log buffer. The two unions and `dropped_` are one data type: a message, or the tag and the
-- count of a dropped one.
use android_system_logging.Common.{
  ℕ, ◌+◌, ◌%◌, ◌^◌, Option, none, some, List, length, if◌then◌else◌,
}
use android_system_logging.Liblog.LogTime.{LogTime}
use android_system_logging.Logd.Serialized.Entry.{is_binary, msg_to_tag}
use android_system_logging.Logd.Statistics.{LogStatisticsElement}

pub data Body : Type 0 where
  kept : List ℕ → Body
  dropped : ℕ → ℕ → Body

pub record LogBufferElement : Type 0 where
  pub uid : ℕ
  pub pid : ℕ
  pub tid : ℕ
  pub sequence : ℕ
  pub realtime : LogTime
  pub log_id : ℕ
  pub body : Body

abbrev body_len : Body → ℕ
body_len (kept msg) = length msg
body_len (dropped tag count) = 0

abbrev body_msg : Body → Option (List ℕ)
body_msg (kept msg) = some msg
body_msg (dropped tag count) = none

abbrev pub body_count : Body → ℕ
body_count (kept msg) = 0
body_count (dropped tag count) = count

abbrev body_tag : Body → ℕ
body_tag (kept msg) = msg_to_tag msg
body_tag (dropped tag count) = tag

abbrev pub msg_len : LogBufferElement → ℕ
msg_len e = body_len e.body

abbrev pub dropped_count : LogBufferElement → ℕ
dropped_count e = body_count e.body

unfoldable pub get_tag : LogBufferElement → ℕ
get_tag e = if is_binary e.log_id then body_tag e.body else 0

-- sizeof(LogBufferElement) and two pointers, in multiples of 8 bytes.
abbrev element_in_list_size : ℕ
element_in_list_size = 56

unfoldable pub to_log_statistics_element : LogBufferElement → LogStatisticsElement
to_log_statistics_element e = record {
  uid = e.uid;
  pid = e.pid;
  tid = e.tid;
  tag = get_tag e;
  realtime = e.realtime;
  msg = body_msg e.body;
  msg_len = msg_len e;
  dropped_count = dropped_count e;
  log_id = e.log_id;
  total_len = (element_in_list_size + msg_len e) % 2 ^ 16;
}

-- SetDropped: the tag of the message is kept.
unfoldable pub set_dropped : ℕ → LogBufferElement → LogBufferElement
set_dropped value e = record e {
  body = elim e.body [
    | kept msg ↦ dropped (get_tag e) value
    | dropped tag count ↦ dropped tag value
  ];
}
