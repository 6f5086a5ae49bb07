-- ===== src/Logd/Serialized/Entry.antt =====
-- logd/SerializedLogEntry.h: a packed header of 30 bytes with the message behind it.
use android_system_logging.Common.{
  ℕ, ◌+◌, ◌%◌, ◌^◌, ◌≤◌, ◌<◌, ◌≡◌, Bool, ◌||◌, Option, some, List, ◌++◌, arith, length,
  length-append, take, ltb, ◌==◌, if◌then◌else◌, ◌>>=◌, append_assoc,
}
use android_system_logging.Common.Bytes.{
  to_le, of_le, length-to_le, read_bytes, read_le, read_bytes-append, read_le-to_le,
}
use android_system_logging.Liblog.LogId.{
  log_id_events, log_id_stats, log_id_security, logger_entry_max_payload,
}
use android_system_logging.Liblog.LogTime.{LogTime}
use android_system_logging.Logd.Statistics.{LogStatisticsElement}

-- The fields of the header, and the `msg_len_` bytes that follow it; `msg_len_` is their number.
pub record SerializedLogEntry : Type 0 where
  pub uid : ℕ
  pub pid : ℕ
  pub tid : ℕ
  pub sequence : ℕ
  pub realtime : LogTime
  pub msg : List ℕ

-- sizeof(SerializedLogEntry), a packed struct.
abbrev pub sizeof_entry : ℕ
sizeof_entry = 30

-- The sum is cut to 16 bits by the return type.
unfoldable pub total_len : SerializedLogEntry → ℕ
total_len e = (sizeof_entry + length e.msg) % 2 ^ 16

-- The bytes of the entry in memory.
unfoldable pub to_bytes : SerializedLogEntry → List ℕ
to_bytes e =
    to_le 4 e.uid
    ++ (to_le 4 e.pid
        ++ (to_le 4 e.tid
            ++ (to_le 8 e.sequence
                ++ (to_le 4 e.realtime.tv_sec
                    ++ (to_le 4 e.realtime.tv_nsec ++ (to_le 2 (length e.msg) ++ e.msg))))))

-- The entry that starts at the front of the memory, and what follows it.
unfoldable pub from_bytes : List ℕ → Option (SerializedLogEntry × List ℕ)
from_bytes bs = do
  (uid, b1) ← read_le 4 bs
  (pid, b2) ← read_le 4 b1
  (tid, b3) ← read_le 4 b2
  (sequence, b4) ← read_le 8 b3
  (sec, b5) ← read_le 4 b4
  (nsec, b6) ← read_le 4 b5
  (msg_len, b7) ← read_le 2 b6
  (msg, rest) ← read_bytes msg_len b7
  some (
    record {
      uid = uid;
      pid = pid;
      tid = tid;
      sequence = sequence;
      realtime = record { tv_sec = sec; tv_nsec = nsec };
      msg = msg;
    },
    rest,
  )

-- An entry that the buffer stores: each field fits its width, and the message the payload limit.
pub record IsEntry (e : SerializedLogEntry) : Type 0 where
  pub uid_fits : e.uid < 2 ^ 32
  pub pid_fits : e.pid < 2 ^ 32
  pub tid_fits : e.tid < 2 ^ 32
  pub sequence_fits : e.sequence < 2 ^ 64
  pub sec_fits : e.realtime.tv_sec < 2 ^ 32
  pub nsec_fits : e.realtime.tv_nsec < 2 ^ 32
  pub msg_fits : length e.msg ≤ logger_entry_max_payload

pub length-to_bytes : (e : SerializedLogEntry) → length (to_bytes e) ≡ 30 + length e.msg
unfolding to_bytes
length-to_bytes e = simp (length-append, length-to_le) (omega arith)

pub total_len-length : (e : SerializedLogEntry) → IsEntry e → total_len e ≡ length (to_bytes e)
unfolding total_len
total_len-length e v = omega (arith, length-to_bytes e)

-- What `Log` wrote is what `log_entry` reads, whatever follows it in memory.
pub from_bytes-to_bytes :
    (e : SerializedLogEntry) (rest : List ℕ)
    → IsEntry e
    → from_bytes (to_bytes e ++ rest) ≡ some (e, rest)
unfolding from_bytes to_bytes
from_bytes-to_bytes e rest v = simp append_assoc (
    rw (read_le-to_le 4 e.uid _ (omega arith)) (
      rw (read_le-to_le 4 e.pid _ (omega arith)) (
        rw (read_le-to_le 4 e.tid _ (omega arith)) (
          rw (read_le-to_le 8 e.sequence _ (omega arith)) (
            rw (read_le-to_le 4 e.realtime.tv_sec _ (omega arith)) (
              rw (read_le-to_le 4 e.realtime.tv_nsec _ (omega arith)) (
                rw (read_le-to_le 2 (length e.msg) _ (omega arith))
                  (rw (read_bytes-append e.msg rest)))))))))

-- IsBinary and MsgToTag of logd/LogUtils.h. An event header is the 4 bytes of the tag.
unfoldable pub is_binary : ℕ → Bool
is_binary log_id = log_id == log_id_events || log_id == log_id_stats || log_id == log_id_security

unfoldable pub msg_to_tag : List ℕ → ℕ
msg_to_tag msg = if ltb (length msg) 4 then 0 else of_le (take 4 msg)

unfoldable pub to_log_statistics_element : SerializedLogEntry → ℕ → LogStatisticsElement
to_log_statistics_element e log_id = record {
  uid = e.uid;
  pid = e.pid;
  tid = e.tid;
  tag = if is_binary log_id then msg_to_tag e.msg else 0;
  realtime = e.realtime;
  msg = some e.msg;
  msg_len = length e.msg;
  dropped_count = 0;
  log_id = log_id;
  total_len = total_len e;
}
