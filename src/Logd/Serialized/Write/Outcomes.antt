-- ===== src/Logd/Serialized/Write/Outcomes.antt =====
-- Log and SetSize of logd/SerializedLogBuffer.cpp on every branch.
use android_system_logging.Common.{
  ℕ, ◌^◌, ◌≤◌, ◌<◌, ◌≡◌, refl, inl, inr, true, false, ◌||◌, length-take-le, ◌⊎◌, List, [], ◌∷◌,
  ◌++◌, arith, length, take, leb, ◌==◌, ◌>>=◌, Succeeds, Succeeds-result, Bool-cases, update,
  ==_self,
}
use android_system_logging.Liblog.LogId.{log_id_max, logger_entry_max_payload}
use android_system_logging.Logd.LogSize.{is_valid_buffer_size}
use android_system_logging.Logd.Statistics.{add_total}
use android_system_logging.Logd.Serialized.Entry.{SerializedLogEntry, IsEntry}
use android_system_logging.Logd.Serialized.Chunk.{Zstd, ZstdLaws}
use android_system_logging.Logd.Serialized.Buffer.{
  SerializedLogBuffer, stats_call, size_used, maybe_prune, set_size,
}
use android_system_logging.Logd.Serialized.Write.{
  Levels, Message, einval, eacces, logged, make_entry, store, should_log, log,
}
use android_system_logging.Logd.Serialized.Write.Logs.{
  IsLog, Trimmed, maybe_prune-Trimmed, store-Trimmed,
}

-- The ids and the time of a message fit their fields, as those of a datagram do.
pub record IsMessage (m : Message) : Type 0 where
  pub uid_fits : m.uid < 2 ^ 32
  pub pid_fits : m.pid < 2 ^ 32
  pub tid_fits : m.tid < 2 ^ 32
  pub sec_fits : m.realtime.tv_sec < 2 ^ 32
  pub nsec_fits : m.realtime.tv_nsec < 2 ^ 32

abbrev pub payload : Message → List ℕ
payload m = take logger_entry_max_payload m.msg

make_entry-IsEntry :
    (m : Message) (sequence : ℕ)
    → IsMessage m
    → sequence < 2 ^ 64
    → IsEntry (make_entry sequence m (payload m))
unfolding make_entry
make_entry-IsEntry m sequence v h = record {
  uid_fits = v.uid_fits;
  pid_fits = v.pid_fits;
  tid_fits = v.tid_fits;
  sequence_fits = h;
  sec_fits = v.sec_fits;
  nsec_fits = v.nsec_fits;
  msg_fits = length-take-le logger_entry_max_payload m.msg;
}

module _ (z : Zstd) (laws : ZstdLaws z) (l : Levels) (m : Message) (b : SerializedLogBuffer)
    (es : List SerializedLogEntry) (v : IsMessage m) (sequence_fits : b.sequence < 2 ^ 64)
    (h : IsLog z m.log_id b es) where
  -- On a log of valid size, with lawful compression, Log fails no CHECK whatever the message. It
  -- answers -EINVAL for an unknown log or an empty message, with nothing changed; -EACCES for a
  -- message below the level, with nothing but the total of the log reported; and else the length
  -- of the message, cut to the payload limit. Then the message goes behind the entries under the
  -- next sequence number, some of the oldest entries may go, what is left is within the limit of
  -- the log, its readers stay linked with it, and no other log is touched.
  pub log_outcomes : Succeeds (log z l m b) (λ r.
      ((log_id_max ≤ m.log_id) ⊎ (length m.msg ≡ 0)) × (r.0 ≡ einval) × (r.1 ≡ b)
      ⊎ (m.log_id < log_id_max)
        × (0 < length m.msg)
        × (should_log l m.log_id (payload m) ≡ false)
        × (r.0 ≡ eacces)
        × (r.1
            ≡ record b { shared = stats_call (add_total m.log_id (length (payload m))) b.shared })
      ⊎ (m.log_id < log_id_max)
        × (0 < length m.msg)
        × (should_log l m.log_id (payload m) ≡ true)
        × (r.0 ≡ logged (length (payload m)))
        × Trimmed z m.log_id b (es ++ make_entry b.sequence m (payload m) ∷ []) r.1)
  unfolding log
  log_outcomes = elim (Bool-cases (leb log_id_max m.log_id || length m.msg == 0)) [
    | inl bad ↦ rw bad (inl (ground arith, refl, refl))
    | inr good ↦ elim (Bool-cases (should_log l m.log_id (payload m))) [
      | inl loud ↦
          let (b', e, t) = Succeeds-result _ (store z m (payload m) b) (
            store-Trimmed z m (payload m) b es laws
              (make_entry-IsEntry m b.sequence v sequence_fits) h) in
          rw (good, loud, e, ◌>>=◌) (inr (inr (ground arith, ground arith, refl, refl, t)))
      | inr quiet ↦ rw (good, quiet) (inr (inl (ground arith, ground arith, refl, refl, refl)))
    ]
  ]

-- On a log of valid size, with lawful compression, SetSize fails no CHECK. A size within the limits
-- is taken over, and the log shrinks to it, losing only oldest entries; any other is refused and
-- changes nothing.
pub set_size_outcomes :
    (z : Zstd) (i size : ℕ) (b : SerializedLogBuffer) (es : List SerializedLogEntry)
    → ZstdLaws z
    → IsLog z i b es
    → Succeeds (set_size z i size b) (λ r.
      (r.0 ≡ false) × (is_valid_buffer_size size ≡ false) × (r.1 ≡ b)
      ⊎ (r.0 ≡ true)
        × (is_valid_buffer_size size ≡ true)
        × Trimmed z i (record b { max_size = update b.max_size i size }) es r.1
        × (size_used (r.1.logs i) ≤ size))
unfolding set_size is_valid_buffer_size
set_size_outcomes z i size b es laws h = elim (Bool-cases (is_valid_buffer_size size)) [
  | inl valid ↦
      let b1 : SerializedLogBuffer = record b { max_size = update b.max_size i size } in
      let h1 : IsLog z i b1 es = record {
        valid = rw (==_self i) (ground arith);
        contains = h.contains;
        links = h.links;
      } in
      let new_size : b1.max_size i ≡ size = rw (==_self i) in
      let (b', e, t) =
        Succeeds-result _ (maybe_prune z i b1) (maybe_prune-Trimmed z laws i b1 es h1) in
      rw (valid, e, ◌>>=◌) (inr (refl, refl, t, omega (arith, t.within, new_size)))
  | inr invalid ↦ rw invalid (inl (refl, refl, refl))
]
