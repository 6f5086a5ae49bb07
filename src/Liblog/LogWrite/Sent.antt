-- ===== src/Liblog/LogWrite/Sent.antt =====
-- What the writers of the log send of an event list.
use android_system_logging.Common.{
  ℕ, ◌+◌, ◌-◌, ◌≤◌, ◌≡◌, true, false, List, [], ◌∷◌, All, length, ltb, leb, ◌==◌, ◌&&◌, Bool,
  if◌then◌else◌, ◌||◌,
}
use android_system_logging.Liblog.LogId.{
  logger_entry_max_payload, log_id_events, log_id_security, log_id_stats,
}
use android_system_logging.Liblog.EventList.{Context, Delivery, refused, delivered}
use android_system_logging.Liblog.LogWrite.{Base, Iovec, bwrite, logd_vectors, pmsg_vectors}

-- The bytes lie in the tag or in the storage.
abbrev InMemory : ℕ → Base → ℕ → Type 0
InMemory size Base.tag len = len ≤ 4
InMemory size (Base.storage offset) len = offset + len ≤ size

abbrev total : List Iovec → ℕ
total [] = 0
total (v ∷ vs) = v.iov_len + total vs

-- The vectors lie in memory, and have as many bytes as there are and as the payload may have.
abbrev IsSent : ℕ → ℕ → List Iovec → Type 0
IsSent size len vs =
    All (λ v. InMemory size v.iov_base v.iov_len) vs
    × (total vs
        ≡ (if ltb logger_entry_max_payload (4 + len) then logger_entry_max_payload else 4 + len))

abbrev Both : ℕ → ℕ → ℕ → Type 0
Both size offset len =
    IsSent size len (logd_vectors 0 (bwrite offset len))
    × IsSent size len (pmsg_vectors 0 (bwrite offset len)).0
    × ((pmsg_vectors 0 (bwrite offset len)).1 ≡ total (logd_vectors 0 (bwrite offset len)))

-- A list of the log may be written.
unfoldable pub may_write : ℕ → Context → Bool
may_write id c =
    (id == log_id_events || (id == log_id_security || id == log_id_stats)) && c.list_nest_depth == 0

-- Nothing is sent and nothing changed; or both writers send the message, which goes from its offset
-- in the storage to the position.
abbrev pub IsWritten : ℕ → Context → Delivery × Context → Type 0
IsWritten id c (refused e, d) = (may_write id c ≡ false) × (d ≡ c)
IsWritten id c (delivered log_id tag offset len, d) =
    (may_write id c ≡ true)
    × (log_id ≡ id)
    × (tag ≡ c.tag)
    × (offset ≡ (if leb (c.count 0) 1 then 2 else 0))
    × (len ≡ c.pos - offset)
    × Both (length d.storage) offset len
