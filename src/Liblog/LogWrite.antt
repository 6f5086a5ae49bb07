-- ===== src/Liblog/LogWrite.antt =====
-- How a binary message goes to the logger daemon and to pmsg: __android_log_bwrite of
-- liblog/logger_write.cpp, and the loops of LogdWrite (liblog/logd_writer.cpp) and PmsgWrite
-- (liblog/pmsg_writer.cpp) that cut the payload.
use android_system_logging.Common.{ℕ, ◌+◌, ◌-◌, ◌%◌, ◌^◌, List, [], ◌∷◌, ltb, ◌==◌, if◌then◌else◌}
use android_system_logging.Liblog.LogId.{logger_entry_max_payload}
pub mod Sent
mod Tests

-- Where the bytes lie: the tag, and a place in the storage of the caller.
pub data Base : Type 0 where
  tag : Base
  storage : ℕ → Base

pub record Iovec : Type 0 where
  pub iov_base : Base
  pub iov_len : ℕ

-- The vector that write_to_log hands to both writers.
unfoldable pub bwrite : ℕ → ℕ → List Iovec
bwrite offset len =
    record { iov_base = Base.tag; iov_len = 4 }
    ∷ record { iov_base = Base.storage offset; iov_len = len }
    ∷ []

-- The vector where the payload is too long: nothing follows, and what is left of it is dropped if
-- it is empty.
unfoldable pub cut : Iovec → ℕ → List Iovec
cut v payload_size =
    let len = (v.iov_len + 2 ^ 64 - (payload_size - logger_entry_max_payload)) % 2 ^ 64 in
    if len == 0 then [] else record v { iov_len = len } ∷ []

-- The vectors behind the header that LogdWrite sends.
unfoldable pub logd_vectors : ℕ → List Iovec → List Iovec
logd_vectors size [] = []
logd_vectors size (v ∷ vs) =
    let payload_size = (size + v.iov_len) % 2 ^ 64 in
    let rest = logd_vectors payload_size vs in
    if ltb logger_entry_max_payload payload_size then cut v payload_size else v ∷ rest

-- Those that PmsgWrite writes, and the size that it adds to the length in its header.
unfoldable pub pmsg_vectors : ℕ → List Iovec → List Iovec × ℕ
pmsg_vectors size [] = ([], size)
pmsg_vectors size (v ∷ vs) =
    let payload_size = (size + v.iov_len) % 2 ^ 64 in
    let rest = pmsg_vectors payload_size vs in
    if ltb logger_entry_max_payload payload_size
    then (cut v payload_size, logger_entry_max_payload)
    else (v ∷ rest.0, rest.1)
