-- ===== src/Liblog/LogWrite/Tests.antt =====
-- The theorem on what is sent of an event list, for a string that is cut.
use android_system_logging.Common.{◌≡◌, refl, some, List, [], ◌∷◌, replicate}
use android_system_logging.Liblog.EventList.Memory.{WriteOp, int32, string8_len}
use android_system_logging.Liblog.LogWrite.{Base, bwrite, cut, logd_vectors}

-- A string that does not fit, behind a number.
abbrev long_writes : List WriteOp
long_writes = int32 7 ∷ string8_len (some (replicate 4100 65)) 4100 ∷ []

-- Of 4500 bytes 4064 are sent behind the tag.
cut_vectors :
    logd_vectors 0 (bwrite 2 4500)
    ≡ record { iov_base = Base.tag; iov_len = 4 }
      ∷ record { iov_base = Base.storage 2; iov_len = 4064 }
      ∷ []
unfolding logd_vectors bwrite cut
cut_vectors = refl
