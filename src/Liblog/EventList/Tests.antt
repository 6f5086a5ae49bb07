-- ===== src/Liblog/EventList/Tests.antt =====
-- The theorems on the event lists of liblog/log_event_list.cpp at concrete inputs.
use android_system_logging.Common.{
  ℕ, ◌+◌, ◌-◌, ◌<◌, ◌≡◌, refl, true, false, Option, some, List, [], ◌∷◌, length, replicate,
  length-replicate, arith, ◌>>=◌, Succeeds, if◌then◌else◌, ◌==◌,
}
use android_system_logging.Common.Bytes.{read_bytes, read_le, of_le, c_string}
use android_system_logging.Liblog.LogId.{logger_entry_max_payload}
use android_system_logging.Liblog.EventList.{
  Context, ok, create_android_logger, characters, write_string8_len, write_list_buffer,
  max_event_payload, event_type_unknown,
}
use android_system_logging.Liblog.EventList.Read.{
  no_data, element, byte_at, create_android_log_parser, read_list, read_next, peek_next,
}
use android_system_logging.Liblog.EventList.Memory.{
  WriteOp, int32, string8_len, list_begin, list_end, write_all, IsWriter, create-write_all-IsWriter,
}
use android_system_logging.Liblog.EventList.Elements.{IsParser}
use android_system_logging.Liblog.EventList.Parsing.{
  read_all, create-read_all-Succeeds, peek_next-read_next, read_list-Refused,
}
use android_system_logging.Liblog.EventList.Truncation.{
  write_string8_len-Overrun, write_string8_len-write_list_buffer,
}

-- A number, and a list of one string.
abbrev some_writes : List WriteOp
some_writes = int32 7 ∷ list_begin ∷ string8_len (some (65 ∷ 66 ∷ [])) 10 ∷ list_end ∷ []

create-write_all-IsWriter_example :
    Succeeds (create_android_logger 1 >>= write_all some_writes) IsWriter
unfolding characters c_string
create-write_all-IsWriter_example =
    create-write_all-IsWriter 1 some_writes (tt, (tt, (omega arith, (tt, tt))))

-- A context with 14 bytes left, and a string of 20 characters.
abbrev nearly_full : Context
nearly_full = record {
  tag = 1;
  pos = 4050;
  count = λ i. if i == 0 then 3 else 0;
  list = λ i. if i == 0 then 1 else 0;
  list_nest_depth = 0;
  len = 0;
  overflow = false;
  list_stop = false;
  is_writer = true;
  storage = replicate logger_entry_max_payload 0;
}

nearly_full-IsWriter : IsWriter nearly_full
nearly_full-IsWriter = record {
  writer = refl;
  size = length-replicate {A = ℕ} logger_entry_max_payload 0;
  near = omega arith;
  depth = omega arith;
  deepest = λ e. absurd (omega arith);
  lists = λ i. ground arith;
}

abbrev letters : Option (List ℕ)
letters = some (replicate 20 65)

write_string8_len-Overrun_example : Succeeds (write_string8_len letters 100 nearly_full) (λ r.
    (r.0 ≡ ok (max_event_payload - 5 - 4050))
    × (max_event_payload < r.1.pos)
    × (r.1.pos ≡ 4050 + 5 + length (characters letters 100))
    × (r.1.list_nest_depth ≡ 0))
unfolding characters c_string
write_string8_len-Overrun_example =
    write_string8_len-Overrun nearly_full letters 100 nearly_full-IsWriter refl (omega arith)
      (omega arith) (omega arith)

write_string8_len-write_list_buffer_example :
    Succeeds (write_string8_len letters 100 nearly_full) (λ r.
      Succeeds
        (write_list_buffer true r.1)
        (λ q. (len : ℕ) × (q.0.0 ≡ ok len) × (length q.1.storage < q.0.1 + len)))
unfolding characters c_string
write_string8_len-write_list_buffer_example =
    write_string8_len-write_list_buffer nearly_full letters 100 nearly_full-IsWriter refl refl
      (omega arith) (omega arith) (omega arith)

-- A list that says it has 200 elements, and the first of them.
abbrev long_list : Context
long_list = record {
  tag = 0;
  pos = 0;
  count = λ _. 0;
  list = λ _. 0;
  list_nest_depth = 0;
  len = 7;
  overflow = false;
  list_stop = false;
  is_writer = false;
  storage = 3 ∷ 200 ∷ 0 ∷ 9 ∷ 0 ∷ 0 ∷ 0 ∷ replicate 4061 0;
}

long_list-IsParser : IsParser long_list
unfolding byte_at read_le read_bytes of_le
long_list-IsParser = record {
  reader = refl;
  size = omega (arith, length-replicate {A = ℕ} 4061 0);
  len = omega arith;
  pos = omega arith;
  depth = omega arith;
  zero_behind = refl;
}

-- A message that is cut in the middle of its string.
create-read_all-Succeeds_example :
    Succeeds
      (create_android_log_parser (3 ∷ 2 ∷ 2 ∷ 9 ∷ 0 ∷ 0 ∷ 0 ∷ 65 ∷ [])
        >>= read_all (true ∷ false ∷ false ∷ []))
      (λ es. length es ≡ 3)
create-read_all-Succeeds_example =
    create-read_all-Succeeds (3 ∷ 2 ∷ 2 ∷ 9 ∷ 0 ∷ 0 ∷ 0 ∷ 65 ∷ []) (true ∷ false ∷ false ∷ [])

peek_next-read_next_example :
    Succeeds (read_next long_list) (λ r. peek_next long_list ≡ some (r.0, long_list))
peek_next-read_next_example = peek_next-read_next long_list long_list-IsParser

read_list-Refused_example :
    Succeeds
      (read_list false long_list >>= λ r. read_next r.1)
      (λ r. r.0 ≡ element event_type_unknown true 0 no_data)
unfolding byte_at read_le read_bytes of_le
read_list-Refused_example =
    read_list-Refused long_list 200 long_list-IsParser (omega arith) (omega arith) refl
      (omega arith) (omega arith)
