-- ===== src/Liblog/EventList.antt =====
-- liblog/log_event_list.cpp: lists of typed values in the payload of an event. This file has the
-- context, and the writer; the reader is in EventList.Read. A context is never null here.
pub mod Read
pub mod Memory
pub mod Elements
pub mod Parsing
pub mod Truncation
pub mod Tests
use android_system_logging.Common.{
  ℕ, zero, suc, ◌+◌, ◌-◌, ◌*◌, ◌%◌, ◌^◌, Bool, true, false, ◌||◌, ◌&&◌, not, Option, none, some,
  List, [], ◌∷◌, length, take, replicate, ltb, leb, ◌==◌, if◌then◌else◌, ◌>>=◌, ◌>>◌, check, update,
}
use android_system_logging.Common.Bytes.{to_le, read_bytes, overwrite, c_string, at_offset}
use android_system_logging.Liblog.LogId.{
  logger_entry_max_payload, log_id_events, log_id_security, log_id_stats,
}

abbrev pub max_event_payload : ℕ
max_event_payload = 4064

abbrev pub max_list_nest_depth : ℕ
max_list_nest_depth = 8

abbrev pub event_type_int : ℕ
event_type_int = 0

abbrev pub event_type_long : ℕ
event_type_long = 1

abbrev pub event_type_string : ℕ
event_type_string = 2

abbrev pub event_type_list : ℕ
event_type_list = 3

abbrev pub event_type_float : ℕ
event_type_float = 4

abbrev pub event_type_list_stop : ℕ
event_type_list_stop = 10

abbrev pub event_type_unknown : ℕ
event_type_unknown = 63

-- `read_write_flag` says whether the context writes. `count` and `list` have one element for each
-- depth, `storage` has `logger_entry_max_payload` bytes.
pub record Context : Type 0 where
  pub tag : ℕ
  pub pos : ℕ
  pub count : ℕ → ℕ
  pub list : ℕ → ℕ
  pub list_nest_depth : ℕ
  pub len : ℕ
  pub overflow : Bool
  pub list_stop : Bool
  pub is_writer : Bool
  pub storage : List ℕ

pub data EventResult : Type 0 where
  ok : ℕ → EventResult
  ebadf eio eoverflow efault einval : EventResult

-- Memory that is all zero.
unfoldable pub zeroed : ℕ → Bool → Context
zeroed tag is_writer = record {
  tag = tag;
  pos = 0;
  count = λ _. 0;
  list = λ _. 0;
  list_nest_depth = 0;
  len = 0;
  overflow = false;
  list_stop = false;
  is_writer = is_writer;
  storage = replicate logger_entry_max_payload 0;
}

-- An element of `count` or `list`; `none` is an index behind the array.
unfoldable pub at_depth : (ℕ → ℕ) → ℕ → Option ℕ
at_depth array i = do check (leb i max_list_nest_depth); some (array i)

unfoldable pub set_depth : (ℕ → ℕ) → ℕ → ℕ → Option (ℕ → ℕ)
set_depth array i x = do check (leb i max_list_nest_depth); some (update array i x)

-- `context->count[context->list_nest_depth]++`
unfoldable pub count_one : Context → Option (ℕ → ℕ)
count_one c = do
  n ← at_depth c.count c.list_nest_depth
  set_depth c.count c.list_nest_depth ((n + 1) % 2 ^ 32)

-- create_android_logger, and init_context on memory that is all zero.
unfoldable pub create_android_logger : ℕ → Option Context
create_android_logger tag = do
  let c = zeroed tag true
  storage ← overwrite c.storage c.pos (event_type_list ∷ [])
  list ← set_depth c.list 0 (c.pos + 1)
  some (record c { storage = storage; list = list; pos = c.pos + 2 })

unfoldable pub reset : Context → Option (EventResult × Context)
reset c =
    let fresh = do d ← create_android_logger c.tag; some (ok 0, d)
    in if not c.is_writer then some (ebadf, c) else fresh

unfoldable pub write_list_begin : Context → Option (EventResult × Context)
write_list_begin c =
    let full = record c { overflow = true } in
    let depth = c.list_nest_depth + 1 in
    let begun = do
      count ← count_one c
      let counted = record c { count = count; list_nest_depth = depth }
      let written = do
        storage ← overwrite c.storage c.pos (event_type_list ∷ 0 ∷ [])
        list ← set_depth c.list depth (c.pos + 1)
        count' ← set_depth count depth 0
        some (
          ok 0,
          record counted { storage = storage; list = list; count = count'; pos = c.pos + 2 },
        )
      if ltb max_list_nest_depth depth
          then some (eoverflow, record counted { overflow = true })
          else if c.overflow
          then some (eio, counted)
          else written
    in if not c.is_writer
      then some (ebadf, c)
      else if ltb max_list_nest_depth c.list_nest_depth
      then some (eoverflow, full)
      else if ltb max_event_payload (c.pos + 2)
      then some (eio, full)
      else begun

-- What the writers of an int32, an int64 and a float share: the type, and the value in `width` bytes.
unfoldable pub write_value : ℕ → ℕ → ℕ → Context → Option (EventResult × Context)
write_value type width value c =
    let needed = 1 + width in
    let written = do
      count ← count_one c
      storage ← overwrite c.storage c.pos (type ∷ to_le width value)
      some (ok 0, record c { count = count; storage = storage; pos = c.pos + needed })
    in if not c.is_writer
      then some (ebadf, c)
      else if c.overflow
      then some (eio, c)
      else if ltb max_event_payload (c.pos + needed)
      then some (eio, record c { overflow = true })
      else written

unfoldable pub write_int32 : ℕ → Context → Option (EventResult × Context)
write_int32 = write_value event_type_int 4

unfoldable pub write_int64 : ℕ → Context → Option (EventResult × Context)
write_int64 = write_value event_type_long 8

-- A float is the four bytes of its representation.
unfoldable pub write_float32 : ℕ → Context → Option (EventResult × Context)
write_float32 = write_value event_type_float 4

-- The characters of a string argument, where a null pointer is the empty string.
unfoldable pub characters : Option (List ℕ) → ℕ → List ℕ
characters none maxlen = []
characters (some value) maxlen = c_string (take maxlen value)

-- The truncated length is computed in 64 bits and cut to an int32_t, of which 2^31 and above are
-- negative. A string has less than 2^31 characters. The position moves by `needed`, which counts
-- all of them.
unfoldable pub write_string8_len : Option (List ℕ) → ℕ → Context → Option (EventResult × Context)
write_string8_len value maxlen c =
    let s = characters value maxlen in
    let needed = 5 + length s in
    let room = (max_event_payload + 2 ^ 64 - c.pos - 1 - 4) % 2 ^ 32 in
    let is_long = ltb max_event_payload (c.pos + needed) in
    let len = if is_long then room else length s in
    let written = do
      count ← count_one c
      header ← overwrite c.storage c.pos (event_type_string ∷ to_le 4 len)
      storage ← overwrite header (c.pos + 5) (take len s)
      some (ok len, record c { count = count; storage = storage; pos = (c.pos + needed) % 2 ^ 32 })
    in if not c.is_writer
      then some (ebadf, c)
      else if c.overflow
      then some (eio, c)
      else if is_long && (room == 0 || leb (2 ^ 31) room)
      then some (eio, record c { overflow = true })
      else written

unfoldable pub write_string8 : Option (List ℕ) → Context → Option (EventResult × Context)
write_string8 value c = write_string8_len value max_event_payload c

unfoldable pub write_list_end : Context → Option (EventResult × Context)
write_list_end c =
    let depth = c.list_nest_depth in
    let shallower = record c { list_nest_depth = depth - 1; overflow = true } in
    let ended = do
      at ← at_depth c.list depth
      n ← at_depth c.count depth
      let patched = do
        storage ← overwrite c.storage at (n % 256 ∷ [])
        some (ok 0, record c { storage = storage; list_nest_depth = depth - 1 })
      if at == 0 then some (eoverflow, shallower) else patched
    in if not c.is_writer
      then some (ebadf, c)
      else if ltb max_list_nest_depth depth
      then some (eoverflow, shallower)
      else if depth == 0
      then some (eoverflow, record c { overflow = true })
      else ended

-- The number of elements goes behind the type of the outer list; a single element is delivered
-- without that list. The result is the offset of the message in the storage, and its length.
unfoldable pub close_outer : Context → Option ((ℕ × ℕ) × Context)
close_outer c = do
  n ← at_depth c.count 0
  storage ← overwrite c.storage 1 (n % 256 ∷ [])
  let single = leb n 1
  some (
    ((if single then 2 else 0), (if single then c.pos - 2 else c.pos)),
    record c { storage = storage; len = c.pos },
  )

unfoldable pub write_list_buffer : Bool → Context → Option ((EventResult × ℕ) × Context)
write_list_buffer has_buffer c =
    let closed = do ((offset, len), d) ← close_outer c; some ((ok len, offset), d)
    in if not c.is_writer
      then some ((ebadf, 0), c)
      else if not (c.list_nest_depth == 0)
      then some ((eio, 0), c)
      else if not has_buffer
      then some ((efault, 0), c)
      else closed

-- What android_log_write_list hands to the writer of the log: the log, the tag, the offset of the
-- message in the storage, and its length.
pub data Delivery : Type 0 where
  refused : EventResult → Delivery
  delivered : ℕ → ℕ → ℕ → ℕ → Delivery

unfoldable pub write_list : ℕ → Context → Option (Delivery × Context)
write_list id c =
    let closed = do ((offset, len), d) ← close_outer c; some (delivered id d.tag offset len, d)
    in if not (id == log_id_events || id == log_id_security || id == log_id_stats)
      then some (refused einval, c)
      else if not c.is_writer
      then some (refused ebadf, c)
      else if not (c.list_nest_depth == 0)
      then some (refused eio, c)
      else closed
