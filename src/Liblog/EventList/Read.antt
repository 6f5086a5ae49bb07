-- ===== src/Liblog/EventList/Read.antt =====
-- The reader of liblog/log_event_list.cpp: the parser's context, and the next element.
use android_system_logging.Common.{
  ℕ, ◌+◌, ◌-◌, ◌/◌, ◌%◌, ◌^◌, Bool, true, false, ◌||◌, ◌&&◌, not, Option, some, List, length, take,
  ltb, leb, ◌==◌, if◌then◌else◌, ◌>>=◌, update,
}
use android_system_logging.Common.Bytes.{read_bytes, read_le, overwrite, at_offset}
use android_system_logging.Liblog.EventList.{
  Context, EventResult, ok, ebadf, zeroed, at_depth, set_depth, max_event_payload,
  max_list_nest_depth, event_type_int, event_type_long, event_type_string, event_type_list,
  event_type_float, event_type_list_stop, event_type_unknown,
}

-- The union of an element: nothing, a word, or the characters that the pointer has.
pub data EventData : Type 0 where
  no_data : EventData
  word : ℕ → EventData
  text : List ℕ → EventData

pub record Element : Type 0 where
  pub type : ℕ
  pub complete : Bool
  pub len : ℕ
  pub data_of : EventData

unfoldable pub element : ℕ → Bool → ℕ → EventData → Element
element type complete len data_of = record {
  type = type;
  complete = complete;
  len = len;
  data_of = data_of;
}

-- create_android_log_parser, and init_parser_context on memory that is all zero.
unfoldable pub create_android_log_parser : List ℕ → Option Context
create_android_log_parser msg = do
  let c = zeroed 0 false
  let len = if leb (length msg) max_event_payload then length msg else max_event_payload
  storage ← overwrite c.storage 0 (take len msg)
  some (record c { len = len; storage = storage })

unfoldable pub parser_reset : List ℕ → Context → Option (EventResult × Context)
parser_reset msg c =
    let fresh = do d ← create_android_log_parser msg; some (ok 0, d)
    in if c.is_writer then some (ebadf, c) else fresh

unfoldable pub byte_at : List ℕ → ℕ → Option ℕ
byte_at bs pos = do (b, _) ← read_le 1 (at_offset pos bs); some b

-- The end of an element that is not a list: it is counted down, and the last one ends its list.
unfoldable pub consume : Bool → ℕ → Context → Option Context
consume peek pos c = if peek then some c else do
  n ← at_depth c.count c.list_nest_depth
  count ← set_depth c.count c.list_nest_depth (n - 1)
  some (record c { count = count; list_stop = c.list_stop || leb n 1; pos = pos })

-- `!context->list_nest_depth && !context->count[0]`
unfoldable pub is_last : Context → Bool
is_last c = c.list_nest_depth == 0 && c.count 0 == 0

abbrev pub Reading : Type 0
Reading = Element × Context

unfoldable pub read_word : ℕ → ℕ → Bool → Context → Option Reading
read_word type width peek c =
    let found = do
      (v, _) ← read_le width (at_offset (c.pos + 1) c.storage)
      d ← consume peek (c.pos + 1 + width) c
      some (element type (is_last c) width (word v), d)
    in if ltb c.len (c.pos + 1 + width)
      then some (element event_type_unknown false width no_data, c)
      else found

-- The characters of a string, behind its header.
unfoldable pub read_characters : ℕ → Bool → Context → Option Reading
read_characters len peek c = do
  (s, _) ← read_bytes len (at_offset (c.pos + 5) c.storage)
  d ← consume peek (c.pos + 5 + len) c
  some (element event_type_string (is_last c) len (text s), d)

-- The length in the message is an int32_t, compared as such and then cut to 16 bits.
unfoldable pub read_string : Bool → Context → Option Reading
read_string peek c =
    let start = c.pos + 5 in
    let found = do
      (length32, _) ← read_le 4 (at_offset (c.pos + 1) c.storage)
      let said = length32 % 2 ^ 16
      let len = if ltb c.len (start + said) then c.len - start else said
      if leb 65535 length32 && ltb length32 (2 ^ 31)
          then some (element event_type_unknown false 0 no_data, c)
          else if ltb c.len (start + said) && len == 0
          then some (element event_type_unknown true 0 no_data, c)
          else read_characters len peek c
    in if ltb c.len start then some (element event_type_unknown true 0 no_data, c) else found

-- The count in the message is an int8_t, and is widened to an unsigned with its sign.
unfoldable pub element_count : ℕ → ℕ
element_count b = if ltb b 128 then b else b + 2 ^ 32 - 256

unfoldable pub read_list : Bool → Context → Option Reading
read_list peek c =
    let depth = c.list_nest_depth + 1 in
    let e = element event_type_list (leb max_list_nest_depth c.list_nest_depth) 0 no_data in
    let found = do
      b ← byte_at c.storage (c.pos + 1)
      n ← at_depth c.count c.list_nest_depth
      count ← set_depth c.count c.list_nest_depth (n - 1)
      some (
        e,
        record c {
          count =
              if leb depth max_list_nest_depth then update count depth (element_count b) else count;
          list_stop = b == 0;
          list_nest_depth = depth;
          pos = c.pos + 2;
        },
      )
    in if ltb c.len (c.pos + 2)
      then some (element event_type_unknown true 0 no_data, c)
      else if peek
      then some (e, c)
      else found

-- A newline between the elements ends a list.
unfoldable pub read_newline : Bool → Context → Reading
read_newline peek c =
    let moved = if peek then c else record c { pos = c.pos + 1 } in
    let nested = ltb 0 c.list_nest_depth in
    (
      element (if nested then event_type_list_stop else event_type_unknown) (not nested) 0 no_data,
      if nested && not peek
          then record moved { list_nest_depth = c.list_nest_depth - 1 }
          else moved,
    )

-- The switch on the type.
unfoldable pub read_type : ℕ → Bool → Context → Option Reading
read_type type peek c =
    if type == event_type_float || type == event_type_int
    then read_word type 4 peek c
    else if type == event_type_long
    then read_word type 8 peek c
    else if type == event_type_string
    then read_string peek c
    else if type == event_type_list
    then read_list peek c
    else if type == event_type_list_stop
    then some (read_newline peek c)
    else some (element event_type_unknown false 0 no_data, c)

unfoldable pub read_element : Bool → Context → Option Reading
read_element peek c =
    let found = do type ← byte_at c.storage c.pos; read_type type peek c
    in if ltb c.len (c.pos + 1) then some (element event_type_unknown true 0 no_data, c) else found

-- The end of a list: a newline after it is skipped, and the reader goes up a level.
unfoldable pub read_stop : Bool → Context → Option Reading
read_stop peek c =
    let depth = c.list_nest_depth in
    let e =
      element event_type_list_stop (c.count 0 == 0 && (depth == 0 || depth == 1 && c.count 1 == 0))
        0 no_data in
    let up = do
      b ← byte_at c.storage c.pos
      n ← at_depth c.count (depth - 1)
      some (
        e,
        record c {
          pos = if b == event_type_list_stop then c.pos + 1 else c.pos;
          list_nest_depth = depth - 1;
          list_stop = not (depth == 0) && n == 0;
        },
      )
    in if peek then some (e, c) else up

-- A depth of one too many, or a count that no message has, ends the reading.
unfoldable pub read_next_internal : Bool → Context → Option Reading
read_next_internal peek c =
    let depth = c.list_nest_depth in
    let too_deep = ltb max_list_nest_depth depth in
    let stop = c.list_stop || not too_deep && c.count depth == 0 in
    if c.is_writer || too_deep || leb (max_event_payload / 2) (c.count depth)
    then some
        (element (if stop then event_type_list_stop else event_type_unknown) true 0 no_data, c)
    else if c.list_stop
    then read_stop peek c
    else read_element peek c

unfoldable pub read_next : Context → Option Reading
read_next = read_next_internal false

unfoldable pub peek_next : Context → Option Reading
peek_next = read_next_internal true
