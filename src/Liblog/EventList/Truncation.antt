-- ===== src/Liblog/EventList/Truncation.antt =====
-- A string that does not fit: android_log_write_string8_len of liblog/log_event_list.cpp.
use android_system_logging.Common.{
  ℕ, [], ◌∷◌, ◌∙◌, ◌+◌, ◌-◌, ◌%◌, ◌^◌, ◌<◌, ◌≡◌, refl, true, false, ◌||◌, Option, List, length,
  arith, ltb, leb, ◌==◌, ◌>>=◌, Succeeds, Succeeds-result, Succeeds-map,
}
use android_system_logging.Common.Bytes.{overwrite, overwrite-Succeeds}
use android_system_logging.Liblog.LogId.{logger_entry_max_payload}
use android_system_logging.Liblog.EventList.{
  Context, ok, count_one, characters, write_string8_len, write_list_buffer, close_outer, at_depth,
  max_event_payload,
}
use android_system_logging.Liblog.EventList.Memory.{
  IsWriter, count_one-Succeeds, shallow, string_stored, write_string8_len-IsWriter,
}

-- In a context that has not overflowed and has room for a character, a string (shorter than 1 GiB)
-- that is cut to the payload moves the position behind the payload, as if it was not cut:
-- the result says how many characters were copied, the position counts them all.
pub write_string8_len-Overrun :
    (c : Context) (value : Option (List ℕ)) (maxlen : ℕ)
    → IsWriter c
    → c.overflow ≡ false
    → c.pos + 5 < max_event_payload
    → max_event_payload < c.pos + 5 + length (characters value maxlen)
    → length (characters value maxlen) < 2 ^ 30
    → Succeeds (write_string8_len value maxlen c) (λ r.
      (r.0 ≡ ok (max_event_payload - 5 - c.pos))
      × (max_event_payload < r.1.pos)
      × (r.1.pos ≡ c.pos + 5 + length (characters value maxlen))
      × (r.1.list_nest_depth ≡ c.list_nest_depth))
unfolding write_string8_len
write_string8_len-Overrun c value maxlen h fine room_left long short =
    let (count, e1, _) =
      Succeeds-result _ (count_one c) (count_one-Succeeds c h (shallow c h fine)) in
    let s = characters value maxlen in
    let room = (max_event_payload + 2 ^ 64 - c.pos - 1 - 4) % 2 ^ 32 in
    let here : room ≡ max_event_payload - 5 - c.pos = omega arith in
    let (header, storage, e3, e4, l) = string_stored c h room s (omega arith) in
    let is_long : ltb max_event_payload (c.pos + (5 + length s)) ≡ true = ground arith in
    let some_left : (room == 0 || leb (2 ^ 31) room) ≡ false = ground arith in
    simp (h.writer, fine, is_long, some_left, e1, ◌>>=◌, e3, e4)
      (ground arith, ground arith, ground arith, refl)

-- At the outermost level the whole message is given, from its offset to the position.
write_list_buffer-pos :
    (c : Context)
    → IsWriter c
    → c.list_nest_depth ≡ 0
    → logger_entry_max_payload < c.pos
    → Succeeds (write_list_buffer true c) (λ q.
      (len : ℕ) × (q.0.0 ≡ ok len)
      × (q.0.1 + len ≡ c.pos)
      × (length q.1.storage ≡ logger_entry_max_payload))
unfolding write_list_buffer close_outer at_depth
write_list_buffer-pos c h top long =
    let (storage, e, l) =
      Succeeds-result _ (overwrite c.storage 1 (c.count 0 % 256 ∷ []))
        (overwrite-Succeeds _ _ _ (omega (arith, h.size))) in
    rw (h.writer, top, e, ◌>>=◌) (_, refl, ground arith, l ∙ h.size)

-- At the outermost level of a context that has not overflowed and has room for a character, after a
-- string (shorter than 1 GiB) that would end behind the storage, android_log_write_list_buffer gives
-- its caller a message that ends behind the storage.
pub write_string8_len-write_list_buffer :
    (c : Context) (value : Option (List ℕ)) (maxlen : ℕ)
    → IsWriter c
    → c.overflow ≡ false
    → c.list_nest_depth ≡ 0
    → c.pos + 5 < max_event_payload
    → logger_entry_max_payload < c.pos + 5 + length (characters value maxlen)
    → length (characters value maxlen) < 2 ^ 30
    → Succeeds (write_string8_len value maxlen c) (λ r.
      Succeeds
        (write_list_buffer true r.1)
        (λ q. (len : ℕ) × (q.0.0 ≡ ok len) × (length q.1.storage < q.0.1 + len)))
write_string8_len-write_list_buffer c value maxlen h fine top room_left long short =
    let (r, e, h') =
      Succeeds-result _ (write_string8_len value maxlen c)
        (write_string8_len-IsWriter c h value maxlen short) in
    let (_, _, pos, depth) =
      rw e at (write_string8_len-Overrun c value maxlen h fine room_left (omega arith) short) in
    rw e (
      Succeeds-map _ _ (write_list_buffer true r.1)
        (λ q p. (p.0, p.1, omega (arith, pos, p.2, p.3)))
        (write_list_buffer-pos r.1 h' (depth ∙ top) (omega (arith, pos))))
