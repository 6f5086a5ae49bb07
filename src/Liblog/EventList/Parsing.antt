-- ===== src/Liblog/EventList/Parsing.antt =====
-- The reader of liblog/log_event_list.cpp on any message.
use android_system_logging.Common.{
  ℕ, suc, ◌+◌, ◌-◌, ◌/◌, ◌^◌, ◌≤◌, ◌<◌, ◌≡◌, refl, ap, subst, ==_self, Bool, true, false, Option,
  some, List, [], ◌∷◌, ◌++◌, length, take, drop, replicate, length-take, length-drop,
  length-replicate, length-append, drop-append, drop-replicate, arith, ltb, leb, ◌==◌,
  if◌then◌else◌, ◌>>=◌, Succeeds, Succeeds-result, Succeeds-map,
}
use android_system_logging.Common.Bytes.{read_bytes, read_le, of_le, overwrite, overwrite-append}
use android_system_logging.Liblog.LogId.{logger_entry_max_payload}
use android_system_logging.Liblog.EventList.{
  Context, zeroed, at_depth, set_depth, max_event_payload, max_list_nest_depth, event_type_unknown,
}
use android_system_logging.Liblog.EventList.Read.{
  Element, no_data, create_android_log_parser, byte_at, element, read_list, read_next_internal,
  read_next, peek_next, element_count,
}
use android_system_logging.Liblog.EventList.Elements.{IsParser, read_next_internal-Reads}

byte_at-append :
    (xs : List ℕ) (b : ℕ) (rest : List ℕ) → byte_at (xs ++ b ∷ rest) (length xs) ≡ some b
unfolding byte_at read_le read_bytes of_le
byte_at-append xs b rest = rw (drop-append xs (b ∷ rest)) (ap some (omega arith))

create_android_log_parser-IsParser :
    (msg : List ℕ) → Succeeds (create_android_log_parser msg) IsParser
unfolding create_android_log_parser zeroed
create_android_log_parser-IsParser msg =
    let zeros : List ℕ = replicate logger_entry_max_payload 0 in
    let len = if leb (length msg) max_event_payload then length msg else max_event_payload in
    let m = take len msg in
    let size : length m ≡ len = length-take len msg (ground arith) in
    let limit : len ≤ max_event_payload = ground arith in
    let e : overwrite zeros 0 m ≡ some (m ++ drop (length m) zeros) =
      overwrite-append [] zeros m
        (omega (arith, length-replicate {A = ℕ} logger_entry_max_payload 0)) in
    let k : length m + suc (4067 - length m) ≡ logger_entry_max_payload = omega arith in
    let behind : drop (length m) zeros ≡ 0 ∷ replicate (4067 - length m) 0 =
      rw k at (drop-replicate {A = ℕ} (length m) (suc (4067 - length m)) 0) in
    rw (e, ◌>>=◌)
      (record {
        reader = refl;
        size =
            simp (length-append, length-drop)
              (omega (arith, length-replicate {A = ℕ} logger_entry_max_payload 0));
        len = limit;
        pos = omega arith;
        depth = omega arith;
        zero_behind =
            subst (λ (n : ℕ). byte_at (m ++ drop (length m) zeros) n ≡ some 0) size
              (rw behind (byte_at-append m 0 (replicate (4067 - length m) 0)));
      })

-- A client's calls: read_next where the flag is false, peek_next where it is true.
unfoldable pub read_all : List Bool → Context → Option (List Element)
read_all [] c = some []
read_all (peek ∷ peeks) c = do
  (e, d) ← read_next_internal peek c
  es ← read_all peeks d
  some (e ∷ es)

read_all-Succeeds :
    (peeks : List Bool) (c : Context)
    → IsParser c
    → Succeeds (read_all peeks c) (λ es. length es ≡ length peeks)
unfolding read_all
read_all-Succeeds [] c h = refl
read_all-Succeeds (false ∷ peeks) c h =
    let ((el, d), e, (h', _)) =
      Succeeds-result _ (read_next_internal false c) (read_next_internal-Reads c h) in
    let (es, e', l) = Succeeds-result _ (read_all peeks d) (read_all-Succeeds peeks d h') in
    rw (e, ◌>>=◌, e') (ap suc l)
read_all-Succeeds (true ∷ peeks) c h =
    let ((el, d), _, (_, e)) =
      Succeeds-result _ (read_next_internal false c) (read_next_internal-Reads c h) in
    let (es, e', l) = Succeeds-result _ (read_all peeks c) (read_all-Succeeds peeks c h) in
    rw (e, ◌>>=◌, e') (ap suc l)

-- On any message, however malformed, every call of read_next and peek_next stays within the storage
-- and the arrays of the context, in whatever order they come, and gives an element.
pub create-read_all-Succeeds :
    (msg : List ℕ) (peeks : List Bool)
    → Succeeds (create_android_log_parser msg >>= read_all peeks) (λ es. length es ≡ length peeks)
create-read_all-Succeeds msg peeks =
    let (c, e, h) =
      Succeeds-result _ (create_android_log_parser msg) (create_android_log_parser-IsParser msg) in
    rw (e, ◌>>=◌) (read_all-Succeeds peeks c h)

-- peek_next gives the element that read_next gives, and leaves the parser where it is.
pub peek_next-read_next :
    (c : Context) → IsParser c → Succeeds (read_next c) (λ r. peek_next c ≡ some (r.0, c))
unfolding read_next peek_next
peek_next-read_next c h =
    Succeeds-map _ _ (read_next_internal false c) (λ r p. p.1) (read_next_internal-Reads c h)

-- Where the header of a list says 128 elements or more, the parser enters the list and then refuses
-- to read the first of them.
pub read_list-Refused :
    (c : Context) (b : ℕ)
    → IsParser c
    → c.list_nest_depth < max_list_nest_depth
    → c.pos + 2 ≤ c.len
    → byte_at c.storage (c.pos + 1) ≡ some b
    → 128 ≤ b
    → b < 256
    → Succeeds
        (read_list false c >>= λ r. read_next r.1)
        (λ r. r.0 ≡ element event_type_unknown true 0 no_data)
unfolding read_list at_depth set_depth read_next read_next_internal element_count
read_list-Refused c b h shallow fits e large byte =
    let fits' : ltb c.len (c.pos + 2) ≡ false = ground arith in
    let inside : leb c.list_nest_depth 8 ≡ true = ground arith in
    let inside' : leb (c.list_nest_depth + 1) 8 ≡ true = ground arith in
    let count : ltb b 128 ≡ false = ground arith in
    let own = ==_self (c.list_nest_depth + 1) in
    let deep : ltb max_list_nest_depth (c.list_nest_depth + 1) ≡ false = ground arith in
    let nonzero : (b == 0) ≡ false = ground arith in
    let many : leb (max_event_payload / 2) (b + 2 ^ 32 - 256) ≡ true = ground arith in
    let some_left : (b + 2 ^ 32 - 256 == 0) ≡ false = ground arith in
    simp (fits', e, ◌>>=◌, inside, inside', count, h.reader, own, deep, nonzero, many, some_left)
      refl
