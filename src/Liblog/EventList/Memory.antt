-- ===== src/Liblog/EventList/Memory.antt =====
-- The writer of liblog/log_event_list.cpp and its memory.
use android_system_logging.Common.{
  ℕ, ◌+◌, ◌-◌, ◌%◌, ◌^◌, ◌≤◌, ◌<◌, ◌≡◌, refl, ◌∙◌, inl, inr, true, false, ◌||◌, Option, some, List,
  [], ◌∷◌, All, length, take, length-take-le, replicate, length-replicate, arith, ltb, leb, ◌==◌,
  ◌>>=◌, Succeeds, Succeeds-result, Bool-cases,
}
use android_system_logging.Common.Bytes.{to_le, length-to_le, overwrite, overwrite-Succeeds}
use android_system_logging.Liblog.LogId.{logger_entry_max_payload}
use android_system_logging.Liblog.EventList.{
  Context, EventResult, zeroed, at_depth, set_depth, count_one, create_android_logger, reset,
  write_list_begin, write_list_end, write_value, write_int32, write_int64, write_float32,
  characters, write_string8_len, event_type_string, max_event_payload, max_list_nest_depth,
}

-- What a client calls between the creation and the delivery.
pub data WriteOp : Type 0 where
  int32 int64 float32 : ℕ → WriteOp
  string8_len : Option (List ℕ) → ℕ → WriteOp
  list_begin list_end start_over : WriteOp

unfoldable pub write : WriteOp → Context → Option (EventResult × Context)
write (int32 v) c = write_int32 v c
write (int64 v) c = write_int64 v c
write (float32 v) c = write_float32 v c
write (string8_len value maxlen) c = write_string8_len value maxlen c
write list_begin c = write_list_begin c
write list_end c = write_list_end c
write start_over c = reset c

unfoldable pub write_all : List WriteOp → Context → Option Context
write_all [] c = some c
write_all (op ∷ ops) c = do (_, d) ← write op c; write_all ops d

-- Strings are shorter than 1 GiB.
abbrev pub IsShort : WriteOp → Type 0
IsShort (string8_len value maxlen) = length (characters value maxlen) < 2 ^ 30
IsShort op = Unit {0}

-- The arrays have their sizes, and every index that the context keeps is within them. Behind the
-- payload, `pos` is that of a truncated string.
pub record IsWriter (c : Context) : Type 0 where
  pub writer : c.is_writer ≡ true
  pub size : length c.storage ≡ logger_entry_max_payload
  pub near : c.pos < 2 ^ 31 + 4059
  pub depth : c.list_nest_depth ≤ 9
  pub deepest : c.list_nest_depth ≡ 9 → c.overflow ≡ true
  pub lists : (i : ℕ) → c.list i < logger_entry_max_payload

create-IsWriter : (tag : ℕ) → Succeeds (create_android_logger tag) IsWriter
unfolding create_android_logger zeroed at_depth set_depth
create-IsWriter tag =
    let zero_byte : ℕ = 0 in
    let (storage, e, l) =
      Succeeds-result _ (overwrite (replicate logger_entry_max_payload 0) 0 (3 ∷ [])) (
        overwrite-Succeeds _ 0 (3 ∷ [])
          (omega (arith, length-replicate logger_entry_max_payload zero_byte))) in
    rw (e, ◌>>=◌)
      (record {
        writer = refl;
        size = l ∙ length-replicate logger_entry_max_payload zero_byte;
        near = omega arith;
        depth = omega arith;
        deepest = λ e. cc;
        lists = λ i. ground arith;
      })

module _ (c : Context) (h : IsWriter c) where
  pub count_one-Succeeds : c.list_nest_depth ≤ 8 → Succeeds (count_one c) (λ _. Unit {0})
  unfolding count_one at_depth set_depth
  count_one-Succeeds l = ground arith

  pub shallow : c.overflow ≡ false → c.list_nest_depth ≤ 8
  shallow e = ground (arith, h.depth, h.deepest)

  -- What a write leaves: the caller shows the position, the depth and the list that changed.
  kept :
      (d : Context)
      → d.is_writer ≡ true
      → length d.storage ≡ length c.storage
      → d.pos < 2 ^ 31 + 4059
      → d.list_nest_depth ≤ 9
      → (d.list_nest_depth ≡ 9 → d.overflow ≡ true)
      → ((i : ℕ) → d.list i < logger_entry_max_payload)
      → IsWriter d
  kept d writer size near depth deepest lists = record {
    writer = writer;
    size = size ∙ h.size;
    near = near;
    depth = depth;
    deepest = deepest;
    lists = lists;
  }

  write_value-IsWriter :
      (type width value : ℕ) → Succeeds (write_value type width value c) (λ r. IsWriter r.1)
  unfolding write_value
  write_value-IsWriter type width value = elim (Bool-cases c.overflow) [
    | inl over ↦ simp (h.writer, over) h
    | inr fine ↦ elim (Bool-cases (ltb max_event_payload (c.pos + (1 + width)))) [
      | inl full ↦ simp (h.writer, fine, full) (kept _ refl refl h.near h.depth (λ _. refl) h.lists)
      | inr room ↦
          let (count, e1, _) =
            Succeeds-result _ (count_one c) (count_one-Succeeds (shallow fine)) in
          let (storage, e2, l) =
            Succeeds-result _ (overwrite c.storage c.pos (type ∷ to_le width value)) (
              overwrite-Succeeds _ c.pos (type ∷ to_le width value) (
                let fits : c.pos + (1 + width) ≤ 4064 = ground arith in
                omega (arith, length-to_le width value, h.size))) in
          simp (h.writer, fine, room, e1, ◌>>=◌, e2)
            (kept _ refl l (ground arith) h.depth (λ e. absurd (omega (arith, shallow fine)))
              h.lists)
    ]
  ]

  write_list_end-IsWriter : Succeeds (write_list_end c) (λ r. IsWriter r.1)
  unfolding write_list_end at_depth
  write_list_end-IsWriter = elim (Bool-cases (ltb max_list_nest_depth c.list_nest_depth)) [
    | inl deep ↦
        simp (h.writer, deep) (kept _ refl refl h.near (omega (arith, h.depth)) (λ _. refl) h.lists)
    | inr fine ↦ elim (Bool-cases (c.list_nest_depth == 0)) [
      | inl top ↦ simp (h.writer, fine, top) (kept _ refl refl h.near h.depth (λ _. refl) h.lists)
      | inr nested ↦
          let inside : leb c.list_nest_depth 8 ≡ true = ground arith in
          let (storage, e, l) =
            Succeeds-result _
              (overwrite c.storage (c.list c.list_nest_depth)
                (c.count c.list_nest_depth % 256 ∷ []))
              (overwrite-Succeeds _ _ _ (omega (arith, h.lists c.list_nest_depth, h.size))) in
          elim (Bool-cases (c.list c.list_nest_depth == 0)) [
            | inl unset ↦
                simp (h.writer, fine, nested, inside, unset)
                  (kept _ refl refl h.near (omega (arith, h.depth)) (λ _. refl) h.lists)
            | inr set ↦
                simp (h.writer, fine, nested, inside, set, e, ◌>>=◌)
                  (kept _ refl l h.near (omega (arith, h.depth))
                    (λ k. absurd (omega (arith, h.depth))) h.lists)
          ]
    ]
  ]

  write_list_begin-IsWriter : Succeeds (write_list_begin c) (λ r. IsWriter r.1)
  unfolding write_list_begin set_depth
  write_list_begin-IsWriter = elim (Bool-cases (ltb max_list_nest_depth c.list_nest_depth)) [
    | inl deep ↦ simp (h.writer, deep) (kept _ refl refl h.near h.depth (λ _. refl) h.lists)
    | inr fine ↦ elim (Bool-cases (ltb max_event_payload (c.pos + 2))) [
      | inl full ↦ simp (h.writer, fine, full) (kept _ refl refl h.near h.depth (λ _. refl) h.lists)
      | inr room ↦
          let (count, e1, _) =
            Succeeds-result _ (count_one c) (count_one-Succeeds (ground arith)) in
          let (storage, e2, l) =
            Succeeds-result _ (overwrite c.storage c.pos (3 ∷ 0 ∷ []))
              (overwrite-Succeeds _ _ _ (ground (arith, h.size))) in
          elim (Bool-cases (ltb max_list_nest_depth (c.list_nest_depth + 1))) [
            | inl last ↦
                simp (h.writer, fine, room, e1, ◌>>=◌, last)
                  (kept _ refl refl h.near (ground (arith, h.depth)) (λ _. refl) h.lists)
            | inr more ↦
                let inside : leb (c.list_nest_depth + 1) 8 ≡ true = ground arith in
                elim (Bool-cases c.overflow) [
                  | inl over ↦
                      simp (h.writer, fine, room, e1, ◌>>=◌, more, over)
                        (kept _ refl refl h.near (ground arith) (λ _. refl) h.lists)
                  | inr clean ↦
                      simp (h.writer, fine, room, e1, ◌>>=◌, more, clean, e2, inside)
                        (kept _ refl l (ground arith) (ground arith) (λ k. absurd (ground arith))
                          (λ i. ground (arith, h.lists i)))
                ]
          ]
    ]
  ]

  -- The header and the characters, where they are within the payload.
  pub string_stored :
      (len : ℕ) (s : List ℕ)
      → c.pos + 5 + len ≤ max_event_payload
      → (header storage : List ℕ) × (overwrite c.storage c.pos (event_type_string ∷ to_le 4 len)
          ≡ some header)
        × (overwrite header (c.pos + 5) (take len s) ≡ some storage)
        × (length storage ≡ length c.storage)
  string_stored len s fits =
      let (header, e, l) =
        Succeeds-result _ (overwrite c.storage c.pos (event_type_string ∷ to_le 4 len))
          (overwrite-Succeeds _ _ _ (omega (arith, length-to_le 4 len, h.size))) in
      let (storage, e', l') =
        Succeeds-result _ (overwrite header (c.pos + 5) (take len s))
          (overwrite-Succeeds _ _ _ (omega (arith, length-take-le len s, h.size))) in
      (header, storage, e, e', l' ∙ l)

  pub write_string8_len-IsWriter :
      (value : Option (List ℕ)) (maxlen : ℕ)
      → length (characters value maxlen) < 2 ^ 30
      → Succeeds (write_string8_len value maxlen c) (λ r. IsWriter r.1)
  unfolding write_string8_len
  write_string8_len-IsWriter value maxlen short = elim (Bool-cases c.overflow) [
    | inl over ↦ simp (h.writer, over) h
    | inr fine ↦
        let (count, e1, _) = Succeeds-result _ (count_one c) (count_one-Succeeds (shallow fine)) in
        let s = characters value maxlen in
        elim (Bool-cases (ltb max_event_payload (c.pos + (5 + length s)))) [
          | inr short_enough ↦
              let (header, storage, e3, e4, l) = string_stored (length s) s (ground arith) in
              simp (h.writer, fine, short_enough, e1, ◌>>=◌, e3, e4)
                (kept _ refl l (ground arith) h.depth (λ e. absurd (omega (arith, shallow fine)))
                  h.lists)
          | inl long ↦
              let room = (max_event_payload + 2 ^ 64 - c.pos - 1 - 4) % 2 ^ 32 in
              elim (Bool-cases (room == 0 || leb (2 ^ 31) room)) [
                | inl none_left ↦
                    simp (h.writer, fine, long, none_left)
                      (kept _ refl refl h.near h.depth (λ _. refl) h.lists)
                | inr some_left ↦
                    let here : c.pos + 5 + room ≡ max_event_payload = ground (arith, h.near) in
                    let (header, storage, e3, e4, l) = string_stored room s (omega arith) in
                    simp (h.writer, fine, long, some_left, e1, ◌>>=◌, e3, e4)
                      (kept _ refl l (ground arith) h.depth
                        (λ e. absurd (omega (arith, shallow fine))) h.lists)
              ]
        ]
  ]

write-IsWriter :
    (op : WriteOp) (c : Context)
    → IsWriter c
    → IsShort op
    → Succeeds (write op c) (λ r. IsWriter r.1)
unfolding write write_int32 write_int64 write_float32 reset
write-IsWriter (int32 v) c h s = write_value-IsWriter c h 0 4 v
write-IsWriter (int64 v) c h s = write_value-IsWriter c h 1 8 v
write-IsWriter (float32 v) c h s = write_value-IsWriter c h 4 4 v
write-IsWriter (string8_len value maxlen) c h s = write_string8_len-IsWriter c h value maxlen s
write-IsWriter list_begin c h s = write_list_begin-IsWriter c h
write-IsWriter list_end c h s = write_list_end-IsWriter c h
write-IsWriter start_over c h s =
    let (d, e, h') = Succeeds-result _ (create_android_logger c.tag) (create-IsWriter c.tag) in
    rw (h.writer, e, ◌>>=◌) h'

write_all-IsWriter :
    (ops : List WriteOp) (c : Context)
    → All IsShort ops
    → IsWriter c
    → Succeeds (write_all ops c) IsWriter
unfolding write_all
write_all-IsWriter [] c s h = h
write_all-IsWriter (op ∷ ops) c s h =
    let ((_, d), e, h') = Succeeds-result _ (write op c) (write-IsWriter op c h s.0) in
    rw (e, ◌>>=◌) (write_all-IsWriter ops d s.1 h')

-- Whatever a client writes to a new context, and in whatever order, no write goes out of the storage
-- or of the arrays of the context, where every string is shorter than 1 GiB.
pub create-write_all-IsWriter :
    (tag : ℕ) (ops : List WriteOp)
    → All IsShort ops
    → Succeeds (create_android_logger tag >>= write_all ops) IsWriter
create-write_all-IsWriter tag ops short =
    let (c, e, h) = Succeeds-result _ (create_android_logger tag) (create-IsWriter tag) in
    rw (e, ◌>>=◌) (write_all-IsWriter ops c short h)
