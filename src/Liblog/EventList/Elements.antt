-- ===== src/Liblog/EventList/Elements.antt =====
-- One call of the reader of liblog/log_event_list.cpp, for each type of element.
use android_system_logging.Common.{
  ℕ, ◌+◌, ◌-◌, ◌/◌, ◌%◌, ◌^◌, ◌≤◌, ◌<◌, ◌≡◌, refl, sym, ◌∙◌, ap, inl, inr, Bool, true, false, ◌||◌,
  ◌&&◌, Option, some, List, length, length-drop, arith, ltb, leb, ◌==◌, if◌then◌else◌, ◌>>=◌,
  Succeeds, Succeeds-result, Bool-cases, some-eq-some,
}
use android_system_logging.Common.Bytes.{read_bytes, read_le, read_bytes-Succeeds, at_offset}
use android_system_logging.Liblog.LogId.{logger_entry_max_payload}
use android_system_logging.Liblog.EventList.{
  Context, at_depth, set_depth, max_event_payload, max_list_nest_depth, event_type_int,
  event_type_long, event_type_string, event_type_list, event_type_float, event_type_list_stop,
}
use android_system_logging.Liblog.EventList.Read.{
  byte_at, consume, Reading, read_word, read_string, read_list, read_newline, read_characters,
  read_type, read_element, read_stop, read_next_internal,
}

-- The message is in the storage, and the byte behind it is zero.
pub record IsParser (c : Context) : Type 0 where
  pub reader : c.is_writer ≡ false
  pub size : length c.storage ≡ logger_entry_max_payload
  pub len : c.len ≤ max_event_payload
  pub pos : c.pos ≤ c.len
  pub depth : c.list_nest_depth ≤ 9
  pub zero_behind : byte_at c.storage c.len ≡ some 0

-- A read that is in bounds, and the same element for a peek, which changes nothing.
abbrev Reads : (Bool → Context → Option Reading) → Context → Type 0
Reads read c = Succeeds (read false c) (λ r. IsParser r.1 × (read true c ≡ some (r.0, c)))

read_le-Succeeds : (k : ℕ) (bs : List ℕ) → k ≤ length bs → Succeeds (read_le k bs) (λ _. Unit {0})
unfolding read_le
read_le-Succeeds k bs h =
    let (r, e, _) = Succeeds-result _ (read_bytes k bs) (read_bytes-Succeeds k bs h) in
    rw (e, ◌>>=◌) tt

byte_at-Succeeds :
    (bs : List ℕ) (pos : ℕ) → pos < length bs → Succeeds (byte_at bs pos) (λ _. Unit {0})
unfolding byte_at
byte_at-Succeeds bs pos h =
    let (r, e, _) =
      Succeeds-result (λ _. Unit {0}) (read_le 1 (at_offset pos bs))
        (read_le-Succeeds 1 (at_offset pos bs) (omega (arith, length-drop pos bs))) in
    rw (e, ◌>>=◌) tt

-- A parser at another place of its message.
IsParser-moved :
    (c : Context) (pos depth : ℕ) (count : ℕ → ℕ) (list_stop : Bool)
    → IsParser c
    → pos ≤ c.len
    → depth ≤ 9
    → IsParser
        (record c { pos = pos; list_nest_depth = depth; count = count; list_stop = list_stop })
IsParser-moved c pos depth count list_stop h fits deep = record {
  reader = h.reader;
  size = h.size;
  len = h.len;
  pos = fits;
  depth = deep;
  zero_behind = h.zero_behind;
}

module _ (c : Context) (h : IsParser c) (shallow : c.list_nest_depth ≤ 8) where
  -- The end of an element that ends within the message.
  consume-IsParser :
      (pos : ℕ)
      → pos ≤ c.len
      → (d : Context) × (consume false pos c ≡ some d) × (consume true pos c ≡ some c) × IsParser d
  unfolding consume at_depth set_depth
  consume-IsParser pos fits =
      let inside : leb c.list_nest_depth 8 ≡ true = ground arith in
      rw inside (_, refl, refl, IsParser-moved c pos c.list_nest_depth _ _ h fits h.depth)

  read_word-Reads : (type width : ℕ) → Reads (read_word type width) c
  unfolding read_word
  read_word-Reads type width = elim (Bool-cases (ltb c.len (c.pos + 1 + width))) [
    | inl short ↦ simp short (h, refl)
    | inr fits ↦
        let ((v, rest), e, _) =
          Succeeds-result (λ _. Unit {0}) (read_le width (at_offset (c.pos + 1) c.storage))
            (read_le-Succeeds width _
              (ground (arith, length-drop (c.pos + 1) c.storage, h.size, h.len))) in
        let (d, e1, e2, h') = consume-IsParser (c.pos + 1 + width) (ground arith) in
        simp (fits, e, ◌>>=◌, e1, e2) (h', refl)
  ]

  read_characters-Reads : (len : ℕ) → c.pos + 5 + len ≤ c.len → Reads (read_characters len) c
  unfolding read_characters
  read_characters-Reads len within =
      let ((s, rest), e, _) = Succeeds-result _ (read_bytes len (at_offset (c.pos + 5) c.storage)) (
        read_bytes-Succeeds len _
          (omega (arith, length-drop (c.pos + 5) c.storage, h.size, h.len))) in
      let (d, e1, e2, h') = consume-IsParser (c.pos + 5 + len) within in
      simp (e, ◌>>=◌, e1, e2) (h', refl)

  read_string-Reads : Reads read_string c
  unfolding read_string
  read_string-Reads = elim (Bool-cases (ltb c.len (c.pos + 5))) [
    | inl short ↦ simp short (h, refl)
    | inr fits ↦
        let ((v, rest), e, _) =
          Succeeds-result (λ _. Unit {0}) (read_le 4 (at_offset (c.pos + 1) c.storage))
            (read_le-Succeeds 4 _
              (ground (arith, length-drop (c.pos + 1) c.storage, h.size, h.len))) in
        let said = v % 2 ^ 16 in
        let len = if ltb c.len (c.pos + 5 + said) then c.len - (c.pos + 5) else said in
        let within : c.pos + 5 + len ≤ c.len = ground arith in
        elim (Bool-cases (leb 65535 v && ltb v (2 ^ 31))) [
          | inl huge ↦ simp (fits, e, ◌>>=◌, huge) (h, refl)
          | inr fine ↦ elim (Bool-cases (ltb c.len (c.pos + 5 + said) && len == 0)) [
            | inl empty ↦ simp (fits, e, ◌>>=◌, fine, empty) (h, refl)
            | inr some_left ↦
                simp (fits, e, ◌>>=◌, fine, some_left) (read_characters-Reads len within)
          ]
        ]
  ]

  read_list-Reads : Reads read_list c
  unfolding read_list at_depth set_depth
  read_list-Reads = elim (Bool-cases (ltb c.len (c.pos + 2))) [
    | inl short ↦ simp short (h, refl)
    | inr fits ↦
        let (b, e, _) =
          Succeeds-result (λ _. Unit {0}) (byte_at c.storage (c.pos + 1))
            (byte_at-Succeeds c.storage (c.pos + 1) (ground (arith, h.size, h.len))) in
        let inside : leb c.list_nest_depth 8 ≡ true = ground arith in
        simp (fits, e, ◌>>=◌, inside)
          (
            IsParser-moved c (c.pos + 2) (c.list_nest_depth + 1) _ _ h (ground arith) (omega arith),
            refl,
          )
  ]

  read_newline-Reads : c.pos + 1 ≤ c.len → Reads (λ peek d. some (read_newline peek d)) c
  unfolding read_newline
  read_newline-Reads fits = elim (Bool-cases (ltb 0 c.list_nest_depth)) [
    | inl nested ↦ rw nested (
      IsParser-moved c (c.pos + 1) (c.list_nest_depth - 1) c.count c.list_stop h fits (omega arith),
      refl,
    )
    | inr top ↦
        rw top
          (IsParser-moved c (c.pos + 1) c.list_nest_depth c.count c.list_stop h fits h.depth, refl)
  ]

  read_type-Reads : (type : ℕ) → c.pos + 1 ≤ c.len → Reads (read_type type) c
  unfolding read_type
  read_type-Reads type fits =
      elim (Bool-cases (type == event_type_float || type == event_type_int)) [
        | inl word ↦ rw word (read_word-Reads type 4)
        | inr other0 ↦ elim (Bool-cases (type == event_type_long)) [
          | inl long ↦ rw (other0, long) (read_word-Reads type 8)
          | inr other1 ↦ elim (Bool-cases (type == event_type_string)) [
            | inl text ↦ rw (other0, other1, text) read_string-Reads
            | inr other2 ↦ elim (Bool-cases (type == event_type_list)) [
              | inl list ↦ rw (other0, other1, other2, list) read_list-Reads
              | inr other3 ↦ elim (Bool-cases (type == event_type_list_stop)) [
                | inl stop ↦ rw (other0, other1, other2, other3, stop) (read_newline-Reads fits)
                | inr other ↦ rw (other0, other1, other2, other3, other) (h, refl)
              ]
            ]
          ]
        ]
      ]

  -- A newline is a byte of the message, since the one behind it is zero.
  newline_inside :
      (b : ℕ) → byte_at c.storage c.pos ≡ some b → b ≡ event_type_list_stop → c.pos + 1 ≤ c.len
  newline_inside b e newline = elim (Bool-cases (c.pos == c.len)) [
    | inl end ↦
        let at_end : c.pos ≡ c.len = ground arith in
        let z : b ≡ 0 = some-eq-some (sym e ∙ (ap (byte_at c.storage) at_end ∙ h.zero_behind)) in
        absurd (omega arith)
    | inr more ↦ ground (arith, h.pos)
  ]

  read_element-Reads : Reads read_element c
  unfolding read_element
  read_element-Reads = elim (Bool-cases (ltb c.len (c.pos + 1))) [
    | inl short ↦ simp short (h, refl)
    | inr fits ↦
        let (type, e, _) =
          Succeeds-result (λ _. Unit {0}) (byte_at c.storage c.pos)
            (byte_at-Succeeds c.storage c.pos (ground (arith, h.size, h.len))) in
        simp (fits, e, ◌>>=◌) (read_type-Reads type (ground arith))
  ]

  read_stop-Reads : Reads read_stop c
  unfolding read_stop at_depth
  read_stop-Reads =
      let (b, e, _) =
        Succeeds-result (λ _. Unit {0}) (byte_at c.storage c.pos)
          (byte_at-Succeeds c.storage c.pos (omega (arith, h.size, h.len, h.pos))) in
      let inside : leb (c.list_nest_depth - 1) 8 ≡ true = ground arith in
      let next : (if b == event_type_list_stop then c.pos + 1 else c.pos) ≤ c.len =
        elim (Bool-cases (b == event_type_list_stop)) [
          | inl newline ↦ rw newline (newline_inside b e (ground arith))
          | inr other ↦ rw other h.pos
        ] in
      simp (e, ◌>>=◌, inside)
        (IsParser-moved c _ (c.list_nest_depth - 1) c.count _ h next (omega arith), refl)

pub read_next_internal-Reads : (c : Context) → IsParser c → Reads read_next_internal c
unfolding read_next_internal
read_next_internal-Reads c h = elim (Bool-cases (ltb max_list_nest_depth c.list_nest_depth)) [
  | inl deep ↦ simp (h.reader, deep) (h, refl)
  | inr shallow ↦ elim (Bool-cases (leb (max_event_payload / 2) (c.count c.list_nest_depth))) [
    | inl many ↦ simp (h.reader, shallow, many) (h, refl)
    | inr fewer ↦ elim (Bool-cases c.list_stop) [
      | inl stop ↦ simp (h.reader, shallow, fewer, stop) (read_stop-Reads c h (ground arith))
      | inr more ↦ simp (h.reader, shallow, fewer, more) (read_element-Reads c h (ground arith))
    ]
  ]
]
