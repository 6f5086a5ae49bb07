-- ===== src/Liblog/LogPrint/Splitting.antt =====
-- android_log_processLogBuffer of liblog/logprint.cpp. A pointer into the message is its place; the
-- message is what follows the header, and `none` is the result -1.
use native.Mathlib.Nat.{add-zero}
use android_system_logging.Common.{
  ℕ, suc, ◌+◌, ◌-◌, ◌≤◌, ◌≡◌, ◌≢◌, refl, sym, ap, ◌∙◌, Bool, false, ◌||◌, Option, none, some, List,
  [], ◌∷◌, ◌++◌, append_assoc, All, length, length-append, take, take-append, drop, drop-append,
  modify_at, ltb, leb, ◌==◌, if◌then◌else◌, arith, ne→==_false,
}

pub record LoggerEntry : Type 0 where
  pub len : ℕ
  pub hdr_size : ℕ
  pub pid : ℕ
  pub tid : ℕ
  pub sec : ℕ
  pub nsec : ℕ
  pub lid : ℕ
  pub uid : ℕ
  pub msg : List ℕ

pub record AndroidLogEntry : Type 0 where
  pub tv_sec : ℕ
  pub tv_nsec : ℕ
  pub priority : ℕ
  pub uid : ℕ
  pub pid : ℕ
  pub tid : ℕ
  pub tag : ℕ
  pub tag_len : ℕ
  pub message : ℕ
  pub message_len : ℕ

-- sizeof(struct logger_entry).
abbrev pub sizeof_logger_entry : ℕ
sizeof_logger_entry = 28

-- The loop over the message from the place `i` on: msgStart and msgEnd.
unfoldable pub find_text : ℕ → List ℕ → Option ℕ → Option ℕ × Option ℕ
find_text i [] start = (start, none)
find_text i (c ∷ s) none = find_text (suc i) s (if c == 0 then some (suc i) else none)
find_text i (c ∷ s) (some start) =
    let more = find_text (suc i) s (some start) in if c == 0 then (some start, some i) else more

-- A space, a colon or no character of ASCII, whether a char is signed or not.
unfoldable pub is_odd : ℕ → Bool
is_odd c = leb c 32 || (c == b':' || leb 127 c)

unfoldable pub find_odd : ℕ → List ℕ → Option ℕ
find_odd i [] = none
find_odd i (c ∷ s) = let more = find_odd (suc i) s in if is_odd c then some i else more

unfoldable pub put_nul : ℕ → List ℕ → List ℕ
put_nul i msg = modify_at i (λ c. 0) msg

-- The tag of a message without a NUL ends at an odd character, which becomes one.
unfoldable pub split_odd : ℕ → List ℕ → Option ℕ → List ℕ × ℕ
split_odd len msg none = (msg, len - 1)
split_odd len msg (some i) = (put_nul i msg, suc i)

unfoldable pub split_tag : ℕ → List ℕ → Option ℕ → List ℕ × ℕ
split_tag len msg none = split_odd len msg (find_odd 1 (drop 1 msg))
split_tag len msg (some start) = (msg, start)

unfoldable pub end_text : ℕ → List ℕ → Option ℕ → List ℕ × ℕ
end_text len msg none = (put_nul (len - 1) msg, len - 1)
end_text len msg (some end) = (msg, end)

-- The priority, where a char is unsigned.
unfoldable pub first_byte : List ℕ → ℕ
first_byte [] = 0
first_byte (c ∷ s) = c

-- The entry, and the message as it is afterwards.
unfoldable pub process_log_buffer : LoggerEntry → Option (AndroidLogEntry × List ℕ)
process_log_buffer buf =
    let (start, end) = find_text 1 (drop 1 buf.msg) none in
    let (split, msg_start) = split_tag buf.len buf.msg start in
    let (msg, msg_end) = end_text buf.len split end in
    let entry : AndroidLogEntry = record {
      tv_sec = buf.sec;
      tv_nsec = buf.nsec;
      priority = first_byte msg;
      uid = buf.uid;
      pid = buf.pid;
      tid = buf.tid;
      tag = 1;
      tag_len = msg_start - 1;
      message = msg_start;
      message_len = if ltb msg_end msg_start then 0 else msg_end - msg_start;
    } in
    if ltb buf.len 3
    then none
    else if ltb buf.hdr_size sizeof_logger_entry
    then none
    else some (entry, msg)

abbrev pub Characters : List ℕ → Type 0
Characters = All (λ c. c ≢ 0)

find_text-tag :
    (i : ℕ) (tag s : List ℕ)
    → Characters tag
    → find_text i (tag ++ (0 ∷ s)) none
      ≡ find_text (suc (i + length tag)) s (some (suc (i + length tag)))
unfolding find_text
find_text-tag i [] s h = simp add-zero
find_text-tag i (c ∷ tag) s h =
    let e : suc i + length tag ≡ i + suc (length tag) = omega arith in
    rw (find_text, ne→==_false c 0 h.0) (rw e at (find_text-tag (suc i) tag s h.1))

find_text-text :
    (i start : ℕ) (text rest : List ℕ)
    → Characters text
    → find_text i (text ++ (0 ∷ rest)) (some start) ≡ (some start, some (i + length text))
unfolding find_text
find_text-text i start [] rest h = simp add-zero
find_text-text i start (c ∷ text) rest h =
    let e : suc i + length text ≡ i + suc (length text) = omega arith in
    rw (find_text, ne→==_false c 0 h.0) (rw e at (find_text-text (suc i) start text rest h.1))

length-le :
    (tag text rest : List ℕ) → ltb (suc (length (tag ++ (0 ∷ (text ++ (0 ∷ rest)))))) 3 ≡ false
length-le tag text rest =
    rw (length-append tag (0 ∷ (text ++ (0 ∷ rest))), length-append text (0 ∷ rest)) (ground arith)

take-tag :
    (prio : ℕ) (tag s : List ℕ)
    → take (suc (1 + length tag) - 1) (drop 1 (prio ∷ (tag ++ (0 ∷ s)))) ≡ tag ++ (0 ∷ [])
take-tag prio tag s =
    let n : suc (1 + length tag) - 1 ≡ length (tag ++ (0 ∷ [])) =
      omega (arith, length-append tag (0 ∷ [])) in
    rw n (
      ap (take (length (tag ++ (0 ∷ [])))) (sym (append_assoc tag (0 ∷ []) s))
      ∙ take-append (tag ++ (0 ∷ [])) s)

take-text :
    (prio : ℕ) (tag text rest : List ℕ)
    → take (length text) (drop (suc (1 + length tag)) (prio ∷ (tag ++ (0 ∷ (text ++ (0 ∷ rest))))))
      ≡ text
take-text prio tag text rest =
    let n : 1 + length tag ≡ length (tag ++ (0 ∷ [])) = omega (arith, length-append tag (0 ∷ [])) in
    rw n (
      ap (λ (s : List ℕ). take (length text) (drop (length (tag ++ (0 ∷ []))) s))
        (sym (append_assoc tag (0 ∷ []) (text ++ (0 ∷ rest))))
      ∙ ap (take (length text)) (drop-append (tag ++ (0 ∷ [])) (text ++ (0 ∷ rest)))
      ∙ take-append text (0 ∷ rest))

-- A message as it is written, a priority, a tag and a text that both end with NUL, is read back: the
-- text and the tag are found where they are, whatever follows them, and nothing is changed. The length
-- in the header is that of the message, and the header has its size at least.
pub process_log_buffer-read :
    (buf : LoggerEntry) (prio : ℕ) (tag text rest : List ℕ)
    → buf.msg ≡ prio ∷ (tag ++ (0 ∷ (text ++ (0 ∷ rest))))
    → buf.len ≡ length buf.msg
    → sizeof_logger_entry ≤ buf.hdr_size
    → Characters tag
    → Characters text
    → (e : AndroidLogEntry) × (process_log_buffer buf ≡ some (e, buf.msg))
      × (e.priority ≡ prio)
      × (take e.tag_len (drop e.tag buf.msg) ≡ tag ++ (0 ∷ []))
      × (take e.message_len (drop e.message buf.msg) ≡ text)
unfolding process_log_buffer split_tag end_text first_byte
process_log_buffer-read buf prio tag text rest is len hdr h k =
    let start : ℕ = suc (1 + length tag) in
    let n = length text in
    let found : find_text 1 (drop 1 buf.msg) none ≡ (some start, some (start + n)) =
      rw is (find_text-tag 1 tag (text ++ (0 ∷ rest)) h ∙ find_text-text start start text rest k) in
    let behind : (if ltb (start + n) start then 0 else start + n - start) ≡ n = ground arith in
    let long : ltb buf.len 3 ≡ false = rw (len, is) (length-le tag text rest) in
    let sized : ltb buf.hdr_size sizeof_logger_entry ≡ false = ground arith in
    (
      record {
        tv_sec = buf.sec;
        tv_nsec = buf.nsec;
        priority = first_byte buf.msg;
        uid = buf.uid;
        pid = buf.pid;
        tid = buf.tid;
        tag = 1;
        tag_len = start - 1;
        message = start;
        message_len = n;
      },
      rw (found, long, sized, behind) refl,
      rw is refl,
      rw is (take-tag prio tag (text ++ (0 ∷ rest))),
      rw is (take-text prio tag text rest),
    )
