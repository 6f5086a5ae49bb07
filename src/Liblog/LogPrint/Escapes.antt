-- ===== src/Liblog/LogPrint/Escapes.antt =====
-- The text that convertPrintable of liblog/logprint.cpp writes, read back.
use android_system_logging.Common.{
  ℕ, zero, suc, ◌+◌, ◌*◌, ◌/◌, ◌%◌, ◌≤◌, ◌<◌, ◌≡◌, refl, ◌||◌, Option, none, some, List, [], ◌∷◌,
  ◌++◌, All, length, take, drop, ltb, leb, ◌==◌, ◌&&◌, ◌-◌, if◌then◌else◌, ◌>>=◌, arith, inl, inr,
  Bool-cases, true, ==→eq, ne→==_false, ap, subst, ◌∙◌, Succeeds, Succeeds-result, length-drop,
  length-take, length-append, take-append-drop,
}
use android_system_logging.Common.Bytes.{c_string}
use android_system_logging.Liblog.LogPrint.Printable.{
  Multibyte, MultibyteLaws, hex_digit, hex, escape, character, print_loop, convert_printable,
}

-- Reading the escapes back.
pub data Mode : Type 0 where
  plain escaped high : Mode
  low : ℕ → Mode

unfoldable pub digit : ℕ → Option ℕ
digit c =
    if leb b'0' c && leb c b'9'
    then some (c - b'0')
    else if leb b'A' c && leb c b'F'
    then some (c - b'A' + 10)
    else none

unfoldable pub escape_of : ℕ → Option ℕ
escape_of c =
    if c == b'a'
    then some 7
    else if c == b'b'
    then some 8
    else if c == b'v'
    then some 11
    else if c == b'f'
    then some 12
    else if c == b'r'
    then some 13
    else if c == b'\\'
    then some c
    else none

unfoldable pub read_printable : Mode → List ℕ → Option (List ℕ)
read_printable plain [] = some []
read_printable escaped [] = none
read_printable high [] = none
read_printable (low h) [] = none
read_printable plain (c ∷ s) =
    let behind_backslash = read_printable escaped s in
    let rest = read_printable plain s in
    if c == b'\\' then behind_backslash else (rest >>= (λ r. some (c ∷ r)))
read_printable escaped (c ∷ s) =
    let digits = read_printable high s in
    let rest = read_printable plain s in
    if c == b'x' then digits else (escape_of c >>= (λ k. rest >>= (λ r. some (k ∷ r))))
read_printable high (c ∷ s) = digit c >>= (λ h. read_printable (low h) s)
read_printable (low h) (c ∷ s) =
    digit c >>= (λ l. read_printable plain s >>= (λ r. some ((h * 16 + l) ∷ r)))

digit-hex_digit : (n : ℕ) → n < 16 → digit (hex_digit n) ≡ some n
unfolding digit hex_digit
digit-hex_digit n h = ground arith

read_printable-hex :
    (c : ℕ) (s r : List ℕ)
    → c < 256
    → read_printable plain s ≡ some r
    → read_printable plain (hex c ++ s) ≡ some (c ∷ r)
unfolding read_printable hex
read_printable-hex c s r h e =
    let n : c / 16 * 16 + c % 16 ≡ c = omega arith in
    rw (digit-hex_digit (c / 16) (omega arith), digit-hex_digit (c % 16) (omega arith), e, n) refl

read_printable-escape :
    (c : ℕ) (s r : List ℕ)
    → c < 256
    → read_printable plain s ≡ some r
    → read_printable plain (escape c ++ s) ≡ some (c ∷ r)
unfolding read_printable escape escape_of
read_printable-escape c s r h e =
    let at : (k : ℕ)
        → (c == k) ≡ true
        → read_printable plain (escape k ++ s) ≡ some (k ∷ r)
        → read_printable plain (escape c ++ s) ≡ some (c ∷ r) =
      λ k q p. rw (==→eq c k q) p in
    elim (Bool-cases (c == 7)) [
      | inl q ↦ at 7 q (rw e refl)
      | inr a ↦ elim (Bool-cases (c == 8)) [
        | inl q ↦ at 8 q (rw e refl)
        | inr b ↦ elim (Bool-cases (c == 9)) [
          | inl q ↦ at 9 q (rw e refl)
          | inr t ↦ elim (Bool-cases (c == 11)) [
            | inl q ↦ at 11 q (rw e refl)
            | inr v ↦ elim (Bool-cases (c == 12)) [
              | inl q ↦ at 12 q (rw e refl)
              | inr f ↦ elim (Bool-cases (c == 13)) [
                | inl q ↦ at 13 q (rw e refl)
                | inr n ↦ elim (Bool-cases (c == b'\\')) [
                  | inl q ↦ at b'\\' q (rw e refl)
                  | inr l ↦ elim (Bool-cases (ltb c 32 || leb 128 c)) [
                    | inl x ↦ rw (a, b, t, v, f, n, l, x) (read_printable-hex c s r h e)
                    | inr x ↦ rw (a, b, t, v, f, n, l, x) (rw (l, e) refl)
                  ]
                ]
              ]
            ]
          ]
        ]
      ]
    ]

c_string-high : (xs : List ℕ) → All (λ c. 128 ≤ c) xs → c_string xs ≡ xs
unfolding c_string
c_string-high [] h = refl
c_string-high (c ∷ xs) h =
    rw (ne→==_false c 0 (λ q. omega (arith, q, h.0)), c_string-high xs h.1) refl

read_printable-high :
    (xs s r : List ℕ)
    → All (λ c. 128 ≤ c) xs
    → read_printable plain s ≡ some r
    → read_printable plain (xs ++ s) ≡ some (xs ++ r)
unfolding read_printable
read_printable-high [] s r h e = e
read_printable-high (c ∷ xs) s r h e =
    let n = ne→==_false c b'\\' (λ q. omega (arith, q, h.0)) in
    rw (n, read_printable-high xs s r h.1 e) refl

take-front :
    (n m : ℕ) (s : List ℕ) → n ≤ length (take m s) → (take n (take m s) ≡ take n s) × (n ≤ length s)
take-front zero m s h = (refl, omega arith)
take-front (suc n) zero s h = absurd (omega arith)
take-front (suc n) (suc m) [] h = absurd (omega arith)
take-front (suc n) (suc m) (c ∷ s) h =
    let (e, le) = take-front n m s (omega arith) in (ap (◌∷◌ c) e, omega arith)

All-drop : (n : ℕ) (s : List ℕ) → All (λ c. c < 256) s → All (λ c. c < 256) (drop n s)
All-drop zero s h = h
All-drop (suc n) [] h = tt
All-drop (suc n) (c ∷ s) h = All-drop n s h.1

-- What the text of a character reads as, and its bounds.
abbrev IsCharacter : List ℕ → List ℕ × ℕ → Type 0
IsCharacter s (text, len) =
    ((rest r : List ℕ)
      → read_printable plain rest ≡ some r
      → read_printable plain (text ++ rest) ≡ some (take len s ++ r))
    × (1 ≤ len)
    × (len ≤ length s)
    × (length text ≤ 4 * len)

length-escape : (c : ℕ) → length (escape c) ≤ 4
unfolding escape hex
length-escape c = ground arith

-- The text reads as the message, and has at most four characters for each byte.
abbrev pub Reads : List ℕ → Option (List ℕ) → Type 0
Reads s printed =
    Succeeds printed (λ text. (read_printable plain text ≡ some s) × (length text ≤ 4 * length s))

module _ (z : Multibyte) (laws : MultibyteLaws z) where
  character-IsCharacter :
      (o : Option ℕ) (st : z.State) (c : ℕ) (s : List ℕ)
      → (z.mbrtowc st (take 5 (c ∷ s))).0 ≡ o
      → c < 256
      → IsCharacter (c ∷ s) (character o c s)
  unfolding character
  character-IsCharacter none st c s e h = (
    (λ rest r. read_printable-hex c rest r h),
    omega arith,
    omega arith,
    unfold hex in (omega arith),
  )
  character-IsCharacter (some zero) st c s e h = (
    (λ rest r. read_printable-hex c rest r h),
    omega arith,
    omega arith,
    unfold hex in (omega arith),
  )
  character-IsCharacter (some (suc zero)) st c s e h = (
    (λ rest r. read_printable-escape c rest r h),
    omega arith,
    omega arith,
    omega (arith, length-escape c),
  )
  character-IsCharacter (some (suc (suc n))) st c s e h =
      let (front, le) =
        take-front (suc (suc n)) 5 (c ∷ s) (laws.taken st (take 5 (c ∷ s)) (suc (suc n)) e) in
      let high_bytes : All (λ b. 128 ≤ b) (take (suc (suc n)) (c ∷ s)) =
        subst (λ (l : List ℕ). All (λ b. 128 ≤ b) l) front
          (laws.not_ascii st (take 5 (c ∷ s)) n e) in
      let same = c_string-high (take (suc (suc n)) (c ∷ s)) high_bytes in
      (
        (λ rest r q.
            rw same (read_printable-high (take (suc (suc n)) (c ∷ s)) rest r high_bytes q)),
        omega arith,
        le,
        rw same (omega (arith, length-take (suc (suc n)) (c ∷ s) le)),
      )

  print_loop-Reads :
      (fuel : ℕ) (st : z.State) (s : List ℕ)
      → length s ≤ fuel
      → All (λ c. c < 256) s
      → Reads s (print_loop z fuel st s)
  unfolding print_loop read_printable
  print_loop-Reads fuel st [] le h = (refl, omega arith)
  print_loop-Reads zero st (c ∷ s) le h = absurd (omega arith)
  print_loop-Reads (suc fuel) st (c ∷ s) le h =
      let (result, st') = z.mbrtowc st (take 5 (c ∷ s)) in
      let len = (character result c s).1 in
      let (reads, some_bytes, inside, short) = character-IsCharacter result st c s refl h.0 in
      let left = length-drop len (c ∷ s) in
      let (text, e, (back, bound)) = Succeeds-result _ (print_loop z fuel st' (drop len (c ∷ s))) (
        print_loop-Reads fuel st' (drop len (c ∷ s)) (omega (arith, left))
          (All-drop len (c ∷ s) h)) in
      rw e (
        reads text (drop len (c ∷ s)) back ∙ ap some (take-append-drop len (c ∷ s)),
        omega (arith, left, length-append (character result c s).0 text),
      )

  -- A message of bytes is printed, in at most four characters for each, and the text is read back
  -- as the message, where mbrtowc takes bytes that are there and no ASCII in a character of several
  -- bytes.
  pub convert_printable-Reads :
      (message : List ℕ) → All (λ c. c < 256) message → Reads message (convert_printable z message)
  unfolding convert_printable
  convert_printable-Reads message h =
      print_loop-Reads (length message) z.initial message (omega arith) h
