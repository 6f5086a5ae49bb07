-- ===== src/Common/Text.antt =====
-- Characters as byte codes, in the C locale, and the decimal text of a 32-bit number.
use native.Mathlib.Numerals.{unary_clauses}
use android_system_logging.Common.{
  ℕ, zero, suc, ◌+◌, ◌-◌, ◌*◌, ◌/◌, ◌%◌, ◌^◌, ◌<◌, ◌≡◌, refl, ap, ◌∙◌, Bool, true, false, ◌&&◌,
  ◌||◌, List, [], ◌∷◌, ◌++◌, All, All-append, arith, length, length-append, ltb, leb, inl, inr,
  Bool-cases, ◌==◌, if◌then◌else◌,
}

unfoldable pub is_digit : ℕ → Bool
is_digit c = leb b'0' c && leb c b'9'

unfoldable pub is_space : ℕ → Bool
is_space c = c == 32 || leb 9 c && leb c 13

-- `%u`: a 32-bit number has ten digits at most.
unfoldable pub decimal_digits : ℕ → ℕ → List ℕ
decimal_digits zero n = []
decimal_digits (suc k) n =
    let more = decimal_digits k (n / 10) in
    if ltb n 10 then (b'0' + n) ∷ [] else more ++ ((b'0' + n % 10) ∷ [])

unfoldable pub decimal : ℕ → List ℕ
decimal n = decimal_digits 10 n

-- `do { n = n * 10 + *str++ - '0'; } while (isdigit(*str))` in 32 bits: the number, and what follows.
unfoldable pub read_digits : ℕ → List ℕ → ℕ × List ℕ
read_digits n [] = (n, [])
read_digits n (c ∷ s) =
    let more = read_digits ((n * 10 + (c - b'0')) % 2 ^ 32) s in
    if is_digit c then more else (n, c ∷ s)

abbrev Digits : List ℕ → Type 0
Digits = All (λ c. is_digit c ≡ true)

-- The text has no digit in front.
unfoldable pub NoDigit : List ℕ → Type 0
NoDigit [] = Unit {0}
NoDigit (c ∷ s) = is_digit c ≡ false

decimal_digits-Digits : (k n : ℕ) → Digits (decimal_digits k n)
unfolding decimal_digits is_digit
decimal_digits-Digits zero n = tt
decimal_digits-Digits (suc k) n = elim (Bool-cases (ltb n 10)) [
  | inl small ↦ rw small (ground arith, tt)
  | inr large ↦ rw large (
      All-append _ (decimal_digits k (n / 10)) _ (decimal_digits-Digits k (n / 10))
        (ground arith, tt))
]

-- The value that a digit makes of what was read before it.
unfoldable value : ℕ → List ℕ → ℕ
value n [] = n
value n (c ∷ s) = value ((n * 10 + (c - b'0')) % 2 ^ 32) s

value-append : (s t : List ℕ) (n : ℕ) → value n (s ++ t) ≡ value (value n s) t
unfolding value
value-append [] t n = refl
value-append (c ∷ s) t n = value-append s t _

read_digits-append :
    (s rest : List ℕ) (n : ℕ)
    → Digits s
    → NoDigit rest
    → read_digits n (s ++ rest) ≡ (value n s, rest)
unfolding read_digits value NoDigit
read_digits-append [] [] n d h = refl
read_digits-append [] (c ∷ rest) n d h = rw h refl
read_digits-append (c ∷ s) rest n d h = rw (d.0) (read_digits-append s rest _ d.1 h)

value-decimal_digits : (k n : ℕ) → n < 10 ^ k → n < 2 ^ 32 → value 0 (decimal_digits k n) ≡ n
unfolding decimal_digits value
value-decimal_digits zero n h w = omega arith
value-decimal_digits (suc k) n h w = elim (Bool-cases (ltb n 10)) [
  | inl small ↦ rw small (ground arith)
  | inr large ↦
      let fit : n / 10 < 10 ^ k = grind (arith, unary_clauses) in
      rw
        (
          large,
          value-append (decimal_digits k (n / 10)) ((b'0' + n % 10) ∷ []) 0,
          value-decimal_digits k (n / 10) fit (ground arith),
        )
        (ground arith)
]

decimal_digits-positive : (k n : ℕ) → 0 < length (decimal_digits (suc k) n)
unfolding decimal_digits
decimal_digits-positive k n = elim (Bool-cases (ltb n 10)) [
  | inl small ↦ rw small (omega arith)
  | inr large ↦ rw (large, length-append) (omega arith)
]

-- What `%u` prints is read back, if no digit follows.
pub read_digits-decimal :
    (n : ℕ) (rest : List ℕ)
    → n < 2 ^ 32
    → NoDigit rest
    → read_digits 0 (decimal n ++ rest) ≡ (n, rest)
unfolding decimal
read_digits-decimal n rest w h =
    read_digits-append (decimal_digits 10 n) rest 0 (decimal_digits-Digits 10 n) h
    ∙ ap (λ (m : ℕ). (m, rest)) (value-decimal_digits 10 n (omega arith) w)

pub decimal-Digits : (n : ℕ) → Digits (decimal n)
unfolding decimal
decimal-Digits n = decimal_digits-Digits 10 n

-- The first digit.
pub decimal-first : (n : ℕ) → (c : ℕ) × (s : List ℕ) × (decimal n ≡ c ∷ s) × (is_digit c ≡ true)
unfolding decimal
decimal-first n =
    first (decimal_digits 10 n) (decimal_digits-Digits 10 n) (decimal_digits-positive 9 n)
  where
    first :
        (s : List ℕ)
        → Digits s
        → 0 < length s
        → (c : ℕ) × (t : List ℕ) × (s ≡ c ∷ t) × (is_digit c ≡ true)
    first [] d h = absurd (omega arith)
    first (c ∷ s) d h = (c, s, refl, d.0)
