-- ===== src/Liblog/LogPrint/Printable.antt =====
-- convertPrintable of liblog/logprint.cpp.
use android_system_logging.Common.{
  ℕ, zero, suc, ◌+◌, ◌/◌, ◌%◌, ◌≤◌, ◌≡◌, ◌||◌, Option, none, some, List, [], ◌∷◌, ◌++◌, All, length,
  take, drop, ltb, leb, ◌==◌, ◌-◌, if◌then◌else◌, ◌>>=◌,
}
use android_system_logging.Common.Bytes.{c_string}

-- mbrtowc of the C library, with the state that it keeps: `none` stands for its results -1 and -2.
pub record Multibyte : Type 1 where
  pub State : Type 0
  pub initial : State
  pub mbrtowc : State → List ℕ → Option ℕ × State

-- In UTF-8 it takes bytes that are there, and a character of several bytes has no ASCII in it.
pub record MultibyteLaws (z : Multibyte) : Type 0 where
  pub taken : (st : z.State) (s : List ℕ) (n : ℕ) → (z.mbrtowc st s).0 ≡ some n → n ≤ length s
  pub not_ascii :
      (st : z.State) (s : List ℕ) (n : ℕ)
      → (z.mbrtowc st s).0 ≡ some (suc (suc n))
      → All (λ c. 128 ≤ c) (take (suc (suc n)) s)

unfoldable pub hex_digit : ℕ → ℕ
hex_digit n = if ltb n 10 then b'0' + n else b'A' - 10 + n

-- The format \x%02X of a byte.
unfoldable pub hex : ℕ → List ℕ
hex c = b'\\' ∷ b'x' ∷ hex_digit (c / 16) ∷ hex_digit (c % 16) ∷ []

-- A character of one byte.
unfoldable pub escape : ℕ → List ℕ
escape c =
    if c == 7
    then b'\\' ∷ b'a' ∷ []
    else if c == 8
    then b'\\' ∷ b'b' ∷ []
    else if c == 9
    then c ∷ []
    else if c == 11
    then b'\\' ∷ b'v' ∷ []
    else if c == 12
    then b'\\' ∷ b'f' ∷ []
    else if c == 13
    then b'\\' ∷ b'r' ∷ []
    else if c == b'\\'
    then b'\\' ∷ b'\\' ∷ []
    else if ltb c 32 || leb 128 c
    then hex c
    else c ∷ []

-- The text of a character, and how many bytes it takes. A result of mbrtowc that is not positive is
-- one byte.
unfoldable pub character : Option ℕ → ℕ → List ℕ → List ℕ × ℕ
character none c s = (hex c, 1)
character (some zero) c s = (hex c, 1)
character (some (suc zero)) c s = (escape c, 1)
character (some (suc (suc n))) c s = (c_string (take (suc (suc n)) (c ∷ s)), suc (suc n))

module _ (z : Multibyte) where
  unfoldable pub print_loop : ℕ → z.State → List ℕ → Option (List ℕ)
  print_loop fuel st [] = some []
  print_loop zero st (c ∷ s) = none
  print_loop (suc fuel) st (c ∷ s) =
      let (result, st') = z.mbrtowc st (take 5 (c ∷ s)) in
      let (text, len) = character result c s in
      (print_loop fuel st' (drop len (c ∷ s)) >>= (λ rest. some (text ++ rest)))

  -- The text that is written; its length is what the function returns, with a buffer or without.
  unfoldable pub convert_printable : List ℕ → Option (List ℕ)
  convert_printable message = print_loop (length message) z.initial message
