-- ===== src/Logd/PruneList/Words.antt =====
-- What a round of PruneList::Init reads of each thing that PruneList::Format prints
-- (logd/PruneList.cpp).
use android_system_logging.Common.{
  ℕ, sym, ap, ◌∙◌, ◌^◌, ◌≤◌, ◌<◌, ◌≡◌, ◌⊎◌, refl, ◌==◌, Bool, true, false, ◌&&◌, none, List, [],
  ◌∷◌, ◌++◌, append_assoc, All, All-append, arith, inl, inr, ==→eq, ne→==_false, Bool-cases,
}
use android_system_logging.Common.Text.{
  is_digit, is_space, decimal, decimal-first, decimal-Digits, NoDigit, read_digits-decimal,
}
use android_system_logging.Logd.PruneList.{
  Prune, PruneList, format_prune, Round, stop, next, ended, after_prefix, worst_system_pid, number,
  after_slash, push_rule, read_rule, read_high, round, all,
}

-- A rule that push_rule can have made, with a pid that pid_t holds: not every uid and every pid.
pub record IsRule (rule : Prune) : Type 0 where
  pub uid_fits : rule.uid < 2 ^ 32
  pub pid_fits : rule.pid < 2 ^ 31 ⊎ rule.pid ≡ all
  pub names_one : (rule.uid == all && rule.pid == all) ≡ false

-- The string ends, or a space follows.
unfoldable pub Ends : List ℕ → Type 0
Ends [] = Unit {0}
Ends (c ∷ s) = c ≡ 32

number-decimal :
    (n : ℕ) (rest : List ℕ) → n < 2 ^ 32 → NoDigit rest → number (decimal n ++ rest) ≡ (n, rest)
unfolding number
number-decimal n rest h q =
    let (c, s, e, d) = decimal-first n in
    rw e (rw d (sym (rw e at (sym (read_digits-decimal n rest h q)))))

Ends-NoDigit : (s : List ℕ) → Ends s → NoDigit s
unfolding Ends NoDigit is_digit
Ends-NoDigit [] h = tt
Ends-NoDigit (c ∷ s) h = rw h refl

-- What read_rule does with the string, if the numbers in front are the rule's.
Numbers : Prune → List ℕ → List ℕ → Type 0
Numbers rule s rest =
    (s1 : List ℕ) × (number s ≡ (rule.uid, s1)) × (after_slash s1 ≡ (rule.pid, rest))

after_slash-Ends : (s : List ℕ) → Ends s → after_slash s ≡ (all, s)
unfolding after_slash Ends
after_slash-Ends [] h = refl
after_slash-Ends (c ∷ s) h = rw h refl

format_prune-Numbers :
    (rule : Prune) (rest : List ℕ)
    → IsRule rule
    → Ends rest
    → Numbers rule (format_prune rule ++ rest) rest
unfolding format_prune number after_slash NoDigit is_digit Numbers
format_prune-Numbers rule rest v h =
    let pid_fits : rule.pid < 2 ^ 32 = elim v.pid_fits [
      | inl p ↦ omega arith
      | inr p ↦ omega arith
    ] in
    let q = Ends-NoDigit rest h in
    let n = v.names_one in
    elim (Bool-cases (rule.uid == all)) [
      | inl e ↦ elim (Bool-cases (rule.pid == all)) [
        | inl f ↦ absurd (let c : true ≡ false = rw (e, f) at n in cc)
        | inr f ↦
            rw (e, f)
              (
                b'/' ∷ (decimal rule.pid ++ rest),
                ground arith,
                number-decimal rule.pid rest pid_fits q,
              )
      ]
      | inr e ↦ elim (Bool-cases (rule.pid == all)) [
        | inl f ↦
            rw (e, f)
              (
                rest,
                number-decimal rule.uid rest v.uid_fits q,
                after_slash-Ends rest h ∙ ap (λ (p : ℕ). (p, rest)) (sym (==→eq _ _ f)),
              )
        | inr f ↦
            rw (e, f, append_assoc)
              (
                b'/' ∷ (decimal rule.pid ++ rest),
                number-decimal rule.uid _ v.uid_fits refl,
                number-decimal rule.pid rest pid_fits q,
              )
      ]
    ]

-- A digit or a slash.
unfoldable pub Plain : ℕ → Type 0
Plain c = (47 ≤ c) × (c ≤ 57)

All-map : (P Q : ℕ → Type 0) (s : List ℕ) → ((c : ℕ) → P c → Q c) → All P s → All Q s
All-map P Q [] f a = tt
All-map P Q (c ∷ s) f a = (f c a.0, All-map P Q s f a.1)

decimal-Plain : (n : ℕ) → All Plain (decimal n)
unfolding is_digit Plain
decimal-Plain n =
    All-map _ Plain (decimal n) (λ c d. (ground arith, ground arith)) (decimal-Digits n)

format_prune-Plain : (rule : Prune) → All Plain (format_prune rule)
unfolding format_prune Plain
format_prune-Plain rule =
    let slash : (47 ≤ 47) × (47 ≤ 57) = (omega arith, omega arith) in
    elim (Bool-cases (rule.uid == all)) [
      | inl e ↦ elim (Bool-cases (rule.pid == all)) [
        | inl f ↦ rw (e, f) (slash, tt)
        | inr f ↦ rw (e, f) (slash, decimal-Plain rule.pid)
      ]
      | inr e ↦ elim (Bool-cases (rule.pid == all)) [
        | inl f ↦ rw (e, f) (decimal-Plain rule.uid)
        | inr f ↦
            rw (e, f)
              (All-append Plain (decimal rule.uid) _ (decimal-Plain rule.uid)
                (slash, decimal-Plain rule.pid))
      ]
    ]

-- There is a `!` in the text, and no space before it.
Bang : List ℕ → Type 0
Bang [] = ⊥
Bang (c ∷ s) = (c ≡ b'!') ⊎ ((c == 32) ≡ false × Bang s)

after_prefix-Bang :
    (p s rest : List ℕ) → Bang p → All Plain s → Ends rest → after_prefix p (s ++ rest) ≡ none
unfolding after_prefix Bang Ends Plain
after_prefix-Bang [] s rest b a h = absurd b
after_prefix-Bang (c ∷ p) [] [] b a h = refl
after_prefix-Bang (c ∷ p) [] (d ∷ rest) b a h =
    rw h (elim b [ inl e ↦ rw e refl | inr (e, b') ↦ rw e refl ])
after_prefix-Bang (c ∷ p) (d ∷ s) rest b a h = elim (Bool-cases (c == d)) [
  | inr e ↦ rw e refl
  | inl e ↦ elim b [
    | inl f ↦ absurd (ground arith)
    | inr (f, b') ↦ rw e (after_prefix-Bang p s rest b' a.1 h)
  ]
]

-- What is left to do behind a rule.
unfoldable pub after_word : PruneList → List ℕ → Round
after_word list [] = stop true list
after_word list (c ∷ s) = next list s

ended-Ends : (list bad : PruneList) (s : List ℕ) → Ends s → ended list bad s ≡ after_word list s
unfolding ended Ends is_space after_word
ended-Ends list bad [] h = refl
ended-Ends list bad (c ∷ s) h = rw h refl

read_rule-format_prune :
    (high : Bool) (rule : Prune) (rest : List ℕ) (list : PruneList)
    → IsRule rule
    → Ends rest
    → read_rule high (format_prune rule ++ rest) list ≡ after_word (push_rule high rule list) rest
unfolding read_rule Numbers
read_rule-format_prune high rule rest list v h =
    let (s1, e, f) = format_prune-Numbers rule rest v h in
    rw (e, f, v.names_one) (ended-Ends _ list rest h)

-- What Format prints, one by one.
pub data Word : Type 0 where
  worst_uid worst_pid : Word
  rule_word : Bool → Prune → Word

unfoldable pub text : Word → List ℕ
text worst_uid = b'~' ∷ b'!' ∷ []
text worst_pid = b'~' ∷ worst_system_pid
text (rule_word true rule) = b'~' ∷ format_prune rule
text (rule_word false rule) = format_prune rule

unfoldable pub effect : Word → PruneList → PruneList
effect worst_uid list = record list { worst_uid_enabled = true }
effect worst_pid list = record list { worst_pid_of_system_enabled = true }
effect (rule_word high rule) list = push_rule high rule list

unfoldable pub IsWord : Word → Type 0
IsWord worst_uid = Unit {0}
IsWord worst_pid = Unit {0}
IsWord (rule_word high rule) = IsRule rule

pub format_prune-first :
    (rule : Prune) → (c : ℕ) × (s : List ℕ) × (format_prune rule ≡ c ∷ s) × Plain c
unfolding format_prune Plain is_digit
format_prune-first rule =
    let slash : Plain 47 = (omega arith, omega arith) in
    elim (Bool-cases (rule.uid == all)) [
      | inl e ↦ elim (Bool-cases (rule.pid == all)) [
        | inl f ↦ rw (e, f) (b'/', [], refl, slash)
        | inr f ↦ rw (e, f) (b'/', decimal rule.pid, refl, slash)
      ]
      | inr e ↦
          let (c, s, g, d) = decimal-first rule.uid in
          let plain : Plain c = (ground arith, ground arith) in
          elim (Bool-cases (rule.pid == all)) [
            | inl f ↦ rw (e, f) (c, s, g, plain)
            | inr f ↦ rw (e, f, g) (c, s ++ (b'/' ∷ decimal rule.pid), refl, plain)
          ]
    ]

unfoldable pub round_of : List ℕ → PruneList → Round
round_of [] list = stop true list
round_of (c ∷ s) list = round c s list

read_high-Plain :
    (c : ℕ) (s : List ℕ) (list : PruneList)
    → Plain c
    → after_prefix worst_system_pid (c ∷ s) ≡ none
    → read_high (c ∷ s) list ≡ read_rule true (c ∷ s) list
unfolding read_high Plain
read_high-Plain c s list p h = rw (ne→==_false c b'!' (λ e. omega arith), h) refl

round-Plain :
    (c : ℕ) (s : List ℕ) (list : PruneList)
    → Plain c
    → round c s list ≡ read_rule false (c ∷ s) list
unfolding round is_space Plain
round-Plain c s list p =
    let space : is_space c ≡ false = ground arith in
    rw (space, ne→==_false c b'~' (λ e. omega arith), ne→==_false c b'!' (λ e. omega arith)) refl

pub round_of-text :
    (w : Word) (rest : List ℕ) (list : PruneList)
    → IsWord w
    → Ends rest
    → round_of (text w ++ rest) list ≡ after_word (effect w list) rest
unfolding round_of round text effect IsWord is_space read_high after_prefix Bang Plain
round_of-text worst_uid rest list v h = ended-Ends _ _ rest h
round_of-text worst_pid rest list v h = ended-Ends _ _ rest h
round_of-text (rule_word true rule) rest list v h =
    let (c, s, e, p) = format_prune-first rule in
    let none_there =
      after_prefix-Bang worst_system_pid (format_prune rule) rest
        (inr (refl, inr (refl, inr (refl, inr (refl, inr (refl, inl refl))))))
        (format_prune-Plain rule) h in
    let mine = read_rule-format_prune true rule rest list v h in
    (rw e (read_high-Plain c (s ++ rest) list p (rw e at none_there))) ∙ mine
round_of-text (rule_word false rule) rest list v h =
    let (c, s, e, p) = format_prune-first rule in
    let mine = read_rule-format_prune false rule rest list v h in
    (rw e (round-Plain c (s ++ rest) list p)) ∙ mine
