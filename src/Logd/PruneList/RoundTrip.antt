-- ===== src/Logd/PruneList/RoundTrip.antt =====
-- What PruneList::Format prints and PruneList::Init reads again (logd/PruneList.cpp).
use android_system_logging.Common.{
  ℕ, zero, suc, subst, sym, ap, ◌∙◌, ◌+◌, ◌≤◌, ◌≡◌, refl, ◌==◌, Bool, true, false, some, List, [],
  ◌∷◌, ◌++◌, append_assoc, append-nil, All, All-append, map, arith, length, inl, inr, ne→==_false,
  Bool-cases, if◌then◌else◌, same_bytes,
}
use android_system_logging.Logd.PruneList.{
  Prune, PruneList, format_prune, prune_rules, format, join, stop, next, push_rule, rounds,
  default_word, disable_word, resolved, from_argument, init, no_rules,
}
use android_system_logging.Logd.PruneList.Words.{
  IsRule, Ends, Word, worst_uid, worst_pid, rule_word, text, effect, IsWord, round_of, after_word,
  round_of-text, Plain, format_prune-first,
}
use android_system_logging.Logd.PruneList.Loop.{init_lem}

unfoldable pub IsPruneList : PruneList → Type 0
IsPruneList list = All IsRule list.low_priority_prune × All IsRule list.high_priority_prune

effects : List Word → PruneList → PruneList
effects [] list = list
effects (w ∷ ws) list = effects ws (effect w list)

rounds-stop :
    (s : List ℕ) (n : ℕ) (list : PruneList) {ok : Bool} {list' : PruneList}
    → round_of s list ≡ stop ok list'
    → rounds (suc n) s list ≡ some (ok, list')
unfolding rounds round_of
rounds-stop [] n list e = cc
rounds-stop (c ∷ s) n list e = rw (rounds, e) refl

rounds-next :
    (s : List ℕ) (n : ℕ) (list : PruneList) {list' : PruneList} {s' : List ℕ}
    → round_of s list ≡ next list' s'
    → rounds (suc n) s list ≡ rounds n s' list'
unfolding rounds round_of
rounds-next [] n list e = cc
rounds-next (c ∷ s) n list e = rw (rounds, e) refl

rounds-nil : (n : ℕ) (list : PruneList) → rounds n [] list ≡ some (true, list)
unfolding rounds
rounds-nil n list = refl

-- The loop takes a round for each word.
rounds-join :
    (ws : List Word) (n : ℕ) (list : PruneList)
    → All IsWord ws
    → length ws ≤ n
    → rounds n (join (map text ws)) list ≡ some (true, effects ws list)
unfolding effects after_word Ends
rounds-join [] n list v h = rounds-nil n list
rounds-join (w ∷ []) zero list v h = absurd (omega arith)
rounds-join (w ∷ []) (suc n) list v h =
    rounds-stop (text w) n list (rw append-nil at (round_of-text w [] list v.0 tt))
rounds-join (w ∷ w' ∷ ws) zero list v h = absurd (omega arith)
rounds-join (w ∷ w' ∷ ws) (suc n) list v h =
    rounds-next (text w ++ (32 ∷ join (map text (w' ∷ ws)))) n list
      (round_of-text w _ list v.0 refl)
    ∙ rounds-join (w' ∷ ws) n (effect w list) v.1 (omega arith)

words : PruneList → List Word
words list =
    (if list.worst_uid_enabled then worst_uid ∷ [] else [])
    ++ ((if list.worst_pid_of_system_enabled then worst_pid ∷ [] else [])
        ++ (map (rule_word false) list.low_priority_prune
            ++ map (rule_word true) list.high_priority_prune))

texts-low :
    (rules : List Prune) (ws : List Word)
    → map text (map (rule_word false) rules ++ ws) ≡ map format_prune rules ++ map text ws
unfolding text
texts-low [] ws = refl
texts-low (rule ∷ rules) ws = ap (◌∷◌ (format_prune rule)) (texts-low rules ws)

texts-high :
    (rules : List Prune)
    → map text (map (rule_word true) rules) ≡ map (λ rule. b'~' ∷ format_prune rule) rules
unfolding text
texts-high [] = refl
texts-high (rule ∷ rules) = ap (◌∷◌ (b'~' ∷ format_prune rule)) (texts-high rules)

prune_rules-words : (list : PruneList) → prune_rules list ≡ map text (words list)
unfolding prune_rules words text
prune_rules-words list =
    let rules = texts-low list.low_priority_prune (map (rule_word true) list.high_priority_prune) in
    let highs = texts-high list.high_priority_prune in
    elim (Bool-cases list.worst_uid_enabled) [
      | inl e ↦ elim (Bool-cases list.worst_pid_of_system_enabled) [
        | inl f ↦ rw (e, f, rules, highs) refl
        | inr f ↦ rw (e, f, rules, highs) refl
      ]
      | inr e ↦ elim (Bool-cases list.worst_pid_of_system_enabled) [
        | inl f ↦ rw (e, f, rules, highs) refl
        | inr f ↦ rw (e, f, rules, highs) refl
      ]
    ]

effects-low :
    (rules : List Prune) (ws : List Word) (list : PruneList)
    → effects (map (rule_word false) rules ++ ws) list
      ≡ effects ws (record list { low_priority_prune = list.low_priority_prune ++ rules })
unfolding effects effect push_rule
effects-low [] ws list = rw append-nil refl
effects-low (rule ∷ rules) ws list = rw (effects-low rules ws, append_assoc) refl

effects-high :
    (rules : List Prune) (list : PruneList)
    → effects (map (rule_word true) rules) list
      ≡ record list { high_priority_prune = list.high_priority_prune ++ rules }
unfolding effects effect push_rule
effects-high [] list = rw append-nil refl
effects-high (rule ∷ rules) list = rw (effects-high rules, append_assoc) refl

effects-words : (list : PruneList) → effects (words list) no_rules ≡ list
unfolding effects words effect
effects-words list = elim (Bool-cases list.worst_uid_enabled) [
  | inl e ↦ elim (Bool-cases list.worst_pid_of_system_enabled) [
    | inl f ↦ rw (e, f, effects-low, effects-high) refl
    | inr f ↦ rw (e, f, effects-low, effects-high) refl
  ]
  | inr e ↦ elim (Bool-cases list.worst_pid_of_system_enabled) [
    | inl f ↦ rw (e, f, effects-low, effects-high) refl
    | inr f ↦ rw (e, f, effects-low, effects-high) refl
  ]
]

All-words :
    (high : Bool) (rules : List Prune) → All IsRule rules → All IsWord (map (rule_word high) rules)
unfolding IsWord
All-words high [] v = tt
All-words high (rule ∷ rules) v = (v.0, All-words high rules v.1)

words-IsWord : (list : PruneList) → IsPruneList list → All IsWord (words list)
unfolding words IsWord IsPruneList
words-IsWord list v =
    let rules =
      All-append IsWord (map (rule_word false) list.low_priority_prune) _
        (All-words false list.low_priority_prune v.0)
        (All-words true list.high_priority_prune v.1) in
    elim (Bool-cases list.worst_uid_enabled) [
      | inl e ↦ elim (Bool-cases list.worst_pid_of_system_enabled) [
        | inl f ↦ rw (e, f) (tt, (tt, rules))
        | inr f ↦ rw (e, f) (tt, rules)
      ]
      | inr e ↦ elim (Bool-cases list.worst_pid_of_system_enabled) [
        | inl f ↦ rw (e, f) (tt, rules)
        | inr f ↦ rw (e, f) rules
      ]
    ]

-- Not the first letter of "default" and of "disable".
Other : List ℕ → Type 0
Other [] = Unit {0}
Other (c ∷ s) = (c == b'd') ≡ false

resolved-Other :
    (ro persist s : List ℕ) → Other s → resolved (from_argument ro persist (some s)) ≡ s
unfolding resolved from_argument Other
resolved-Other ro persist [] h = refl
resolved-Other ro persist (c ∷ s) h =
    let f : same_bytes (c ∷ s) default_word ≡ false = rw h refl in
    let g : same_bytes (c ∷ s) disable_word ≡ false = rw h refl in simp (f, g) refl

text-Other : (w : Word) (s : List ℕ) → Other (text w ++ s)
unfolding Other text Plain
text-Other worst_uid s = refl
text-Other worst_pid s = refl
text-Other (rule_word true rule) s = refl
text-Other (rule_word false rule) s =
    let (c, r, e, p) = format_prune-first rule in rw e (ne→==_false c b'd' (λ e. omega arith))

join-Other : (ws : List Word) → Other (join (map text ws))
unfolding Other text
join-Other [] = tt
join-Other (w ∷ []) = subst Other (append-nil (text w)) (text-Other w [])
join-Other (w ∷ w' ∷ ws) = text-Other w _

-- What Format prints of a list of rules, Init reads back as the same list, whatever the properties
-- are: the uids fit 32 bits and the pids 31, or stand for all, and no rule is for all of both.
pub init-format :
    (ro persist : List ℕ) (list : PruneList)
    → IsPruneList list
    → init ro persist (some (format list)) ≡ some (true, list)
unfolding format
init-format ro persist list v =
    let s = join (map text (words list)) in
    let run =
      rounds-join (words list) (length s + length (words list)) no_rules (words-IsWord list v)
        (omega arith) in
    let (r, p, q) = init_lem ro persist (some s) in
    rw (prune_rules-words list) (
      p
      ∙ sym
          (rw (resolved-Other ro persist s (join-Other (words list))) at (q (length (words list))))
      ∙ run
      ∙ ap (λ (l : PruneList). some (true, l)) (effects-words list))
