-- ===== src/Logd/PruneList.antt =====
-- Prune and PruneList of logd/PruneList.{h,cpp}: the rules that choose what is pruned first. A string
-- is the list of its characters before the NUL. The two properties that Init reads are the caller's.
-- pid_t counts in 32 bits here; in the source a larger number overflows.
use android_system_logging.Common.{
  ℕ, zero, suc, ◌-◌, ◌^◌, Bool, true, false, ◌&&◌, ◌||◌, not, Option, none, some, List, [], ◌∷◌,
  ◌++◌, map, ◌==◌, if◌then◌else◌, length, same_bytes,
}
use android_system_logging.Common.Text.{is_digit, is_space, decimal, read_digits}
use android_system_logging.Logd.Element.{LogBufferElement}
pub mod Rules
pub mod Words
pub mod RoundTrip
pub mod Loop
mod Tests

-- Prune::UID_ALL and Prune::PID_ALL.
abbrev pub all : ℕ
all = 2 ^ 32 - 1

pub record Prune : Type 0 where
  pub uid : ℕ
  pub pid : ℕ

unfoldable pub matches : LogBufferElement → Prune → Bool
matches e rule = (rule.uid == all || rule.uid == e.uid) && (rule.pid == all || rule.pid == e.pid)

unfoldable pub format_prune : Prune → List ℕ
format_prune rule =
    if not (rule.uid == all)
    then if not (rule.pid == all)
      then decimal rule.uid ++ (b'/' ∷ decimal rule.pid)
      else decimal rule.uid
    else if not (rule.pid == all)
    then b'/' ∷ decimal rule.pid
    else b'/' ∷ []

pub record PruneList : Type 0 where
  pub high_priority_prune : List Prune
  pub low_priority_prune : List Prune
  pub worst_uid_enabled : Bool
  pub worst_pid_of_system_enabled : Bool

abbrev pub no_rules : PruneList
no_rules = record {
  high_priority_prune = [];
  low_priority_prune = [];
  worst_uid_enabled = false;
  worst_pid_of_system_enabled = false;
}

abbrev any_matches : LogBufferElement → List Prune → Bool
any_matches e [] = false
any_matches e (rule ∷ rules) = if matches e rule then true else any_matches e rules

unfoldable pub is_high_priority : LogBufferElement → PruneList → Bool
is_high_priority e list = any_matches e list.high_priority_prune

unfoldable pub is_low_priority : LogBufferElement → PruneList → Bool
is_low_priority e list = any_matches e list.low_priority_prune

-- What one round of the loop of Init does: it returns, or `++str` is followed by the next round.
pub data Round : Type 0 where
  stop : Bool → PruneList → Round
  next : PruneList → List ℕ → Round

-- Nothing but the end or a space may follow a rule.
unfoldable pub ended : PruneList → PruneList → List ℕ → Round
ended list bad [] = stop true list
ended list bad (c ∷ s) = if is_space c then next list s else stop false bad

-- What follows `prefix` in the string, if it starts with it.
unfoldable pub after_prefix : List ℕ → List ℕ → Option (List ℕ)
after_prefix [] s = some s
after_prefix (p ∷ ps) [] = none
after_prefix (p ∷ ps) (c ∷ s) = if p == c then after_prefix ps s else none

abbrev pub worst_system_pid : List ℕ
worst_system_pid = b'1' ∷ b'0' ∷ b'0' ∷ b'0' ∷ b'/' ∷ b'!' ∷ []

unfoldable pub number : List ℕ → ℕ × List ℕ
number [] = (all, [])
number (c ∷ s) = if is_digit c then read_digits 0 (c ∷ s) else (all, c ∷ s)

unfoldable pub after_slash : List ℕ → ℕ × List ℕ
after_slash [] = (all, [])
after_slash (c ∷ s) = if c == b'/' then number s else (all, c ∷ s)

unfoldable pub push_rule : Bool → Prune → PruneList → PruneList
push_rule high rule list =
    if high
    then record list { high_priority_prune = list.high_priority_prune ++ (rule ∷ []) }
    else record list { low_priority_prune = list.low_priority_prune ++ (rule ∷ []) }

unfoldable pub read_rule : Bool → List ℕ → PruneList → Round
read_rule high s list =
    let (uid, s1) = number s in
    let (pid, s2) = after_slash s1 in
    if uid == all && pid == all
    then stop false list
    else ended (push_rule high (record { uid = uid; pid = pid }) list) list s2

-- The rule after `~` or `!`.
unfoldable pub read_high : List ℕ → PruneList → Round
read_high [] list = stop false list
read_high (c ∷ s) list =
    let worst_uid = record list { worst_uid_enabled = true } in
    let worst_pid = record list { worst_pid_of_system_enabled = true } in
    if c == b'!'
    then ended worst_uid worst_uid s
    else elim (after_prefix worst_system_pid (c ∷ s)) [
      | some rest ↦ ended worst_pid worst_pid rest
      | none ↦ read_rule true (c ∷ s) list
    ]

unfoldable pub round : ℕ → List ℕ → PruneList → Round
round c s list =
    if is_space c
    then next list s
    else if c == b'~' || c == b'!'
    then read_high s list
    else read_rule false (c ∷ s) list

-- `none` is out of fuel.
unfoldable pub rounds : ℕ → List ℕ → PruneList → Option (Bool × PruneList)
rounds fuel [] list = some (true, list)
rounds zero (c ∷ s) list = none
rounds (suc fuel) (c ∷ s) list = elim (round c s list) [
  | stop ok list' ↦ some (ok, list')
  | next list' s' ↦ rounds fuel s' list'
]

abbrev pub default_word : List ℕ
default_word = b'd' ∷ b'e' ∷ b'f' ∷ b'a' ∷ b'u' ∷ b'l' ∷ b't' ∷ []

abbrev pub disable_word : List ℕ
disable_word = b'd' ∷ b'i' ∷ b's' ∷ b'a' ∷ b'b' ∷ b'l' ∷ b'e' ∷ []

-- "~! ~1000/!"
abbrev internal_default : List ℕ
internal_default = b'~' ∷ b'!' ∷ 32 ∷ b'~' ∷ worst_system_pid

-- The filter that the argument of Init, `none` for a null pointer, and the properties
-- ro.logd.filter and persist.logd.filter choose.
unfoldable pub from_properties : List ℕ → List ℕ → List ℕ
from_properties ro persist = if same_bytes persist default_word then ro else persist

unfoldable pub from_argument : List ℕ → List ℕ → Option (List ℕ) → List ℕ
from_argument ro persist none = from_properties ro persist
from_argument ro persist (some str) =
    if same_bytes str default_word
    then from_properties ro persist
    else if same_bytes str disable_word
    then []
    else str

unfoldable pub resolved : List ℕ → List ℕ
resolved filter =
    if same_bytes filter default_word
    then internal_default
    else if same_bytes filter disable_word
    then []
    else filter

unfoldable pub init : List ℕ → List ℕ → Option (List ℕ) → Option (Bool × PruneList)
init ro persist str =
    let filter = resolved (from_argument ro persist str) in
    rounds (suc (length filter)) filter no_rules

-- android::base::Join with " ".
abbrev pub join : List (List ℕ) → List ℕ
join [] = []
join (s ∷ []) = s
join (s ∷ t ∷ ss) = s ++ (32 ∷ join (t ∷ ss))

unfoldable pub prune_rules : PruneList → List (List ℕ)
prune_rules list =
    (if list.worst_uid_enabled then (b'~' ∷ b'!' ∷ []) ∷ [] else [])
    ++ ((if list.worst_pid_of_system_enabled then (b'~' ∷ worst_system_pid) ∷ [] else [])
        ++ (map format_prune list.low_priority_prune
            ++ map (λ rule. b'~' ∷ format_prune rule) list.high_priority_prune))

unfoldable pub format : PruneList → List ℕ
format list = join (prune_rules list)
