-- ===== src/Logd/PruneList/Tests.antt =====
-- Runs of PruneList, and the theorems at concrete lists.
use android_system_logging.Common.{◌≡◌, refl, true, some, none, [], ◌∷◌, inl, inr, arith, Succeeds}
use android_system_logging.Logd.PruneList.{
  PruneList, init, format, no_rules, all, default_word, resolved, from_argument, rounds,
  from_properties, round, read_high, ended, after_prefix,
}
use android_system_logging.Common.Text.{is_space}
use android_system_logging.Logd.PruneList.RoundTrip.{IsPruneList, init-format}
use android_system_logging.Logd.PruneList.Rules.{IsNarrowList, init-IsNarrowList}

abbrev worst_list : PruneList
worst_list = record no_rules { worst_uid_enabled = true; worst_pid_of_system_enabled = true }

-- No argument and no properties set.
init-default : init default_word default_word none ≡ some (true, worst_list)
unfolding init rounds resolved from_argument from_properties round is_space read_high ended
    after_prefix
init-default = refl

-- "1000 ~/24 ~5/6"
abbrev three : PruneList
three = record no_rules {
  low_priority_prune = record { uid = 1000; pid = all } ∷ [];
  high_priority_prune = record { uid = all; pid = 24 } ∷ record { uid = 5; pid = 6 } ∷ [];
}

three-IsPruneList : IsPruneList three
unfolding IsPruneList
three-IsPruneList = (
  (record { uid_fits = omega arith; pid_fits = inr refl; names_one = refl }, tt),
  (
    record { uid_fits = omega arith; pid_fits = inl (omega arith); names_one = refl },
    (record { uid_fits = omega arith; pid_fits = inl (omega arith); names_one = refl }, tt),
  ),
)

init-format_example : init default_word default_word (some (format three)) ≡ some (true, three)
init-format_example = init-format default_word default_word three three-IsPruneList

-- "1 /": an error behind a rule that is kept.
init-IsNarrowList_example :
    Succeeds (init [] [] (some (b'1' ∷ 32 ∷ b'/' ∷ []))) (λ r. IsNarrowList r.1)
init-IsNarrowList_example = init-IsNarrowList [] [] (some (b'1' ∷ 32 ∷ b'/' ∷ []))
