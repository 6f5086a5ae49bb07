-- ===== src/Logd/Statistics/Table.antt =====
-- LogHashtable of logd/LogStatistics.h: a table from keys to entries. What is estimated of its memory
-- is not modelled.
use android_system_logging.Common.{none, some, List, if◌then◌else◌, Key, lookup, assign, remove}
use android_system_logging.Logd.Statistics.{LogStatisticsElement}
use android_system_logging.Logd.Statistics.Entries.{Entry, base_subtract, base_drop, base_erase}

abbrev pub LogHashtable : Type 0 → Type 0 → Type 0
LogHashtable K E = List (K × E)

module _ {K E : Type 0} ⦃k : Key K⦄ (o : Entry E) where
  unfoldable pub table_add : K → LogStatisticsElement → LogHashtable K E → LogHashtable K E
  table_add key e t = elim (lookup key t) [
    | none ↦ assign key (o.make e) t
    | some x ↦ assign key (o.merge e x) t
  ]

  unfoldable pub table_subtract : K → LogStatisticsElement → LogHashtable K E → LogHashtable K E
  table_subtract key e t = elim (lookup key t) [
    | none ↦ t
    | some x ↦
        let (is_done, b) = base_subtract e (o.base x) in
        if is_done then remove key t else assign key (o.with_base b x) t
  ]

  unfoldable pub table_drop : K → LogStatisticsElement → LogHashtable K E → LogHashtable K E
  table_drop key e t = elim (lookup key t) [
    | none ↦ t
    | some x ↦ assign key (o.with_base (base_drop e (o.base x)) x) t
  ]

  unfoldable pub table_erase : K → LogStatisticsElement → LogHashtable K E → LogHashtable K E
  table_erase key e t = elim (lookup key t) [
    | none ↦ t
    | some x ↦ assign key (o.with_base (base_erase e (o.base x)) x) t
  ]
