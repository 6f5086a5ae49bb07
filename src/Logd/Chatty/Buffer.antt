-- ===== src/Logd/Chatty/Buffer.antt =====
-- The state of ChattyLogBuffer and its Erase (logd/ChattyLogBuffer.{h,cpp}). The saved elements of
-- LogInternal are in ChattyLogs. An iterator into the list is a place, or stale where its element is
-- gone; `none` is a failed CHECK, or an access by a stale iterator.
use android_system_logging.Common.{
  ℕ, ◌+◌, ◌-◌, ◌*◌, ◌%◌, ◌^◌, Bool, true, false, ◌&&◌, ◌||◌, Option, none, some, List, [], ◌∷◌,
  get_elem?, modify_at, lookup, assign, remove, nat_key, ltb, leb, ◌==◌, if◌then◌else◌, ◌>>=◌,
  update,
}
use android_system_logging.Liblog.LogId.{log_id_events, log_id_security}
use android_system_logging.Liblog.LogTime.{ns_per_sec, nsec}
use android_system_logging.Logd.Element.{
  LogBufferElement, get_tag, set_dropped, dropped_count, to_log_statistics_element,
}
use android_system_logging.Logd.Simple.{SimpleLogBuffer}
use android_system_logging.Logd.Simple
use android_system_logging.Logd.Statistics.Entries.{Names, minus64}
use android_system_logging.Logd.Statistics.Calls.{subtract, erase_element}
use Prim.Native.Nat.{bit_or}

pub data Iterator : Type 0 where
  at : ℕ → Iterator
  stale : Iterator

abbrev pub Watermarks : Type 0
Watermarks = ℕ → ℕ → Option Iterator

pub record ChattyLogBuffer : Type 0 where
  pub simple : SimpleLogBuffer
  pub last_worst : Watermarks
  pub last_worst_pid_of_system : Watermarks

-- The tag or the user by which the elements of a log are counted.
unfoldable pub worst_key : LogBufferElement → ℕ
worst_key e = if e.log_id == log_id_events || e.log_id == log_id_security then get_tag e else e.uid

unfoldable pub is_at : ℕ → Option Iterator → Bool
is_at it none = false
is_at it (some (at k)) = k == it
is_at it (some stale) = false

unfoldable pub forget : ℕ → ℕ → ℕ → Watermarks → Watermarks
forget id key it marks =
    if is_at it (marks id key) then update marks id (update (marks id) key none) else marks

-- An iterator when the node at `it` is gone.
unfoldable pub shifted : ℕ → Option Iterator → Option Iterator
shifted it none = none
shifted it (some (at k)) =
    if k == it then some stale else if ltb it k then some (at (k - 1)) else some (at k)
shifted it (some stale) = some stale

module _ (names : Names) where
  unfoldable pub count_erased : Bool → LogBufferElement → SimpleLogBuffer → Option SimpleLogBuffer
  count_erased true e b = do
    stats ← erase_element names (to_log_statistics_element e) b.stats
    some (record b { stats = stats })
  count_erased false e b =
      some (record b { stats = subtract names (to_log_statistics_element e) b.stats })

  -- Erase of the element at `it`.
  unfoldable pub erase : Bool → ℕ → LogBufferElement → ChattyLogBuffer → Option ChattyLogBuffer
  erase coalesce it e b =
      let worst = forget e.log_id (worst_key e) it b.last_worst in
      let worst_pid = forget e.log_id e.pid it b.last_worst_pid_of_system in
      (count_erased coalesce e b.simple >>= (λ counted. some (record {
        simple = Simple.erase it counted;
        last_worst = λ id key. shifted it (worst id key);
        last_worst_pid_of_system = λ id key. shifted it (worst_pid id key);
      })))

-- LogBufferElementLast: the last place of a user, process and thread. These places stand before the
-- iterator of the loop, so that erasing the element there leaves them.
abbrev pub LogBufferElementLast : Type 0
LogBufferElementLast = List (ℕ × ℕ)

unfoldable pub element_key : LogBufferElement → ℕ
element_key e = bit_or (bit_or (e.uid * 2 ^ 32 % 2 ^ 64) (e.pid * 2 ^ 16 % 2 ^ 64)) e.tid

unfoldable pub coalesce_at :
    ℕ
    → ℕ
    → Option ℕ
    → LogBufferElementLast
    → List LogBufferElement
    → Option (Bool × LogBufferElementLast × List LogBufferElement)
coalesce_at key dropped none last logs = some (false, last, logs)
coalesce_at key dropped (some place) last logs = do
  found ← get_elem? logs place
  some (
      if ltb (2 ^ 16 - 1) (dropped + dropped_count found)
      then (false, remove key last, logs)
      else (true, last, modify_at place (set_dropped (dropped + dropped_count found)) logs))

-- Whether the count went to an earlier element.
unfoldable pub coalesce :
    LogBufferElement
    → ℕ
    → LogBufferElementLast
    → List LogBufferElement
    → Option (Bool × LogBufferElementLast × List LogBufferElement)
coalesce e dropped last logs =
    coalesce_at (element_key e) dropped (lookup (element_key e) last) last logs

unfoldable pub add_last : LogBufferElement → ℕ → LogBufferElementLast → LogBufferElementLast
add_last e it last = assign (element_key e) it last

-- EXPIRE_RATELIMIT and EXPIRE_THRESHOLD.
abbrev expire_ratelimit : ℕ
expire_ratelimit = 10

abbrev expire_threshold : ℕ
expire_threshold = 10

unfoldable pub is_expired : ℕ → LogBufferElement → Bool
is_expired current e = leb expire_threshold (dropped_count e) && ltb (nsec e.realtime) current

unfoldable pub clear_before :
    ℕ → LogBufferElementLast → List LogBufferElement → Option LogBufferElementLast
clear_before current [] logs = some []
clear_before current ((key, place) ∷ last) logs = do
  e ← get_elem? logs place
  rest ← clear_before current last logs
  some (if is_expired current e then rest else (key, place) ∷ rest)

-- clear(element).
unfoldable pub clear_expired :
    LogBufferElement → LogBufferElementLast → List LogBufferElement → Option LogBufferElementLast
clear_expired e last logs =
    clear_before (minus64 (nsec e.realtime) (expire_ratelimit * ns_per_sec)) last logs
