-- ===== src/Liblog/LogTime.antt =====
-- struct log_time of liblog/include/log/log_time.h: two 32-bit words, seconds and nanoseconds.
use android_system_logging.Common.{
  ℕ, ◌+◌, ◌-◌, ◌*◌, ◌%◌, ◌^◌, ◌<◌, ◌≡◌, Bool, ◌&&◌, ◌||◌, not, arith, ltb, ◌==◌, if◌then◌else◌,
}

pub record LogTime : Type 0 where
  pub tv_sec : ℕ
  pub tv_nsec : ℕ

abbrev pub ns_per_sec : ℕ
ns_per_sec = 1_000_000_000

abbrev pub epoch : LogTime
epoch = record { tv_sec = 0; tv_nsec = 0 }

unfoldable pub time_eq : LogTime → LogTime → Bool
time_eq a b = a.tv_sec == b.tv_sec && a.tv_nsec == b.tv_nsec

unfoldable pub time_lt : LogTime → LogTime → Bool
time_lt a b = ltb a.tv_sec b.tv_sec || a.tv_sec == b.tv_sec && ltb a.tv_nsec b.tv_nsec

unfoldable pub time_gt : LogTime → LogTime → Bool
time_gt a b = ltb b.tv_sec a.tv_sec || a.tv_sec == b.tv_sec && ltb b.tv_nsec a.tv_nsec

unfoldable pub time_le : LogTime → LogTime → Bool
unfolding time_gt
time_le a b = not (time_gt a b)

-- `operator-=`: there is no negative time, so the difference stops at the epoch.
-- The words are 32 bits wide: NS_PER_SEC + tv_nsec is computed in 64 bits and cut on the store.
unfoldable pub time_sub : LogTime → LogTime → LogTime
unfolding time_le
time_sub a b =
    if time_le a b
    then epoch
    else if ltb a.tv_nsec b.tv_nsec
    then record {
      tv_sec = (a.tv_sec - 1 + 2 ^ 32 - b.tv_sec) % 2 ^ 32;
      tv_nsec = (ns_per_sec + a.tv_nsec - b.tv_nsec) % 2 ^ 32;
    }
    else record {
      tv_sec = (a.tv_sec + 2 ^ 32 - b.tv_sec) % 2 ^ 32;
      tv_nsec = a.tv_nsec - b.tv_nsec;
    }

-- `operator+=`: both words wrap at 32 bits.
unfoldable pub time_add : LogTime → LogTime → LogTime
time_add a b =
    let nsec = (a.tv_nsec + b.tv_nsec) % 2 ^ 32 in
    if ltb nsec ns_per_sec
    then record { tv_sec = (a.tv_sec + b.tv_sec) % 2 ^ 32; tv_nsec = nsec }
    else record {
      tv_sec = ((a.tv_sec + 1) % 2 ^ 32 + b.tv_sec) % 2 ^ 32;
      tv_nsec = nsec - ns_per_sec;
    }

unfoldable pub nsec : LogTime → ℕ
nsec t = (t.tv_sec * ns_per_sec + t.tv_nsec) % 2 ^ 64

-- A time that the clock can show.
pub record IsLogTime (t : LogTime) : Type 0 where
  pub sec_fits : t.tv_sec < 2 ^ 32
  pub nsec_fits : t.tv_nsec < ns_per_sec

-- Of two clock times, the difference is the difference of the nanoseconds, and 0 where the
-- second is the later one.
pub nsec-time_sub :
    (a b : LogTime) → IsLogTime a → IsLogTime b → nsec (time_sub a b) ≡ nsec a - nsec b
unfolding nsec time_sub
nsec-time_sub a b ha hb = ground arith

-- Two clock times are ordered the way their nanoseconds are.
time_lt-nsec : (a b : LogTime) → IsLogTime a → IsLogTime b → time_lt a b ≡ ltb (nsec a) (nsec b)
unfolding nsec time_lt
time_lt-nsec a b ha hb = ground arith

-- Subtracting what was added gives the time back, where the seconds do not overflow.
time_sub-time_add :
    (a b : LogTime)
    → IsLogTime a
    → IsLogTime b
    → a.tv_sec + b.tv_sec + 1 < 2 ^ 32
    → time_sub (time_add a b) b ≡ a
unfolding time_add time_sub
time_sub-time_add a b ha hb h = ground arith
