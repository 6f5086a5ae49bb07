-- ===== src/Logd/Statistics/Entries.antt =====
-- EntryBase, EntryBaseDropped and the entries of the tables of logd/LogStatistics.h. Names are read
-- from /proc, and are the caller's.
use android_system_logging.Common.{
  ℕ, ◌+◌, ◌-◌, ◌%◌, ◌^◌, Bool, ◌&&◌, Option, none, some, List, [], ◌∷◌, take, ◌==◌, if◌then◌else◌,
  same_bytes,
}
use android_system_logging.Logd.Statistics.{LogStatisticsElement}

-- size_t: both wrap at 64 bits.
abbrev pub plus64 : ℕ → ℕ → ℕ
plus64 a b = (a + b) % 2 ^ 64

abbrev pub minus64 : ℕ → ℕ → ℕ
minus64 a b = (a + (2 ^ 64 - b % 2 ^ 64)) % 2 ^ 64

-- EntryBaseDropped, whose first field is that of EntryBase.
pub record EntryBaseDropped : Type 0 where
  pub size : ℕ
  pub dropped : ℕ

unfoldable pub base_of : LogStatisticsElement → EntryBaseDropped
base_of e = record { size = e.total_len; dropped = e.dropped_count }

unfoldable pub base_add : LogStatisticsElement → EntryBaseDropped → EntryBaseDropped
base_add e b = record {
  size = plus64 b.size e.total_len;
  dropped = plus64 b.dropped e.dropped_count;
}

unfoldable pub base_subtract : LogStatisticsElement → EntryBaseDropped → Bool × EntryBaseDropped
base_subtract e b =
    let size = minus64 b.size e.total_len in
    let dropped = minus64 b.dropped e.dropped_count in
    (size == 0 && dropped == 0, record { size = size; dropped = dropped })

unfoldable pub base_drop : LogStatisticsElement → EntryBaseDropped → EntryBaseDropped
base_drop e b = record { size = minus64 b.size e.msg_len; dropped = plus64 b.dropped 1 }

unfoldable pub base_erase : LogStatisticsElement → EntryBaseDropped → EntryBaseDropped
base_erase e b = record b { size = minus64 b.size e.total_len }

-- An entry is made of an element and takes others in; what it subtracts, drops and erases is its
-- base's. EntryBase of a TagNameEntry has no count of the dropped, and ends at size 0.
pub record Entry (E : Type 0) : Type 0 where
  pub make : LogStatisticsElement → E
  pub merge : LogStatisticsElement → E → E
  pub base : E → EntryBaseDropped
  pub with_base : EntryBaseDropped → E → E

-- (pid_t)-1 and (uid_t)-1.
abbrev mixed : ℕ
mixed = 2 ^ 32 - 1

pub record UidEntry : Type 0 where
  pub base : EntryBaseDropped
  pub pid : ℕ

abbrev pub uid_entry : Entry UidEntry
uid_entry = record {
  make = λ e. record { base = base_of e; pid = e.pid };
  merge = λ e x. record { base = base_add e x.base; pid = if x.pid == e.pid then x.pid else mixed };
  base = λ x. x.base;
  with_base = λ b x. record x { base = b };
}

pub record TagEntry : Type 0 where
  pub base : EntryBaseDropped
  pub tag : ℕ
  pub pid : ℕ
  pub uid : ℕ

abbrev pub tag_entry : Entry TagEntry
tag_entry = record {
  make = λ e. record { base = base_of e; tag = e.tag; pid = e.pid; uid = e.uid };
  merge = λ e x. record {
    base = base_add e x.base;
    tag = x.tag;
    pid = if x.pid == e.pid then x.pid else mixed;
    uid = if x.uid == e.uid then x.uid else mixed;
  };
  base = λ x. x.base;
  with_base = λ b x. record x { base = b };
}

pub record TagNameEntry : Type 0 where
  pub base : EntryBaseDropped
  pub tid : ℕ
  pub pid : ℕ
  pub uid : ℕ

abbrev pub tag_name_entry : Entry TagNameEntry
tag_name_entry = record {
  make = λ e. record {
    base = record { size = e.total_len; dropped = 0 };
    tid = e.tid;
    pid = e.pid;
    uid = e.uid;
  };
  merge = λ e x. record {
    base = record { size = plus64 x.base.size e.total_len; dropped = 0 };
    tid = if x.tid == e.tid then x.tid else mixed;
    pid = if x.pid == e.pid then x.pid else mixed;
    uid = if x.uid == e.uid then x.uid else mixed;
  };
  base = λ x. x.base;
  with_base = λ b x. record x { base = b };
}

-- android::pidToName, android::tidToName and android::tagToName.
pub record Names : Type 0 where
  pub pid_to_name : ℕ → Option (List ℕ)
  pub tid_to_name : ℕ → Option (List ℕ)
  pub tag_to_name : ℕ → Option (List ℕ)

-- A process of the zygote has not got its own name yet; a name that is missing is looked up.
unfoldable pub refreshed : Option (List ℕ) → Option (List ℕ) → Option (List ℕ)
refreshed none found = found
refreshed (some name) found =
    if same_bytes (take 6 name) (b'z' ∷ b'y' ∷ b'g' ∷ b'o' ∷ b't' ∷ b'e' ∷ [])
    then found
    else some name

pub record PidEntry : Type 0 where
  pub base : EntryBaseDropped
  pub uid : ℕ
  pub name : Option (List ℕ)

abbrev pub pid_entry : Names → Entry PidEntry
pid_entry names = record {
  make = λ e. record { base = base_of e; uid = e.uid; name = names.pid_to_name e.pid };
  merge = λ e x. record {
    base = base_add e x.base;
    uid = e.uid;
    name =
        if x.uid == e.uid
        then refreshed x.name (names.pid_to_name e.pid)
        else names.pid_to_name e.pid;
  };
  base = λ x. x.base;
  with_base = λ b x. record x { base = b };
}

pub record TidEntry : Type 0 where
  pub base : EntryBaseDropped
  pub pid : ℕ
  pub uid : ℕ
  pub name : Option (List ℕ)

abbrev pub tid_entry : Names → Entry TidEntry
tid_entry names = record {
  make = λ e. record { base = base_of e; pid = e.pid; uid = e.uid; name = names.tid_to_name e.tid };
  merge = λ e x. record {
    base = base_add e x.base;
    pid = e.pid;
    uid = e.uid;
    name =
        if x.uid == e.uid && x.pid == e.pid
        then refreshed x.name (names.tid_to_name e.tid)
        else names.tid_to_name e.tid;
  };
  base = λ x. x.base;
  with_base = λ b x. record x { base = b };
}
