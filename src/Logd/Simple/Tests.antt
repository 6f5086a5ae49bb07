-- ===== src/Logd/Simple/Tests.antt =====
-- Runs of SimpleLogBuffer, and the theorems at concrete buffers.
use android_system_logging.Common.{
  ℕ, ◌+◌, ◌^◌, ◌≡◌, refl, true, false, ◌||◌, none, List, [], ◌∷◌, filter, not, ◌&&◌, leb, ◌==◌,
  arith, Succeeds, update,
}
use android_system_logging.Liblog.LogTime.{epoch}
use android_system_logging.Logd.Element.{LogBufferElement, kept, to_log_statistics_element}
use android_system_logging.Logd.Serialized.FlushState.{in_mask}
use android_system_logging.Logd.Statistics.Calls.{add}
use android_system_logging.Logd.Serialized.Write.{Levels, Message}
use android_system_logging.Logd.Statistics.Entries.{Names}
use android_system_logging.Logd.Statistics.Tables.{new_statistics}
use android_system_logging.Logd.Simple.{
  SimpleLogBuffer, Reader, find_log, get_oldest, is_watching, oldest_reader, prune,
}
use android_system_logging.Logd.Simple.Calls.{log, clear}
use android_system_logging.Logd.Simple.Flush.{
  Client, create_flush_to_state, from_start, flush_to, flush_loop, search_back, may_see, with_tid,
}
use android_system_logging.Logd.Simple.Oldest.{IsCached, get_oldest-find_log}
use android_system_logging.Logd.Simple.Pruning.{prune_lem}
use android_system_logging.Logd.Simple.Taking.{free, candidates, without, min}
use android_system_logging.Logd.Simple.Readers.{prune-readers, prune-others}
use android_system_logging.Logd.Simple.Counted.{total, Sums, CountersOf, add-CountersOf}
use android_system_logging.Logd.Simple.Invariant.{
  IsSimpleLogBuffer, log-IsSimpleLogBuffer, clear-IsSimpleLogBuffer,
}
use android_system_logging.Logd.Simple.Clearing.{Fits, clear-empties, clear-unwatched}
use android_system_logging.Logd.Simple.Sequence.{IsSequenced, log-IsSequenced}
use android_system_logging.Logd.Simple.Resuming.{
  Ascending, from_sequence, started, GoesOn, from_start-from_sequence,
}
use android_system_logging.Logd.Simple.Sending.{flush_to-again, flush_to-idle}

abbrev no_names : Names
no_names = record { pid_to_name = λ _. none; tid_to_name = λ _. none; tag_to_name = λ _. none }

abbrev all_levels : Levels
all_levels = record { tag_to_name = λ _. none; is_loggable = λ _ _. true }

abbrev empty_buffer : SimpleLogBuffer
empty_buffer = record {
  logs = [];
  oldest = λ _. none;
  max_size = λ _. 2 ^ 16;
  sequence = 1;
  stats = new_statistics false true none epoch 0;
  readers = [];
}

abbrev an_element : ℕ → ℕ → LogBufferElement
an_element sequence log_id = record {
  uid = 1000;
  pid = 20;
  tid = 21;
  sequence = sequence;
  realtime = epoch;
  log_id = log_id;
  body = kept (4 ∷ b't' ∷ 0 ∷ b'm' ∷ 0 ∷ []);
}

abbrev a_message : Message
a_message = record {
  log_id = 3;
  realtime = epoch;
  uid = 1000;
  pid = 20;
  tid = 21;
  msg = 4 ∷ b't' ∷ 0 ∷ b'm' ∷ 0 ∷ [];
}

-- A reader of the system log that has read up to 2.
abbrev a_reader : Reader
a_reader = record {
  log_mask = 8;
  start = 3;
  has_deadline = false;
  release = false;
  triggers = 0;
  skip_ahead = λ _. 0;
}

abbrev three_elements : List LogBufferElement
three_elements = an_element 1 0 ∷ an_element 2 3 ∷ an_element 3 3 ∷ []

abbrev three_buffer : SimpleLogBuffer
three_buffer = record empty_buffer { logs = three_elements; sequence = 4; readers = a_reader ∷ [] }

empty_buffer-IsCached : IsCached empty_buffer
unfolding IsCached
empty_buffer-IsCached i k h = cc

three_buffer-IsCached : IsCached three_buffer
unfolding IsCached
three_buffer-IsCached i k h = cc

empty_buffer-IsSimpleLogBuffer : IsSimpleLogBuffer empty_buffer
unfolding CountersOf Sums new_statistics total
empty_buffer-IsSimpleLogBuffer = record {
  cached = empty_buffer-IsCached;
  counted = (λ i. refl, λ i. refl, λ i. refl);
}

get_oldest-find_log_example : (get_oldest 3 three_buffer).0 ≡ find_log 3 three_elements
get_oldest-find_log_example = get_oldest-find_log 3 three_buffer three_buffer-IsCached

prune_lem_example :
    ((prune no_names 3 5 0 three_buffer).1.logs
      ≡ without 3 0
          (min 5 (free 3 0 (oldest_reader 3 0 none (a_reader ∷ [])) three_elements))
          three_elements)
    × ((prune no_names 3 5 0 three_buffer).0 ≡ (
        leb 5 (free 3 0 (oldest_reader 3 0 none (a_reader ∷ [])) three_elements)
        || free 3 0 (oldest_reader 3 0 none (a_reader ∷ [])) three_elements
          == candidates 3 0 three_elements))
prune_lem_example =
    prune_lem no_names 3 5 0 three_buffer three_buffer-IsCached (omega arith) (omega arith)

a_reader-watching : is_watching 3 a_reader ≡ true
unfolding is_watching in_mask
a_reader-watching = refl

prune-readers_example :
    filter (λ e. leb 3 e.sequence) (prune no_names 3 5 0 three_buffer).1.logs
    ≡ filter (λ e. leb 3 e.sequence) three_elements
prune-readers_example =
    prune-readers no_names 3 5 0 three_buffer [] [] a_reader three_buffer-IsCached (omega arith)
      (omega arith) refl a_reader-watching

prune-others_example :
    (filter (λ e. not (e.log_id == 3)) (prune no_names 3 5 1000 three_buffer).1.logs
      ≡ filter (λ e. not (e.log_id == 3)) three_elements)
    × (filter
          (λ e. not (1000 == 0) && not (e.uid == 1000))
          (prune no_names 3 5 1000 three_buffer).1.logs
        ≡ filter (λ e. not (1000 == 0) && not (e.uid == 1000)) three_elements)
prune-others_example =
    prune-others no_names 3 5 1000 three_buffer three_buffer-IsCached (omega arith) (omega arith)

log-IsSimpleLogBuffer_example :
    Succeeds (log no_names all_levels a_message empty_buffer) (λ r. IsSimpleLogBuffer r.1)
log-IsSimpleLogBuffer_example =
    log-IsSimpleLogBuffer no_names all_levels a_message empty_buffer (omega arith)
      empty_buffer-IsSimpleLogBuffer

-- One element, counted.
abbrev one_buffer : SimpleLogBuffer
one_buffer = record empty_buffer {
  logs = an_element 1 3 ∷ [];
  sequence = 2;
  stats = add no_names (to_log_statistics_element (an_element 1 3)) empty_buffer.stats;
}

one_buffer-Fits : Fits one_buffer
unfolding IsCached
one_buffer-Fits = record {
  simple = record {
    cached = λ i k h. cc;
    counted =
        add-CountersOf no_names (an_element 1 3) [] [] empty_buffer.stats
          empty_buffer-IsSimpleLogBuffer.counted;
  };
  short = omega arith;
}

clear-IsSimpleLogBuffer_example : IsSimpleLogBuffer (clear no_names (λ c. c) 3 0 one_buffer).1
clear-IsSimpleLogBuffer_example =
    clear-IsSimpleLogBuffer no_names (λ c. c) 3 0 one_buffer (λ c v. v) one_buffer-Fits.simple

clear-unwatched_example :
    ((clear no_names (λ c. c) 3 0 one_buffer).0 ≡ true)
    × (candidates 3 0 (clear no_names (λ c. c) 3 0 one_buffer).1.logs ≡ 0)
clear-unwatched_example = clear-unwatched no_names 3 0 (λ c. c) one_buffer one_buffer-Fits tt

clear-empties_example : candidates 3 0 (clear no_names (λ c. c) 3 0 one_buffer).1.logs ≡ 0
clear-empties_example =
    clear-empties no_names 3 0 (λ c. c) one_buffer (λ c v. v) one_buffer-Fits
      (clear-unwatched no_names 3 0 (λ c. c) one_buffer one_buffer-Fits tt).0

empty_buffer-IsSequenced : IsSequenced [] 1
unfolding Ascending
empty_buffer-IsSequenced = record { ascending = tt; positive = tt; below = tt; begun = omega arith }

log-IsSequenced_example :
    Succeeds
      (log no_names all_levels a_message empty_buffer)
      (λ r. IsSequenced r.1.logs r.1.sequence)
log-IsSequenced_example =
    log-IsSequenced no_names all_levels a_message empty_buffer (omega arith) empty_buffer-IsCached
      (omega arith) empty_buffer-IsSequenced

three_elements-Ascending : Ascending three_elements
unfolding Ascending
three_elements-Ascending = ((omega arith, (omega arith, tt)), ((omega arith, tt), (tt, tt)))

from_start-from_sequence_example : from_start 2 three_elements ≡ from_sequence 2 three_elements
from_start-from_sequence_example =
    from_start-from_sequence 2 three_elements three_elements-Ascending
      (omega arith, (omega arith, (omega arith, tt)))

-- It writes down the sequence numbers that it is sent.
abbrev a_client : Client (List ℕ)
a_client = record {
  privileged = true;
  uid = 0;
  filter = none;
  write = λ e same_tid s. (true, e.sequence ∷ s);
}

a_client-GoesOn : GoesOn a_client
unfolding GoesOn
a_client-GoesOn e s h = cc

two_elements-start : from_start 2 (an_element 1 0 ∷ an_element 2 3 ∷ []) ≡ an_element 2 3 ∷ []
unfolding from_start search_back
two_elements-start = refl

-- The first flush sends 2, the second one what is new.
two_elements-flush :
    flush_to a_client (an_element 1 0 ∷ an_element 2 3 ∷ []) (create_flush_to_state 2 8) [] ≡ (
      true,
      started 3 (record (create_flush_to_state 2 8) {
        drop_chatty_messages = false;
        last_tid = update (λ _. 0) 3 21;
      }),
      2 ∷ [],
    )
unfolding flush_to flush_loop from_start create_flush_to_state search_back may_see in_mask with_tid
two_elements-flush = refl

flush_to-again_example :
    flush_to a_client three_elements
      (started 3 (record (create_flush_to_state 2 8) {
        drop_chatty_messages = false;
        last_tid = update (λ _. 0) 3 21;
      }))
      (2 ∷ [])
    ≡ flush_to a_client three_elements (create_flush_to_state 2 8) []
unfolding create_flush_to_state
flush_to-again_example =
    flush_to-again a_client (an_element 1 0 ∷ an_element 2 3 ∷ []) [] [] (an_element 3 3)
      (an_element 2 3) (create_flush_to_state 2 8) _ [] (2 ∷ []) three_elements-Ascending
      (omega arith, (omega arith, (omega arith, tt))) (omega arith) a_client-GoesOn
      two_elements-start two_elements-flush

flush_to-idle_example :
    (flush_to a_client (an_element 1 0 ∷ an_element 2 3 ∷ []) (create_flush_to_state 3 8) []
      ≡ (true, started (3 + 1) (create_flush_to_state 3 8), []))
    × (from_start (3 + 1) three_elements ≡ [])
unfolding create_flush_to_state
flush_to-idle_example =
    flush_to-idle a_client (an_element 1 0 ∷ an_element 2 3 ∷ []) [] (an_element 3 3)
      (create_flush_to_state 3 8) [] three_elements-Ascending
      (omega arith, (omega arith, (omega arith, tt))) (omega arith) refl
