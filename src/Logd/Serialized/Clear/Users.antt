-- ===== src/Logd/Serialized/Clear/Users.antt =====
-- ClearLogsByUid of logd/SerializedLogBuffer.cpp and the entries of the user that it clears.
use android_system_logging.Common.{
  ℕ, zero, suc, ◌*◌, ◌≤◌, ◌≡◌, refl, sym, ap, ◌∙◌, subst, inl, inr, Bool, true, false, ◌||◌, List,
  [], ◌∷◌, ◌++◌, append_assoc, append-nil, arith, length, flatten, flatten-append, ◌>>=◌, Succeeds,
  Succeeds-map, Succeeds-result, Bool-cases,
}
use android_system_logging.Logd.Serialized.Entry.{SerializedLogEntry}
use android_system_logging.Logd.Serialized.Chunk.{Zstd, ZstdLaws}
use android_system_logging.Logd.Serialized.Nodes.{ChunkNode}
use android_system_logging.Logd.Serialized.Buffer.{Shared, fresh_node, contains_uid}
use android_system_logging.Logd.Serialized.Buffer.Stores.{
  Stores, LastActive, Stores-append, LastActive-append, fresh_node-IsStored,
}
use android_system_logging.Logd.Serialized.Buffer.Append.{Contains, fresh_node_active}
use android_system_logging.Logd.Serialized.Buffer.Readers.{Flush}
use android_system_logging.Logd.Serialized.Buffer.Links.{
  Linked, NoDangling, Linked-Released, NoDangling-Released,
}
use android_system_logging.Logd.Serialized.Buffer.Front.{subtractions, subtractions-append}
use android_system_logging.Logd.Serialized.Clear.{
  rewrite_entries, first_new_chunk, clear_loop, clear_logs_by_uid,
}
use android_system_logging.Logd.Serialized.Clear.Opening.{
  without, of_user, without-append, of_user-append, without_absent, rewrite_entries-Contains,
  open_chunk-IsStored, LastActive-tail, LastActive-single, close_chunk,
}

module _ (z : Zstd) (laws : ZstdLaws z) (log_id uid max_size : ℕ)
    (valid : 64 * 1024 ≤ max_size) where
  -- The new list so far: before the first entry of the user the old chunks are kept.
  abbrev Progress : Bool → List SerializedLogEntry → List ChunkNode → List ChunkNode → Type 0
  Progress true done nodes new_logs = Contains z done new_logs
  Progress false done nodes new_logs =
      (kss : List (List SerializedLogEntry)) × Stores z new_logs kss
      × (nodes ≡ [] → LastActive new_logs)
      × (flatten kss ≡ done)

  abbrev Cleared :
      List SerializedLogEntry
      → List (List SerializedLogEntry)
      → Shared
      → List ChunkNode × Shared
      → Type 0
  Cleared done ess sh s =
      Contains z (done ++ without uid (flatten ess)) s.0
      × (s.1.stats_calls ≡ subtractions log_id (of_user uid (flatten ess)) sh.stats_calls)
      × NoDangling log_id s.1.flush_states []

  Cleared-cons :
      (done es : List SerializedLogEntry) (ess : List (List SerializedLogEntry)) (sh sh' : Shared)
      (s : List ChunkNode × Shared)
      → sh'.stats_calls ≡ subtractions log_id (of_user uid es) sh.stats_calls
      → Cleared (done ++ without uid es) ess sh' s
      → Cleared done (es ∷ ess) sh s
  Cleared-cons done es ess sh sh' s stats (h, calls, safe) = (
    rw
        (
          without-append uid es (flatten ess),
          ← append_assoc done (without uid es) (without uid (flatten ess)),
        )
        h,
    calls
        ∙ rw (
          stats,
          of_user-append uid es (flatten ess),
          subtractions-append log_id (of_user uid es) (of_user uid (flatten ess)) sh.stats_calls,
        ),
    safe,
  )

  first_new_chunk-Contains :
      (contains : Bool) (done : List SerializedLogEntry) (nodes new_logs : List ChunkNode)
      (sh : Shared)
      → Progress contains done nodes new_logs
      → Contains z done (first_new_chunk max_size contains new_logs sh).0
        × ((first_new_chunk max_size contains new_logs sh).1.stats_calls ≡ sh.stats_calls)
        × ((first_new_chunk max_size contains new_logs sh).1.flush_states ≡ sh.flush_states)
  unfolding first_new_chunk
  first_new_chunk-Contains true done nodes new_logs sh h = (h, refl, refl)
  first_new_chunk-Contains false done nodes new_logs sh (kss, s, active, e) =
      let new = fresh_node sh.next_address max_size in
      (
        (
          kss ++ [] ∷ [],
          Stores-append z new_logs (new ∷ []) kss ([] ∷ []) s
              (fresh_node-IsStored z sh.next_address max_size, tt),
          LastActive-append new_logs new (fresh_node_active sh.next_address max_size),
          flatten-append kss ([] ∷ []) ∙ append-nil (flatten kss) ∙ e,
        ),
        refl,
        refl,
      )

  not_yet :
      (contains : Bool) (done : List SerializedLogEntry) (nodes new_logs : List ChunkNode)
      → contains ≡ false
      → Progress contains done nodes new_logs
      → Progress false done nodes new_logs
  not_yet true done nodes new_logs e p = cc
  not_yet false done nodes new_logs e p = p

  nothing_left :
      (contains : Bool) (done : List SerializedLogEntry) (new_logs : List ChunkNode) (sh : Shared)
      → Progress contains done [] new_logs
      → NoDangling log_id sh.flush_states []
      → Cleared done [] sh (new_logs, sh)
  unfolding subtractions without of_user
  nothing_left true done new_logs sh p safe = (rw append-nil p, refl, safe)
  nothing_left false done new_logs sh (kss, s, active, e) safe =
      ((kss, s, active refl, e ∙ sym (append-nil done)), refl, safe)

  same_calls :
      {es : List SerializedLogEntry} (sh : Shared)
      → es ≡ []
      → sh.stats_calls ≡ subtractions log_id es sh.stats_calls
  unfolding subtractions
  same_calls sh e = rw e

  clear_loop-Cleared :
      (fuel : ℕ) (contains : Bool) (nodes new_logs : List ChunkNode)
      (done : List SerializedLogEntry) (ess : List (List SerializedLogEntry)) (sh : Shared)
      → length nodes ≤ fuel
      → Stores z nodes ess
      → LastActive nodes
      → Linked log_id sh.flush_states nodes
      → NoDangling log_id sh.flush_states nodes
      → Progress contains done nodes new_logs
      → Succeeds
          (clear_loop z log_id fuel uid max_size contains nodes new_logs sh)
          (Cleared done ess sh)
  unfolding clear_loop
  clear_loop-Cleared fuel contains [] new_logs done [] sh hf s active h safe p =
      nothing_left contains done new_logs sh p safe
  clear_loop-Cleared fuel contains [] new_logs done (es ∷ ess) sh hf s active h safe p = absurd s
  clear_loop-Cleared fuel contains (n ∷ ns) new_logs done [] sh hf s active h safe p = absurd s
  clear_loop-Cleared zero contains (n ∷ ns) new_logs done (es ∷ ess) sh hf s active h safe p =
      absurd (omega arith)
  clear_loop-Cleared (suc fuel) contains (n ∷ ns) new_logs done (es ∷ ess) sh hf s active h safe p =
      let (m, flush, e1, free, v, count, alone, same) =
        open_chunk-IsStored z laws log_id uid max_size valid n ns es sh s.0 h.0 in
      let sh1 : Shared = record sh { flush_states = flush } in
      let (d, e2, s', unread, same') =
        close_chunk z laws log_id uid max_size valid m.chunk es v count alone in
      let linked =
        Linked-Released log_id n.address sh.flush_states flush n.chunk.readers h.0 free ns h.1
          h.2 in
      let safe' = NoDangling-Released log_id sh.flush_states flush n ns free safe in
      elim (Bool-cases (contains || contains_uid uid es)) [
        | inl found ↦
            let (started, stats, states) =
              first_new_chunk-Contains contains done (n ∷ ns) new_logs sh1 p in
            let start = first_new_chunk max_size contains new_logs sh1 in
            let ((new_logs', sh2), e3, (h', stats', states')) =
              Succeeds-result _ (rewrite_entries z log_id uid max_size es start.0 start.1) (
                rewrite_entries-Contains z laws log_id uid max_size valid es done start.0 start.1
                  v.entries_fit started) in
            rw (e1, ◌>>=◌, found, e3, e2, unread)
              (Succeeds-map (Cleared (done ++ without uid es) ess sh2) (Cleared done (es ∷ ess) sh)
                (clear_loop z log_id fuel uid max_size true ns new_logs' sh2)
                (λ t.
                  Cleared-cons done es ess sh sh2 t
                    (stats' ∙ ap (subtractions log_id (of_user uid es)) stats))
                (clear_loop-Cleared fuel true ns new_logs' (done ++ without uid es) ess sh2
                  (omega arith) s.1 (LastActive-tail z laws log_id uid max_size valid n ns active)
                  (subst (λ (f : Flush). Linked log_id f ns) (sym (states' ∙ states)) linked)
                  (subst (λ (f : Flush). NoDangling log_id f ns) (sym (states' ∙ states)) safe')
                  h'))
        | inr absent ↦
            let (others, none_of_user) = without_absent uid es (ground arith) in
            let closed : ChunkNode = record m { chunk = d } in
            let (kss, ks, active', e3) = not_yet contains done (n ∷ ns) new_logs (ground arith) p in
            rw (e1, ◌>>=◌, absent, e2)
              (Succeeds-map (Cleared (done ++ without uid es) ess sh1) (Cleared done (es ∷ ess) sh)
                (clear_loop z log_id fuel uid max_size false ns (new_logs ++ closed ∷ []) sh1)
                (λ t. Cleared-cons done es ess sh sh1 t (same_calls sh none_of_user))
                (clear_loop-Cleared fuel false ns (new_logs ++ closed ∷ []) (done ++ without uid es)
                  ess sh1 (omega arith) s.1
                  (LastActive-tail z laws log_id uid max_size valid n ns active) linked safe'
                  (
                    kss ++ es ∷ [],
                    Stores-append z new_logs (closed ∷ []) kss (es ∷ []) ks (s', tt),
                    λ last. LastActive-append new_logs closed (
                        same'
                        ∙ same
                        ∙ LastActive-single z laws log_id uid max_size valid n ns active last),
                    rw (others, flatten-append kss (es ∷ []), append-nil es, e3),
                  )))
      ]

  -- Clearing a user in a log with a valid size, whose chunks store entries and are linked with
  -- their readers, with lawful compression, fails no CHECK. The log then holds the entries of
  -- the other users, in order and under their old sequence numbers; those of the user have left
  -- the statistics; and no reader keeps a position in the log.
  pub clear_logs_by_uid-Cleared :
      (nodes : List ChunkNode) (ess : List (List SerializedLogEntry)) (sh : Shared)
      → Stores z nodes ess
      → LastActive nodes
      → Linked log_id sh.flush_states nodes
      → NoDangling log_id sh.flush_states nodes
      → Succeeds (clear_logs_by_uid z log_id uid max_size nodes sh) (λ s.
        Contains z (without uid (flatten ess)) s.0
        × (s.1.stats_calls ≡ subtractions log_id (of_user uid (flatten ess)) sh.stats_calls)
        × NoDangling log_id s.1.flush_states [])
  unfolding clear_logs_by_uid
  clear_logs_by_uid-Cleared nodes ess sh s active h safe =
      clear_loop-Cleared (length nodes) false nodes [] [] ess sh (omega arith) s active h safe
        ([], tt, (λ _. tt), refl)
