-- ===== src/Logd/Serialized/Buffer/Links.antt =====
-- The links between the chunks of a log and its readers, and what is left of them when the first
-- chunk goes (logd/SerializedLogBuffer.cpp, logd/SerializedFlushToState.h).
use android_system_logging.Common.{
  ℕ, ◌≡◌, sym, ap, ◌∙◌, inl, inr, ◌≢◌, Bool, true, false, ◌||◌, ◌&&◌, some, List, [], ◌∷◌, arith,
  All, ◌==◌, if◌then◌else◌, Bool-cases, ==_self, ==→eq,
}
use android_system_logging.Logd.Serialized.Nodes.{ChunkNode}
use android_system_logging.Logd.Serialized.FlushState.{SerializedFlushToState, LogPosition}
use android_system_logging.Logd.Serialized.Buffer.Readers.{Flush, elem, Points, Attached, cleared}

-- Chunks at distinct addresses, each linked both ways with its readers.
abbrev pub Linked : ℕ → Flush → List ChunkNode → Type 0
Linked log_id flush [] = Unit {0}
Linked log_id flush (n ∷ ns) =
    Attached log_id n.address flush n.chunk.readers
    × All (λ (m : ChunkNode). m.address ≢ n.address) ns
    × Linked log_id flush ns

-- The reader is in the list of a chunk at the address.
abbrev pub held : ℕ → ℕ → List ChunkNode → Bool
held r a [] = false
held r a (n ∷ ns) = n.address == a && elem r n.chunk.readers || held r a ns

-- No reader has an iterator to a chunk that is gone, or that does not know of it.
abbrev pub NoDangling : ℕ → Flush → List ChunkNode → Type 0
NoDangling log_id flush nodes =
    (r : ℕ) (p : LogPosition)
    → (flush r).log_positions log_id ≡ some p
    → held r p.buffer_it nodes ≡ true

-- The readers of a chunk that goes lose their positions in the log, and the others keep theirs.
abbrev pub Released : ℕ → List ℕ → Flush → Flush → Type 0
Released log_id rs flush flush' =
    (r : ℕ) → flush' r ≡ (if elem r rs then cleared log_id (flush r) else flush r)

Attached-elem :
    (log_id a : ℕ) (flush : Flush) (r : ℕ) (rs : List ℕ)
    → Attached log_id a flush rs
    → elem r rs ≡ true
    → Points log_id a (flush r)
Attached-elem log_id a flush r [] h e = cc
Attached-elem log_id a flush r (x ∷ xs) h e = elim (Bool-cases (r == x)) [
  | inl same ↦ rw (==→eq r x same) h.0
  | inr other ↦ Attached-elem log_id a flush r xs h.2 (rw other at e)
]

module _ (log_id a : ℕ) (flush flush' : Flush) (rs : List ℕ) (h : Attached log_id a flush rs)
    (free : Released log_id rs flush flush') where
  kept_reader : (r : ℕ) → elem r rs ≡ false → flush' r ≡ flush r
  kept_reader r out = rw (free r, out)

  stays_out : (r b : ℕ) → b ≢ a → Points log_id b (flush r) → elem r rs ≡ false
  stays_out r b ne (p, e, at) = elim (Bool-cases (elem r rs)) [
    | inl inside ↦ let (q, e', at') = Attached-elem log_id a flush r rs h inside in absurd (ne cc)
    | inr outside ↦ outside
  ]

  Attached-Released :
      (b : ℕ) (ms : List ℕ) → b ≢ a → Attached log_id b flush ms → Attached log_id b flush' ms
  Attached-Released b [] ne g = tt
  Attached-Released b (r ∷ ms) ne g =
      (rw (kept_reader r (stays_out r b ne g.0)) g.0, g.1, Attached-Released b ms ne g.2)

  pub Linked-Released :
      (ns : List ChunkNode)
      → All (λ (m : ChunkNode). m.address ≢ a) ns
      → Linked log_id flush ns
      → Linked log_id flush' ns
  Linked-Released [] far g = tt
  Linked-Released (n ∷ ns) far g =
      (Attached-Released n.address n.chunk.readers far.0 g.0, g.1, Linked-Released ns far.1 g.2)

pub NoDangling-Released :
    (log_id : ℕ) (flush flush' : Flush) (n : ChunkNode) (ns : List ChunkNode)
    → Released log_id n.chunk.readers flush flush'
    → NoDangling log_id flush (n ∷ ns)
    → NoDangling log_id flush' ns
NoDangling-Released log_id flush flush' n ns free safe r p e =
    elim (Bool-cases (elem r n.chunk.readers)) [
      | inl inside ↦ cc (
        e,
        ap (λ (st : SerializedFlushToState). st.log_positions log_id) (free r),
        inside,
        ==_self log_id,
      )
      | inr outside ↦ ground (
        arith,
        safe r p (
            rw (outside) at
              (ap (λ (st : SerializedFlushToState). st.log_positions log_id) (sym (free r)) ∙ e)),
        outside,
      )
    ]
