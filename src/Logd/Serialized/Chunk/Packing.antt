-- ===== src/Logd/Serialized/Chunk/Packing.antt =====
-- A chunk of logd/SerializedLogChunk.cpp is packed, and unpacked for its readers.
use android_system_logging.Common.{
  ◌+◌, ◌%◌, ◌^◌, ◌<◌, ◌≡◌, refl, sym, inl, inr, true, false, some, List, [], ◌++◌, arith, length,
  length-append, append-nil, take-append, le→leb, ==_self, ◌==◌, ◌>>=◌, Bool-cases, Succeeds,
  Succeeds-result,
}
use android_system_logging.Logd.Serialized.Entry.{SerializedLogEntry}
use android_system_logging.Logd.Serialized.Chunk.{
  SerializedLogChunk, Zstd, ZstdLaws, entries, compress, decompress, finish_writing,
  inc_reader_ref_count, dec_reader_ref_count,
}
use android_system_logging.Logd.Serialized.Chunk.Contents.{image, is_readable, Holds, entries-Holds}

module _ {z : Zstd} {c : SerializedLogChunk} {es : List SerializedLogEntry} (v : Holds z c es) where
  compress-Holds :
      is_readable c ≡ true → compress z c.contents c.write_offset ≡ some (z.compress (image es))
  unfolding compress
  compress-Holds live =
      let (tail, memory) = v.in_memory live in
      rw (
        memory,
        v.offset,
        take-append (image es) tail,
        le→leb (length (image es)) (length (image es ++ tail))
            (omega (arith, length-append (image es) tail)),
      )

  -- `finish_writing` packs the entries and closes the chunk for writing.
  pub finish_writing-Holds :
      c.writer_active ≡ true
      → Succeeds (finish_writing z c) (λ d.
        Holds z d es
        × (d.writer_active ≡ false)
        × (d.readers ≡ c.readers)
        × (d.reader_ref_count ≡ c.reader_ref_count)
        × (d.highest_sequence_number ≡ c.highest_sequence_number))
  unfolding finish_writing
  finish_writing-Holds active =
      let (tail, memory) = v.in_memory (ground arith) in
      rw (v.unpacked active, compress-Holds (ground arith), ◌>>=◌)
        (
          record {
            entries_fit = v.entries_fit;
            offset = v.offset;
            in_memory = λ l. (tail, ground arith);
            freed = λ f. ground arith;
            packed = λ _. refl;
            unpacked = λ f. cc;
          },
          refl,
          refl,
          refl,
          refl,
        )

  decompress-Holds :
      ZstdLaws z
      → c.writer_active ≡ false
      → decompress z c.compressed_log c.write_offset ≡ some (image es)
  unfolding decompress
  decompress-Holds laws closed = rw (
    v.packed closed,
    laws.decompress-compress (image es),
    ◌>>=◌,
    v.offset,
    ==_self (length (image es)),
  )

  -- A first reader unpacks a closed chunk; its entries are in memory again.
  pub inc_reader_ref_count-Holds :
      ZstdLaws z
      → c.reader_ref_count + 1 < 2 ^ 32
      → Succeeds (inc_reader_ref_count z c) (λ d.
        Holds z d es
        × (d.reader_ref_count ≡ c.reader_ref_count + 1)
        × (d.readers ≡ c.readers)
        × (d.writer_active ≡ c.writer_active)
        × (d.highest_sequence_number ≡ c.highest_sequence_number))
  unfolding inc_reader_ref_count
  inc_reader_ref_count-Holds laws small = elim (Bool-cases c.writer_active) [
    | inl active ↦ ground arith
    | inr closed ↦ elim (Bool-cases (c.reader_ref_count == 0)) [
      | inl first ↦
          let count : (c.reader_ref_count + 1) % 2 ^ 32 ≡ 1 = ground arith in
          rw (count, closed, decompress-Holds laws closed, ◌>>=◌)
            (
              record {
                entries_fit = v.entries_fit;
                offset = v.offset;
                in_memory = λ _. ([], sym (append-nil (image es)));
                freed = λ f. cc;
                packed = λ _. v.packed closed;
                unpacked = λ f. cc;
              },
              ground arith,
              refl,
              refl,
              refl,
            )
      | inr more ↦ ground arith
    ]
  ]

  -- The last reader of a closed chunk frees its memory, and the packed entries stay.
  pub dec_reader_ref_count-Holds :
      0 < c.reader_ref_count
      → Succeeds (dec_reader_ref_count c) (λ d.
        Holds z d es
        × (d.reader_ref_count + 1 ≡ c.reader_ref_count)
        × (d.readers ≡ c.readers)
        × (d.writer_active ≡ c.writer_active)
        × (d.compressed_log ≡ c.compressed_log)
        × (d.writer_active ≡ true → d.contents ≡ c.contents))
  unfolding dec_reader_ref_count
  dec_reader_ref_count-Holds pos = ground arith

-- A chunk that was closed, compressed and freed reads back, for its first reader, as the entries
-- that were logged.
pub entries_reopened :
    (z : Zstd) (c : SerializedLogChunk) (es : List SerializedLogEntry)
    → ZstdLaws z
    → Holds z c es
    → c.writer_active ≡ true
    → c.reader_ref_count ≡ 0
    → (finish_writing z c >>= λ d. inc_reader_ref_count z d >>= λ o. entries o) ≡ some es
entries_reopened z c es laws v active unread =
    let (d, e1, (v', _, _, count, _)) =
      Succeeds-result _ (finish_writing z c) (finish_writing-Holds v active) in
    let (o, e2, (v'', count', _, _, _)) =
      Succeeds-result _ (inc_reader_ref_count z d)
        (inc_reader_ref_count-Holds v' laws (omega arith)) in
    rw (e1, ◌>>=◌, e2, ◌>>=◌) (entries-Holds v'' (ground arith))
