-- ===== src/Logd/Serialized/Chunk.antt =====
-- logd/SerializedLogChunk.{h,cpp}, logd/SerializedData.h and the engine of
-- logd/CompressionEngine.cpp. `none` is a failed CHECK, a LOG(FATAL) or an access out of bounds.
pub mod Contents
pub mod Packing
use android_system_logging.Common.{
  ℕ, zero, suc, ◌+◌, ◌-◌, ◌%◌, ◌^◌, ◌<◌, ◌≡◌, Bool, true, false, ◌||◌, not, Option, none, some,
  List, [], ◌∷◌, ◌++◌, length, take, drop, replicate, ltb, leb, ◌==◌, if◌then◌else◌, ◌>>=◌, ◌>>◌,
  check,
}
use android_system_logging.Common.Bytes.{overwrite}
use android_system_logging.Logd.Serialized.Entry.{
  SerializedLogEntry, total_len, to_bytes, from_bytes,
}

-- The zstd library: a frame for the given bytes, and the bytes of a frame or an error.
pub record Zstd : Type 0 where
  pub compress : List ℕ → List ℕ
  pub decompress : List ℕ → Option (List ℕ)

-- What logd relies on: a frame decompresses to its input, and it is never empty.
pub record ZstdLaws (z : Zstd) : Type 0 where
  pub decompress-compress : (bs : List ℕ) → z.decompress (z.compress bs) ≡ some bs
  pub compress_nonempty : (bs : List ℕ) → 0 < length (z.compress bs)

-- `contents` and `compressed_log` are the bytes of a SerializedData, whose size is the length;
-- `readers` holds the addresses of the attached readers.
pub record SerializedLogChunk : Type 0 where
  pub contents : List ℕ
  pub write_offset : ℕ
  pub reader_ref_count : ℕ
  pub writer_active : Bool
  pub highest_sequence_number : ℕ
  pub compressed_log : List ℕ
  pub readers : List ℕ

-- sizeof(SerializedLogChunk) with 64-bit pointers.
abbrev sizeof_chunk : ℕ
sizeof_chunk = 80

-- SerializedLogChunk(size): the memory is fresh, and nothing reads it before it is written.
unfoldable pub new_chunk : ℕ → SerializedLogChunk
new_chunk size = record {
  contents = replicate size 0;
  write_offset = 0;
  reader_ref_count = 0;
  writer_active = true;
  highest_sequence_number = 1;
  compressed_log = [];
  readers = [];
}

unfoldable pub can_log : SerializedLogChunk → ℕ → Bool
can_log c len = leb (c.write_offset + len) (length c.contents)

-- The constructor of the entry in place, the copy of the message, and the new write position.
unfoldable pub log : SerializedLogChunk → SerializedLogEntry → Option SerializedLogChunk
log c e = do
  contents ← overwrite c.contents c.write_offset (to_bytes e)
  some (record c {
    contents = contents;
    write_offset = c.write_offset + total_len e;
    highest_sequence_number = e.sequence;
  })

-- A compressed chunk counts with its compressed size (`?:` takes the first size if it is not 0).
unfoldable pub prune_size : SerializedLogChunk → ℕ
prune_size c =
    let compressed = length c.compressed_log in
    sizeof_chunk + (if compressed == 0 then length c.contents else compressed)

unfoldable pub log_entry : SerializedLogChunk → ℕ → Option SerializedLogEntry
log_entry c offset = do
  check (c.writer_active || ltb 0 c.reader_ref_count)
  (e, _) ← from_bytes (drop offset c.contents)
  some e

-- `for (const auto& entry : chunk)` from an offset on: the iterator stops where it equals
-- `write_offset`. With no fuel left the loop has not stopped.
unfoldable pub entries_from : ℕ → SerializedLogChunk → ℕ → Option (List SerializedLogEntry)
entries_from zero c offset = none
entries_from (suc fuel) c offset = elim (offset == c.write_offset) [
  | true ↦ some []
  | false ↦ do
    e ← log_entry c offset
    rest ← entries_from fuel c (offset + total_len e)
    some (e ∷ rest)
]

-- Every entry takes a byte at least, so `write_offset` rounds and the last test are enough.
unfoldable pub entries : SerializedLogChunk → Option (List SerializedLogEntry)
unfolding entries_from
entries c = entries_from (suc c.write_offset) c 0

-- `std::find` and `erase` of the first equal element.
unfoldable pub erase_reader : ℕ → List ℕ → Option (List ℕ)
erase_reader r [] = none
erase_reader r (x ∷ xs) = elim (x == r) [
  | true ↦ some xs
  | false ↦ do rest ← erase_reader r xs; some (x ∷ rest)
]

unfoldable pub dec_reader_ref_count : SerializedLogChunk → Option SerializedLogChunk
dec_reader_ref_count c = do
  check (not (c.reader_ref_count == 0))
  let count = c.reader_ref_count - 1
  if not (count == 0) || c.writer_active
      then some (record c { reader_ref_count = count })
      else some (record c { reader_ref_count = count; contents = [] })

module _ (z : Zstd) where
  -- ZstdCompressionEngine::Compress of the first `data_length` bytes.
  unfoldable pub compress : List ℕ → ℕ → Option (List ℕ)
  compress input data_length = do
    check (leb data_length (length input))
    some (z.compress (take data_length input))

  -- ZstdCompressionEngine::Decompress into a buffer of `out_size` bytes.
  unfoldable pub decompress : List ℕ → ℕ → Option (List ℕ)
  decompress input out_size = do out ← z.decompress input; check (length out == out_size); some out

  unfoldable pub finish_writing : SerializedLogChunk → Option SerializedLogChunk
  finish_writing c = do
    check (length c.compressed_log == 0)
    compressed ← compress c.contents c.write_offset
    some (record c {
      writer_active = false;
      compressed_log = compressed;
      contents = if c.reader_ref_count == 0 then [] else c.contents;
    })

  unfoldable pub inc_reader_ref_count : SerializedLogChunk → Option SerializedLogChunk
  inc_reader_ref_count c =
      let count = (c.reader_ref_count + 1) % 2 ^ 32 in
      if not (count == 1) || c.writer_active
      then some (record c { reader_ref_count = count })
      else do
        contents ← decompress c.compressed_log c.write_offset
        some (record c { reader_ref_count = count; contents = contents })

  unfoldable pub attach_reader : SerializedLogChunk → ℕ → Option SerializedLogChunk
  attach_reader c r = inc_reader_ref_count (record c { readers = c.readers ++ (r ∷ []) })

unfoldable pub detach_reader : SerializedLogChunk → ℕ → Option SerializedLogChunk
detach_reader c r = do
  readers ← erase_reader r c.readers
  dec_reader_ref_count (record c { readers = readers })
