-- ===== src/Logd/Serialized/Chunk/Contents.antt =====
-- A chunk of logd/SerializedLogChunk.cpp seen as the list of entries that it stores.
use android_system_logging.Common.{
  ℕ, zero, suc, ◌+◌, ◌<◌, ◌≡◌, refl, sym, ap, ◌∙◌, Bool, true, false, ◌||◌, some, List, [], ◌∷◌,
  ◌++◌, arith, All, All-append, length, drop, length-append, append_assoc, append-nil, drop-append,
  ltb, leb→le, ◌>>=◌, Succeeds,
}
use android_system_logging.Common.Bytes.{overwrite, overwrite-append}
use android_system_logging.Logd.Serialized.Entry.{
  SerializedLogEntry, IsEntry, sizeof_entry, to_bytes, length-to_bytes, total_len-length,
  from_bytes-to_bytes,
}
use android_system_logging.Logd.Serialized.Chunk.{
  SerializedLogChunk, Zstd, new_chunk, can_log, log, log_entry, entries_from, entries,
}

-- The entries one behind the other, as they lie in memory.
unfoldable pub image : List SerializedLogEntry → List ℕ
image [] = []
image (e ∷ es) = to_bytes e ++ image es

image-append : (es fs : List SerializedLogEntry) → image (es ++ fs) ≡ image es ++ image fs
unfolding image
image-append [] fs = refl
image-append (e ∷ es) fs = rw (image-append es fs, append_assoc)

length-image_snoc :
    (es : List SerializedLogEntry) (e : SerializedLogEntry)
    → length (image (es ++ e ∷ [])) ≡ length (image es) + length (to_bytes e)
unfolding image
length-image_snoc es e =
    rw (image-append es (e ∷ []), append-nil (to_bytes e)) (length-append (image es) (to_bytes e))

-- The contents are in memory, and `log_entry` may be called.
abbrev pub is_readable : SerializedLogChunk → Bool
is_readable c = c.writer_active || ltb 0 c.reader_ref_count

pub record Holds (z : Zstd) (c : SerializedLogChunk) (es : List SerializedLogEntry) : Type 0 where
  pub entries_fit : All IsEntry es
  pub offset : c.write_offset ≡ length (image es)
  pub in_memory : is_readable c ≡ true → (tail : List ℕ) × (c.contents ≡ image es ++ tail)
  pub freed : is_readable c ≡ false → c.contents ≡ []
  pub packed : c.writer_active ≡ false → c.compressed_log ≡ z.compress (image es)
  pub unpacked : c.writer_active ≡ true → c.compressed_log ≡ []

pub new_chunk-Holds : (z : Zstd) (size : ℕ) → Holds z (new_chunk size) []
unfolding new_chunk image
new_chunk-Holds z size = record {
  entries_fit = tt;
  offset = refl;
  in_memory = λ _. (_, refl);
  freed = λ e. cc;
  packed = λ e. cc;
  unpacked = λ _. refl;
}

-- The list of readers is no part of the contents.
pub Holds-readers :
    {z : Zstd} {c : SerializedLogChunk} {es : List SerializedLogEntry} (rs : List ℕ)
    → Holds z c es
    → Holds z (record c { readers = rs }) es
Holds-readers rs v = record {
  entries_fit = v.entries_fit;
  offset = v.offset;
  in_memory = v.in_memory;
  freed = v.freed;
  packed = v.packed;
  unpacked = v.unpacked;
}

module _ {z : Zstd} {c : SerializedLogChunk} {es : List SerializedLogEntry} (v : Holds z c es) where
  overwrite-Holds :
      (e : SerializedLogEntry)
      → c.writer_active ≡ true
      → can_log c (sizeof_entry + length e.msg) ≡ true
      → (rest : List ℕ) × (overwrite c.contents c.write_offset (to_bytes e)
          ≡ some (image (es ++ e ∷ []) ++ rest))
  unfolding can_log image
  overwrite-Holds e active room =
      let (tail, memory) = v.in_memory (ground arith) in
      (
        drop (length (to_bytes e)) tail,
        rw (memory, v.offset)
            (overwrite-append (image es) tail (to_bytes e) (
                omega (
                  arith,
                  leb→le _ _ room,
                  ap length memory,
                  v.offset,
                  length-to_bytes e,
                  length-append (image es) tail,
                ))
              ∙ simp (image-append, append_assoc, append-nil)),
      )

  -- While the writer is active and there is room, `log` succeeds and appends the entry.
  pub log-Holds :
      (e : SerializedLogEntry)
      → IsEntry e
      → c.writer_active ≡ true
      → can_log c (sizeof_entry + length e.msg) ≡ true
      → Succeeds (log c e) (λ d.
        Holds z d (es ++ e ∷ [])
        × (d.writer_active ≡ true)
        × (d.readers ≡ c.readers)
        × (d.reader_ref_count ≡ c.reader_ref_count)
        × (d.highest_sequence_number ≡ e.sequence))
  unfolding log can_log
  log-Holds e fits active room =
      let (rest, written) = overwrite-Holds e active room in
      rw (written, ◌>>=◌)
        (
          record {
            entries_fit = All-append IsEntry es (e ∷ []) v.entries_fit (fits, tt);
            offset = omega (arith, v.offset, total_len-length e fits, length-image_snoc es e);
            in_memory = λ _. (rest, refl);
            freed = λ f. cc;
            packed = λ f. cc;
            unpacked = λ _. v.unpacked active;
          },
          active,
          refl,
          refl,
          refl,
        )

  log_entry-drop :
      (done rest : List SerializedLogEntry) (x : SerializedLogEntry)
      → IsEntry x
      → is_readable c ≡ true
      → es ≡ done ++ x ∷ rest
      → log_entry c (length (image done)) ≡ some x
  unfolding log_entry image
  log_entry-drop done rest x fits live e =
      let (tail, memory) = v.in_memory live in
      rw (
        live,
        memory,
        e,
        image-append done (x ∷ rest),
        append_assoc (image done) (image (x ∷ rest)) tail,
        drop-append (image done),
        append_assoc (to_bytes x) (image rest) tail,
        from_bytes-to_bytes x (image rest ++ tail) fits,
      )

  entries_from-drop :
      (fuel : ℕ) (done rest : List SerializedLogEntry)
      → All IsEntry rest
      → is_readable c ≡ true
      → es ≡ done ++ rest
      → length (image rest) < fuel
      → entries_from fuel c (length (image done)) ≡ some rest
  unfolding entries_from log_entry image
  entries_from-drop zero done rest fits live e h = absurd (omega arith)
  entries_from-drop (suc fuel) done [] fits live e h = ground (arith, v.offset, append-nil done)
  entries_from-drop (suc fuel) done (x ∷ rest) fits live e h =
      let next =
        entries_from-drop fuel (done ++ x ∷ []) rest fits.1 live
          (e ∙ sym (append_assoc done (x ∷ []) rest))
          (omega (arith, length-append (to_bytes x) (image rest), length-to_bytes x)) in
      ground (
        arith,
        v.offset,
        ap (λ (l : List SerializedLogEntry). length (image l)) e,
        length-append (image done) (image (x ∷ rest)),
        ap length (image-append done (x ∷ rest)),
        length-append (to_bytes x) (image rest),
        length-to_bytes x,
        log_entry-drop done rest x fits.0 live e,
        total_len-length x fits.0,
        length-image_snoc done x,
        next,
      )

  pub entries-Holds : is_readable c ≡ true → entries c ≡ some es
  unfolding entries image
  entries-Holds live =
      entries_from-drop (suc c.write_offset) [] es v.entries_fit live refl (omega (arith, v.offset))
