-- ===== src/Common/Bytes.antt =====
-- Little-endian integers in a list of bytes, and checked reads and writes of a buffer.
use android_system_logging.Common.{
  ℕ, zero, suc, ◌+◌, ◌*◌, ◌/◌, ◌%◌, ◌^◌, ◌≤◌, ◌<◌, ◌≡◌, refl, sym, ap, ◌∙◌, Option, none, some,
  List, [], ◌∷◌, ◌++◌, arith, length, take, drop, take-append, length-append, length-drop,
  length-take, drop_add-append, le→leb, leb, if◌then◌else◌, ◌>>=◌, ◌==◌, Succeeds, Succeeds-result,
}

-- The low `k` bytes of `v`, lowest first.
unfoldable pub to_le : ℕ → ℕ → List ℕ
to_le zero v = []
to_le (suc k) v = v % 256 ∷ to_le k (v / 256)

unfoldable pub of_le : List ℕ → ℕ
of_le [] = 0
of_le (b ∷ bs) = b + 256 * of_le bs

pub length-to_le : (k v : ℕ) → length (to_le k v) ≡ k
unfolding to_le
length-to_le zero v = refl
length-to_le (suc k) v = ap suc (length-to_le k (v / 256))

-- Reading back what was written loses nothing that fits.
of_le-to_le : (k v : ℕ) → v < 256 ^ k → of_le (to_le k v) ≡ v
unfolding to_le of_le
of_le-to_le zero v h = omega arith
of_le-to_le (suc k) v h = omega (arith, of_le-to_le k (v / 256) (omega arith))

-- The first `k` bytes and what follows; `none` is a read past the end.
unfoldable pub read_bytes : ℕ → List ℕ → Option (List ℕ × List ℕ)
read_bytes zero bs = some ([], bs)
read_bytes (suc k) [] = none
read_bytes (suc k) (b ∷ bs) = do (xs, rest) ← read_bytes k bs; some (b ∷ xs, rest)

unfoldable pub read_le : ℕ → List ℕ → Option (ℕ × List ℕ)
read_le k bs = do (xs, rest) ← read_bytes k bs; some (of_le xs, rest)

pub read_bytes-append : (xs rest : List ℕ) → read_bytes (length xs) (xs ++ rest) ≡ some (xs, rest)
unfolding read_bytes
read_bytes-append [] rest = refl
read_bytes-append (x ∷ xs) rest = rw (read_bytes-append xs rest, ◌>>=◌)

pub read_le-to_le :
    (k v : ℕ) (rest : List ℕ) → v < 256 ^ k → read_le k (to_le k v ++ rest) ≡ some (v, rest)
unfolding read_le
read_le-to_le k v rest h =
    rw
      (ap (λ (n : ℕ). read_bytes n (to_le k v ++ rest)) (sym (length-to_le k v))
        ∙ read_bytes-append (to_le k v) rest)
      (rw (of_le-to_le k v h))

-- `memcpy(buf + off, bs, length bs)`; `none` is a write past the end of the buffer.
unfoldable pub overwrite : List ℕ → ℕ → List ℕ → Option (List ℕ)
overwrite buf off bs =
    if leb (off + length bs) (length buf)
    then some (take off buf ++ (bs ++ drop (off + length bs) buf))
    else none

pub overwrite-append :
    (xs tail bs : List ℕ)
    → length xs + length bs ≤ length (xs ++ tail)
    → overwrite (xs ++ tail) (length xs) bs ≡ some (xs ++ (bs ++ drop (length bs) tail))
unfolding overwrite
overwrite-append xs tail bs h =
    rw (le→leb _ _ h, take-append xs tail, drop_add-append xs tail (length bs))

-- The bytes from an offset on.
abbrev pub at_offset : ℕ → List ℕ → List ℕ
at_offset = drop

-- The characters before the first NUL; their number is what strnlen gives.
unfoldable pub c_string : List ℕ → List ℕ
c_string [] = []
c_string (b ∷ bs) = if b == 0 then [] else b ∷ c_string bs

-- A read within the buffer gives as many bytes as it asks for.
pub read_bytes-Succeeds :
    (k : ℕ) (bs : List ℕ) → k ≤ length bs → Succeeds (read_bytes k bs) (λ r. length r.0 ≡ k)
unfolding read_bytes
read_bytes-Succeeds zero bs h = refl
read_bytes-Succeeds (suc k) [] h = absurd (omega arith)
read_bytes-Succeeds (suc k) (b ∷ bs) h =
    let (r, e, l) = Succeeds-result _ (read_bytes k bs) (read_bytes-Succeeds k bs (omega arith)) in
    rw (e, ◌>>=◌) (omega arith)

-- A write within the buffer keeps its length.
pub overwrite-Succeeds :
    (buf : List ℕ) (off : ℕ) (bs : List ℕ)
    → off + length bs ≤ length buf
    → Succeeds (overwrite buf off bs) (λ r. length r ≡ length buf)
unfolding overwrite
overwrite-Succeeds buf off bs h =
    rw (le→leb _ _ h)
      (simp (length-append, length-drop) (omega (arith, length-take off buf (omega arith))))
