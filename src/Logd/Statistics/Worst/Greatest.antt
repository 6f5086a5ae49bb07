-- ===== src/Logd/Statistics/Worst/Greatest.antt =====
-- MaxEntries of logd/LogStatistics.h finds the greatest entries.
use android_system_logging.Common.{
  ℕ, zero, suc, ◌+◌, ◌≤◌, ◌<◌, ◌≡◌, refl, sym, ap, ◌∙◌, Bool, true, false, [], ◌∷◌, ◌++◌, All,
  filter, length, length-take-le, take-nil, take-length, take-All, take-cons, take, drop,
  take-append, ltb, if◌then◌else◌, arith, inl, inr, Bool-cases,
}
use android_system_logging.Logd.Statistics.Table.{LogHashtable}
use android_system_logging.Logd.Statistics.Worst.{
  Listed, size_of, is_listed, place, put_entry, max_entries_loop, max_entries,
}

module _ {K E : Type 0} (l : Listed K E) where
  -- Sorting by insertion, from the greatest on, the earlier first.
  unfoldable pub insert : K × E → LogHashtable K E → LogHashtable K E
  insert x [] = x ∷ []
  insert x (y ∷ ys) =
      let rest = insert x ys in if ltb (size_of l y) (size_of l x) then x ∷ y ∷ ys else y ∷ rest

  unfoldable pub sort_onto : LogHashtable K E → LogHashtable K E → LogHashtable K E
  sort_onto [] out = out
  sort_onto (x ∷ xs) out = sort_onto xs (insert x out)

  unfoldable pub Descending : LogHashtable K E → Type 0
  Descending [] = Unit {0}
  Descending (x ∷ xs) = All (λ y. size_of l y ≤ size_of l x) xs × Descending xs

  unfoldable pub count : (K × E → Bool) → LogHashtable K E → ℕ
  count p [] = 0
  count p (x ∷ xs) = let rest = count p xs in if p x then suc rest else rest

  insert-All :
      (P : K × E → Type 0) (x : K × E) (xs : LogHashtable K E)
      → P x
      → All P xs
      → All P (insert x xs)
  unfolding insert
  insert-All P x [] p a = (p, tt)
  insert-All P x (y ∷ ys) p a = elim (Bool-cases (ltb (size_of l y) (size_of l x))) [
    | inl h ↦ rw h (p, a)
    | inr h ↦ rw h (a.0, insert-All P x ys p a.1)
  ]

  All-le :
      (m n : ℕ) (xs : LogHashtable K E)
      → m ≤ n
      → All (λ y. size_of l y ≤ m) xs
      → All (λ y. size_of l y ≤ n) xs
  All-le m n [] h a = tt
  All-le m n (x ∷ xs) h a = (omega (arith, a.0), All-le m n xs h a.1)

  All-lt :
      (m n : ℕ) (xs : LogHashtable K E)
      → m < n
      → All (λ y. size_of l y ≤ m) xs
      → All (λ y. size_of l y < n) xs
  All-lt m n [] h a = tt
  All-lt m n (x ∷ xs) h a = (omega (arith, a.0), All-lt m n xs h a.1)

  insert-Descending : (x : K × E) (xs : LogHashtable K E) → Descending xs → Descending (insert x xs)
  unfolding insert Descending
  insert-Descending x [] d = (tt, tt)
  insert-Descending x (y ∷ ys) d = elim (Bool-cases (ltb (size_of l y) (size_of l x))) [
    | inl h ↦ rw h ((ground arith, All-le _ _ ys (ground arith) d.0), d)
    | inr h ↦ rw h (insert-All _ x ys (ground arith) d.0, insert-Descending x ys d.1)
  ]

  insert-count :
      (p : K × E → Bool) (x : K × E) (xs : LogHashtable K E)
      → count p (insert x xs) ≡ count p (x ∷ xs)
  unfolding insert count
  insert-count p x [] = refl
  insert-count p x (y ∷ ys) = elim (Bool-cases (ltb (size_of l y) (size_of l x))) [
    | inl h ↦ rw h refl
    | inr h ↦ elim (Bool-cases (p x)) [
      | inl f ↦ elim (Bool-cases (p y)) [
        | inl g ↦ rw (h, g, insert-count p x ys, f) refl
        | inr g ↦ rw (h, g, insert-count p x ys, f) refl
      ]
      | inr f ↦ elim (Bool-cases (p y)) [
        | inl g ↦ rw (h, g, insert-count p x ys, f) refl
        | inr g ↦ rw (h, g, insert-count p x ys, f) refl
      ]
    ]
  ]

  -- Only smaller entries: the place is the front.
  place-front : (n : ℕ) (xs : LogHashtable K E) → All (λ y. size_of l y < n) xs → place l n xs ≡ 0
  unfolding place
  place-front n [] a = refl
  place-front n (x ∷ xs) a =
      let small : ltb (size_of l x) n ≡ true = ground (arith, a.0) in
      rw (place-front n xs a.1, small) refl

  place-nil : (n : ℕ) → place l n [] ≡ 0
  unfolding place
  place-nil n = refl

  place-smaller :
      (n : ℕ) (y : K × E) (ys : LogHashtable K E)
      → Descending (y ∷ ys)
      → ltb (size_of l y) n ≡ true
      → place l n (y ∷ ys) ≡ 0
  unfolding place Descending
  place-smaller n y ys d h =
      rw (place-front n ys (All-lt (size_of l y) n ys (ground arith) d.0), h) refl

  place-other :
      (n : ℕ) (y : K × E) (ys : LogHashtable K E)
      → ltb (size_of l y) n ≡ false
      → place l n (y ∷ ys) ≡ suc (place l n ys)
  unfolding place
  place-other n y ys h = elim (Bool-cases (ltb 0 (place l n ys))) [
    | inl f ↦ rw f refl
    | inr f ↦ let zero_place : place l n ys ≡ 0 = ground arith in rw (zero_place, h) refl
  ]

  place-insert :
      (x : K × E) (xs : LogHashtable K E)
      → Descending xs
      → insert x xs ≡ take (place l (size_of l x) xs) xs ++ (x ∷ drop (place l (size_of l x) xs) xs)
  unfolding insert Descending
  place-insert x [] d = rw (place-nil (size_of l x)) refl
  place-insert x (y ∷ ys) d = elim (Bool-cases (ltb (size_of l y) (size_of l x))) [
    | inl h ↦ rw (h, place-smaller (size_of l x) y ys d h) refl
    | inr h ↦ rw (h, place-other (size_of l x) y ys h) (ap (◌∷◌ y) (place-insert x ys d.1))
  ]

  place-le : (n : ℕ) (xs : LogHashtable K E) → place l n xs ≤ length xs
  unfolding place
  place-le n [] = omega arith
  place-le n (x ∷ xs) = elim (Bool-cases (ltb 0 (place l n xs))) [
    | inl f ↦ rw f (omega (arith, place-le n xs))
    | inr f ↦ elim (Bool-cases (ltb (size_of l x) n)) [
      | inl g ↦ rw (f, g) (omega arith)
      | inr g ↦ rw (f, g) (omega arith)
    ]
  ]

  take-Descending : (n : ℕ) (xs : LogHashtable K E) → Descending xs → Descending (take n xs)
  unfolding Descending
  take-Descending zero xs d = tt
  take-Descending (suc n) [] d = tt
  take-Descending (suc n) (x ∷ xs) d = (take-All _ n xs d.0, take-Descending n xs d.1)

  take-insert :
      (n : ℕ) (x : K × E) (xs : LogHashtable K E)
      → take n (insert x (take n xs)) ≡ take n (insert x xs)
  unfolding insert
  take-insert zero x xs = refl
  take-insert (suc n) x [] = refl
  take-insert (suc n) x (y ∷ ys) = elim (Bool-cases (ltb (size_of l y) (size_of l x))) [
    | inl h ↦ rw h (ap (◌∷◌ x) (take-cons n y ys))
    | inr h ↦ rw h (ap (◌∷◌ y) (take-insert n x ys))
  ]

  -- The entry that goes in pushes the last one out.
  put_entry-take :
      (len : ℕ) (x : K × E) (xs : LogHashtable K E)
      → Descending xs
      → put_entry l len x (take len xs) ≡ take len (insert x xs)
  unfolding put_entry
  put_entry-take len x xs d =
      let out = take len xs in
      let index = place l (size_of l x) out in
      let whole = place-insert x out (take-Descending len xs d) in
      elim (Bool-cases (ltb index len)) [
        | inl f ↦ rw f (ap (take len) (sym whole) ∙ take-insert len x xs)
        | inr f ↦
            let end : index ≡ length out =
              ground (arith, place-le (size_of l x) out, length-take-le len xs) in
            let full : length out ≡ len =
              ground (arith, place-le (size_of l x) out, length-take-le len xs) in
            let cut : take index out ≡ out = ap (λ (n : ℕ). take n out) end ∙ take-length out in
            rw f (
              sym (take-append out (x ∷ drop index out))
              ∙ ap (λ (n : ℕ). take n (out ++ (x ∷ drop index out))) full
              ∙ ap (λ (ys : LogHashtable K E). take len (ys ++ (x ∷ drop index out))) (sym cut)
              ∙ ap (take len) (sym whole)
              ∙ take-insert len x xs)
      ]

  sort_onto-Descending :
      (xs out : LogHashtable K E) → Descending out → Descending (sort_onto xs out)
  unfolding sort_onto
  sort_onto-Descending [] out d = d
  sort_onto-Descending (x ∷ xs) out d =
      sort_onto-Descending xs (insert x out) (insert-Descending x out d)

  sort_onto-count :
      (p : K × E → Bool) (xs out : LogHashtable K E)
      → count p (sort_onto xs out) ≡ count p xs + count p out
  unfolding sort_onto count
  sort_onto-count p [] out = omega arith
  sort_onto-count p (x ∷ xs) out =
      let rest = sort_onto-count p xs (insert x out) in
      let there = insert-count p x out in
      elim (Bool-cases (p x)) [
        | inl f ↦ rw f (omega (arith, rest, counted p x out f there))
        | inr f ↦ rw f (omega (arith, rest, uncounted p x out f there))
      ]
    where
      counted :
          (p : K × E → Bool) (x : K × E) (out : LogHashtable K E)
          → p x ≡ true
          → count p (insert x out) ≡ count p (x ∷ out)
          → count p (insert x out) ≡ suc (count p out)
      counted p x out f h = h ∙ rw (count, f) refl

      uncounted :
          (p : K × E → Bool) (x : K × E) (out : LogHashtable K E)
          → p x ≡ false
          → count p (insert x out) ≡ count p (x ∷ out)
          → count p (insert x out) ≡ count p out
      uncounted p x out f h = h ∙ rw (count, f) refl

  max_entries_loop-sort_onto :
      (len uid pid : ℕ) (xs out : LogHashtable K E)
      → Descending out
      → max_entries_loop l len uid pid xs (take len out)
        ≡ take len (sort_onto (filter (is_listed l uid pid) xs) out)
  unfolding max_entries_loop sort_onto
  max_entries_loop-sort_onto len uid pid [] out d = refl
  max_entries_loop-sort_onto len uid pid (x ∷ xs) out d =
      elim (Bool-cases (is_listed l uid pid x)) [
        | inl f ↦
            rw (max_entries_loop, f, sort_onto)
              (ap (max_entries_loop l len uid pid xs) (put_entry-take len x out d)
                ∙ max_entries_loop-sort_onto len uid pid xs (insert x out)
                    (insert-Descending x out d))
        | inr f ↦
            rw (max_entries_loop, f, sort_onto) (max_entries_loop-sort_onto len uid pid xs out d)
      ]

-- MaxEntries gives the first `len` of a list that has the entries that it asks for, each as often as
-- the table has it, from the greatest size on.
pub max_entries_lem :
    {K E : Type 0} (l : Listed K E) (len uid pid : ℕ) (table : LogHashtable K E)
    → (sorted : LogHashtable K E) × (max_entries l len uid pid table ≡ take len sorted)
      × Descending l sorted
      × ((p : K × E → Bool) → count l p sorted ≡ count l p (filter (is_listed l uid pid) table))
unfolding max_entries count Descending
max_entries_lem l len uid pid table =
    let listed = filter (is_listed l uid pid) table in
    (
      sort_onto l listed [],
      ap (max_entries_loop l len uid pid table) (take-nil len)
          ∙ max_entries_loop-sort_onto l len uid pid table [] tt,
      sort_onto-Descending l listed [] tt,
      λ p. sort_onto-count l p listed [] ∙ omega arith,
    )
