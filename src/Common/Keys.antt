-- ===== src/Common/Keys.antt =====
-- Keys that a table compares, and association lists by them.
use Prim.Native.Nat.{ℕ}
use mathlib.Core.Path.{◌≡◌, refl, sym, ap, ◌∙◌}
use mathlib.Core.Bool.{Bool, true, false, ◌&&◌}
use mathlib.Core.Logic.{inl, inr}
use mathlib.Core.Option.{Option, none, some}
use mathlib.Core.List.{List, [], ◌∷◌}
use android_system_logging.Common.Tests.{◌==◌, ==_self, ==→eq, if◌then◌else◌, Bool-cases}

pub record Key {ℓ} (K : Type ℓ) : Type ℓ where
  pub same : K → K → Bool
  pub same_self : (k : K) → same k k ≡ true
  pub same→eq : (j k : K) → same j k ≡ true → j ≡ k

instance abbrev pub nat_key : Key ℕ
nat_key = record { same = ◌==◌; same_self = ==_self; same→eq = ==→eq }

abbrev pub same_bytes : List ℕ → List ℕ → Bool
same_bytes [] [] = true
same_bytes [] (y ∷ ys) = false
same_bytes (x ∷ xs) [] = false
same_bytes (x ∷ xs) (y ∷ ys) = x == y && same_bytes xs ys

pub same_bytes_self : (xs : List ℕ) → same_bytes xs xs ≡ true
same_bytes_self [] = refl
same_bytes_self (x ∷ xs) = rw (==_self x, same_bytes_self xs) refl

pub same_bytes→eq : (xs ys : List ℕ) → same_bytes xs ys ≡ true → xs ≡ ys
same_bytes→eq [] [] h = refl
same_bytes→eq [] (y ∷ ys) h = cc
same_bytes→eq (x ∷ xs) [] h = cc
same_bytes→eq (x ∷ xs) (y ∷ ys) h = elim (Bool-cases (x == y)) [
  | inl e ↦ cc (==→eq x y e, same_bytes→eq xs ys (rw e at h))
  | inr e ↦ absurd (let c : false ≡ true = rw e at h in cc)
]

instance abbrev pub bytes_key : Key (List ℕ)
bytes_key = record { same = same_bytes; same_self = same_bytes_self; same→eq = same_bytes→eq }

module _ {ℓ} {K : Type ℓ} ⦃o : Key K⦄ where
  same-split : (i j k : K) → o.same i k ≡ true → o.same i j ≡ o.same k j
  same-split i j k e = ap (λ (l : K). o.same l j) (o.same→eq i k e)

  same-apart : (i j k : K) → o.same i k ≡ false → o.same i j ≡ true → o.same k j ≡ false
  same-apart i j k e f = elim (Bool-cases (o.same k j)) [
    | inl g ↦ absurd (
        let c : true ≡ false =
          sym (o.same_self i) ∙ ap (o.same i) (o.same→eq i j f ∙ sym (o.same→eq k j g)) ∙ e in
        cc)
    | inr g ↦ g
  ]

module _ {ℓ κ} {K : Type ℓ} {V : Type κ} ⦃o : Key K⦄ where
  abbrev pub lookup : K → List (K × V) → Option V
  lookup k [] = none
  lookup k ((j, v) ∷ t) = if o.same j k then some v else lookup k t

  -- The value at a key that is there is replaced; any other key goes behind the table.
  abbrev pub assign : K → V → List (K × V) → List (K × V)
  assign k v [] = (k, v) ∷ []
  assign k v ((j, w) ∷ t) = if o.same j k then (k, v) ∷ t else (j, w) ∷ assign k v t

  -- All the values at a key go.
  abbrev pub remove : K → List (K × V) → List (K × V)
  remove k [] = []
  remove k ((j, w) ∷ t) = if o.same j k then remove k t else (j, w) ∷ remove k t

  pub lookup-assign :
      (j k : K) (v : V) (t : List (K × V))
      → lookup j (assign k v t) ≡ (if o.same k j then some v else lookup j t)
  lookup-assign j k v [] = refl
  lookup-assign j k v ((i, w) ∷ t) = elim (Bool-cases (o.same i k)) [
    | inl e ↦
        rw (e, same-split i j k e)
          (elim (Bool-cases (o.same k j)) [ inl f ↦ rw f refl | inr f ↦ rw f refl ])
    | inr e ↦ elim (Bool-cases (o.same i j)) [
      | inl f ↦ rw (e, f, same-apart i j k e f) refl
      | inr f ↦ rw (e, f) (lookup-assign j k v t)
    ]
  ]

  pub lookup-remove :
      (j k : K) (t : List (K × V))
      → lookup j (remove k t) ≡ (if o.same k j then none else lookup j t)
  lookup-remove j k [] = elim (Bool-cases (o.same k j)) [ inl f ↦ rw f refl | inr f ↦ rw f refl ]
  lookup-remove j k ((i, w) ∷ t) = elim (Bool-cases (o.same i k)) [
    | inl e ↦
        rw (e, lookup-remove j k t, same-split i j k e)
          (elim (Bool-cases (o.same k j)) [ inl f ↦ rw f refl | inr f ↦ rw f refl ])
    | inr e ↦ elim (Bool-cases (o.same i j)) [
      | inl f ↦ rw (e, f, same-apart i j k e f) refl
      | inr f ↦ rw (e, f) (lookup-remove j k t)
    ]
  ]
