-- ===== src/Common/Places.antt =====
-- Lists that are read, changed and cut at a place.
use Prim.Native.Nat.{ℕ, zero, suc, ◌≤◌, ◌<◌}
use mathlib.Core.Path.{◌≡◌, refl, ap, subst}
use mathlib.Core.Logic.{inl, inr}
use mathlib.Core.Bool.{Bool, true, false, ◌&&◌, ◌||◌}
use mathlib.Core.Option.{Option, none, some}
use mathlib.Core.List.{List, [], ◌∷◌, ◌++◌, append_assoc}
use android_system_logging.Common.Tests.{
  ◌==◌, if◌then◌else◌, Succeeds, Bool-cases, ◌>>=◌, some-eq-some,
}
use android_system_logging.Common.Keys.{lookup, assign, remove, nat_key}
use android_system_logging.Common.Lists.{length, length-append, All, filter, modify_at, get_elem?}
use native.Mathlib.Omega.{arith}

module _ {ℓ} {A : Type ℓ} where
  pub get_elem?-front :
      (k : ℕ) (xs ys : List A) → k < length xs → get_elem? (xs ++ ys) k ≡ get_elem? xs k
  get_elem?-front k [] ys h = absurd (omega arith)
  get_elem?-front zero (x ∷ xs) ys h = refl
  get_elem?-front (suc k) (x ∷ xs) ys h = get_elem?-front k xs ys (omega arith)

  -- Behind an element that is taken out.
  pub get_elem?-behind :
      (k : ℕ) (xs ys : List A) (y : A)
      → length xs ≤ k
      → get_elem? (xs ++ ys) k ≡ get_elem? (xs ++ (y ∷ ys)) (suc k)
  get_elem?-behind k [] ys y h = refl
  get_elem?-behind zero (x ∷ xs) ys y h = absurd (omega arith)
  get_elem?-behind (suc k) (x ∷ xs) ys y h = get_elem?-behind k xs ys y (omega arith)

  pub get_elem?-middle : (xs ys : List A) (y : A) → get_elem? (xs ++ (y ∷ ys)) (length xs) ≡ some y
  get_elem?-middle [] ys y = refl
  get_elem?-middle (x ∷ xs) ys y = get_elem?-middle xs ys y

  pub Succeeds-lt :
      (P : A → Type 0) (k : ℕ) (xs : List A) → Succeeds (get_elem? xs k) P → k < length xs
  Succeeds-lt P k [] h = absurd h
  Succeeds-lt P zero (x ∷ xs) h = omega arith
  Succeeds-lt P (suc k) (x ∷ xs) h = omega (arith, Succeeds-lt P k xs h)

  pub length-modify_at : (j : ℕ) (f : A → A) (xs : List A) → length (modify_at j f xs) ≡ length xs
  length-modify_at j f [] = refl
  length-modify_at zero f (x ∷ xs) = refl
  length-modify_at (suc j) f (x ∷ xs) = ap suc (length-modify_at j f xs)

  pub modify_at-front :
      (j : ℕ) (f : A → A) (xs ys : List A)
      → j < length xs
      → modify_at j f (xs ++ ys) ≡ modify_at j f xs ++ ys
  modify_at-front j f [] ys h = absurd (omega arith)
  modify_at-front zero f (x ∷ xs) ys h = refl
  modify_at-front (suc j) f (x ∷ xs) ys h = ap (◌∷◌ x) (modify_at-front j f xs ys (omega arith))

  pub modify_at-middle :
      (f : A → A) (xs ys : List A) (y : A)
      → modify_at (length xs) f (xs ++ (y ∷ ys)) ≡ xs ++ (f y ∷ ys)
  modify_at-middle f [] ys y = refl
  modify_at-middle f (x ∷ xs) ys y = ap (◌∷◌ x) (modify_at-middle f xs ys y)

  pub length-snoc : (xs : List A) (y : A) → length (xs ++ (y ∷ [])) ≡ suc (length xs)
  length-snoc xs y = omega (arith, length-append xs (y ∷ []))

  pub snoc-append : (xs : List A) (y : A) (ys : List A) → (xs ++ (y ∷ [])) ++ ys ≡ xs ++ (y ∷ ys)
  snoc-append xs y ys = append_assoc xs (y ∷ []) ys

  -- What a change leaves true of each element is true of the element at a place.
  pub Succeeds-modify_at :
      (P : A → Type 0) (j k : ℕ) (f : A → A) (xs : List A)
      → ((x : A) → P x → P (f x))
      → Succeeds (get_elem? xs k) P
      → Succeeds (get_elem? (modify_at j f xs) k) P
  Succeeds-modify_at P j k f [] keep h = h
  Succeeds-modify_at P zero zero f (x ∷ xs) keep h = keep x h
  Succeeds-modify_at P zero (suc k) f (x ∷ xs) keep h = h
  Succeeds-modify_at P (suc j) zero f (x ∷ xs) keep h = h
  Succeeds-modify_at P (suc j) (suc k) f (x ∷ xs) keep h = Succeeds-modify_at P j k f xs keep h

  pub filter-without :
      (p : A → Bool) (xs ys : List A) (y : A)
      → p y ≡ false
      → filter p (xs ++ (y ∷ ys)) ≡ filter p (xs ++ ys)
  filter-without p [] ys y h = rw h refl
  filter-without p (x ∷ xs) ys y h = elim (Bool-cases (p x)) [
    | inl e ↦ rw e (ap (◌∷◌ x) (filter-without p xs ys y h))
    | inr e ↦ rw e (filter-without p xs ys y h)
  ]

  pub filter-modify_at :
      (p : A → Bool) (j : ℕ) (f : A → A) (xs : List A)
      → ((x : A) → p (f x) ≡ p x)
      → Succeeds (get_elem? xs j) (λ x. p x ≡ false)
      → filter p (modify_at j f xs) ≡ filter p xs
  filter-modify_at p j f [] same h = refl
  filter-modify_at p zero f (x ∷ xs) same h = rw (same x, h) refl
  filter-modify_at p (suc j) f (x ∷ xs) same h = elim (Bool-cases (p x)) [
    | inl e ↦ rw e (ap (◌∷◌ x) (filter-modify_at p j f xs same h))
    | inr e ↦ rw e (filter-modify_at p j f xs same h)
  ]

-- A step that stops only under a condition, and its result has the property.
abbrev pub Ends {ℓ} : {A : Type ℓ} → Bool → Option A → (A → Type 0) → Type 0
Ends c none P = c ≡ true
Ends c (some a) P = P a

Ends-some {ℓ} :
    {A : Type ℓ} (c : Bool) (P : A → Type 0) {m : Option A} {a : A} → m ≡ some a → P a → Ends c m P
Ends-some c P e p = rw e p

pub Ends-bind {ℓ κ} :
    {A : Type ℓ} {B : Type κ} (c : Bool) (P : A → Type 0) (Q : B → Type 0) (m : Option A)
    (f : A → Option B)
    → Ends c m P
    → ((a : A) → P a → Ends c (f a) Q)
    → Ends c (m >>= f) Q
Ends-bind c P Q none f p k = p
Ends-bind c P Q (some a) f p k = k a p

pub All-map {ℓ} :
    {A : Type ℓ} (P Q : A → Type 0) (xs : List A) → ((x : A) → P x → Q x) → All P xs → All Q xs
All-map P Q [] f a = tt
All-map P Q (x ∷ xs) f a = (f x a.0, All-map P Q xs f a.1)

-- Tables by numbers, of whose values something is true.
module _ {V : Type 0} (P : V → Type 0) where
  abbrev AllValues : List (ℕ × V) → Type 0
  AllValues = All (λ (x : ℕ × V). P x.1)

  pub lookup-All : (k : ℕ) (v : V) (t : List (ℕ × V)) → AllValues t → lookup k t ≡ some v → P v
  lookup-All k v [] a h = absurd (let c : none ≡ some v = h in cc)
  lookup-All k v ((j, w) ∷ t) a h = elim (Bool-cases (j == k)) [
    | inl e ↦ let c : some w ≡ some v = rw e at h in subst P (some-eq-some c) (a.0)
    | inr e ↦ lookup-All k v t a.1 (rw e at h)
  ]

  pub assign-All : (k : ℕ) (v : V) (t : List (ℕ × V)) → P v → AllValues t → AllValues (assign k v t)
  assign-All k v [] p a = (p, tt)
  assign-All k v ((j, w) ∷ t) p a = elim (Bool-cases (j == k)) [
    | inl e ↦ rw e (p, a.1)
    | inr e ↦ rw e (a.0, assign-All k v t p a.1)
  ]

  pub remove-All : (k : ℕ) (t : List (ℕ × V)) → AllValues t → AllValues (remove k t)
  remove-All k [] a = tt
  remove-All k ((j, w) ∷ t) a = elim (Bool-cases (j == k)) [
    | inl e ↦ rw e (remove-All k t a.1)
    | inr e ↦ rw e (a.0, remove-All k t a.1)
  ]

pub if-either {ℓ} :
    {A : Type ℓ} (P : A → Type 0) (c : Bool) (x y : A)
    → (c ≡ true → P x)
    → (c ≡ false → P y)
    → P (if c then x else y)
if-either P true x y p q = p refl
if-either P false x y p q = q refl

pub and-first : (a b : Bool) → a && b ≡ true → a ≡ true
and-first true b h = refl
and-first false b h = h

pub or-false : (a b : Bool) → a || b ≡ false → (a ≡ false) × (b ≡ false)
or-false true b h = absurd (let c : true ≡ false = h in cc)
or-false false b h = (refl, h)

pub and-second : (a b : Bool) → a && b ≡ true → b ≡ true
and-second true b h = h
and-second false b h = absurd (let c : false ≡ true = h in cc)

pub Ends-weaken {ℓ} :
    {A : Type ℓ} (c d : Bool) (P : A → Type 0) (m : Option A)
    → (c ≡ true → d ≡ true)
    → Ends c m P
    → Ends d m P
Ends-weaken c d P none f h = f h
Ends-weaken c d P (some a) f h = h

pub Succeeds-Ends {ℓ} :
    {A : Type ℓ} (c : Bool) (P : A → Type 0) (m : Option A) → Succeeds m P → Ends c m P
Succeeds-Ends c P none h = absurd h
Succeeds-Ends c P (some a) h = h

pub Ends-monotone {ℓ} :
    {A : Type ℓ} {P Q : A → Type 0} (c : Bool) (m : Option A)
    → ((a : A) → P a → Q a)
    → Ends c m P
    → Ends c m Q
Ends-monotone c none f h = h
Ends-monotone c (some a) f h = f a h
