-- ===== src/Firestore/Members.antt =====
-- What the loops of src/services/ratelimit_firestore.go do to the instants of a document.
use bincrypt.Prelude.{
  ℕ, ◌+◌, ◌≤◌, ◌≡◌, refl, List, [], ◌∷◌, ◌++◌, Option, none, some, All, arith, ltb, length, ap,
  Bool-cases, inl, inr,
}
use mathlib.Core.List.{map}
use bincrypt.Redis.Members.{count_above}
use bincrypt.Firestore.{
  Element, instant, other, Document, instants_after, keep_after, read_array, read_timestamps,
}

pub count_above-le-length : (x : ℕ) (ts : List ℕ) → count_above x ts ≤ length ts
count_above-le-length x [] = omega arith
count_above-le-length x (t ∷ ts) = ground (arith, count_above-le-length x ts)

pub count_above-append :
    (x : ℕ) (ts us : List ℕ) → count_above x (ts ++ us) ≡ count_above x ts + count_above x us
count_above-append x [] us = omega arith
count_above-append x (t ∷ ts) us = omega (arith, count_above-append x ts us)

pub count_above-keep_after :
    (x start : ℕ) (ts : List ℕ) → start ≤ x → count_above x (keep_after start ts) ≡ count_above x ts
unfolding keep_after
count_above-keep_after x start [] h = refl
count_above-keep_after x start (t ∷ ts) h = ground (arith, count_above-keep_after x start ts h)

-- The instants of a document.
abbrev pub instants : List Element → List ℕ
instants [] = []
instants (other ∷ es) = instants es
instants (instant t ∷ es) = t ∷ instants es

abbrev array_times : Option (List Element) → List ℕ
array_times none = []
array_times (some es) = instants es

abbrev pub times_of : Option Document → List ℕ
times_of none = []
times_of (some d) = array_times d.timestamps

instants_after-keep :
    (start : ℕ) (es : List Element) → instants_after start es ≡ keep_after start (instants es)
unfolding instants_after keep_after
instants_after-keep start [] = refl
instants_after-keep start (other ∷ es) = instants_after-keep start es
instants_after-keep start (instant t ∷ es) = ground (arith, instants_after-keep start es)

keep_after-twice :
    (start : ℕ) (ts : List ℕ) → keep_after start (keep_after start ts) ≡ keep_after start ts
unfolding keep_after
keep_after-twice start [] = refl
keep_after-twice start (t ∷ ts) = ground (arith, keep_after-twice start ts)

read_array-keep :
    (start : ℕ) (o : Option (List Element))
    → keep_after start (read_array start o) ≡ keep_after start (array_times o)
unfolding read_array
read_array-keep start none = refl
read_array-keep start (some es) =
    rw (instants_after-keep start es) (keep_after-twice start (instants es))

-- The two loops together keep the instants after `start`.
pub read-keep :
    (start : ℕ) (d : Option Document)
    → keep_after start (read_timestamps start d) ≡ keep_after start (times_of d)
unfolding read_timestamps
read-keep start none = refl
read-keep start (some d) = read_array-keep start d.timestamps

module _ (stored : ℕ → ℕ) where
  -- An instant as Firestore keeps it, `last` at the latest.
  abbrev pub IsKept : ℕ → ℕ → Type 0
  IsKept last t = (stored t ≡ t) × (t ≤ last)

  pub keep_after-IsKept :
      (last start : ℕ) (ts : List ℕ)
      → All (IsKept last) ts
      → All (IsKept last) (keep_after start ts)
  unfolding keep_after
  keep_after-IsKept last start [] h = tt
  keep_after-IsKept last start (t ∷ ts) (k, h) = elim (Bool-cases (ltb start t)) [
    | inl new ↦ rw new (k, keep_after-IsKept last start ts h)
    | inr old ↦ rw old (keep_after-IsKept last start ts h)
  ]

  pub IsKept-le :
      (last now : ℕ) (ts : List ℕ) → last ≤ now → All (IsKept last) ts → All (IsKept now) ts
  IsKept-le last now [] h k = tt
  IsKept-le last now (t ∷ ts) h ((same, before), k) =
      ((same, omega arith), IsKept-le last now ts h k)

  -- What is written again stays.
  pub instants-map :
      (last : ℕ) (ts us : List ℕ)
      → All (IsKept last) ts
      → instants (map (λ t. instant (stored t)) (ts ++ us)) ≡ ts ++ map stored us
  instants-map last [] [] h = refl
  instants-map last [] (u ∷ us) h = ap (λ r. stored u ∷ r) (instants-map last [] us tt)
  instants-map last (t ∷ ts) us ((same, before), h) = rw (same, instants-map last ts us h) refl
