-- ===== src/Prelude/Tables.antt =====
-- Lists of rows with a key of bytes.
use mathlib.Core.Path.{◌≡◌, refl, subst}
use mathlib.Core.Logic.{inl, inr}
use mathlib.Core.Bool.{false}
use mathlib.Core.Option
use mathlib.Core.Option.{Option, none, some}
use mathlib.Core.List.{List, [], ◌∷◌, map}
use native.Mathlib.Omega.{arith}
use bincrypt.Prelude.Tests.{if◌then◌else◌, Bool-cases}
use bincrypt.Prelude.Lists.{All}
use bincrypt.Prelude.Texts.{Bytes, bytes_eq, bytes_eq_iff}

module _ {A : Type 0} (key : A → Bytes) where
  -- The first row with the key.
  unfoldable pub find_by : Bytes → List A → Option A
  find_by k [] = none
  find_by k (x ∷ xs) = if bytes_eq (key x) k then some x else find_by k xs

  -- The rows without the key.
  unfoldable pub remove_by : Bytes → List A → List A
  remove_by k [] = []
  remove_by k (x ∷ xs) = if bytes_eq (key x) k then remove_by k xs else x ∷ remove_by k xs

  pub find_by-remove_by :
      (k d : Bytes) (xs : List A)
      → find_by k (remove_by d xs) ≡ (if bytes_eq d k then none else find_by k xs)
  unfolding find_by remove_by
  find_by-remove_by k d [] = ground arith
  find_by-remove_by k d (x ∷ xs) = ground (
    arith,
    bytes_eq_iff d k,
    bytes_eq_iff (key x) d,
    bytes_eq_iff (key x) k,
    find_by-remove_by k d xs,
  )

  pub find_by_key : (k : Bytes) (xs : List A) (x : A) → find_by k xs ≡ some x → key x ≡ k
  unfolding find_by
  find_by_key k [] x h = ground arith
  find_by_key k (y ∷ xs) x h = ground (arith, bytes_eq_iff (key y) k, find_by_key k xs x)

module _ {A : Type 0} (key : A → Bytes) (P : A → Type 0) where
  -- What holds of every row holds of the row that is found.
  pub find_by-All : (k : Bytes) (xs : List A) (x : A) → All P xs → find_by key k xs ≡ some x → P x
  unfolding find_by
  find_by-All k [] x h e = cc
  find_by-All k (y ∷ xs) x (p, h) e = elim (Bool-cases (bytes_eq (key y) k)) [
    | inl same ↦ let found : y ≡ x = ground arith in subst P found p
    | inr other ↦ find_by-All k xs x h (rw other at e)
  ]

module _ {A : Type 0} (key : A → Bytes) (P Q : A → Type 0) where
  -- What a row that stays has by its key holds of every row that stays.
  pub All-remove_by :
      (d : Bytes) (xs : List A)
      → ((x : A) → bytes_eq (key x) d ≡ false → P x → Q x)
      → All P xs
      → All Q (remove_by key d xs)
  unfolding remove_by
  All-remove_by d [] f h = tt
  All-remove_by d (x ∷ xs) f (p, h) = elim (Bool-cases (bytes_eq (key x) d)) [
    | inl same ↦ rw same (All-remove_by d xs f h)
    | inr other ↦ rw other (f x other p, All-remove_by d xs f h)
  ]

module _ {A : Type 0} (key : A → Bytes) (f : A → A) (keeps : (x : A) → key (f x) ≡ key x) where
  pub find_by-map :
      (k : Bytes) (xs : List A) → find_by key k (map f xs) ≡ Option.map f (find_by key k xs)
  unfolding find_by
  find_by-map k [] = refl
  find_by-map k (x ∷ xs) = elim (Bool-cases (bytes_eq (key x) k)) [
    | inl same ↦ rw (keeps x, same) refl
    | inr other ↦ rw (keeps x, other) (find_by-map k xs)
  ]

module _ {A : Type 0} (P Q : A → Type 0) (f : A → A) where
  pub All-map : (xs : List A) → ((x : A) → P x → Q (f x)) → All P xs → All Q (map f xs)
  All-map [] g h = tt
  All-map (x ∷ xs) g (p, h) = (g x p, All-map xs g h)
