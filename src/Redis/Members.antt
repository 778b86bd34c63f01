-- ===== src/Redis/Members.antt =====
-- What the commands on a sorted set that src/services/ratelimit_redis.go uses do to its members.
use bincrypt.Prelude.{
  ℕ, suc, ◌+◌, ◌≤◌, ◌<◌, ◌≡◌, refl, List, [], ◌∷◌, All, arith, ltb, leb, length, if◌then◌else◌,
  Bool-cases, inl, inr,
}
use bincrypt.Redis.{number, Scored, remove_until, remove_member, insert}

-- How many scores lie above `x`.
abbrev pub count_above : ℕ → List ℕ → ℕ
count_above x [] = 0
count_above x (s ∷ ss) = (if ltb x s then 1 else 0) + count_above x ss

abbrev pub above : ℕ → List Scored → ℕ
above x [] = 0
above x (m ∷ ms) = (if ltb x m.score then 1 else 0) + above x ms

pub above-le-length : (x : ℕ) (ms : List Scored) → above x ms ≤ length ms
above-le-length x [] = omega arith
above-le-length x (m ∷ ms) = ground (arith, above-le-length x ms)

pub above-remove_until :
    (x top : ℕ) (ms : List Scored) → top ≤ x → above x (remove_until top ms) ≡ above x ms
unfolding remove_until
above-remove_until x top [] h = refl
above-remove_until x top (m ∷ ms) h = ground (arith, above-remove_until x top ms h)

pub above-insert :
    (x : ℕ) (s : Scored) (ms : List Scored)
    → above x (insert s ms) ≡ (if ltb x s.score then 1 else 0) + above x ms
unfolding insert
above-insert x s [] = refl
above-insert x s (m ∷ ms) = ground (arith, above-insert x s ms)

pub length-insert : (s : Scored) (ms : List Scored) → length (insert s ms) ≡ suc (length ms)
unfolding insert
length-insert s [] = refl
length-insert s (m ∷ ms) = ground (arith, length-insert s ms)

-- A member that the script wrote, at `top` at the latest.
abbrev pub IsOld : ℕ → Scored → Type 0
IsOld top m = (m.member ≡ number m.score) × (m.score ≤ top)

pub IsOld-le :
    (top top' : ℕ) (ms : List Scored) → top ≤ top' → All (IsOld top) ms → All (IsOld top') ms
IsOld-le top top' [] h a = tt
IsOld-le top top' (m ∷ ms) h ((e, k), a) = ((e, omega arith), IsOld-le top top' ms h a)

pub above-old : (x top : ℕ) (ms : List Scored) → top ≤ x → All (IsOld top) ms → above x ms ≡ 0
above-old x top [] h a = refl
above-old x top (m ∷ ms) h ((e, k), a) = ground (arith, above-old x top ms h a)

pub remove_until-IsOld :
    (top until : ℕ) (ms : List Scored)
    → All (IsOld top) ms
    → All (IsOld top) (remove_until until ms)
unfolding remove_until
remove_until-IsOld top until [] a = tt
remove_until-IsOld top until (m ∷ ms) (k, a) = elim (Bool-cases (leb m.score until)) [
  | inl old ↦ rw old (remove_until-IsOld top until ms a)
  | inr new ↦ rw new (k, remove_until-IsOld top until ms a)
]

-- A new member's text is no old one's.
pub remove_member-new :
    (top n : ℕ) (ms : List Scored) → top < n → All (IsOld top) ms → remove_member (number n) ms ≡ ms
unfolding remove_member
remove_member-new top n [] h a = refl
remove_member-new top n (m ∷ ms) h ((e, k), a) =
    rw e (ground (arith, remove_member-new top n ms h a))

pub insert-IsOld :
    (top : ℕ) (s : Scored) (ms : List Scored)
    → IsOld top s
    → All (IsOld top) ms
    → All (IsOld top) (insert s ms)
unfolding insert
insert-IsOld top s [] o a = (o, tt)
insert-IsOld top s (m ∷ ms) o (k, a) = elim (Bool-cases (ltb s.score m.score)) [
  | inl before ↦ rw before (o, (k, a))
  | inr after ↦ rw after (k, insert-IsOld top s ms o a)
]

pub length-remove_until : (top : ℕ) (ms : List Scored) → length (remove_until top ms) ≤ length ms
unfolding remove_until
length-remove_until top [] = omega arith
length-remove_until top (m ∷ ms) = ground (arith, length-remove_until top ms)
