-- ===== src/Gcs/Once.antt =====
-- Readers of a burn-after-read paste that race: one of them at most gets the content.
use bincrypt.Prelude.{
  ℕ, ◌+◌, ◌*◌, ◌≤◌, ◌≡◌, Bool, true, false, List, [], ◌∷◌, ◌++◌, some, Bytes, arith, All,
}
use mathlib.Core.Path.{subst, ap}
use bincrypt.Storage.{second}
use bincrypt.Gcs.{Object, Bucket, find_object, paste_object_name}
use bincrypt.Gcs.Get.{Phase, finished, or_zero}
use bincrypt.Gcs.Race.{Race, advance, RaceStep, arrive, turn, other, Races, stop, then_step}
use bincrypt.Gcs.Claims.{has_text, has_claim, one_if, is_marked, IsTrue, IsPaste, keeps, turn_of}

-- How many readers have finished with a content.
abbrev is_delivered : Phase → Bool
is_delivered (finished answer) = has_text answer
is_delivered _ = false

abbrev pub delivered : List Phase → ℕ
delivered [] = 0
delivered (r ∷ rs) = one_if (is_delivered r) + delivered rs

abbrev claims : List Phase → ℕ
claims [] = 0
claims (r ∷ rs) = one_if (has_claim r) + claims rs

module _ (id : Bytes) (until : ℕ) (o0 : Object) (once : o0.metadata.burn_after_read ≡ true)
    (lasting : until ≤ or_zero o0.metadata.expires_at * second) where
  record IsFair (s : Race) : Type 0 where
    stored : IsPaste id until o0 once lasting s.bucket
    sound : All (IsTrue id until o0 once lasting) s.readers
    charged : claims s.readers ≤ one_if (is_marked id s.bucket)

  IsTrue-member :
      (before after : List Phase) (r : Phase)
      → All (IsTrue id until o0 once lasting) (before ++ r ∷ after)
      → IsTrue id until o0 once lasting r
  IsTrue-member [] after r (h, hs) = h
  IsTrue-member (x ∷ before) after r (hx, hs) = IsTrue-member before after r hs

  IsTrue-turn :
      (before after : List Phase) (r r' : Phase)
      → All (IsTrue id until o0 once lasting) (before ++ r ∷ after)
      → IsTrue id until o0 once lasting r'
      → All (IsTrue id until o0 once lasting) (before ++ r' ∷ after)
  IsTrue-turn [] after r r' (h, hs) h' = (h', hs)
  IsTrue-turn (x ∷ before) after r r' (hx, hs) h' = (hx, IsTrue-turn before after r r' hs h')

  claims-turn :
      (before after : List Phase) (r r' : Phase)
      → claims (before ++ r' ∷ after) + one_if (has_claim r)
        ≡ claims (before ++ r ∷ after) + one_if (has_claim r')
  claims-turn [] after r r' = omega arith
  claims-turn (x ∷ before) after r r' = omega (arith, claims-turn before after r r')

  RaceStep-IsFair : {s t : Race} → RaceStep id until s t → IsFair s → IsFair t
  RaceStep-IsFair arrive f = record {
    stored = f.stored;
    sound = (tt, f.sound);
    charged = omega (arith, f.charged);
  }
  RaceStep-IsFair {s} (turn fault now before after r early e) f =
      let all : All (IsTrue id until o0 once lasting) (before ++ r ∷ after) =
        subst (All (IsTrue id until o0 once lasting)) e f.sound in
      let true_so_far = IsTrue-member before after r all in
      let t = turn_of id until o0 once lasting fault r now s.bucket f.stored early true_so_far in
      let r' = (advance id fault now r s.bucket).0 in
      record {
        stored = t.stored;
        sound = IsTrue-turn before after r r' all t.sound;
        charged = omega (arith, t.charged, f.charged, ap claims e, claims-turn before after r r');
      }
  RaceStep-IsFair {s} (other fault op w d) f =
      let k = keeps id until o0 once lasting fault op s.bucket w d f.stored in
      record { stored = k.stored; sound = f.sound; charged = ground (arith, f.charged, k.marked) }

  Races-IsFair : {s t : Race} → Races id until s t → IsFair s → IsFair t
  Races-IsFair stop f = f
  Races-IsFair (then_step rs st) f = RaceStep-IsFair st (Races-IsFair rs f)

delivered-claims : (rs : List Phase) → delivered rs ≤ claims rs
delivered-claims [] = omega arith
delivered-claims (r ∷ rs) = ground (arith, delivered-claims rs)

-- If the object stored under a paste's name burns after reading and does not expire by `until`,
-- and no call is under way, then of all the calls of GetPaste for it that follow one at most answers
-- with a content, as long as none of them checks the expiry after `until`, whenever it started:
-- however their requests to the bucket are interleaved, with one another and with requests that
-- neither write the paste nor delete its burn marker, and whichever requests fail or lose their
-- answers.
pub delivered-le-one :
    (id : Bytes) (until : ℕ) (o : Object) (b : Bucket) (s : Race)
    → o.metadata.burn_after_read ≡ true
    → until ≤ or_zero o.metadata.expires_at * second
    → find_object (paste_object_name id) b ≡ some o
    → Races id until (record { bucket = b; readers = [] }) s
    → delivered s.readers ≤ 1
delivered-le-one id until o b s once lasting e races =
    let start_fair : IsFair id until o once lasting (record { bucket = b; readers = [] }) = record {
      stored = λ x h. cc;
      sound = tt;
      charged = omega arith;
    } in
    let f = Races-IsFair id until o once lasting races start_fair in
    ground (arith, delivered-claims s.readers, f.charged)
