-- ===== src/Redis/Calls.antt =====
-- What one call of src/services/ratelimit_redis.go does to the set of its key.
use bincrypt.Prelude.{
  ℕ, ◌+◌, ◌-◌, ◌*◌, ◌≤◌, ◌<◌, ◌≡◌, refl, ◌==◌, ◌||◌, Bool, true, false, List, [], ◌∷◌, Option, none,
  some, Bytes, All, arith, ltb, leb, length, if◌then◌else◌, Bool-cases, Option-cases, inl, inr,
  bytes_eq, find_by, find_by-remove_by,
}
use bincrypt.Storage.{second}
use bincrypt.RateLimit.{Decision}
use bincrypt.Redis.{
  Scored, SortedSet, Key, key_name, find_set, Value, integer, Delivery, answered, undelivered,
  unacknowledged, ran, ceil_seconds, oldest_value, add_member, expire, grown, shrunk, members_of,
  alive,
}
use bincrypt.Redis.Check.{script, read_reply, check_valid, check_set, put_set}
use bincrypt.Redis.Members.{IsOld}
use bincrypt.Redis.Window.{
  Covers, Covers-le, Covers-alive, Covers-refused, Covers-new, Covers-fewer, left, with_new,
  new_member,
}

abbrev pub is_allowed : Option Decision → Bool
is_allowed none = false
is_allowed (some d) = d.allowed

pub find_set-put :
    (name other : Bytes) (s : Option SortedSet) (db : List Key)
    → find_set other (put_set name s db) ≡ (if bytes_eq name other then s else find_set other db)
unfolding find_by
find_set-put name other none db = ground (arith, find_by-remove_by key_name other name db)
find_set-put name other (some s) db = ground (arith, find_by-remove_by key_name other name db)

module _ (to_double : ℕ → ℕ) (rises : (a b : ℕ) → a ≤ b → to_double a ≤ to_double b)
    (limit seconds : ℕ) (some_time : 0 < seconds) (some_calls : 0 < limit) where
  abbrev w : ℕ
  w = seconds * second

  -- What the script counts, and the set that it leaves for a call that fits.
  abbrev counted : ℕ → Option SortedSet → List Scored
  counted now s = left to_double rises limit seconds some_time now s

  abbrev grown_set : ℕ → Option SortedSet → SortedSet
  grown_set now s = with_new to_double rises limit seconds some_time now s

  abbrev pub Covered : ℕ → List ℕ → Option SortedSet → Type 0
  Covered last admitted s = Covers to_double rises limit seconds some_time last admitted s

  expire-seconds :
      (now : ℕ) (s : SortedSet)
      → expire now (ceil_seconds w) s ≡ some (record s { expires = some (now + seconds * second) })
  unfolding expire
  expire-seconds now s =
      let whole : ceil_seconds w ≡ seconds = omega arith in rw whole (ground arith)

  script-fits :
      (now : ℕ) (s : Option SortedSet)
      → ltb (length (counted now s)) limit ≡ true
      → script to_double limit w now now s
        ≡ (integer 1 ∷ integer (limit - length (counted now s) - 1) ∷ [], some (grown_set now s))
  unfolding script
  script-fits now s fits =
      rw
        (
          fits,
          expire-seconds now (
              grown
                (add_member (new_member to_double rises limit seconds some_time now)
                  (counted now s))
                (shrunk (counted now s) s)),
        )
        refl

  script-full :
      (now : ℕ) (s : Option SortedSet)
      → ltb (length (counted now s)) limit ≡ false
      → script to_double limit w now now s
        ≡ (integer 0 ∷ integer 0 ∷ oldest_value (counted now s) ∷ [], shrunk (counted now s) s)
  unfolding script
  script-full now s full = rw full refl

  refused-allowed :
      (now later : ℕ) (v : Value)
      → is_allowed (read_reply to_double limit w now now later (integer 0 ∷ integer 0 ∷ v ∷ []))
        ≡ false
  unfolding read_reply
  refused-allowed now later v = ground arith

  -- The set after the script, in either case.
  module _ (now last later : ℕ) (admitted : List ℕ) (s : Option SortedSet)
      (c : Covered now admitted s) (newer : to_double last < to_double now)
      (old : All (IsOld (to_double last)) (members_of s)) where
    script-Covers : Covered now admitted (script to_double limit w now now s).1
    script-Covers = elim (Bool-cases (ltb (length (counted now s)) limit)) [
      | inl fits ↦ rw (script-fits now s fits) (
          Covers-fewer to_double rises limit seconds some_time now (to_double now) admitted _ (
            Covers-new to_double rises limit seconds some_time now (to_double last) s newer old
              admitted c (ground arith)))
      | inr full ↦
          rw (script-full now s full)
            (Covers-refused to_double rises limit seconds some_time now admitted s c)
    ]

    answered-Covers :
        let out = script to_double limit w now now s in
        Covered now
          (if is_allowed (read_reply to_double limit w now now later out.0)
            then to_double now ∷ admitted
            else admitted)
          out.1
    unfolding read_reply
    answered-Covers = elim (Bool-cases (ltb (length (counted now s)) limit)) [
      | inl fits ↦ rw (script-fits now s fits) (
          Covers-new to_double rises limit seconds some_time now (to_double last) s newer old
            admitted c (ground arith))
      | inr full ↦
          rw (script-full now s full, refused-allowed now later (oldest_value (counted now s)))
            (Covers-refused to_double rises limit seconds some_time now admitted s c)
    ]

    valid-Covers :
        (d pipe removal : Delivery)
        → let out = check_valid to_double limit w now now later (ran d) pipe removal s in
          Covered now (if is_allowed out.0 then to_double now ∷ admitted else admitted) out.1
    unfolding check_valid
    valid-Covers answered pipe removal = answered-Covers
    valid-Covers undelivered pipe removal = c
    valid-Covers unacknowledged pipe removal = script-Covers

  alive-IsOld :
      (top now : ℕ) (s : Option SortedSet)
      → All (IsOld top) (members_of s)
      → All (IsOld top) (members_of (alive now s))
  unfolding alive
  alive-IsOld top now none a = a
  alive-IsOld top now (some s) a = elim (Option-cases s.expires) [
    | inl never ↦ rw never a
    | inr (e, at_e) ↦
        rw at_e (elim (Bool-cases (leb e now)) [ inl gone ↦ rw gone tt | inr there ↦ rw there a ])
  ]

  pub set-Covers :
      (last now later : ℕ) (admitted : List ℕ) (s : Option SortedSet) (d pipe removal : Delivery)
      → Covered last admitted s
      → last ≤ now
      → to_double last < to_double now
      → let out = check_set to_double limit w now now later (ran d) pipe removal s in
        Covered now (if is_allowed out.0 then to_double now ∷ admitted else admitted) out.1
  unfolding check_set
  set-Covers last now later admitted s d pipe removal c h newer =
      let here = Covers-le to_double rises limit seconds some_time last now admitted s h c in
      let living = Covers-alive to_double rises limit seconds some_time now admitted s here in
      let asked : (limit == 0 || w == 0) ≡ false = ground arith in
      rw asked (
        valid-Covers now last later admitted (alive now s) living newer
          (alive-IsOld (to_double last) now s c.old) d pipe removal)
