-- ===== src/Redis/Window.antt =====
-- The invariant of a key of src/services/ratelimit_redis.go: the set holds every call that was let
-- through and may still be in the window.
use bincrypt.Prelude.{
  ℕ, ◌+◌, ◌-◌, ◌*◌, ◌≤◌, ◌<◌, ◌≡◌, refl, List, [], ◌∷◌, Option, none, some, All, arith, leb, length,
  Bool-cases, Option-cases, inl, inr,
}
use bincrypt.Storage.{second}
use bincrypt.Redis.{
  number, Scored, SortedSet, remove_until, insert, add_member, grown, shrunk, members_of, alive,
}
use bincrypt.Redis.Members.{
  count_above, above, above-remove_until, above-insert, length-insert, IsOld, IsOld-le, above-old,
  remove_until-IsOld, remove_member-new, insert-IsOld, length-remove_until,
}

module _ (to_double : ℕ → ℕ) (rises : (a b : ℕ) → a ≤ b → to_double a ≤ to_double b)
    (limit seconds : ℕ) (some_time : 0 < seconds) where
  abbrev pub window : ℕ
  window = seconds * second

  -- Once the key is dropped, its members are out of the window.
  abbrev pub IsDated : Option SortedSet → Type 0
  IsDated none = Unit
  IsDated (some s) = elim s.expires [
    | none ↦ Unit
    | some e ↦ All (IsOld (to_double (e - window))) s.members
  ]

  -- After calls until `last`, of which those with the scores `admitted` were let through.
  pub record Covers (last : ℕ) (admitted : List ℕ) (s : Option SortedSet) : Type 0 where
    pub small : length (members_of s) ≤ limit
    pub old : All (IsOld (to_double last)) (members_of s)
    pub dated : IsDated s
    pub counted :
        (x : ℕ) → to_double (last - window) ≤ x → count_above x admitted ≤ above x (members_of s)

  pub Covers-le :
      (last now : ℕ) (admitted : List ℕ) (s : Option SortedSet)
      → last ≤ now
      → Covers last admitted s
      → Covers now admitted s
  Covers-le last now admitted s h c = record {
    small = c.small;
    old = IsOld-le (to_double last) (to_double now) (members_of s) (rises last now h) c.old;
    dated = c.dated;
    counted =
        λ x k. c.counted x (omega (arith, rises (last - window) (now - window) (omega arith)));
  }

  Covers-gone :
      (now e : ℕ) (admitted : List ℕ) (s : SortedSet)
      → Covers now admitted (some s)
      → s.expires ≡ some e
      → e ≤ now
      → Covers now admitted none
  Covers-gone now e admitted s c at_e gone =
      let out : All (IsOld (to_double (e - window))) s.members = rw at_e at c.dated in
      record {
        small = omega arith;
        old = tt;
        dated = tt;
        counted = λ x h. omega (
          arith,
          c.counted x h,
          above-old x (to_double (e - window)) s.members
              (omega (arith, h, rises (e - window) (now - window) (omega arith))) out,
        );
      }

  pub Covers-alive :
      (now : ℕ) (admitted : List ℕ) (s : Option SortedSet)
      → Covers now admitted s
      → Covers now admitted (alive now s)
  unfolding alive
  Covers-alive now admitted none c = c
  Covers-alive now admitted (some s) c = elim (Option-cases s.expires) [
    | inl never ↦ rw never c
    | inr (e, at_e) ↦ rw at_e (elim (Bool-cases (leb e now)) [
      | inl gone ↦ rw gone (Covers-gone now e admitted s c at_e (ground arith))
      | inr there ↦ rw there c
    ])
  ]

  -- What the script counts.
  abbrev pub left : ℕ → Option SortedSet → List Scored
  left now s = remove_until (to_double (now - window)) (members_of s)

  left-counted :
      (now : ℕ) (admitted : List ℕ) (s : Option SortedSet)
      → Covers now admitted s
      → (x : ℕ) → to_double (now - window) ≤ x
      → count_above x admitted ≤ above x (left now s)
  left-counted now admitted s c x h =
      rw (above-remove_until x (to_double (now - window)) (members_of s) h) (c.counted x h)

  members-shrunk : (ms : List Scored) (s : SortedSet) → members_of (shrunk ms (some s)) ≡ ms
  members-shrunk [] s = refl
  members-shrunk (m ∷ ms) s = refl

  shrunk-IsDated :
      (ms : List Scored) (s : SortedSet)
      → IsDated (some (record s { members = ms }))
      → IsDated (shrunk ms (some s))
  shrunk-IsDated [] s d = tt
  shrunk-IsDated (m ∷ ms) s d = d

  left-IsDated :
      (now : ℕ) (s : SortedSet)
      → IsDated (some s)
      → IsDated (some (record s { members = left now (some s) }))
  left-IsDated now s d = elim (Option-cases s.expires) [
    | inl never ↦ rw never tt
    | inr (e, at_e) ↦ rw at_e (
        remove_until-IsOld (to_double (e - window)) (to_double (now - window)) s.members
          (rw at_e at d))
  ]

  -- A call that is refused changes nothing that counts.
  pub Covers-refused :
      (now : ℕ) (admitted : List ℕ) (s : Option SortedSet)
      → Covers now admitted s
      → Covers now admitted (shrunk (left now s) s)
  unfolding remove_until
  Covers-refused now admitted none c = c
  Covers-refused now admitted (some s) c =
      let same = members-shrunk (left now (some s)) s in
      record {
        small =
            rw same
              (omega (arith, length-remove_until (to_double (now - window)) s.members, c.small));
        old =
            rw same (remove_until-IsOld (to_double now) (to_double (now - window)) s.members c.old);
        dated = shrunk-IsDated (left now (some s)) s (left-IsDated now s c.dated);
        counted = λ x h. rw same (left-counted now admitted (some s) c x h);
      }

  -- The new member, and the set with it.
  abbrev pub new_member : ℕ → Scored
  new_member now = record { score = to_double now; member = number (to_double now) }

  abbrev pub with_new : ℕ → Option SortedSet → SortedSet
  with_new now s =
      record (grown (add_member (new_member now) (left now s)) (shrunk (left now s) s)) {
        expires = some (now + seconds * second);
      }

  members-grown : (ms : List Scored) (s : Option SortedSet) → (grown ms s).members ≡ ms
  members-grown ms none = refl
  members-grown ms (some s) = refl

  module _ (now top : ℕ) (s : Option SortedSet) (newer : top < to_double now)
      (old : All (IsOld top) (members_of s)) where
    new_members : (with_new now s).members ≡ insert (new_member now) (left now s)
    new_members =
        let kept = remove_until-IsOld top (to_double (now - window)) (members_of s) old in
        rw
          (
            members-grown (add_member (new_member now) (left now s)) (shrunk (left now s) s),
            remove_member-new top (to_double now) (left now s) newer kept,
          )
          refl

    new-IsOld : All (IsOld (to_double now)) (with_new now s).members
    new-IsOld =
        let kept = remove_until-IsOld top (to_double (now - window)) (members_of s) old in
        rw (new_members) (
          insert-IsOld (to_double now) (new_member now) (left now s) (refl, omega arith)
            (IsOld-le top (to_double now) (left now s) (omega (arith, newer)) kept))

    -- A call that is let through, counted or not.
    pub Covers-new :
        (admitted : List ℕ)
        → Covers now admitted s
        → length (left now s) < limit
        → Covers now (to_double now ∷ admitted) (some (with_new now s))
    Covers-new admitted c fits = record {
      small = rw (new_members, length-insert (new_member now) (left now s)) (omega (arith, fits));
      old = new-IsOld;
      dated = let back : now + seconds * second - window ≡ now = omega arith in rw back (new-IsOld);
      counted = λ x h.
          rw (new_members, above-insert x (new_member now) (left now s))
            (omega (arith, left-counted now admitted s c x h));
    }

  pub Covers-fewer :
      (now n : ℕ) (admitted : List ℕ) (s : Option SortedSet)
      → Covers now (n ∷ admitted) s
      → Covers now admitted s
  Covers-fewer now n admitted s c = record {
    small = c.small;
    old = c.old;
    dated = c.dated;
    counted = λ x h. omega (arith, c.counted x h);
  }
