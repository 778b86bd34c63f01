-- ===== src/Gcs/RaceExamples.antt =====
-- A race of two readers over src/services/storage_gcs.go.
use bincrypt.Prelude.{
  ◌≤◌, ◌≡◌, refl, true, List, [], ◌∷◌, ◌++◌, arith, codes, bytes_eq, find_by, remove_by,
}
use bincrypt.Storage.{ok, burned_paste}
use bincrypt.Gcs.{attrs_reply, read_reply, Object, Bucket, apply, works, request}
use bincrypt.Gcs.Get.{
  Phase, start, checking, claiming, reading, finished, next_op, resolved, follow, resume, step,
}
use bincrypt.Gcs.Race.{Race, advance, Races, stop, then_step, arrive, turn}
use bincrypt.Gcs.Once.{delivered, delivered-le-one}
use bincrypt.Gcs.Examples.{object_of}

-- Two readers of "a" that both find no marker before either claims it.
abbrev once : Object
once = object_of (codes "a") 60 true [] (codes "xyz")

abbrev one_paste : Bucket
one_paste = record { objects = once ∷ []; next_generation = 61 }

abbrev take : Race → List Phase → Phase → List Phase → Race
take s before r after = record {
  bucket = (advance (codes "a") works 9 r s.bucket).1;
  readers = before ++ (advance (codes "a") works 9 r s.bucket).0 ∷ after;
}

turned :
    (s t : Race)
    → Races (codes "a") 9 s t
    → (before : List Phase) (r : Phase) (after : List Phase) → t.readers ≡ before ++ r ∷ after
    → Races (codes "a") 9 s (take t before r after)
turned s t rs before r after e = then_step rs (turn works 9 before after r (λ _. omega arith) e)

abbrev alone : Race
alone = record { bucket = one_paste; readers = [] }

abbrev both : Race
both = record { bucket = one_paste; readers = start ∷ start ∷ [] }

abbrev both_checking : Race
both_checking = take (take both [] start (start ∷ [])) ((checking once) ∷ []) start []

abbrev both_claiming : Race
both_claiming =
    take (take both_checking [] (checking once) ((checking once) ∷ [])) ((claiming once once) ∷ [])
      (checking once) []

abbrev one_reading : Race
one_reading =
    take (take both_claiming [] (claiming once once) ((claiming once once) ∷ []))
      ((reading true once once) ∷ []) (claiming once once) []

abbrev one_done : Race
one_done =
    take one_reading [] ((reading true once once))
      ((finished (ok ([], burned_paste (codes "a")))) ∷ [])

race : Races (codes "a") 9 alone one_done
unfolding step next_op resume resolved follow request apply attrs_reply read_reply find_by remove_by
    bytes_eq
race =
    turned alone one_reading
      (turned alone _
        (turned alone both_claiming
          (turned alone _
            (turned alone both_checking
              (turned alone _
                (turned alone both (then_step (then_step stop arrive) arrive) [] start (start ∷ [])
                  refl)
                ((checking once) ∷ []) start [] refl)
              [] (checking once) ((checking once) ∷ []) refl)
            ((claiming once once) ∷ []) (checking once) [] refl)
          [] (claiming once once) ((claiming once once) ∷ []) refl)
        ((reading true once once) ∷ []) (claiming once once) [] refl)
      [] ((reading true once once)) ((finished (ok ([], burned_paste (codes "a")))) ∷ []) refl

one_delivery : delivered one_done.readers ≡ 1
unfolding step next_op resume resolved follow request apply attrs_reply read_reply find_by remove_by
    bytes_eq
one_delivery = refl

delivered-le-one_example : delivered one_done.readers ≤ 1
unfolding find_by bytes_eq
delivered-le-one_example =
    delivered-le-one (codes "a") 9 once one_paste one_done refl (omega arith) refl race
