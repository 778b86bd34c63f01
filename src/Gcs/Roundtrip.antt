-- ===== src/Gcs/Roundtrip.antt =====
-- A paste that is saved in the bucket is read back, with what it refers to as it is then.
use bincrypt.Prelude.{
  ℕ, ◌≤◌, ◌*◌, ◌≡◌, refl, true, false, [], Option, none, some, Bytes, arith, ◌==◌, if◌then◌else◌,
  is_empty, Bool-cases, inl, inr, length,
}
use mathlib.Core.Path.{ap, ◌∙◌, sym}
use bincrypt.Storage.{ok, err, get_failed, Paste, Platform, SaveArgs, SavePasteResult, second}
use bincrypt.Sqlite.Save.{expires_at, to_seconds}
use bincrypt.Gcs.{Object, Bucket, find_object, Op, Fault, paste_object_name, burn_object_name}
use bincrypt.Gcs.Save.{save_paste}
use bincrypt.Gcs.Get.{Answer, is_expired, get_paste}
use bincrypt.Gcs.Outcomes.{reliable, get_paste-own, get_paste-reference, get_paste-dangling}
use bincrypt.Gcs.Saved.{saved_object, IsSaved, save_paste-IsSaved}

module _ (p : Platform) (fails : Op → Fault) (a : SaveArgs) where
  -- What a read answers once the paste is saved as `r` in the bucket `b`.
  abbrev pub saved_paste : Bytes → Paste
  saved_paste content = record {
    id = a.id;
    expires_at = to_seconds (expires_at p a) * second;
    burn_after_read = a.burn_after_read;
    size_bytes = if length a.ciphertext == 0 then length content else length a.ciphertext;
    created_at = to_seconds a.now * second;
    is_burned = a.burn_after_read;
  }

  abbrev pub referred : Option Object → Answer
  referred none = err get_failed
  referred (some target) = ok (target.content, saved_paste target.content)

  abbrev pub read_back : SavePasteResult → Bucket → Answer
  read_back r b =
      if r.was_deduplicated
      then referred (find_object (paste_object_name r.references_id) b)
      else ok (a.ciphertext, saved_paste a.ciphertext)

  -- The object of the saved paste, and the facts that a read of it takes.
  abbrev own_object : SavePasteResult → ℕ → Object
  own_object r generation =
      saved_object p fails a r.references_id (if r.was_deduplicated then [] else a.ciphertext)
        generation

  not_yet :
      (r : SavePasteResult) (n now : ℕ)
      → now ≤ to_seconds (expires_at p a) * second
      → is_expired now (own_object r n) ≡ false
  not_yet r n now early = ground arith

  referred-get_paste :
      (r : SavePasteResult) (b b' : Bucket) (now : ℕ) (target : Option Object)
      → IsSaved p fails a r b b'
      → r.was_deduplicated ≡ true
      → find_object (burn_object_name a.id) b ≡ none
      → now ≤ to_seconds (expires_at p a) * second
      → find_object (paste_object_name r.references_id) b' ≡ target
      → (get_paste now a.id reliable b').0 ≡ some (referred target)
  referred-get_paste r b b' now none s old unburned early there =
      let refers : is_empty r.references_id ≡ false = ground (arith, s.own) in
      ap (λ x. x.0)
        (get_paste-dangling now a.id b' (own_object r s.generation) s.stored (s.unburned ∙ unburned)
          refers there)
  referred-get_paste r b b' now (some target) s old unburned early there =
      let refers : is_empty r.references_id ≡ false = ground (arith, s.own) in
      ap (λ x. x.0)
        (get_paste-reference now a.id b' (own_object r s.generation) s.stored
          (s.unburned ∙ unburned) target (not_yet r s.generation now early) refers there)

  own-get_paste :
      (r : SavePasteResult) (b b' : Bucket) (now : ℕ)
      → IsSaved p fails a r b b'
      → r.was_deduplicated ≡ false
      → find_object (burn_object_name a.id) b ≡ none
      → now ≤ to_seconds (expires_at p a) * second
      → (get_paste now a.id reliable b').0 ≡ some (ok (a.ciphertext, saved_paste a.ciphertext))
  own-get_paste r b b' now s new unburned early =
      let own : r.references_id ≡ [] = ground (arith, s.own) in
      let whole : (if r.was_deduplicated then [] else a.ciphertext) ≡ a.ciphertext = rw new refl in
      ap (λ x. x.0)
        (get_paste-own now a.id b' (own_object r s.generation) s.stored (s.unburned ∙ unburned)
          (not_yet r s.generation now early) own)
      ∙ ap (λ (c : Bytes). some (ok (c, saved_paste c))) whole

  read_back-reference :
      (r : SavePasteResult) (b : Bucket)
      → r.was_deduplicated ≡ true
      → read_back r b ≡ referred (find_object (paste_object_name r.references_id) b)
  read_back-reference r b old = rw old refl

  read_back-original :
      (r : SavePasteResult) (b : Bucket)
      → r.was_deduplicated ≡ false
      → read_back r b ≡ ok (a.ciphertext, saved_paste a.ciphertext)
  read_back-original r b new = rw new refl

-- If a save succeeds, whatever faults it met, and there was no burn marker for its identifier, then
-- until the paste's expiry (in whole seconds) a read with every request working answers: of an
-- original, the text that was saved; of a deduplicated paste, the content that the object it refers
-- to has now, or an error if that object is gone; and with either content the expiry, creation
-- time (in whole seconds), size and burn-after-read flag of the save, burned already exactly if it
-- burns after reading.
pub save_paste-read_back :
    (p : Platform) (fails : Op → Fault) (a : SaveArgs) (now : ℕ) (b b' : Bucket)
    (r : SavePasteResult)
    → save_paste p fails a b ≡ (ok r, b')
    → find_object (burn_object_name a.id) b ≡ none
    → now ≤ to_seconds (expires_at p a) * second
    → (get_paste now a.id reliable b').0 ≡ some (read_back p fails a r b')
save_paste-read_back p fails a now b b' r saved unburned early =
    let s = save_paste-IsSaved p fails a b b' r saved in
    elim (Bool-cases r.was_deduplicated) [
      | inl old ↦
          referred-get_paste p fails a r b b' now _ s old unburned early refl
          ∙ ap some (sym (read_back-reference p fails a r b' old))
      | inr new ↦
          own-get_paste p fails a r b b' now s new unburned early
          ∙ ap some (sym (read_back-original p fails a r b' new))
    ]
