-- ===== src/Gcs/Backend.antt =====
-- The Cloud Storage backend as a StorageBackend, under the faults that the requests of one call
-- meet, and with no request of another call between them.
use bincrypt.Prelude.{◌≡◌, true, false, Option, none, some}
use bincrypt.Storage.{Platform, StorageBackend}
use bincrypt.Sqlite.{is_some}
use bincrypt.Gcs.{Bucket, Op, Fault}
use bincrypt.Gcs.Save.{save_paste}
use bincrypt.Gcs.Get.{get_paste}
use bincrypt.Gcs.Admin.{mark_burned, delete_paste, ban_content_hash, ban_plaintext_hash}
use bincrypt.Gcs.Termination.{get_paste-answers}

pub impossible : false ≡ true → ⊥
impossible h = cc

abbrev the : {A : Type 0} → (x : Option A) → is_some x ≡ true → A
the (some x) h = x
the none h = elim (impossible h) [ ]

abbrev pub gcs_backend : Platform → (Op → Fault) → StorageBackend Bucket
gcs_backend p fails = record {
  save_paste = save_paste p fails;
  get_paste = λ now id b. (
    the (get_paste now id fails b).0 (get_paste-answers now id fails b),
    (get_paste now id fails b).1,
  );
  mark_burned = mark_burned fails;
  delete_paste = delete_paste fails;
  ban_content_hash = ban_content_hash fails;
  ban_plaintext_hash = ban_plaintext_hash fails;
}
