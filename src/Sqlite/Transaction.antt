-- ===== src/Sqlite/Transaction.antt =====
-- Transactions of database/sql as the backends use them: the body works on a copy, which replaces
-- the database if the body reaches Commit and Commit succeeds; every other return is rolled back by
-- the deferred Rollback.
use bincrypt.Prelude.{Bool, if◌then◌else◌}
use bincrypt.Storage.{Result, ok, err, StoreError, begin_failed, commit_failed}
use bincrypt.Sqlite.{Db}

-- The calls of the database that may fail.
pub data Call : Type 0 where
  ban_plaintext_query ban_query begin_tx existing_query insert_reference : Call
  insert_original insert_index commit_tx burned_query paste_query insert_burn : Call
  burn_affected content_query delete_row delete_burn insert_ban : Call

-- Which calls fail for a reason of their own, as a lost connection: the environment's choice.
abbrev pub Faults : Type 0
Faults = Call → Bool

-- How the body of a transaction returns.
pub data TxEnd (A : Type 0) : Type 0 where
  commit : A → TxEnd A
  rollback : Result StoreError A → TxEnd A

unfoldable pub finish_tx : {A : Type 0} → Faults → TxEnd A × Db → Db → Result StoreError A × Db
finish_tx fails (commit a, copy) db =
    if fails commit_tx then (err commit_failed, db) else (ok a, copy)
finish_tx fails (rollback r, copy) db = (r, db)

unfoldable pub run_tx : {A : Type 0} → Faults → (Db → TxEnd A × Db) → Db → Result StoreError A × Db
unfolding finish_tx
run_tx fails body db =
    if fails begin_tx then (err begin_failed, db) else finish_tx fails (body db) db
