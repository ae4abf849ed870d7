-- ===== src/Events/Tx.antt =====
-- Transactions (`WithTx`). A transaction that is rolled back, or whose commit fails, leaves the
-- tables as they were.
use ddash.Effect.{Outcome, ok, err, Exec, pure, raise, attempt, ◌>>=◌, ◌>>◌}
use ddash.Store.{Db, World, call}

abbrev pub no_change : Exec Db Unit
no_change db = (ok tt, db)

-- A statement that only meets faults: BEGIN, COMMIT, ROLLBACK.
unfoldable pub touch : Exec World Unit
touch = call no_change

unfoldable pub restore : Db → Exec World Unit
restore before w = (ok tt, record w { db = before })

abbrev pub committed : Db → Outcome → Exec World Unit
committed before (ok done) = pure tt
committed before (err e) = restore before >> raise e

-- The end of a transaction whose body gave the result. A failed ROLLBACK replaces the error.
abbrev pub finish : Db → Outcome → Exec World Unit
finish before (ok done) = do answer ← attempt touch; committed before answer
finish before (err e) = do restore before; touch; raise e

unfoldable pub with_tx : Exec World Unit → Exec World Unit
unfolding touch restore
with_tx body w = (do touch; result ← attempt body; finish w.db result) w
