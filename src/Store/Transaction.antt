-- ===== src/Store/Transaction.antt =====
-- db/transaction.ts, and what a transaction sees of its environment: the database, the clock behind
-- NOW(), the identifiers that `randomUUID` is going to draw and the collation behind ORDER BY.
-- A transaction runs as one step: the rows that it decides on are locked (FOR UPDATE) until COMMIT.
use cost_engine_orchestratio.Base.{ℕ, suc, String, Bool}
use cost_engine_orchestratio.Errors.{commit_unconfirmed}
use cost_engine_orchestratio.Exec.{Result, ok, err, Exec}
use cost_engine_orchestratio.Store.Tables.{Database}

-- how COMMIT is answered: it is confirmed, or it throws, whether the database applied it or not
pub data CommitReply : Type 0 where
  commit_confirmed commit_lost commit_failed : CommitReply

-- `commits` is the answer to a COMMIT that would take the tables from the first to the second.
pub record Env : Type 0 where
  pub db : Database
  pub now : ℕ
  pub uuids : ℕ → String
  pub collation : String → String → Bool
  pub commits : Database → Database → CommitReply

abbrev pub Action : Type 0 → Type 0
Action A = Exec Env A

-- A COMMIT that throws may have been applied: the ROLLBACK after it changes nothing then.
abbrev pub commit_transaction {ℓ} : {A : Type ℓ} → CommitReply → Database → A → Env → Result A × Env
commit_transaction commit_confirmed before a s = (ok a, s)
commit_transaction commit_lost before a s = (err commit_unconfirmed, s)
commit_transaction commit_failed before a s = (err commit_unconfirmed, record s { db = before })

-- ROLLBACK restores the tables; identifiers that were drawn stay drawn.
abbrev pub close_transaction {ℓ} : {A : Type ℓ} → Database → Result A → Env → Result A × Env
close_transaction before (ok a) s = commit_transaction (s.commits before s.db) before a s
close_transaction before (err e) s = (err e, record s { db = before })

unfoldable pub with_transaction : {A : Type 0} → Action A → Action A
with_transaction callback s = let (r, s') = callback s in close_transaction s.db r s'

unfoldable pub random_uuid : Action String
random_uuid s = (ok (s.uuids 0), record s { uuids = λ n. s.uuids (suc n) })

-- A query or an update of the tables.
abbrev pub write : (Database → Database) → Env → Env
write f s = record s { db = f s.db }
