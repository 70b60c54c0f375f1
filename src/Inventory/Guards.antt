-- ===== src/Inventory/Guards.antt =====
-- What the service lets through to the repository.
use flowcart.Prelude.{ℕ, ◌≢◌, ℤ, err, arith}
use flowcart.Database.{Db, Clock, transact}
use flowcart.Organization.Role.{TenantContext}
use flowcart.Inventory.Repository.{database_error}
use flowcart.Inventory.Service.{create, reserve}

-- A quantity that the service lets through breaks no `CHECK` of a table: neither a new level nor a
-- reservation fails with an error of the database.
pub service_checks :
    (clock : Clock) (tenant : TenantContext) (a b : ℕ) (n : ℤ) (db : Db)
    → ((transact (create clock tenant a b n) db).0 ≢ err database_error)
      × ((transact (reserve clock tenant a n) db).0 ≢ err database_error)
unfolding create reserve
service_checks clock tenant a b n db = (λ h. ground (arith, h), λ h. ground (arith, h))
