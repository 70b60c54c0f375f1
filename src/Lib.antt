-- ===== src/Lib.antt =====
-- FlowCart: a verification library of the API's domain logic (apps/api/internal).
--
-- The API keeps an organization's stock in PostgreSQL. Stock levels hold a product in a warehouse;
-- reservations hold back part of a level, for a time or for an order; orders are priced, reserved,
-- paid and fulfilled, and a fulfillment takes what its order has held; transfers move stock between
-- warehouses; movements record every change of stock, and audit events who changed what. The
-- allocation engine is pure: it splits an order over the warehouses that hold its products.
--
-- Prelude      lists, maps, signed integers and int64 with its wrap-around, sorting, and the
--              `(value, error)` returns of Go (Prelude/Results).
-- Allocation   apps/api/internal/allocation. Model has the data of model.go, Score and Engine the
--              functions of engine.go, each under its name: `Allocate` is `allocate`, and so on. The
--              other modules prove what the engine promises; Correct, Complete and
--              Provenance put it together.
-- Database     the tables, as lists of rows (Tables), and transactions as functions that return a
--              value and the tables they leave, or an error (`Tx`, `transact`). Stock has the
--              statements that repositories share, Audit is `Writer.AppendEvent` of
--              apps/api/internal/audit/audit.go, and Ledger what movements add up to.
-- Organization apps/api/internal/organization: Role has the roles and their rights, Repository the
--              members, and Service who may change which.
-- Inventory    apps/api/internal/inventory: of repository.go, Repository has `Create`, `Reserve` and
--              `Release`, Adjust has `Adjust` and `UpdateReplenishmentPolicy`. Of service.go,
--              Service has the guards and Recommend `applyRecommendations`.
-- Order        apps/api/internal/order: Reading, Pricing, Placing and Creating have `Create` of
--              repository.go and what it reads, Cancelling has `Cancel`, Automatic has `AutoCreate`
--              of auto_repository.go, which commits what `allocate` decides. Service has the guards
--              of service.go.
-- Fulfillment  apps/api/internal/fulfillment: Model has the rows and joins of repository.go,
--              Completing has `Complete`, and Service the guards of service.go.
-- Payment      apps/api/internal/payment: Aggregate has what the operations share, the locks and the
--              coverage of an order; Creating has `Create` of repository.go, Checkout and Retries
--              the operations of checkout_repository.go, Accepting and Events those of
--              events_repository.go. What the provider tells is their argument (`ProviderIntent`,
--              `VerifiedEvent`).
-- Pagination   the limits of apps/api/internal/pagination/pagination.go.
-- Transfer     apps/api/internal/transfer: of repository.go, Reading has what it reads, Creating has
--              `Create`, Shipping has `Dispatch`, `Receive` and `Cancel`. Of service.go, Service
--              has the guards.
-- Access       who may ask the services of stock, orders, transfers and fulfillments for a change.
--
-- A transaction runs alone, from the state that the row locks it takes give it: the model has no
-- two transactions on the same rows at once. Time is a number of seconds; a transaction has one
-- `NOW()`, when it began, and a `statement_timestamp()` for the statements that compare it with the
-- expiry of a reservation (`Clock`). Identifiers are the numbers of their UUIDs, and an insertion
-- takes the next number that is free. The CHECKs and unique keys that a modelled statement can break
-- are written out in it and give `database_error`; of the foreign keys only those of a new transfer
-- to its warehouses are, since the others hold of rows that the transaction has just read. Fields
-- that nothing reads (names, `updated_at`, the metadata of events) are left out.
--
-- The only loop without a bound of its own is that of `Allocate`. It runs on as much fuel as units
-- are asked for, and one more, and `none` stands for its end; every round takes at least a unit.
--
-- Not modelled: HTTP handlers and routing, authentication, the checkout service and the
-- client of the payment provider, products, warehouses, rate limits, pages of results, the
-- configuration, the commands and the web client.
pub mod Prelude
pub mod Allocation
pub mod Database
pub mod Pagination
pub mod Organization
pub mod Inventory
pub mod Order
pub mod Fulfillment
pub mod Payment
pub mod Transfer
pub mod Access
