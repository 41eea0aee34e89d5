-- ===== src/Lib.antt =====
-- The hamsa backend: billing of shared building costs, payments, maintenance requests and sign-in, for
-- the Go services under backend/internal.
--
-- The parts and how they interact. The charge engine (backend/internal/billing/engine/engine.go) is
-- pure: an item and the units of a building give one rounded share for each unit. The calculation
-- service (backend/internal/billing/calc_service.go) runs it on the items of a period and composes one
-- draft invoice for each unit, with the prior debt and the credit that the balance service
-- (backend/internal/payment/balance_service.go) supplies. The period service
-- (backend/internal/billing/period_service.go) moves a period from draft over calculated and issued
-- to closed and corrects issued invoices. The payment service (backend/internal/payment/service.go)
-- applies money to invoices and has the balance of the unit recomputed in the same transaction.
-- Maintenance requests (backend/internal/maintenance) and tokens and invite codes
-- (backend/internal/auth) are components of their own. The registry of buildings
-- (backend/internal/building) keeps the units, the managers and the dated occupancies; the
-- announcements (backend/internal/announcement) find by them whom they are shown to. The expenses
-- (backend/internal/expense) are reported with the payments and the balances of the payment service.
--
-- Which file models which code:
-- Base: shared helpers. Base.Int has integers, Base.Int64 Go's int64 with its wrap-around, Base.Results
-- the outcomes of a call (a value, an error value, a panic), Base.Text texts as code points.
-- Server: API errors (backend/internal/platform/httpx/errors.go), and service calls as functions on a
-- world: the tables, an oracle that decides for every statement whether the database fails, a supply
-- of ids and random values, and the time, which stands still during a request. A transaction restores the tables on an
-- error, and its commit may fail. Server.Rules has one proof rule for each way to build a call.
-- Engine: engine.go. Engine.Methods has distribute and the simple methods, Engine.Rounding
-- allocateLargestRemainder, Engine.Combined Calculate and calcCombined, Engine.Fees LateFee. A big.Rat is a
-- fraction that need not be in lowest terms.
-- Billing: Billing.Model has the rows, Billing.Repository the statements of
-- backend/internal/billing/repository.go with the triggers of backend/migrations that they fire,
-- Billing.Periods period_service.go (its children have the life of a period, the cost items and the
-- corrections of invoices), Billing.Calculation calc_service.go (the inputs of the engine, the lines of
-- an invoice, the run and the preview).
-- Payment: Payment.Model and Payment.Balance are models.go, balance_service.go and the balance part of
-- repository.go; Payment.Statement has the sums
-- that a balance stands for. Payment.Service is service.go: Ledger the statements on invoices, Settling the
-- transaction that both kinds of payment share, Manual and Callbacks the two kinds. The gateway is a
-- parameter: its answers may be anything.
-- Maintenance: Maintenance.Model is models.go, Maintenance.Service service.go and the statements of
-- repository.go that it makes: Submitting, Reads and Patching are its operations.
-- Auth: Auth.Tokens is token.go, Auth.Invites invite.go. The hash and the signature are parameters.
-- Building: Building.Model is models.go and occupancy_models.go, Building.Repository repository.go with
-- the checks, unique indexes and foreign keys of migration 0002, Building.Registry and
-- Building.Managers service.go, Building.People, Building.NationalId and Building.Occupancies
-- occupancy_service.go and occupancy_repository.go with migration 0003.
-- Announcement: Announcement.Model is models.go, Announcement.Repository and Announcement.Reads
-- repository.go, Announcement.Input applyInput and Announcement.Service the rest of service.go.
-- uuid.Parse is a parameter. Base.Decimal is what %d of fmt reads and prints.
-- Expense: Expense.Model is models.go, Expense.Month parseMonth and monthWindow, Expense.Calendar the calendar that they are measured by, Expense.Service and
-- Expense.Listing service.go and repository.go. uuid.Parse is a parameter.
-- The other modules of a part hold theorems, and the module Tests of a part its examples.
--
-- Bounds. An int64 wraps around. Every loop is structural recursion on its list, so no fuel is needed;
-- Calculate calls itself only through calcCombined on an item with no weights, where the recursion is unrolled once.
-- A table is the list of its rows in the order of creation, an id is a number, a date the number of a day,
-- and a time the number of a second, both counted from the first day of the year 0.
--
-- Not modelled: the dashboard, HTTP handlers, the lists of buildings, units and persons, the
-- clients of payment gateways, configuration and storage, the texts of messages, paged lists, and the web and mobile
-- clients. Two requests at the same time are not interleaved, so row locks have no effect.
pub mod Base
pub mod Engine
pub mod Server
pub mod Billing
pub mod Payment
pub mod Maintenance
pub mod Auth
pub mod Building
pub mod Announcement
pub mod Expense
