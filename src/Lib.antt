-- ===== src/Lib.antt =====
-- The billing service: invoices, payments, dunning, subscriptions, credits, refunds and the ledger
-- behind them.
--
-- The program is a NestJS service over one PostgreSQL database. Its services read and write the
-- tables through repositories, most of them inside `db.transaction`; finalizing an invoice calls
-- the credits service, and both call the ledger service, which posts every movement of money as a
-- double entry. The calendar decides when an invoice is due and the state machines which status may
-- follow which.
--
-- Files and the code they are about:
--   Base          tests, signed integers over the native numbers, tables as lists
--   Calendar      src/common/utils/billing-date.util.ts: Date and Billing hold the code (Date is
--                 JavaScript's `Date` by its UTC fields), Months, Due and Next the proofs
--   StateMachine  src/common/utils/state-machine.util.ts and the tables of
--                 src/invoices/invoice-state-machine.ts, src/refunds/refund-state-machine.ts and
--                 src/subscriptions/subscription-state-machine.ts; Runs has sequences of transitions
--   Store         src/database/schema (Rows); Action is the shared state, errors, `transaction`,
--                 `try`/`catch`, `validateTransition` and `generateId`; Ensures has their rules,
--                 Constraints the foreign keys to the customers, Logged the log of webhooks
--   Ledger        src/ledger/ledger.service.ts (Service), with Posting, Balance and Lifecycle
--   Credits       src/credits/credits.service.ts and src/credits/credit-balances.repository.ts
--                 (Service), with Balances, Application and Notes
--   Invoices      src/invoices/invoices.repository.ts (Repository) and
--                 src/invoices/invoices.service.ts (Surcharge, Service, Drafts), with Items,
--                 Settlement, Finalize, Liveness, Voiding and Refresh
--   Refunds       src/refunds/refunds.service.ts, src/refunds/refunds.repository.ts and
--                 src/refunds/validate-refund-amount.ts (Service), with Outcome, Limits
--                 and Retry
--   Outbound      `publish` of src/integration/sqs/sqs-producer.service.ts, dual writes
--                 (src/migration/dual-write.service.ts) and what the services call outside
--   Methods       src/payment-methods: the queries that charges and dunning use, and adding,
--                 removing, ordering and confirming methods (Service); Calls follows the default
--                 through any sequence of them, by Adding and Changing
--   Reconciliation  src/reconciliation/reconciliation.service.ts: Compare compares the two sides,
--                 Service is the daily run; Reports, Totals, Stored and Reruns are about them, with the
--                 rows in Store/Reconciled
--   Gateways      src/gateway/stripe/stripe.adapter.ts: retries and errors (Resilience), the loops
--                 over pages (Paging), with Pages and Listing
--   Charges       src/charges/charges.service.ts and src/charges/charges.repository.ts (Service,
--                 OneTime); Books, Settling, Payment and Composing follow the invoices and the
--                 ledger through a payment, Liveness, Idempotency and Onboarding are about
--                 success, keys and drafts
--   Dunning       src/dunning/dunning.service.ts and src/dunning/dunning.repository.ts (Schedule,
--                 Service), with Books, Payment and Chains
--   Payroll       src/payroll/payroll-breakdown.resolver.ts, with Breakdown
--   Subscriptions src/subscriptions/subscriptions.service.ts (Period, Service, Events,
--                 Seeding), with Cycles
--   Webhooks      src/webhooks/webhook-processing.service.ts (Service) and its log
--                 src/webhooks/webhook-events.repository.ts, with Books, Marks and Once
--   Generation    the loops of `generateInvoicesForDueSubscriptions` and `createFromEvent` of
--                 src/invoices/invoices.service.ts (Service), with Counts
--   FeatureFlags  src/feature-flags (Service), with what requests ask for (Asked), the rows they leave
--                 (Stored) and Requests
--   Surcharges    src/surcharges (Service), with Requests
--   Customers     src/customers (Service), with Rows and Events
--   Tests         the theorems at concrete inputs
--
-- How state and operations correspond. An operation is an `Action`: it takes the `Store` and gives
-- a result or an error, with the store it leaves. What was written before an error stays written; a
-- transaction goes back to the store in which it began. A definition has the name of its function
-- in snake case: `finalize_transaction` is the transaction that `finalizeDraftForSubscription` and
-- `finalizeAndCharge` share, `void_invoice` is `voidInvoice`. Identifiers are numbers from a
-- supply; amounts are integers of cents, and `Math.round` of a percentage is computed on them
-- exactly. Rows stand in the order of their creation, which is the order of `createdAt`; the
-- columns `createdAt`, but for that of the ledger, and `updatedAt`, the descriptions, the
-- breakdowns and other display columns are left out. Optional collaborators of a service are taken
-- to be present, and the time zone of the process to be UTC. Dates are compared by `stamp`, which
-- orders valid dates as `getTime()` does.
--
-- How the parts interact. A charge reads the invoice, selects a payment method, asks the gateway and
-- settles the invoice with the ledger in one transaction; its first failure schedules dunning. A
-- dunning attempt charges the invoice again and, when no attempt is left, makes the subscription past
-- due. A webhook settles a charge that was pending. `World` holds what these call outside the
-- repository: the gateway's answer to a charge, whether the queue takes a message, and the text of an
-- error. The answers are functions of the request, so two calls with one request agree; the requests
-- of one invoice differ by the attempt's number. The keys of one-time charges are the client's and
-- are taken to differ from the keys `inv_…_att_…` of invoices. Where the database leaves the order of
-- tied rows open, the row created first comes first.
--
-- All definitions but one are structural. The loop over the pages of a list runs on fuel, and one
-- page more than there are items is enough, since every page but the last has an item. The
-- configured list `PAYROLL_ADVANCE_DAYS`, the days of the retry schedule and the maximal number of
-- attempts, the payment gateway's answers, the text of an error and the charge after a finalization
-- are arguments of what uses them; an empty retry schedule, which the configuration does not give,
-- counts as 0 days. The share of a percentage discount is rounded up by the source in floating
-- point, where the product of whole numbers may lie just above the exact value, and is an argument
-- of the payroll; the other amounts of a payroll, which the source computes as
-- floating-point dollars and rounds back, are exact in cents, and no theorem is about them.
--
-- Of the constraints of the database, the foreign keys of flags and surcharge settings and the unique
-- index of payment methods are checked where a row is written. Invoices, charges and the other rows
-- are written with identifiers that were read before.
--
-- The monolith's answer to a request for a payroll, and the salary and the platform fee in the
-- breakdown of a line item, are arguments of the seeding of a draft.
--
-- Not modelled: the parsing of webhooks; interleavings of requests, since each operation runs
-- alone; the listing queries, controllers, guards and queue consumers, which are input and output;
-- of the gateways the adapter of Adyen, the circuit breaker, which is a third-party package, and
-- the mapping of the gateways' objects; the creation of setup intents, which only calls the
-- gateway, and the metadata of methods with its mandate; migrations, reports, the resolution of
-- disputes and administration.
pub mod Base
pub mod Calendar
pub mod StateMachine
pub mod Store
pub mod Ledger
pub mod Credits
pub mod Invoices
pub mod Refunds
pub mod Outbound
pub mod Methods
pub mod Charges
pub mod Dunning
pub mod Payroll
pub mod Subscriptions
pub mod Webhooks
pub mod Generation
pub mod Reconciliation
pub mod Gateways
pub mod FeatureFlags
pub mod Surcharges
pub mod Customers
pub mod Tests
