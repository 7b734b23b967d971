-- ===== src/Lib.antt =====
-- The off-chain service of a token: orders are paid by bank transfer (PIX), clearing matches the
-- bank's statement with the orders and makes each match a payment, and a ledger follows the token's
-- transfers on the chains. This library models the core of the service, the code under src/domain
-- with the database adapters that it calls, and proves its rules.
--
-- The parts, with the file that models each:
-- - Base: Boolean tests, lists, text, dictionaries, results, and `Numbers`, the JavaScript `number`
--   where it is fractional, a parameter of every part that computes with one.
-- - Common.Chain: src/domain/common/entities/chain.entity.ts and the enums under
--   src/domain/common/enums. Common.Format: src/domain/common/util.ts.
-- - Price.Calculus: FixedPointCalculusAdapter, in
--   src/infrastructure/adapters/unsupported-types/uint256/calculus. The library ethers is the
--   parameter `Ethers`; `IsExact` states its documented behaviour.
-- - Price.Rates: the five strategies of CreateQuoteUseCase, in
--   src/domain/price/usecases/create-quote.usecase.ts. Price.Request: its
--   requests and quotes. Price.Quote: its `execute`, whose prices are the parameter `QuotePorts`.
-- - Ledger.Entry: JournalEntry with its `compare`. Ledger.Balances: Balance and BalanceBuilder;
--   `post` is the body of `addJournalEntry` on one balance. Ledger.Sync: SyncLedgerUseCase with the
--   rows that its adapters read and write; `sync_balances` is the loop; a save is two
--   statements, whose answers are the parameter `SaveAnswers`, and a call that throws leaves what was
--   written before it; Ledger.Sync.Run is `execute` around it. The cipher is
--   the parameter `Encryption`.
-- - Order: src/domain/order/entities/order.entity.ts. The encoder of the identifier is a parameter.
-- - Placement: CreateBrazilianPixOrderUseCase, in
--   src/domain/order/usecases/create-brazilian-pix-order.usecase.ts. `place_order` takes a quote of
--   Price.Quote, makes an Order and adds its row.
-- - Clearing.Entities: the entities and value objects. Clearing.Database: the rows of the payments,
--   the transitions and the amounts, by the adapters under
--   src/infrastructure/repositories/offchain; the argument `up` says which calls are answered.
--   Clearing.Process: ProcessStatementTransactionUseCase, whose `execute` is a machine of the parts
--   between its awaits. Clearing.Schedule: CreateClearingUseCase.processStatementTransaction under
--   `Promise.all`: a schedule says which transaction has its turn, and the transactions share the
--   cache, the orders and the tables. Clearing.Bank: FetchableStatementHttpAdapter, in
--   src/infrastructure/adapters/apis/statement, whose request is a parameter. Clearing.Rows: the
--   table `clearing`. Clearing.Pages: CreateClearingUseCase.processStatement. Clearing.Create: its
--   `execute`.
-- - Delegation: CreateSignedDelegateOrderUseCase and KnnToCurrenciesUseCase; the signature, the
--   hash and the nonce are parameters.
-- - Supply.Claiming: of ClaimLockedSupplyUseCase the failed attempts and bans, the one-time code
--   and `filterByEmail`. Supply.Claiming.Addresses: its tests of addresses.
--   Supply.Claiming.Challenges: the tables `challenge` and `answer`. Supply.Claiming.Steps and
--   Supply.Claiming.Answers: `executeChallenge` and `validateAnswer`.
-- - Supply.Dispatch: DispatchSupplyUseCase, as the calls of its ports, the order and the result.
-- - Supply.Reconciliation: ReconcileDelegateSignatureClaimUseCase, without its log lines.
-- - Settlement: ProcessOrderSettlementUseCase, up to the mail. Settlement.Batch: the loop of
--   CreateSettlementUseCase, in src/domain/settlement/usecases.
-- - Expiry: ExpireOrdersUseCase, in src/domain/order/usecases/expire-orders.usecase.ts, with the
--   letters that it writes.
-- - Badges: VerifyAggregatedBadgeMintUseCase and the table mint_history. Badges.Signatures:
--   SignAggregatedMintUseCase, both in src/domain/badge/usecases. The rules of eligibility are a
--   parameter, and so is the database's `order by`, with its documented behaviour in `Sorts`.
-- - Identity.Roles and Identity.Authorization: the roles, and ValidateAuthTokenUseCase.
-- - Identity.AuthChallenge: the entity and the table auth_challenge. Identity.Challenges:
--   GenerateAuthChallengeUseCase. Identity.AccessToken: the records and the short tests of
--   GenerateAuthTokenUseCase. Identity.Tokens: the use case, with Identity.Throttle for its
--   failures and bans by address, Identity.Scopes for the texts of the roles and the check of the
--   scopes, and Identity.Fingerprints for `resolveRoles`.
-- - Tests: each property at a concrete input.
--
-- How they interact: a placement gets a quote and stores an order; Clearing reads and changes an
-- Order and formats amounts with Common.Format; the ledger computes its exact totals with
-- Price.Calculus; the JournalEntry stands on a Chain; Settlement dispatches the supply of a paid
-- order and stores its transition in the tables of Clearing.Database.
--
-- Representation. A text is the list of its character codes. Dates are milliseconds. A text of
-- digits that stands for an amount (`unassignedNumber`, `uint256amount`) is the native number that
-- it stands for; exact totals are bounded by the format ufixed128x18, below 2 ^ 128 units. An
-- exception is a value of `Result`, and a value that may be undefined is an `Option`. The order
-- that a call of clearing changes is an object in memory, kept beside the tables.
--
-- Bounds and fuel. `Clearing.Process.execute` runs seven parts, the most that a call has: the
-- tests, the transition and the quote of a late payment, its refresh, the payment, the status, the
-- last transition. `Clearing.Pages.process_statement` has one step for each page; a bank that never
-- announces more than m pages is read in m + 1 of them, the first page being number zero.
-- `Badges.Signatures.sign_mint` has one step for each call of itself, and two are enough where a
-- wallet does not regain its eligibility. `drain` gives each task nine turns: its order, the seven
-- parts, and its return. `decimal` has one step for each unit of its number and one more. All else
-- is structural.
--
-- Abstractions. A turn of the schedule is one part of a transaction, and a boundary lies also where
-- the code does not await, so that the schedules include those of the event loop and more. The
-- insertion of a transition and the update of the status are one call. `Promise.all` waits for the
-- page: the schedule of a page is any list of turns, followed by the turns that let the tasks
-- return. The clock stands still during a call. The query of a page's orders, and that of the
-- locked orders, is a parameter. Where the text of an error is not read, the error is a
-- constructor.
--
-- Not modelled: the HTTP interface, the command line and the factories, which are glue; the
-- adapters of the chains, the mail and the prices, which only call services; the bank's token and
-- its HTTP request; migrations other than the indexes of the payments; statistics, transactions,
-- the rules of eligibility for a badge, the lookups of an order and of a badge's signature, and the
-- cultivation domain.
pub mod Base
pub mod Common
pub mod Price
pub mod Ledger
pub mod Order
pub mod Placement
pub mod Delegation
pub mod Clearing
pub mod Supply
pub mod Settlement
pub mod Expiry
pub mod Badges
pub mod Identity
mod Tests
