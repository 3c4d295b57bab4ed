-- ===== src/Lib.antt =====
-- Tonatiuh: a trading bot that opens a position on an exchange, follows it and closes it, run
-- either as one desktop process or as many bots of a multi-tenant service.
--
-- The parts of the program and the files that model them:
--   Number            what the code does with JavaScript numbers: a record of operations
--                     (`Number N`) that the trading modules take as an instance, the few laws of
--                     comparison that a theorem uses (`IsIeee`), and fixed-point numbers that
--                     satisfy them (Number/Fixed), on which everything runs
--   Trading.Types     src/types/types.ts and src/repository/types/types.ts: orders and settings
--   Trading.Outside   what the trading code calls outside the repository: the exchange through
--                     ccxt, the clock, whether the database accepts a statement, and random ids
--   Trading.Exchange  src/utils/ExchangeService/ExchangeService.ts: reads with at most five
--                     attempts, cancelling all orders with its fallback, the balance cache
--   Trading.Math      src/trading-service/trading-math.ts: side, profit and buy-back amounts
--   Trading.Exposure  src/utils/OrdersOperationService/position-exposure.ts: what filled orders
--                     leave open, and the order that closes it
--   Trading.Reconciliation
--                     src/utils/SessionTrading/session-reconciliation.ts: whether the rows of a
--                     session cancel out
--   Trading.Sessions  src/repository/repository/session.repository.ts: the rows of sessions
--   Trading.Balances  src/repository/repository/balance.repository.ts: the history of balances
--   Trading.SessionService
--                     src/utils/SessionTrading/SessionTradingService.ts: starting, recovering and
--                     ending a session, on the desk, the sessions and the balances together
--   Trading.Settings  the configuration of a bot: src/plugins/EncryptionService (Encryption),
--                     ConfigType of src/repository/types/types.ts (Config), and
--                     src/repository/repository/config.repository.ts (Repository, and Flags with
--                     src/utils/EmergencyStop/EmergencyStopService.ts)
--   Trading.Trader    src/trading-service/abstract.trading.ts and TradingVectorProfitService: the
--                     end of a session (End), the price tracker (Tracker), entering a position
--                     (Entry), one turn of the loop (Turn), the loop and its start (Watch),
--                     and which orders a service opens (Opens)
--   Trading.Orders    src/utils/OrdersOperationService/OrdersOperationService.ts with the rows of
--                     src/repository/repository/order.repository.ts: publishing (Publish), waiting
--                     for an execution by at most 60 polls (Wait), opening (Open) and closing
--                     (Close) a position, and the other operations on the rows (Rows). `Desk` is the
--                     service's state: its orders, the table, what was published, and the venue
--   Process.Manager   src/process/TradingWorkerManager.ts: one child process for each
--                     configuration. Calls, exits and timers are steps of a relation
--   Process.Child     src/worker.ts: the child process: messages, signals and the ends of the calls
--                     that it awaits as events in any order; the trading service is an interface
--   Saas.RateLimit    src/saas/http/rate-limit.ts: the window of requests in memory
--   Saas.Entitlements src/saas/entitlements: the plan of an organization and its quotas, with the
--                     transactions of src/saas/trading that create bots and connections
--   Saas.Features     src/saas/features/service.ts: who a feature is open to
--   Saas.Worker       src/saas/worker.ts: the leader of the service's bots: starting, stopping,
--                     suspending and deleting a bot (Bots), restarts (Restarts), the commands from
--                     the database (Commands), the loop (Leader), and the log buffers (Logs)
--   Prelude           shared notation: results and actions on a state with what holds after them
--                     (Action), maps (Maps), lists, signed integers and Boolean tests
--
-- How they interact: a `Trader` has its own orders and the session service, whose own desk holds
-- the tables that both write; Watch starts a session in SessionService, enters with Orders.Open,
-- and ends with Orders.Close and SessionService; each turn reads the Settings again. The exposure
-- feeds the closing order of Orders.Close, whose row Reconciliation judges when a session is taken
-- up again; Orders calls Exchange for every read and every order; Bots flushes Logs when a bot
-- stops; Commands calls Bots; Restarts calls Bots.
--
-- Asynchronous code is a function from a state to a result and a state, so that a write before a
-- throw stays written. Two calls that the code runs at the same time stand one after the other.
-- Loops run on the counts that the code has: five attempts of a read, sixty polls of an order; the
-- other loops run over a list. The loop that watches a position and the price tracker end when the
-- market moves, and so run on a number of turns that is an argument, with an answer of their own
-- for a loop that has not ended. Times are natural numbers of milliseconds.
--
-- Not modelled: the database engines and the text of the statements, ccxt, node:crypto, the child
-- processes themselves, e-mail, the HTTP framework, logging and its output. In Saas.Worker the
-- reading of a bot's settings is an argument (`prepare`), columns that hold times are left out, and
-- the queue of order updates is left out. The services under utils/TradingBehavior and
-- utils/OrdersCheckingsService, which nothing calls, and the billing and routers of the
-- service are not modelled.
pub mod Prelude
pub mod Number
pub mod Trading
pub mod Process
pub mod Saas
