-- ===== src/Lib.antt =====
-- A model of the wallet and blockchain watcher: the manager of the web sockets that pushes events to
-- the clients, the job queue and the cache on Redis, the event manager, the block monitors, the wallets,
-- accounts and orders with their use cases, adapters and repositories on MongoDB, the portfolio, and the
-- workers that watch the EVM chains for the payments of orders.
--
-- Parts and files
--   * managers/socket/{manager,client,types}.go: Socket.antt holds the state and the calls that change
--     it (Register, Unregister, clientJoinRoom, clientLeaveRoom, HandleWebSocket as `connect`,
--     Shutdown); Socket/Emit.antt sends (SendEvent, EmitToUser, EmitToRoom, EmitToAll,
--     CreateUserRoom); Socket/Handlers.antt has the event handlers. A `*Client` is a number and
--     `heap` holds the object that it points to, so that a client that is unregistered can still be
--     used by the code that holds it. Socket/Rooms, Registry and Calls say what each call does to each
--     map, Socket/Invariant what holds between the maps, and Socket/Reach the histories of calls.
--   * managers/queue/queue.go: Queue.antt has the names of keys and IDs, Queue/Jobs.antt AddJob, GetJob,
--     getRepeatJob, rescheduleRepeatJob, generateHash and ProcessJobs, Queue/Processing.antt
--     processQueue and ScheduleJob, Queue/Status.antt GetQueueStatus and ClearQueue. The proofs are in
--     Queue/Keys, Adding, Repeat, Status and Processing/Completion.
--   * src/types/wallet.go, src/usecases/wallet_usecase.go, src/adapters/wallet_adapter.go and the wallets
--     of config/mongodb/repositories.go: Wallets.antt, Wallets/UseCase.antt and Wallets/Adapter.antt;
--     Wallets/Persistence.antt follows a call of a use case down to the stored documents.
--   * src/types/order.go, src/usecases/order_usecase.go, src/adapters/order_adapter.go and the orders of
--     config/mongodb/repositories.go: Orders.antt, Orders/UseCase.antt (with the merge of UpdateOrder in
--     Orders/Merge.antt), Orders/Adapter.antt, Orders/Fields.antt and Orders/Persistence.antt
--     with its children.
--   * The currencies, supported currencies and chains of models/models.go and their repositories in
--     config/mongodb/repositories.go: Currencies.antt and Currencies/Reads.antt. Currencies/Pages.antt has
--     the batches of src/adapters/supported_currency_adapter.go.
--   * src/types/account.go, src/usecases/account_usecase.go, src/adapters/account_adapter.go and the
--     accounts of config/mongodb/repositories.go: Accounts.antt has the entity and the document,
--     Accounts/UseCase.antt and Accounts/Adapter.antt the calls, and Accounts/Import.antt ImportAccounts,
--     whose parts are Import/Originals (the accounts of the list), Import/Derived (the accounts that are
--     added for one batch of supported currencies) and Import/Batches (the loop over the batches). The
--     other children of Accounts/Import, and Accounts/Persistence and Addresses, hold the proofs.
--   * managers/cache/cache.go, managers/events/event_manager.go and
--     managers/workers/bitcoin_block_monitor.go: Cache.antt, Events.antt and Monitors.antt, with the
--     proofs on the monitor in Monitors/Bitcoin.antt.
--   * managers/workers/evm_block_monitor.go: Monitors/Evm.antt, with the proofs in Evm/Job,
--     and what it is to publish in Evm/Events. managers/workers/solana_block_monitor.go: Monitors/Solana.antt has the job and Solana/Rpc.antt the
--     requests; the proofs are in Solana/Slots and Solana/Retries. managers/workers/tron_block_monitor.go:
--     Monitors/Tron.antt, with the blocks in Tron/Blocks and the proofs in Tron/Crash.
--     Monitors/Follow.antt has the loop that the monitors share.
--   * src/types/portfolio.go and src/usecases/portfolio_usecase.go: Portfolio.antt and
--     Portfolio/UseCase.antt; Portfolio/Caching and Portfolio/Gathering hold the proofs.
--   * internal/worker/evm/worker.go, the manager of the chain workers: Workers/Evm.antt, with the proofs in
--     Evm/Required and Evm/Chains. The processing of a block of internal/worker/evm/processor.go:
--     Workers/Evm/Payments.antt, with the transactions and logs in Payments/Transfers, the amounts in
--     Payments/Amounts and the proofs in Payments/Outcomes and Payments/Deposits.
--   * Prelude.antt and its children, Errors.antt, Map.antt and Values.antt are shared: Go's comparisons,
--     slices, errors, maps and values.
--
-- How they interact
--   A use case calls a repository through an interface (WalletRepository, OrderRepository), which
--   the adapters fill with the repositories on MongoDB. The driver (Mongo.antt) and the Redis client
--   (Redis.antt) are parameters: a record of the operations on a store of any type, and a record of
--   what a call that succeeds has done; a call may always fail. Mongo/Memory.antt and Redis/Memory.antt
--   have instances in memory, at which the files named Examples apply the theorems. The JSON encoder,
--   the printing of numbers and the IDs of the driver are parameters too. The clock is read by the
--   caller: each reading is an argument. The accounts and the portfolio read the clock, new IDs and the
--   context's error from the store (`World`), since they read them many times. ImportAccounts takes
--   a record `Services` of its repositories and services, and the portfolio one named `Portfolios`. A
--   monitor takes the node, the HTTP client or the explorer as a record of answers. A panic of the
--   Tron monitor and one of GetBatch are results of their own. The order in which the goroutines of GetWalletPortfolio append
--   their results is an argument. The worker of an EVM chain takes a record `Surroundings` of the node,
--   the collections and the conversions that it uses.
--
-- State and errors
--   A method that changes a store is a function from a store to a result and a store (`Exec`), and what
--   it has changed stays changed when it fails. Go's (value, error) is `Result`. A map is an
--   association list, whose order stands for the order in which Go meets the entries. `int64` and the
--   hash wrap around at 64 bits; `float64` is its bits, which are only copied and compared with
--   zero here; the portfolio takes `+` and `*` as parameters. Times are those that MongoDB keeps, as
--   numbers since the zero time.
--
-- Bounds
--   The loop of the Bitcoin monitor runs from the cached height to the latest one, with the number of
--   rounds as its argument, and that of EmitToUser as often as the slice was long when it started.
--   The batches of ImportAccounts have a number of rounds above the number of the supported currencies,
--   which is proved to be enough. The Solana monitor takes the slots that are left, and how often the
--   context is still alive when it is looked at; a request is tried four times at most.
--   Every other function recurses on its data. The buffer of a client holds 256 messages.
--
-- What is not modelled
--   A call of the socket manager is one step, and no other goroutine runs between the steps of an emit.
--   The emptying of a client's buffer by its write pump, pings and the network are left out, and so are
--   the logger and the timers of the workers. In ImportAccounts no other writer comes between the look
--   for a duplicate and the insert, and the pointers of the accounts of the request are distinct.
--   The goroutines of GetWalletPortfolio run one after another, in any order. PortfolioService, which
--   repeats the use case over documents, the registration of the workers, the workers of the other
--   chains, the loop over the blocks of the EVM chains, the providers, the HTTP and gRPC handlers, the
--   Socket.IO client, the configuration and the scripts are left out: most of them do input and output.
pub mod Accounts
pub mod Cache
pub mod Currencies
pub mod Errors
pub mod Events
pub mod Map
pub mod Mongo
pub mod Monitors
pub mod Orders
pub mod Portfolio
pub mod Prelude
pub mod Queue
pub mod Redis
pub mod Socket
pub mod Values
pub mod Wallets
pub mod Workers
