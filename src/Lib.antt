-- ===== src/Lib.antt =====
-- The LumAgg contracts and the programs around them: the contracts of contracts/ that hold or move
-- tokens, and the parts of crates/ whose arithmetic, bookkeeping or search of routes goes with them.
--
-- The program's parts and the files that model them:
-- * contracts/shared-types (SharedTypes): the routes that all contracts exchange.
-- * contracts/aggregator (Aggregator): swaps along routes of pools. Each file below it is one of
--   contracts/aggregator/src: Validate (validate.rs), Math (math.rs), Invoke (invoke.rs), Swap
--   (swap.rs and the entry points of lib.rs), RoundTrip (round_trip.rs), Admin (admin.rs, auth.rs),
--   Storage (storage.rs, events.rs), Errors (errors.rs). The modules below these hold the proofs.
-- * contracts/order-escrow (Escrow): custody of limit orders and of DCA orders, which anyone may
--   fill through the aggregator. Limit and Dca hold the entry points of lib.rs, Admin the first two;
--   Calls is the step relation over all of them, with other contracts' transactions between.
-- * contracts/vault (Vault): a float that registered callers trade round trips with.
-- * The clients of the escrow and of the vault (Composition), filled by the aggregator's functions; for
--   the vault, at the aggregator's address, with any contracts at the others.
-- * crates/limit-keeper (Keeper): the book of open orders that a keeper rebuilds from the escrow's
--   events, and the parsing of those events.
-- * crates/dex-adapters/src/stable_math.rs (StableMath): the quote of a StableSwap pool.
-- * crates/router-engine (Router), which finds the routes that the contracts are called with: Token is
--   TokenId of crates/dex-adapters/src/traits.rs, Graph and Paths are graph.rs, Finder is
--   path_finder.rs, and Split with Allocate, Dust and Optimize below it is split_optimizer.rs. The
--   other modules below these hold the proofs.
-- * crates/arbitrage/src/dedup.rs (Arbitrage/Dedup): which opportunities the executor's tasks, in
--   pipeline/executor.rs, may send at once.
-- * crates/api-server/src/rate_limit.rs (ApiServer/RateLimit): how many requests are served.
--
-- How the contracts are modelled: an invocation is an Action (Soroban/Action), a function from the
-- contract's storage and the world outside it to a result with the new ones, to one of the contract's
-- errors, or to a trap; a panic rolls back, so a failure carries no state. Storage is a record with a
-- field for each key of the code's DataKey; events are a list, the newest first. i128 is an integer
-- whose every checked operation tests the range; u32 and u64 are natural numbers whose saturating and
-- checked operations are written out. The release profile checks overflow, so plain arithmetic traps.
--
-- The ledger, the token contracts and the pools are parameters: Soroban/Host is their interface, and
-- Soroban/Laws what is relied on. TokenLaws: a transfer moves its amount between two accounts and
-- touches no other. AllowanceLaws: the same of a transfer by allowance. PoolLaws: a call into a pool,
-- whatever code the pool runs, takes nothing from an account that is not the caller. LedgerLaws: the
-- sequence number is a u32, and no transaction carries a signature of the contract itself. The escrow
-- keeps the address of its aggregator, so ClientLaws (Escrow/Client) is about that contract. The vault
-- calls whatever contract its caller names: CallLaws (Vault/Execute) says only that the vault loses
-- nothing by the call itself, and HonoursMinimum, of one address, that the contract there returns at
-- least the minimum. Composition shows all three of this repository's aggregator.
-- TransferLaws, which only the refunds rely on: a transfer that is covered goes through. Tests/World
-- is a small world that has all of them, and the runs in Tests apply the theorems to it.
--
-- The programs of crates/ are modelled by functions on their state, with the clock's time as an
-- argument; where they can panic, on an overflow that the release profile checks, a division by zero or
-- an index, the function returns an Option. Maps and sets are lists of their entries, and texts are
-- lists of their code points. Each operation on a state behind a lock runs as a whole.
--
-- Loops are structural recursion over the lists that the code iterates over, with two exceptions. The
-- Newton iterations of stable_math.rs recurse on the 255 rounds that the code allows them, and end where
-- the code's do. The queue of Router/Paths and the filter of Router/Split/Dust run on fuel: for the
-- queue the number of partial paths that the hops and the longest list of edges allow, for the filter
-- the number of candidates. Router/Paths/Ends and Router/Split/Shifted show that this is enough.
--
-- Not modelled: the extension of storage lifetimes, getters of the tests, the encoding of events in
-- XDR. An upgrade records the hash of the new code; the histories go on with the code modelled here.
-- Floating point: in split_optimizer.rs the share that Brent's method finds and the comparison of
-- two rates are parameters, and so is `quote_fn`, which goes through the adapters; the route's
-- fractions, times and notes for debugging are left out, but for the planned split. The rest of
-- crates/ (the indexer, the handlers of the API server, the rest of the arbitrage bot, the quote
-- engine, the adapters and their other quotes), packages/, integrations/ and the scripts.
pub mod Prelude
pub mod Soroban
pub mod SharedTypes
pub mod Aggregator
pub mod Escrow
pub mod Vault
pub mod Composition
pub mod Keeper
pub mod Router
pub mod ApiServer
pub mod Arbitrage
pub mod StableMath
pub mod Tests
