-- ===== src/Lib.antt =====
-- Verification of the dexmoney arbitrage bot: a searcher that quotes cycles of pools on Base, publishes
-- the profitable ones as candidates, and an execution manager that sends them from several accounts and
-- follows their transactions.
--
-- Parts, and the files that model them (source paths from the repository's root):
--   Common/Pool, Common/Opportunity, Common/Transaction, Common/Errors: the data of
--     crates/common/src/types.rs and crates/common/src/errors.rs.
--   Dex/Volatile, Dex/Stable: `AerodromeVolatileQuoter` and `AerodromeStableQuoter` of
--     crates/dex/src/aerodrome.rs.
--   Dex/MulDiv, Dex/Sqrt, Dex/Tick, Dex/SwapStep, Dex/CrossTick, Dex/V3: crates/dex/src/uniswap_v3.rs, from
--     its full-precision arithmetic to `quote_exact_in`, `spot_quote_exact_in` and
--     `quote_exact_in_with_ticks_diagnostics`. The two loops over ticks are one function of the direction.
--   Searcher/Impact, Searcher/Quote, Searcher/Search: `quote_path`, the haircut, the price impact and
--     `quote_search_path` of crates/searcher/src/strategy.rs, with `build_candidate` of
--     crates/searcher/src/opportunity.rs. Searcher/Graph, Searcher/Cycle, Searcher/CyclePath, Searcher/Rough,
--     Searcher/Labels, Searcher/Score, Searcher/Scan: `GraphSnapshot`, `SegmentPathCache`,
--     `edge_paths_between`, `is_valid_dynamic_cycle`, the rough score of a cycle, and
--     `dynamic_multihop_paths_for_changed_pools` of crates/searcher/src/strategy.rs. Searcher/Risk:
--     `validate_candidate` of crates/searcher/src/risk.rs.
--   Execution/Lane: `EoaLane` of crates/execution-manager/src/eoa_lane.rs. Execution/Fees: fees and gas
--     limits of crates/execution-manager/src/tx_manager.rs. Execution/Pending: `handle_pending_lane` and
--     what it calls in crates/execution-manager/src/main.rs and tx_manager.rs. Execution/Candidates: `pop_fresh_candidates`,
--     `SubmittedCandidateKeys` and `coalesce_candidates_by_execution_key` of crates/execution-manager/src/main.rs.
--     Execution/Breaker: its `ExecutionCircuitBreaker`.
--   MarketData/Decode, MarketData/Events: crates/market-data/src/state_updater.rs. MarketData/Ticks,
--     MarketData/Freshness: `apply_tick_deltas`, `advance_valid_through_block`, `state_drift_bps` and
--     `apply_aerodrome_fee` of crates/market-data/src/listener.rs.
-- Market data turns the events of pools into states and ticks. The searcher puts the states into a graph, looks
-- for cycles through the pools that changed, quotes each leg of a path with the quoters of Dex and gates the
-- result. A candidate that the risk gate lets through reaches the execution manager, which pops it from the
-- store, coalesces it with others of its key, marks a lane as pending when it has sent the transaction, and
-- later replaces it, confirms it or gives it up.
--
-- How the code is read:
--   A U256, u64, u32 is a natural number; checked and saturating operations are as alloy and Rust document
--   them (Word), and U512 products of two U256 are exact. i32 and i128 are integers. Counters that the sources
--   add to without a check are exact in the statistics and in a swap over ticks, and reduced mod 2 ^ 32 in the
--   diagnostics of a path.
--   Addresses, hashes, ids and times are numbers. The id and the time that a candidate gets are constants of the
--   engine, and the smallest priority fee is a setting that is parsed already. A sort is a stable insertion sort. A set is its membership
--   test and a map a function; where the source iterates over them, a set is the list of its elements and a
--   map the list of its entries, whose order stands for the order of that iteration. `Result` and `?` are a result type and its `>>=`. `get_y` runs the source's own
--   255 rounds and fails when they are used up. The loop that pops candidates has fuel for 2,049 rounds, which is
--   enough: each round that goes on has popped one candidate at least, and it stops at 2,048. The store it pops
--   from is a parameter.
--   A handler of the execution manager runs on a desk, the lane and what was sent to the recorder and the
--   store, and takes the answers of the chain, the recorder and the store as parameters, any of which may be
--   an error. Each service answers once in a run; the two readings of the block number are two parameters.
--   A branch that awaits several calls is one function for each group of them.
--   A text built by `format!` is a constructor with the values that it shows, but for the names of paths and
--   the fingerprints of cycles, which are written out. An event's JSON is its topics and its data, texts as
--   lists of characters; alloy's parsers of U256 and Address are parameters.
--   The search for segments recurs on the number of edges left. An edge whose index is out of range, which would
--   end the process, is passed over: the edges of a snapshot have none.
--   Where an operation fails half-way, its state is returned with the error, as a Balancer swap leaves it.
--
-- Not modelled: the floating-point quote of weighted Balancer pools and the router's query, which are
-- parameters of `QuoteContext`; the log's samples and the shadow counters of price impact; the
-- paths of two pools and their index, and the tiers of search amounts; the first submission, approvals, funding
-- and simulation of transactions, signing and ABI encoding; the log of a receipt, whose profit is a parameter;
-- the listening, discovery and repair of market data; storage, monitoring and recording services; the executor
-- contract. Most of that is I/O.
pub mod Prelude
pub mod Word
pub mod Common
pub mod Dex
pub mod Execution
pub mod Searcher
pub mod MarketData
mod Tests
