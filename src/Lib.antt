-- ===== src/Lib.antt =====
-- OPIUMO: a bot that watches new Solana tokens, filters them, keeps a paper book and guards its
-- spending. This library models the parts of it that decide: the code without the network, the
-- clock and the disk, which come in as arguments.
--
-- The files and what they model (paths from the repository's root):
-- Base, Int, Number, Platform: shared helpers. Text is its list of character codes. Counts,
--   credits and milliseconds are natural numbers; what the code divides or rounds is a `Number`, a
--   type with the operations that the code applies and the IEEE laws of comparison that hold with
--   NaN; Number/Integers shows that the laws can hold. Platform has the runtime's own functions
--   (`toISOString`, the start of the next month) as parameters, and JSON values by kind.
-- Credit: src/rpc/creditBudget.ts and `creditsForMethod` of src/rpc/rpcMeter.ts. Ledger has the
--   periods and their rollover, Decision the settings and `evaluateBudget`, Breaker the class
--   `CreditBreaker` with its ledger file; Limits, Balance, History, Halts, Metering and Restart
--   prove. History has every call of the class and restarts as events.
-- Drawdown: src/risk/drawdownGuard.ts (Guard) and src/risk/drawdownStore.ts (Store); Verdicts and
--   Halts prove.
-- WorkQueue: src/util/workQueue.ts. Machine is the class, with the workers outside; Bounds and
--   Order prove.
-- Schedule: src/schedule/scheduler.ts. Parsing and Windows are the code; Parsed, Weekly, Opening
--   and Search prove. The search for the next opening takes its 11,520 minutes as the code does;
--   Search proves that they are enough.
-- Exits: src/trading/trailingStop.ts (Decisions, Trailing, and Series for `runSeries`) and
--   src/trading/raisedExit.ts (Raised); Verdicts, Persistence and Outcomes prove.
-- Graph: src/graph/graph.ts. Topology has the specification and `validateGraph`, whose search takes
--   one step more than there are edges and the start; Running has `runGraph` and RunningSync
--   `runGraphSync`, two loops of 200 steps, Listing has `listEdges`; Faults, Runs, Agreement, Routes, Search
--   and Unreachable prove.
-- Supervisor: src/supervisor/supervisor.ts, and the heartbeat's record of src/util/heartbeat.ts.
--   Settings and Deciding are the code, which asks Schedule for the hours; Restarts and
--   Accepted prove.
-- Watchlist: src/watchlist/policy.ts (Policy) and the class of src/watchlist/watchlist.ts (Runtime),
--   which asks Filters for its late verdicts; Stages, Priority, Bounded and Rounds prove.
-- Filters: src/filters/engine.ts (Engine), with the records that it reads from src/data/tokenMetrics.ts,
--   src/config.ts and src/watcher/types.ts; Passing proves.
-- Paper: src/trading/paperExecution.ts. Records has the types, Book the constructor and `open`,
--   Observing `observe` and `abandon`, Expiring `expire`, Restoring `paperOpenRow`,
--   `openRowsFromLog` and `restore`, Summary `summarise`; Venues is src/analysis/venueModels.ts, the
--   live book's pricing. Session has the book with its log, as src/index.ts and
--   src/graph/pipelineGraph.ts (`paperOpen`) run it, restarts included. Calls has the rules by cases,
--   Keeping what holds between calls, InStep and Restarts the rows of the log against the book;
--   Live, Sessions, Cap, Sweeping, Summing, Halted and Sound prove. The book takes its guard from
--   Drawdown and its exit rules from Exits.
-- Spot: the bot that buys and sells tokens. Rules is src/trading/exitLogic.ts and
--   src/trading/atr.ts, Retry src/trading/retry.ts (and its one theorem), Sizing
--   src/trading/sizing.ts and src/util/riskSizing.ts, Engine and Buying src/trading/engine.ts over the
--   files of src/trading/positionStore.ts and src/trading/priceHistory.ts, as whole calls that nothing
--   interrupts. Steps has the same calls by what they do between two awaits of the network, with the
--   calls that wait, in any order; Alone compares the steps of one call with the whole call. A
--   call takes what the network answers in it as an argument, `none` where the network
--   throws. Keeping, Cycles and Resuming have what each step keeps; Runs, Overrun, Losing and
--   Averages prove.
-- The theorems stand in each component's proof modules, their instances and the test runs in its
-- Examples.
--
-- Not modelled: the wording of log lines and of `detail`, network and disk input and output, the
-- Solana and Drift libraries, the analysis reports, and the components that the manifest lists as
-- not modelled. The numbers that the drawdown store and the paper book write are finite: JSON would
-- write NaN and the infinities as null, and the code that reads them back then refuses the state (for
-- the total) or skips the row (for the entry values). A number that
-- JSON gives for credits is a whole number that is not negative.
pub mod Base
pub mod Int
pub mod Number
pub mod Platform
pub mod Credit
pub mod Drawdown
pub mod WorkQueue
pub mod Schedule
pub mod Exits
pub mod Graph
pub mod Supervisor
pub mod Paper
pub mod Spot
pub mod Watchlist
pub mod Filters
