-- ===== src/Lib.antt =====
-- The market data, risk and order path of a C++ trading engine for one instrument.
--
-- Prices and quantities are `int64_t` in the source and integers here: signed overflow is
-- undefined there, and a theorem states where the values stay in range. Times and counters are
-- `uint64_t`, with the wrap-around written out. `double` is an interface (Prelude.Double): its
-- operations are a parameter, and no law of floating point is used unless a theorem names it. Log
-- lines are left out.
--
-- Which file models which part:
-- - Types: include/smartquant/common/types.hpp.
-- - Md.OrderBook: include/smartquant/md/order_book.hpp and src/md/order_book.cpp. The record
--   OrderBook has the class's maps; `update` is OrderBook::update with a function for each case of
--   its switch, and returns the calls of callbacks that it makes. Resting, Best and Live are the
--   specification: the table of live orders with no price levels. Levels and Consistent keep the
--   maps of levels in step with it, TopOfBook, Quantity and Lifecycle state what a client sees.
-- - Md.Gateway: include/smartquant/md/fix_md_gateway.hpp and src/md/fix_md_gateway.cpp. Feed is
--   the part that market data goes through, Session the part for logon, logout and subscription,
--   Dispatch the whole. Replay and Snapshot compare the book with a replay of the events logged;
--   Session.Subscription says when market data is asked for.
-- - Risk: include/smartquant/risk/risk_manager.hpp and src/risk/risk_manager.cpp. `risk_step`
--   takes one call of a client. Gate, Fuse and Cooldown hold the theorems on the admission of
--   signals, the daily loss and the row of slippages.
-- - Oms: include/smartquant/oms/order_manager.hpp and src/oms/order_manager.cpp, over the risk
--   manager that it holds by reference. Whether a send finds its session, the fields of a message,
--   what reading an unset price gives and the clock are arguments. Oms itself sends and cancels,
--   Execution takes the messages that come back, Admin is toAdmin. Ids has the ClOrdIDs, Open the
--   table of open orders, Run the calls from both threads, Unique, Send and Reports what they do
--   to the table, and Single the gate that apps/engine/main.cpp's thread puts before a send.
-- - Alpha: include/smartquant/alpha and src/alpha. Buckets is the ring of time buckets that both
--   factors keep, with the number of slots, the step and the bound as arguments; DeltaFactor,
--   CancelFactor and SignalEngine are the classes. Buckets.Ring compares the ring with the list of
--   all buckets, Buckets.Sums the sums over it, and Buckets.Spaced shows it long enough for a
--   window; DeltaFactor.Imbalance and DeltaFactor.Window compare the delta factor with the net
--   imbalance of all trades, CancelFactor.Counts, CancelFactor.Standard and CancelFactor.ZScore
--   the cancel factor with the scores of all cancellations, and CancelFactor.Percentile the
--   threshold with the scores below it; Buckets.Time, CancelFactor.Deques and SignalEngine.Signals
--   hold the other theorems. Tick puts the midprice that the engine sets before an event beside
--   it; an event before which none is set has the one of the event before.
-- - Engine: the trading thread's loop in apps/engine/main.cpp; `alpha_step` is one event, with the
--   outcome of each of its three possible sends as arguments, Timeout is about the closing of an
--   order that is not answered, Live compares the thread with the backtest, and Pipeline puts the
--   gateway, the queue and the thread together: `pipeline_step` is a message or a round of the
--   loop. A message is handled as a whole between two rounds; the queue's own interleavings are in
--   SpscQueue.Threads.
-- - Backtest: apps/backtest/main.cpp; `replay_event` is one record of the log, `settle` the
--   evaluation of the signals that are due, Count says what the counters count, and Search that
--   the halving search of `std::lower_bound`, on fuel for each point, finds the first point from a
--   time on if the history is in order.
-- - Log.BinaryLogger: include/smartquant/log/binary_logger.hpp and src/log/binary_logger.cpp, on
--   the bytes of the ring, and File the constructors and the header of the file, with what the
--   system's calls return as arguments. Ring and Twice are about copies in two pieces, Bytes and
--   Header about the bytes of a record's and of the file's header, RoundTrip about a record,
--   Encoded and Replay about a sequence of records, Opening about the file, and Leaks about the
--   handles that the constructors and destructors leave. A constructor is a run with exceptions
--   (`Io`) that keeps the calls that succeeded.
-- - Apps: the programs' mains, apps/engine/main.cpp, apps/logger/main.cpp and
--   apps/backtest/main.cpp: Args reads their arguments, Engine and Logger are the start-up, loop
--   and shutdown, with the destructors of the local objects, and Report is what the backtest
--   writes.
-- - Common.MemoryPool: include/smartquant/common/memory_pool.hpp. A slot is a tagged union, a
--   pointer its index. Chain is the free list as the chain of its slots, Clients a client that
--   frees only what it holds, over any history, and Ownership what the pool promises to it.
-- - Common.TscClock: include/smartquant/common/tsc_clock.hpp; Time is about a calibration,
--   Monotone about the time between calls.
-- - Fix: the Logon that both FIX sessions fill in.
-- - Common.SpscQueue: include/smartquant/common/spsc_queue.hpp, the queue between the market data
--   thread and the trading thread. `push`, `pop`, `empty` and `size` are the methods with
--   `Capacity` equal to `2 ^ k`; Indices says which slots are in use, Refine compares the methods
--   with a bounded list. Threads takes the two methods apart into their loads, stores and slot
--   accesses and lets them interleave; Threads.Safety and Threads.WaitFree are about every
--   interleaving.
-- - Prelude: lists, integers, words, maps (`std::map` in Map.Sorted, `std::unordered_map` in
--   Map.Hash) and the interface for `double`, with the concrete stand-in Prelude.Fixed at which
--   theorems are instantiated.
--
-- Not modelled: what the programs print. Nor are QuickFIX, spdlog, the operating system's files
-- and threads, and include/smartquant/log/lob_event_logger.hpp, which the sources include and the
-- repository does not have.
pub mod Prelude
pub mod Types
pub mod Fix
pub mod Common
pub mod Md
pub mod Risk
pub mod Oms
pub mod Alpha
pub mod Engine
pub mod Backtest
pub mod Log
pub mod Apps
