-- ===== src/Lib.antt =====
-- The low-latency trading engine: an order book with price-time priority, a matching engine around
-- it, a risk gate in front of it, the queues and tables that feed them, and the journal of its events
-- with the recovery from it.
--
-- Parts and files. Paths on the right are from the repository's root.
--   Order            include/Order.h, include/Trade.h: the structs and their constructors' checks.
--   OrderPool        include/OrderPool.h.
--   OrderQueue       include/OrderQueue.h: Pointers is about the vector, Refine, Calls, Erase and AsList
--                    about the list that a queue on a shared pool stands for.
--   OrderBook        include/OrderBook.h, src/OrderBook.cpp. State has the book, Levels `findBidLevel`,
--                    `findAskLevel` and `addOrder`, Scan `canFullyFill`, `wouldSelfTrade` and the
--                    cancelling loops of self-trade prevention, Match `matchOrder`, and Edit
--                    `getOrderById`, `cancelOrder`, `applyFill` and `replaceOrder`.
--   MatchingEngine   include/MatchingEngine.h, src/MatchingEngine.cpp, include/MarketDataTypes.h: the
--                    life cycle, the priority counter, and the calls that go to the book and publish
--                    events.
--   RiskEngine       include/RiskEngine.h, src/RiskEngine.cpp: Validate has the checks before a trade,
--                    Apply the live and the recovery transitions, Check `checkInvariant`.
--   MarketDataPublisher  include/MarketDataPublisher.h, src/MarketDataPublisher.cpp.
--   RingBuffer       include/RingBuffer.h, src/RingBuffer.cpp.
--   ConcurrentMatchingEngine  include/ConcurrentMatchingEngine.h, src/ConcurrentMatchingEngine.cpp: the
--                    module itself has the steps of the thread that submits and of the consumer, and
--                    Steps their interleavings.
--   Bytes            the big-endian words and the checksum of src/Journal.cpp and src/Recovery.cpp.
--   JournalRingBuffer  include/JournalRingBuffer.h, src/JournalRingBuffer.cpp.
--   Journal          include/Journal.h, src/Journal.cpp: Format has the bytes of a record, the module
--                    itself `onEvent`, `flush`, `sync` and the constructor, Writing the writer's
--                    thread, and Steps the interleavings of the two threads.
--   Recovery         include/Recovery.h, src/Recovery.cpp: Reader has `readHeader` and `readRecord`,
--                    Process `processRecord` and the checks on numbers, the module itself `replay`.
--   SymbolTable      include/SymbolId.h.
--   Base, Double     numbers, lists and maps that the parts share; IEEE comparison.
-- The specifications stand beside them: OrderBook/Priority gives out a quantity over resting orders
-- by price and time, OrderBook/Invariant says when a book is in shape, RiskEngine/Ledger when an
-- engine's counters are in balance and RiskEngine/Gate the use of the checks before orders rest,
-- MatchingEngine/Reachable and MatchingEngine/Lifecycle have the histories of an engine,
-- RingBuffer/Fifo and JournalRingBuffer/Fifo the queue that a ring stands for,
-- SymbolTable/Consistent the agreement of the three tables, Journal/Invariant what the file and the
-- ring of a journal hold together, Recovery/Journaled the replay of events instead of bytes, and
-- Recovery/Priority the priorities that the records of a file carry.
-- The parts meet in Journal/Recovers: the events that an engine publishes go through the journal's
-- ring to its file, and a replay of the file calls the matching engine again.
--
-- How the code is modelled. A function that changes an object takes its state and gives the state
-- after the call with what is returned. The code writes most loops of the book twice, for the bids
-- and the asks with the comparison reversed: here the side is an argument. In the book, a queue is a list
-- of orders, oldest first, and the pool the number of its free slots; OrderQueue/AsList has what the
-- queues and the pool of the code do with their pointers. An `unordered_map` is an
-- association list. An exception is a result without a value, and the state is the one at the throw.
-- A price is a `double` by its order: `nan`, or a sign and the place among the doubles of that sign;
-- products and roundings of prices are parameters (`BandArithmetic`, `to_ticks`). The clock, the
-- journal's health and the string "UNKNOWN" are arguments. A file is the list of its bytes; what
-- `write` and `fdatasync` answer is an argument of each step of the writer.
--
-- Bounds. Words are natural numbers, with the remainder written where the code can wrap: the trade
-- counter, the sequence counter, `old.quantity - old.remaining_quantity` and the counters of
-- `canFullyFill`. The binary search runs on as many rounds of fuel as there are levels, which is
-- enough, since each round leaves a strictly shorter interval. `is_power_of_two` halves a size 64
-- times at most, the width of `size_t`. The loop of `Recovery::replay` has one more round of fuel than
-- the file has bytes, and each record takes at least 17 of them. The counters of the journal's ring
-- run through 2 ^ 64 and wrap. All other loops are structural.
--
-- Not modelled: src/ShardedEngine.cpp; src/ShardedJournalManager.cpp, src/TradeLogger.cpp and
-- src/main.cpp, which are input and output; errors of opening, seeking and reading a file, and the
-- wake-ups of waiting threads; failing allocations, apart from the exhausted order pool; and
-- concurrent access to an engine or a risk engine, which belong to one thread each, or inside a push or a
-- pop of a ring, each of which is one step.
pub mod Base
pub mod Bytes
pub mod Journal
pub mod JournalRingBuffer
pub mod Double
pub mod Order
pub mod OrderPool
pub mod OrderQueue
pub mod OrderBook
pub mod MatchingEngine
pub mod MarketDataPublisher
pub mod RiskEngine
pub mod Recovery
pub mod RingBuffer
pub mod ConcurrentMatchingEngine
pub mod SymbolTable
pub mod Tests
