-- ===== src/Lib.antt =====
-- Memory tiering: a server that keeps the pages of its clients on three tiers of memory (local NUMA
-- node, remote NUMA node, persistent memory) and moves them between the tiers by how hot they are.
--
-- The program's parts, and how they interact. The command line becomes a configuration
-- (src/common/ConfigParser.cpp). Clients send read, write and END messages through a ring buffer to
-- the server (src/server/Server.cpp), whose manager thread turns the client's page number into a page
-- id and accesses the page. The page table (src/server/PageTable.cpp) maps page ids to entries with
-- the page's layer, the time of its last access and its access count. The scanner thread
-- (src/server/Scanner.cpp) goes round the page table, classifies each page as hot, warm or cold under
-- the configured policy, and asks the page table to migrate it. With the option --cache-ring the pages
-- of the local layer are also nodes of a clock ring (src/server/ClockRing.cpp), which chooses a page to
-- evict when the layer is full. All count accesses and migrations in the metrics
-- (src/server/Metrics.cpp), which a third thread reports periodically and main.cpp at the end.
--
-- Files and the code that they model:
--   Base         outcomes of commands (Base.Run), machine words (Base.Words), lists, Boolean tests.
--   Common       include/common/Common.hpp: enums and structs, under the names of the code;
--                Common.Text is how a message and a layer are printed.
--   Logger       src/common/Logger.cpp: the level that the environment asks for, the filter that `init`
--                sets (Logger.Level), and the lines that the other parts log.
--   Config       src/common/ConfigParser.cpp: `parse` and the methods that it calls; Config.Split is
--                `_split` and Config.Print `_printConfig`; Config.Valid, Config.Limits and
--                Config.Printed hold what is known of an accepted configuration.
--   Machine      the clocks and the move_pages system call, as parameters.
--   ClockRing    src/server/ClockRing.cpp: one definition for each method, on an explicit heap. Cells,
--                Linked and Ring hold the abstract ring, a list of cells from the hand on, and the
--                representation invariant IsRing; Insert, Remove, Mark, Evict, SecondChance and
--                Destroy the behaviour of the methods.
--   Metrics      include/server/Metrics.hpp; Metrics.Periodic is `periodicalMetrics`,
--                Metrics.Print the totals and the file with the latencies.
--   PageTable    src/server/PageTable.cpp and include/server/Utils.hpp: `scan_next`,
--                `get_page_meta_data`, `access_page_of` (`accessPage`), `migrate_page` (`migratePage`,
--                in the steps `detach`, `make_room`, `carry_out`). Entries is the map; Init is
--                how `initPageTable` fills the table (`fill_table`), Allocated the whole method
--                (`init_page_table`), with the allocation and the writing of the content; Consistent, Migrate, Moves, Spec, Access and
--                Scan are about runs without the cache ring, Tally about the accesses counted; Coupled,
--                Ringed, Touched, Deleted, Demoted and RingFaults are about runs with it, Init.Ringing and
--                Init.InStep about its start. Constructor is `construct`, and what the object is like
--                after `initPageTable` with the ring on. Regions is the memory that the constructor
--                counts, initPageTable allocates and the destructor unmaps.
--   Scanner      src/server/Scanner.cpp: the policies (Scanner.Policy), the reaction to a page's
--                status and the loop. Scanner.Keeps is about what a turn keeps; Invariant, Accesses
--                and Tallies use it for the page table and for what the metrics have counted.
--   Server       src/server/Server.cpp: base page ids (Server.Pages), message handling, the shutdown
--                (Server.Shutdown), the round of the thread of the periodical metrics.
--   RingBuffer   include/common/RingBuffer.hpp: `push` and `pop` over a circular buffer that is a
--                parameter; RingBuffer.Fifo compares them with a bounded queue.
--   Generator    src/client/Generator.cpp: the constructor, `generate_pid` and `generate_type`, over the
--                library's random numbers as a parameter; Generator.InRange is about the pages.
--   Client       src/client/Client.cpp: `run`, cut into turns at the calls that touch shared state;
--                Client.Stops is about its end.
--   Startup      main.cpp: the pages of each client and the loop that creates the clients
--                (Startup.Launched); Startup.Found puts together the clients' generators, the
--                server's page ids and the filled page table, Startup.Runs the whole program, and
--                Startup.Ending is the report and the status of `main`.
--   Delivery     the threads that main.cpp starts: the turns of the clients and the rounds of the
--                manager, the scanner and the metrics as steps on one state, in any order. Messages,
--                Effects and Invariant prepare what Delivery.Drained states of the messages; InOrder
--                and Sound are about the page table, Turns and Finish about the way to the end,
--                Within and Counted about the accesses that the metrics count.
--   Bench        test_tools/benchmark.c: the performance counters (Bench.Counters), allocation, huge
--                pages and migration (Bench.Memory), the measured accesses (Bench.Access), a benchmark
--                (Bench.Ops), the tables and `main` (Bench.Tables). Held counts what the process holds;
--                Returning, Restored, Null, Instructions and Whole are about its behaviour.
--   Examples     concrete states, and the theorems applied to them.
--
-- State and commands. A method is a function from the state to an outcome: it returns with a new state,
-- an assert fails (the Makefile builds with asserts), it uses memory that is not there, it calls exit,
-- it throws an exception that nothing catches, or the fuel of the model is used up. `Returns P run`
-- says that it returns with a value and a state for which `P` holds. `size_t`, `uint64_t` and
-- `uint32_t` are natural numbers whose wrap-around is written out. A pointer to a node of the clock
-- ring is an address of a heap in which a freed address holds nothing. The page table is an association
-- list. What the clocks and the system call answer is a function of the number of readings so far.
-- A `double` is a value of a type with the operations that the code uses.
--
-- Fuel. The loop of `findEvictionCandidate` has fuel for one round and one step, which is enough on
-- every well-formed ring. `migratePage` calls itself to evict a page, and the call is for a lower layer
-- and makes no further call, so the scanner gives it fuel 2; without the cache ring no call is made at
-- all, and the theorems hold for every positive fuel.
--
-- Threads. In Delivery a step is one turn of a client, one round of the manager, in which it takes a
-- message from the ring buffer and handles it or finds none, one turn of the scanner as a whole, or the
-- test of the flag or the report of the thread of the metrics. So no state lies between a pop and the
-- handling of the message: that every message sent is handled or in the ring buffer is said of the
-- states between rounds. A run of the manager or the
-- scanner that does not return is no step. The mutex of the ring buffer makes `push` and `pop` atomic.
-- The page table has no mutex: that an access and a migration are each a single step is an assumption,
-- and what is stated of the page table in Delivery.Sound, Delivery.Counted and Startup.Runs holds for
-- runs in which they do not overlap. What Delivery.Drained states does not depend on it.
--
-- The benchmark's numbers of pages and of accesses are parameters of its definitions. What the kernel
-- answers is a function of the number of calls so far. An `int` is kept as its 32 bits.
--
-- Not modelled. What the memory holds: a write to a region only faults through a null pointer. Startup.Runs
-- starts from a table that `fill_table` has filled, from any addresses of the regions. When the scanner promotes to huge pages.
-- `move_pages_to_node`, which nothing calls. Sleeps, most of the debug messages, and the report of the
-- benchmark on huge page support. How Boost and the standard library print a number. The libraries
-- cxxopts and Boost are parameters or absent. The cache lines and the memory operation itself inside
-- `access_page`: it lies between two readings of the clock.
pub mod Base
pub mod Common
pub mod Logger
pub mod Machine
pub mod ClockRing
pub mod Config
pub mod Metrics
pub mod PageTable
pub mod Scanner
pub mod Server
pub mod RingBuffer
pub mod Generator
pub mod Client
pub mod Startup
pub mod Delivery
pub mod Bench
pub mod Examples
