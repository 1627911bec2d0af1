-- ===== src/Lib.antt =====
-- CSCI 3753 Operating Systems: the programming assignments of the repository.
--
-- The program's parts. PA4/PA4 is a paging simulator: simulator.c runs up to 20 processors over a
-- queue of 40 jobs, each an instance of one of the five programs of programs.c, and calls a pager
-- (pager-basic.c, pager-lru.c or pager-predict.c) once in each time step; the pager asks for pages by
-- `pagein` and `pageout`. PA-Three/PA3 is a multi-threaded DNS lookup, PA-Two a character device
-- driver, and PA-One a system call that adds two numbers.
--
-- Which file models which part.
--   Simulator/Types       the structures and constants of simulator.c and simulator.h
--   Simulator/Programs    the table of programs.c
--   Simulator/Branching   bcontext_clear, bcontext_init, bcontext_decide
--   Simulator/Search      the two binary searches of process_step
--   Simulator/Process     process_clear, process_load, process_unload, process_dobranch, process_step
--   Simulator/Paging      pageout, pagein, allage
--   Simulator/Queue       initqueue, dequeue, empty, allinit
--   Simulator/Control     allstep, alldone, allblocked, callyou, allscore and the loop of main
--   Simulator/Invariant   the invariant of the simulator, and one child for each group of operations
--   Simulator/Pointers    the pointers of the processors into the queue
--   Simulator/ApiTest     the pager of api-test.c, what it is told, and whole runs with it
--   Simulator/Options     the command line of main
--   Simulator/Pagers      the three pagers, each with its laws
--   Simulator/Main        main as a whole, from the command line to the scores
--   Simulator/Tests       concrete states, and the theorems at them
--   Lookup                the requester and resolver threads of multi-lookup.c and the start of main, with
--                         dnslookup of util.c (Dns), the invariant and its laws, whole runs, how they end
--                         (Ending), how far they still have to go and where they rest (Progress), clearLogs
--                         and main from its arguments to its end (Main), tests
--   Driver                the file operations of the character device driver, its laws, the file that it
--                         implements (Refinement), its init and exit and several open files (Module),
--                         the menu of testProgram.c (Menu), tests
--   Threads               the exercises of PA-Three/Threads-and-Processes: summation.c (Summation), the
--                         unlocked counter of mutex.c (Counter), thread_process.c (Forked),
--                         process-creation.c (Creation), arrayFill.c (Filling), tests
--   Syscall               sys_cs3753_add of cs3753_add.c and the program that calls it, tests
--   Base                  shared names, lists, signed numbers, results, tests
--
-- State and operations. A function of the source is a function of the same name. The static variables
-- of simulator.c are the record `Sim`; a pointer in `processes` is an index into `queue`, so that the
-- aliasing of the two is kept. A `long` that the program only ever sets to numbers from 0 up is an ℕ
-- without an upper bound; the state of a page is a signed number, with 0 in memory, 1 to 100 coming,
-- -1 to -100 going and -101 out. Undefined behaviour and failed assertions are errors of `Result`.
-- The values that a read just before an array gives (the searches do that for an empty table) are
-- the parameter `Outside`; drand48 and lrand48 are the parameter `Random`, and `prob` is in tenths,
-- which is exact for the values of the table.
--
-- The lookup program is a state of all threads, each at a point of its code, and a function from whose
-- turn it is to the next state; a turn ends where another thread may come between: at a lock, a wait,
-- or a use of shared data. Signals wake a thread that the turn names, and waits may end for no reason,
-- as POSIX allows. The file lock is held in one turn. Files, getaddrinfo and inet_ntop are parameters.
-- The driver's buffer is a list of 1024 bytes, its position a number; what the kernel copies between
-- user and kernel is the parameter `UserCopy`, what it answers at init the parameter `Kernel`.
--
-- Fuel. `bisect` runs on the size of the table and the FOR loop of `bcontext_init` on 51 rounds; both
-- are proved to be enough. The IF loop of `bcontext_init` and the main loop are unbounded in the
-- source, since they hang on the random numbers and on the pager: they take the fuel as an argument.
--
-- Integers without a bound. The sums of `allscore` and the LRU pager's tick and timestamps are ints in
-- the source and overflow past 2^31 - 1; the model's do not. Nor do the counters of api-test.c wrap. The
-- lines that the requesters read are taken not to begin with a NUL byte.
--
-- Not modelled: the printing (sim_log, allprint, the CSV files, the printf lines of the pagers), the
-- timing of multi-lookup.c, and statCalc.c and example.c, which only print. The kernel files under
-- PA-One are copies of Linux.
pub mod Base
pub mod Simulator
pub mod Driver
pub mod Lookup
pub mod Threads
pub mod Syscall
