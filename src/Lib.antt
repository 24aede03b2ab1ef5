-- ===== src/Lib.antt =====
-- NPU_OJ, the judge of an online programming contest: it takes submissions from a database, compiles
-- them, runs them on the test cases of their problem under limits, compares what they print, and gives
-- a verdict.
--
-- How the parts interact. The manager (src/judge.cpp) fetches submissions and puts them into the queue
-- of a pool of threads (src/threadpool.cpp). A thread takes one, borrows a judge, which has a
-- work directory (get_judge), and gives the submission to the LangJudge of its language and mode
-- (judge_sbm). That one (LangC::judge in src/lang.cpp) asks the manager for the problem, which it
-- reads from the database (src/db.cpp) and the file server (src/network.cpp) the first time, compiles
-- the source, and launches and checks the program once for each test case.
--
-- The files, and the code that they model:
--   Common, Units/Time, Units/Memory, DataItem: include/common.h, include/dataitem.h, src/dataitem.cpp;
--     classes and structs are records, their methods functions of the same names.
--   Platform: what is asked of the kernel, the shell and MySQL, as a record of functions over a world of
--     any type; the macros over a wait status are those of <sys/wait.h>.
--   Config, Config/Numbers: src/config.cpp; PCRE is the parameter Pcre, with no assumption on it.
--   Network: src/network.cpp.
--   Slots, Lending: the search for a free slot, and the protocol of a semaphore and a mutex over a table
--     of slots, as an interface (Lender) that Db/Pool and Judges/Pool fill.
--   Db: src/db.cpp; Db/Connect: the same with the connections that are opened. Judges: the table of
--     judges and the directories of judges in src/judge.cpp.
--   Lang/Limits, Lang/Syscalls, Lang/Launch: LangC::launch and its helpers in src/lang.cpp.
--   Lang/Compile: LangCDebug::compile. Lang/Check: check_normal and LangC::check, and the copying of
--     files by Judge in src/judge.cpp. Lang/Judging: LangC::judge.
--   Manager, Manager/Problems: the state of JudgeManager, its directories and its map of problems.
--   Manager/Languages: the registry of the LangJudges and Judge::judge_sbm.
--   Manager/Submissions: fetch_submission_from_db, and the tasks of loop_routine.
--   Manager/Dirs: init_workdir and Judge::init_work_dir over the file system (Platform/Files), with what
--     the directories rely on as its laws. Manager/Languages/Scripts: the constructors of the
--     LangJudges in src/lang.cpp. Manager/Problems/Seed: add_prob in include/judge.h, and test_init.
--   Dispatch: the two semaphores between loop_routine and the threads, as a step relation of counters;
--     Dispatch/Workers: the same with the queue, each thread and the table of judges; in
--     Dispatch/Workers/Fates the tasks are a Bag (Base/Bag), the library's multiset.
--   System: JudgeTask::run, get_judge and release_judge by one thread, again and again in
--     System/Service. System/StartUp: init_judges, and main in src/main.cpp up to its loop;
--     System/StartUp/Exit: terminate_NOJ, with DBConnMgr::terminate and Log::destroy, and main with the
--     locks and files that it has made when it calls exit.
--   Daemon: src/daemon.cpp; Daemon/Single: several processes in it. Log: src/debug.cpp.
--   Labels: what src/test.cpp prints.
--   ThreadPool: src/threadpool.cpp, as a step relation.
--   The other files hold proofs; Examples holds runs at concrete inputs.
--
-- Base/Fixes says that code leaves a part of its state, or a predicate on it, alone.
-- A call ends in an Outcome: it returns, exits, faults (undefined behaviour) or blocks. What memory holds
-- before it is written is an argument (Junk, Garbage, heap). long, size_t and int have 32 bits, as the
-- table of system calls, which is that of i386, says. The loop over wait4 is recursion over the list of
-- its reports, and a list that ends too early blocks. While the parent waits, a write of the compiler
-- that finds no room in the pipe blocks. The polling for a submission has the number of its
-- rounds as fuel, and blocks when it is used up; print_nat has 20 digits, which is enough for any
-- number of 64 bits. The name of an enumerator keeps the source's word in lower case.
--
-- Not modelled: destroy_judges and the destructor of JudgeManager, which never run; test_regex,
-- print_config and test_config, which are not called; the classes of include/dataitem.h that nothing
-- uses. That fetch_submission_from_db fetches further result sets
-- and throws them away is left out. Output to the terminal and the log is left out everywhere but in Log and Labels.

pub mod Base
pub mod Common
pub mod Units
pub mod DataItem
pub mod Lang
pub mod Platform
pub mod Config
pub mod Network
pub mod Slots
pub mod Lending
pub mod Db
pub mod Judges
pub mod Manager
pub mod System
pub mod Daemon
pub mod Log
pub mod Labels
pub mod Dispatch
pub mod ThreadPool
pub mod Examples
