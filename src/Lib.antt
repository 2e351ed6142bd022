-- ===== src/Lib.antt =====
-- armory: models of the C and C++ parts of the repository.
--
-- The parts do not call one another: each is a library of its own under its directory.
--   classic_sort/       six sorts of an `int` array and a program that tests them
--   common/cas_queue.hpp a queue for several threads, without a lock
--   common/easy_log/    a log file with levels, rotation and a lock
--   common/http_peek.c  a look at the first lines of an HTTP message, without copying
--   common/utils_daemon.c
--                       a process that leaves its terminal
--   common/utils_singleton.c
--                       a process that locks a file, and ends the one that has the lock
--   common/thread_pool/ a pool of threads that are started on demand, served in turn
--   formatted_text/     a formatter of text files: spaces around words, blanks at the ends of lines
--
-- Common is shared. Outcome has `Run`: a result, a fault (an access outside an array, an overflow
-- of `int`, a division by 0), or fuel that ran out; `Returns P m` says that `m` returns and its
-- result satisfies P. Word is `uint32_t` with its wrap-around and the signed order of 32-bit
-- patterns, CInt the type `int` with overflow as a fault, Int the integers, Xor the law behind the
-- exchange of two values, Bits the digits of `and` and `or`, Buffer
-- texts in buffers of a fixed size, Decimal numbers as text, and Lists the entries, updates and counts of arrays.
--
-- ClassicSort is classic_sort/. An array of `int` is the list of its bit patterns, and each read
-- and write tests the index.
--   Memory            `array[i]` and the macro `swap_value` of classic_sort/inc/classic_sort.h
--   Bubble, Select, Insert, Shell, Quick, Merge
--                     the functions of classic_sort/src/classic_sort.c, one definition per loop;
--                     the proofs are in the children of each
--   Spec              what a sort promises
--   Shift             moving entries up by one, which insert_sort and shell_sort share
--   Unique, Agreement the promise determines the result, so the six sorts agree
--   Driver            `g_algorithm_arr`, `shuffling` and `test_sort_func` of
--                     classic_sort/src/main_test.c; `rand`, and whether `merge_sort` finds memory,
--                     are parameters
-- A loop has fuel: the number of entries of the range it works on, plus one or two. The theorems
-- say that the functions return, so the fuel is enough. `merge_sort` has a Boolean for the result
-- of `calloc`; `free` is left out. Not modelled of main_test.c: `create_test_arr`, `show_help`,
-- `print_array`, the options and the timing, which are input and output.
--
-- CasQueue is common/cas_queue.hpp. A thread is at a stage of a call, in front of its next access of
-- an atomic or of the array; `advance` makes one access, and a schedule is a list of actions: a
-- thread calls `enqueue` or `dequeue`, or makes a step, with or without a spurious failure of a weak
-- exchange. Memory is sequentially consistent. The array is a function of the index.
--   Indices, Rounding
--              masked indices, and the sizes that the constructor sets
--   Fifo       what the queue promises
--   Invariant, Kept
--              what holds between the steps if one thread enqueues, and how it is kept for others
--   Advance, Refine
--              each step, and whole schedules, refine the promise
--   Alone      calls that no other thread disturbs
-- The theorem on schedules is for one thread that enqueues, as the code recommends, and for fewer than
-- 2 ^ 32 steps, so that no index comes back. Tests have runs in which two threads enqueue, and
-- others, that break the promise.
--
-- EasyLog is common/easy_log/easy_log.c and easy_log.h: `g_log` is passed and returned, calls of the
-- C library are events, and `Env` answers them.
--   Format  `utc_format`
--   Append  `log_append`; the text that `vsnprintf` prints is a parameter
--   Life    `init_easy_log` and `destroy_easy_log`
-- Messages on stderr are left out. What several threads do at once is not modelled, only that the
-- lock is taken and given back. Printed numbers have at most ten digits, as an `int` has.
--
-- HttpPeek is common/http_peek.c and http_peek.h. A message is the list of its bytes, a `char` its
-- bit pattern, and a pointer into the message an index, so that a read behind the message is a
-- fault. `*p_head` is passed and returned, also with a result of false.
--   Chars   the tests on one byte and `token_char_map`
--   Scan    `parse_token`, `ADVANCE_TOKEN`, `parse_http_version` and the loops over blanks; Search
--           has the notions that their proofs share
--   Eol     `get_token_to_eol`: the loop over eight bytes and the one over single bytes
--   Parse   `parse_header`, `peek_http_request` and `peek_http_response`
-- Each loop has the length of the message plus one as fuel, and is shown to end. A message is at
-- most 2 ^ 16 - 1 bytes long, as its length is a `uint16_t`, so no length that is reported wraps.
-- The loop that skips the spaces of `msg` runs only if the caller has set `msg_len`.
--
-- ThreadPool is common/thread_pool/thread_pool.c and thread_pool.h: `Pool`, `Context` and `Params`
-- are the structs, and each function has its name. What a function does to the outside is a list
-- of events; what the outside answers (`calloc`, `pthread_create`, `push_cb`) is `Env`, a function
-- of the events so far. Pointers are numbers, 0 for NULL. A pool's contexts are a part of the
-- pool: `p_contexts` is never NULL in a pool that `create_thread_pool` made. The functions have no
-- lock, so a pool is used from one thread, which the model takes for granted; what the created
-- threads do is not modelled.
--   Push    one call of `thread_pool_push_data`
--   Rounds  many calls in a row
--   Life    `create_thread_pool` and `destroy_thread_pool`
--   Outside when `create_thread_pool` reads outside its parameters
--   Example common/thread_pool/main.c
--
-- FormattedText is formatted_text/. A line, a path and a file are lists of bytes; the disk and what
-- is printed are passed and returned, and `Env` answers for a path (`access`, `stat`, whether it
-- opens). `exit` is an outcome of its own, with the world it leaves. A write on an open stream is taken to succeed, as the
-- code does not look at the stream after it.
--   Line       `IS_CH`, `add_line_space` and `eat_trailing_space` of src/formatted_text.cpp
--   Spacing, Trailing
--              the two functions described from left to right, and that the loops do that
--   Files      `format_officer`: its messages, loading and saving, and `is_invalid_path`
--   FormattedText itself
--              the loops over functions and lines, `formatting_check` and `formatting_file`
--   Main       `main` of src/main_test.cpp, from what `getopt_long` returns
--   Each, Twice, Stable
--              all lines of a file, formatting them twice, and checking what was formatted
--   Lines, RoundTrip
--              a file as lines, and lines as a file
--   Runs       what `formatting_file` leaves on the disk
--   Frame, Command
--              what no run does, and that every run ends
-- The loop of `add_line_space` has twice the length of the line and two as fuel, since each round
-- reads a byte or writes a space in front of a word; reading a file has its length and one. A line
-- is shorter than 2 ^ 31 bytes, so the `int` index of `eat_trailing_space` holds its length; files
-- over 10485760 bytes are refused.
--
-- Daemon is common/utils_daemon.c. The process is a record of its descriptors, its part in group and
-- session, its terminal and its way with SIGHUP; `Answers` says which system calls work.
--   Outcomes  what `become_daemon` returns and makes of the process
--
-- Singleton is common/utils_singleton.c. `World` is what the two functions see of one pid file and of
-- the processes; `others` is what the rest of the system does in each `sched_yield`, so a killed process
-- keeps its lock until the system has ended it. The loop has fuel: more rounds than the lock stays
-- taken are enough. Messages are left out; `ftruncate`, `dprintf` and `fsync` are taken to succeed.
--   Takes     `proc_usurpation` on a file that names the process with the lock
--
-- Not modelled: common/utils_library.c, which only guards calls of the dynamic linker against NULL;
-- common/debug_print.h, which prints; and what is not C or C++: common/snail_queue and dictionary in
-- Go, and the scripts of boring_tools.
--
-- Tests modules hold runs on concrete inputs and an example of each result.
pub mod Common
pub mod CasQueue
pub mod ClassicSort
pub mod Daemon
pub mod EasyLog
pub mod FormattedText
pub mod HttpPeek
pub mod Singleton
pub mod ThreadPool
