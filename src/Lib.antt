-- ===== src/Lib.antt =====
-- Verification of the laboratory programs of this repository (Lab_1 to Lab_7).
--
-- The programs are independent of each other, so each has a tree of modules of its own:
--
--   Common          tests, lists, byte texts and C arrays that all of them share
--   SemaphorePipe   Lab_3/LINUX/src/main.cpp: `wait_semaphore`, `release_semaphore`,
--                   `increase_semaphore`, and `main` as two processes. `server_at` is the branch of
--                   the parent and `client_at` that of the child, one system call a step; in Setup
--                   `launch` is what `main` does up to `fork`, with `get_key`, and `finish` what
--                   it does behind the parent's loop.
--   FileMerge       Lab_5/LINUX/file_handler.h, a_in_out.cpp, main.cpp: `readThread` is `reader_at`,
--                   `writeThread` is `writer_at`, `runReader` is `run_reader`, `runWriter` is
--                   `run_writer` with `written`, and `main` up to `pthread_create` is `start`.
--   EventMerge      Lab_5/WIN/Lab_5/FileThreads.h, aio/aio.cpp and Source.cpp: `threadReader` is
--                   `reader_at`, `threadWriter` is `writer_at`, `readFromFile` is `read_from_file`
--                   within `read_turn`, `writeToFile` is `write_to_file`, and `start` is `main` with
--                   `create_events`
--   MemoryManager   Lab_6/WIN/main.cpp: `init`, `Malloc`, `Free` and `Realloc` over the globals
--                   (`Memory`); in Menu the loop of `main` over its array `pointers`
--   TimeFork        Lab_1/LINUX/main.cpp: `program` is `main` of one process with all that it starts
--   TimeStart       Lab_1/WIN/main.cpp: the same of the Windows program, with `pause` for its
--                   system("pause") and `after_start` for what follows `CreateProcess`
--   CommandLine     Lab_7/WIN/handle_user_input.hpp: the two `operator>>`, `to_input_type` and
--                   `handle_user_input`, from `argv` to the method of `filesystem` that is called;
--                   Filesystem has filesystem.hpp and `main`
--   ProcessRing     Lab_2_1/main.cpp: the loop of the parent; `tick` is one round of it, on what the
--                   keyboard and the system answer, and the calls it makes are kept in a log
--   SemaphoreRing   Lab_2_1/main.cpp, parent and children side by side: `parent_at` is the loop of
--                   `main`, `child_at` is `child` with `print_by_char`, one call or character a step
--   Terminal        Lab_4/LINUX/getch.h: `kbhit`, `initTermios`, `resetTermios`, `getch_` (here
--                   `getch_echo`) and `getch`, over the settings of the terminal and `stdin`
--   PrintThreads    Lab_4/LINUX/main.cpp: `print_string` is `thread_at`, and `main` is `main_at` with
--                   `press`, the key that it handles; `cancel_next` and `destroy` are the way out
--                   behind the key 'q', on which the threads still run
--   ThreadStack     Lab_4/WIN/main.cpp: `tick` is a round of the loop of `main`, with `new_thread`,
--                   `close_thread` and `close_all_threads` (here `close_all`)
--   NamedPipe       Lab_3/WIN/server/server.cpp and Lab_3/WIN/Lab_3/client.cpp: `server_at` and
--                   `client_at`, one call a step; `Steps` is a run of both
--   EventRing       Lab_2/WIN/main.cpp: `parent_at` is the loop of the parent, `child_at` that of a
--                   child, one call on an event a step; in Handles `run` is the loop with its handles
--                   and `role` and `child_line` are what a child takes from its arguments
--   CompilerProbe   Lab_2/LINUX/cmake-build-debug/CMakeFiles/3.16.5/CompilerIdC/CMakeCCompilerId.c:
--                   Vendors and Families have the branches that define COMPILER_ID, Platforms those
--                   of PLATFORM_ID, ARCHITECTURE_ID and C_DIALECT; Program has the `info_` texts and
--                   `main`, and Digits has DEC and HEX; Cpp is the C++ program
--                   (CompilerIdCXX/CMakeCXXCompilerId.cpp), with the branches that both share
--
-- State is a record. A step that the system holds back is the value `blocked`, an access outside an
-- array or through a wrong descriptor is `undefined` or `none`, and an answer of the system is an
-- argument. Two processes or threads interleave in any order: `Step` has a constructor for each,
-- and `Reach` is the states that some order leads to.
--
-- Bounds: the loops of Lab_6 run on the number of cells of their arrays (BLOCK_SIZE, 512), and give a
-- fault beyond it, which is where the source leaves the array; machine integers wrap at 32 bits and
-- pointers at 64. All other loops are structural: over the bytes, the commands, the handles or the
-- entries of a folder; the endless loops are step relations. The digits of a number n in a thread's
-- name are computed in at most n + 1 rounds, and there are no more digits than that. The processes of
-- Lab_1 run on fuel for their generations: two are enough on Linux, and on Windows the bytes of the
-- argument and two.
--
-- Parameters: the POSIX calls `aio_read` and `aio_write` of Lab_5/LINUX, and `ReadFile` and
-- `WriteFile` of Lab_5/WIN, of which FileMerge.AsyncIo and EventMerge.Transfer state what the
-- programs rely on; what `execl` finds, in TimeFork; how Windows splits a command line into
-- words, in TimeStart and EventRing.Handles.Arguments; and what `CreateProcess` starts, in TimeStart.
--
-- Not modelled: messages and prompts, pauses that end by themselves, the undo counts of SEM_UNDO,
-- failures of calls that the source does not look at (but for those that are findings), errors of
-- reads on a file that is open, a folder among the files to merge, and paths beyond the 256 bytes of
-- `readFilePath` in Lab_5/LINUX. Behind an undefined access nothing is followed. The two programs
-- under Lab_5/LINUX/cmake-build-debug are copies of those modelled, and Lab_2/LINUX/main.cpp prints a
-- fixed text.
mod Common
pub mod MemoryManager
pub mod SemaphorePipe
pub mod CommandLine
pub mod FileMerge
pub mod ProcessRing
pub mod Terminal
pub mod PrintThreads
pub mod CompilerProbe
pub mod ThreadStack
pub mod EventMerge
pub mod EventRing
pub mod NamedPipe
pub mod SemaphoreRing
pub mod TimeFork
pub mod TimeStart
