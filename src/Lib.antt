-- ===== src/Lib.antt =====
-- A verification library for the C programs of this repository: the operating system kernel of
-- ass5/final_repo (xv6 with process times, `waitx` and `getpinfo` added) and the exercises of
-- ass4. Each definition says which function it stands for.
--
-- Proc (ass5/final_repo/proc.c, proc.h, proc_stat.h, and the timer interrupt of trap.c): the state
-- is `Kernel`, with `ptable.proc` as a list of slots, `nextpid`, `ticks`, `initproc` and `proc` of
-- each CPU. Pointers to processes are slot numbers. An operation is a function of the kernel that
-- runs with `ptable.lock` held to its end or up to its `swtch`; the clock interrupt, which holds
-- `tickslock` only, is one step for `ticks++` and one for each round of `increment_times`;
-- `System.Step` is one such operation on some CPU, and `System.Reach` a run of them in any order.
-- `wait` and `waitx` are one round of their loop. `Boot` is `userinit`, and `Power` the kernel
-- before it. What kalloc.c, vm.c, file.c, fs.c and the log do to their own state is the parameter
-- `Env`, and nothing is assumed of it. Runs stop before `nextpid` would wrap around.
--
-- Log (ass5/final_repo/log.c): the disk is the log's header, its data blocks and the home blocks;
-- `commit` and `recover_from_log` are lists of block writes, and a crash keeps a first part of the
-- list. The log in memory is `Log`, and `Reserve.Step` is one call of an operation on it.
-- `LOGSIZE` and `MAXOPBLOCKS` are those of param.h.
--
-- Pipe (ass5/final_repo/pipe.c): the ring buffer with counters that wrap around at 2^32, and the
-- calls up to the point where they return or sleep.
--
-- Quicksort (ass4/Q1/quick_sort.c): `normal_quick_sort` on an array, for any results of `rand()`.
-- The recursion is on fuel; fuel for the length of the range is enough, since each part is shorter.
--
-- Files (ass5/final_repo/file.c): the table of open files, with the references that are held as a
-- list of slots. `fileclose` returns the file whose pipe or inode the code closes next. `Transfer` has
-- `fileread` and `filewrite` on the pipe or the inode of one file, and `Pipes` the `pipealloc` of
-- ass5/final_repo/pipe.c. The loop of `filewrite` has fuel for each byte, as each round writes one at
-- least.
--
-- Cache (ass5/final_repo/bio.c): the list of buffers in the order from `bcache.head.next` on; `bget`
-- and `brelse` are what they do to it with `bcache.lock` held.
--
-- Fs (ass5/final_repo/fs.c): the disk as fs.c sees it inside a transaction, by `bread` and
-- `log_write`, so without buffers; `none` is a panic. `Layout` says that no block of a file is
-- there twice, `IsDisk` that the bitmap marks its own blocks as in use, and `IsFile` that the blocks
-- below the size of a file are there. The loops of `readi` and `writei` are on fuel, one round for
-- each byte left, which is enough since each round moves at least one byte. `Transfer`
-- has `readi` and `writei`, with the table `devsw` of device functions as a parameter. `Dinode` has the inodes as the
-- disk holds them, with a short by its 16 bits, and `itrunc`; `Icache` has the table of inodes in
-- memory, where a pointer is a slot, and what `ialloc`, `iget`, `ilock` and `iput` do to it while they
-- hold the locks. A directory is a sound file of entries of 16 bytes; the loops of `dirlookup` and
-- `dirlink` have fuel for each byte of it, and work on the slot of the directory in the table of inodes.
-- `Namex` is `namex` with fuel for each byte of the path and one, as each round takes a byte.
--
-- Pages (ass5/final_repo/kalloc.c): memory is a word for each address, and the free list lies in it.
-- `Holding` is a run of the allocator and of those who hold pages, `Boot` the making of the free list.
-- `freerange` has fuel for each page below its end.
--
-- Cabs (ass4/Q3/main.c): the list of active cabs and the payment slots. `take_cab` is the search
-- under its mutex and the unlocking after it; its loops are on the waiting time. The parameter
-- `Others` is what other threads do to the cabs between two rounds.
--
-- Biryani (ass4/Q2/main.c): a `State` is the global variables and the place of each thread, a `Move` is
-- what one thread does between two points where it waits (so each stretch of code under a mutex
-- or on a locked entry is one move), and `Reach` is a run of moves in any order, with any random
-- numbers. A search can find any entry that it may take. The threads of the chefs and the containers are
-- created at the start; `n` and `m` are below 100, the size of the arrays.
--
-- Strings (ass5/final_repo/string.c): the functions on a memory of bytes by address, for ranges that
-- do not wrap around. Grep (ass5/final_repo/grep.c): the matcher, on strings as lists of the bytes
-- before the zero.
--
-- Shell (ass5/final_repo/sh.c): the parser on the bytes of a line. A word is the string that
-- `nulterminate` ends, so that `nulterminate` itself changes nothing in the model. The functions that
-- call each other take `parseline` with less fuel; fuel for the length of the line is enough, as each
-- parenthesis and each symbol takes a byte. `Print` writes a command as text.
--
-- A C int is its bit pattern modulo 2^32 where arithmetic on it may wrap around.
--
-- Not modelled: locks (each operation is one step, as the lock that the code holds makes it), the
-- hardware drivers, the boot code, virtual memory, the functions of the
-- devices, system call arguments, the running of the commands of the shell, other user programs,
-- `procdump`, and the threads of ass4/Q1 and ass4/Q3.
pub mod Base
pub mod Biryani
pub mod Cabs
pub mod Cache
pub mod Files
pub mod Fs
pub mod Grep
pub mod Log
pub mod Pages
pub mod Pipe
pub mod Proc
pub mod Quicksort
pub mod Shell
pub mod Strings
pub mod Tests
