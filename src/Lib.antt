-- ===== src/Lib.antt =====
-- Verification of the Pintos kernel of this repository: the pure cores of its components, as
-- functions on explicit states, and theorems on them. Paths are from the repository's root.
--
-- Parts and how they interact. The bitmap (pintos/src/lib/kernel/bitmap.c) is a sequence of 32-bit
-- words; the free map (pintos/src/filesys/free-map.c) is a bitmap over the sectors of the file
-- system's disk, whose calls of the bitmap are calls here too. The buffer cache
-- (pintos/src/devices/block.c) stands between the file system and the block device: it holds 64
-- sectors, evicts by the clock algorithm and writes dirty buffers back. The scheduler
-- (pintos/src/threads/thread.c) keeps the ready list and switches threads; semaphores and locks
-- (pintos/src/threads/synch.c) put threads on their lists and call the scheduler.
--
-- Base: the names that all modules share, tests on numbers, lists by native numbers, the bits of
-- words, and two ways to fault: `Option`, where `none` is a failed ASSERT, a PANIC or an access out
-- of range, and the runs of Cache.State.
-- Bitmap: `struct bitmap` is the record Bitmap, an `elem_type` a number below 2 ^ 32; the functions
-- have the names of the source without their prefix. The word operations are those of the source,
-- on native numbers. Bitmap.Single is about one bit, Bitmap.Range about ranges, Bitmap.Scan about
-- the search.
-- FreeMap: the record FreeMap has the bitmap; whether `bitmap_write` to the map's file succeeds is
-- a parameter.
-- Cache: the record Cache has the array `buffer_cache`, `clock_hand`, the value of `active_sema`,
-- the statistics and the device. A run is that of one thread until it ends or sleeps on a lock or
-- on `inactive_entry`; entries that other threads have locked carry the flag `held`. The invariant
-- is in Cache.Inv; `view` is what a sector shows: its cached buffer, or the disk.
-- Sched, Synch: the record Kernel has the ready list, the threads' status, the semaphores, the
-- locks and each thread's place in its code. What runs with interrupts off is one function;
-- Synch.Step has the steps that the running thread can take between two such stretches, in any
-- order, with preemption at every point. A lock has the number of its semaphore.
-- Inode: pintos/src/filesys/inode.c on top of the free map and of the cache. The record Store has
-- the sectors as the cache shows them; Inode.Refine ties `cached_read` and `cached_write` to
-- `read_buffered` and `write_buffered`. Inode.Layout has the words of an inode, Inode.Grow the new
-- sectors, Inode the map from positions to sectors and the loops of reads and writes, Inode.Table
-- the list of open inodes. Each operation runs under the inode's lock, which is left out. A file is
-- well formed, IsFile, when its pointers are in use and its blocks are apart. Inode.Tree and its
-- modules look at a file as a tree of blocks of pointers: a sector that is put into its place
-- leaves the others alone, so that a longer file keeps its blocks (Inode.Longer) and a write past
-- the end is a write into the longer file (Inode.Grown). The source probes with
-- `can_allocate` before it grows, but not for the blocks of pointers, and the probe itself loses
-- a sector: a device that runs full is a failed ASSERT in the middle of the growth. Each new block
-- takes three sectors at most, with its blocks of pointers, so that the growth can stop only when the
-- map's file cannot be written or at most three sectors for each new block are free (Crowded); with
-- more room it ends. A call of the free map also rewrites the map's file: Store has the sectors of
-- that file and what `bitmap_write` leaves in them as parameters. `inode_open` enters a new inode with its sector in
-- one step, where the source sets `inode->sector` behind the list's lock, and the count of openers is
-- not bounded.
-- Directory: pintos/src/filesys/directory.c on top of the inodes. An entry is its 20 bytes, a
-- string the list of its characters without the null byte, a directory or an open inode the number
-- of its sector. Directory.Path has the parts of a path, Directory the operations on one directory,
-- Directory.Walk paths and subdirectories. The caller has the directory's lock, and the `malloc` of
-- `inode_open` succeeds. What an uninitialised variable holds is a parameter.
-- Process: the wait status that a process shares with its parent, in pintos/src/threads/thread.c
-- and pintos/src/userprog/process.c, and the exits in pintos/src/userprog/syscall.c and
-- pintos/src/userprog/exception.c. Wait statuses stand in a heap by their addresses, and the use of
-- one that is freed is a fault; `malloc` succeeds at an address that is free. Process.Step has the
-- steps of a process; any process takes the next one, so that all orders are covered. A stretch
-- between two of them touches one wait status, under its lock or alone. The initial thread has no wait
-- status of its own, and its exit is a fault. The invariant is in
-- Process.Inv, on the sums of Process.Tally; Process.Progress has each step under it, Process.Shared what
-- follows for every run.
-- Intq: pintos/src/devices/intq.c, the circular queue between interrupt handlers and threads.
-- Text: pintos/src/lib/string.c over a memory from addresses to bytes.
-- Arithmetic: the unsigned division of pintos/src/lib/arithmetic.c, on the instruction DIVL, whose trap is a
-- fault.
-- Loops. `for` loops over indices carry the rounds that are left, computed from the source's
-- bounds. The clock has fuel for two turns of its 64 slots and one round: the first turn clears
-- every use bit that it meets, so the second meets an unheld slot with a clear bit. `read_buffered`
-- and `read_not_buffered` call each other: the second call is made only when the sector has
-- appeared in the cache, and depth 2 covers it in a run of one thread. `read_loop` and `write_loop`
-- of the inodes have one round more than the bytes asked for, as each round moves at least one. The
-- loops over entries have 423016 rounds (`max_entries`), more than a file of the largest size has
-- entries; the loops over the parts of a path have one round more than the path has characters, as
-- each part takes at least one. The loops of Text that look for a null byte have 2 ^ 32 rounds, the
-- size of the address space; a string without an end is a fault.
-- Interfaces. The devices and the map's file are parameters: a read or a write of the block device
-- is a function, and the write of the free map's file a Boolean. Store has no entries of the cache:
-- what it promises is `cached_read` and `cached_write`, which Inode.Refine gives for the buffer
-- cache.
-- Not modelled: the file objects and the system calls but for the exits, the argument stack of a
-- process, page allocation, timers, and the hardware (interrupt controller, page tables, port input
-- and output, boot code), printing, the drivers below the block device, ELF loading, the test
-- programs and the host tools. The memory allocator is a parameter where its failure is handled.
mod Base
pub mod Bitmap
pub mod FreeMap
pub mod Cache
pub mod Sched
pub mod Synch
pub mod Inode
pub mod Text
pub mod Intq
pub mod Directory
pub mod Process
pub mod Arithmetic
