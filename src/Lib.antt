-- ===== src/Lib.antt =====
-- The kernel of xv6 for RISC-V, with its additions, and user programs beside it. The kernel
-- of w5 is that of w3 less a few additions, so the parts are taken from w3.
--
-- Prelude      names of the libraries that the parts share, Boolean tests and lists over the native ℕ,
--              and `Run`, the result of code that may panic.
-- Str          w3/kernel/string.c: memset, memcmp, memmove, memcpy, strncmp, strncpy, safestrcpy, strlen
--              over a memory from addresses to bytes. The loops are by recursion on the count that the
--              source has; strlen, which has none, takes fuel, and more fuel than the string is long is
--              enough.
-- Kalloc       w3/kernel/kalloc.c: kinit, freerange, kfree, kalloc. The list of free pages is in
--              memory, as in the source: the first eight bytes of a free page hold the next one. The
--              loop of freerange takes the end address and one as its fuel, since every round adds a
--              page. kmem.lock is left out; what it guards is one step.
-- Log          w3/kernel/log.c: initlog, begin_op, log_write, end_op, commit and what they call, and
--              w3/kernel/param.h and w3/kernel/fs.h for the sizes. The buffer cache is seen as the
--              map from a block to what bread returns, as Bcache has it, and a disk as the map from a
--              block to its words. A bound on the number of disk writes stands for a crash: the write
--              that finds none left is lost, as are those behind it. log.lock is left out, and commit,
--              which runs without it, is a step between two of end_op's. The log has one device.
-- Bcache       w3/kernel/bio.c, with NBUF of w3/kernel/param.h and the sleep lock of a buffer, of
--              w3/kernel/sleeplock.c: binit, bget, bread, bwrite, brelse, bpin, bunpin. Buffers are
--              indices, and `next` and `prev` are the links of the source. The walks of bget take one
--              more than NBUF as their fuel, and a ring of NBUF buffers is shorter. Code under
--              bcache.lock is one step, and a process that waits for a buffer makes its next step when
--              it has it. A disk is the bytes of each block of each device; no file system is on
--              device 0, the device of a buffer that was never used.
-- Fs           w3/kernel/fs.c, with w3/kernel/fs.h and the record of w3/kernel/file.h: bzero, balloc,
--              bfree, bmap, iupdate, the copy from the disk of ilock, readi and writei, over the
--              blocks as bread returns them, which is what Bcache and Log promise. balloc's loop over
--              the bitmap takes one more round than the bitmap has blocks as its fuel. Block numbers
--              do not overflow a uint. The loops of readi and writei take the number of bytes as
--              their fuel, since every round copies one at least.
-- Itable       the table of inodes of w3/kernel/fs.c: iget, idup, iput. Code under itable.lock is one step,
--              and so is an iput that frees an inode, which no other process can reach; itrunc and
--              iupdate are recorded there. Counts do not overflow an int.
-- File         w3/kernel/file.c and the record of w3/kernel/file.h: filealloc, filedup, fileclose; and
--              argfd, fdalloc, sys_dup and sys_close of w3/kernel/sysfile.c. A file is its index in the
--              table. The calls that fileclose makes for a pipe or an inode are recorded. Code under
--              ftable.lock is one step, and a count does not overflow an int.
-- Proc         w3/kernel/proc.c and the record of w3/kernel/proc.h: allocproc, freeproc, kfork, kexit,
--              kwait, reparent, sleep, wakeup, yield, kkill, setkilled and the scheduler's visit of a
--              process, as steps on the table. What they call in the memory and the file system is a
--              list of calls, and what may fail there is an argument. The saved registers and the
--              kernel stacks are left out, nextpid does not overflow, and the locks are left out:
--              wait_lock is held over all of reparent and of a pass of kwait, and p->lock over each
--              process that is looked at. A pass of kwait that sleeps returns `none`, and its caller
--              makes the next one.
-- Pipe         w3/kernel/pipe.c: pipewrite and piperead between two sleeps, pipeclose, and the state
--              that pipealloc starts from. The counters wrap at 2 ^ 32. A pass of pipewrite is by
--              recursion on the bytes left, one of piperead on those asked for. What copyin and copyout
--              do, and whether the process is killed, are arguments; a killed process is seen as killed
--              from the start of a pass.
-- Uthread      w5/user/uthread.c and w5/user/uthread_switch.S: thread_init, thread_create,
--              thread_yield, thread_schedule, and the switch of registers. Stacks are their addresses.
-- Ph           w5/notxv6/ph-with-mutex-locks.c: put, get, the rounds of put_thread in any order, and the
--              count of get_thread. A put is one step, since it holds the lock of its bucket.
-- Grep         the matcher of w3/user/grep.c: match, matchhere, matchstar. A string is the list of the
--              bytes before its NUL.
-- Spinlock     w3/kernel/spinlock.c and the struct cpu of w3/kernel/proc.h: initlock, acquire, release,
--              holding, push_off, pop_off. The accesses to the lock that other processors may see
--              between are steps of their own. Memory is sequentially consistent.
-- Sleeplock    w3/kernel/sleeplock.c. Code under the spinlock of the lock is one step.
-- Console      w3/kernel/console.c: consputc, consoleintr, consoleread between two sleeps, consolewrite.
--              The counters wrap at 2 ^ 32. The loop of C('U') takes the number of bytes that are typed
--              as its rounds, and that of consolewrite one round for a byte.
-- Vm           w3/kernel/vm.c with the entries of w3/kernel/riscv.h: walk, walkaddr, mappages, kvmmap,
--              uvmcreate, uvmunmap and ismapped. Memory is the 512 words of each page. The list of free
--              pages is a list, which is what Kalloc's list in memory stands for, and the junk that
--              kalloc fills a page with is left out, since a new table is cleared. The loops take the
--              number of pages of their range, which is the number of their rounds where the range
--              ends below 2 ^ 64.
-- Print        w3/kernel/printf.c: printint, printptr and the format loop of printf. A write behind the
--              buffer of printint, and an argument that is missing or of another type, have no result.
-- Syscall      w3/kernel/syscall.c, sys_monitor and sys_getpid of w3/kernel/sysproc.c, and
--              w3/user/monitor.c: the arguments, the dispatch and its trace. The calls of other parts are
--              an argument of the dispatch.
-- Ulib         w3/user/ulib.c: strchr, atoi, strcmp. An int wraps at 2 ^ 32.
-- Sh           the parser of w3/user/sh.c: gettoken, peek, parsecmd and what it calls. A command is a
--              tree, and a word the list of its bytes; malloc does not fail. Every call takes one of the
--              fuel, of which parsecmd gives four units for a byte of its text, and eight.
--
-- The kernel's parts meet in memory and on the disk: Proc asks Kalloc for the page of a trap frame and
-- gives it back, and an exit releases its directory between begin_op and end_op of Log. Those calls are
-- recorded by Proc and not run, as are those that File makes at the last close of a file. Vm takes the
-- pages of its tables from the free ones that Kalloc keeps. Syscall prints by Print, and monitor reads its
-- mask by atoi of Ulib.
--
-- Not modelled: the rest of the file system (ialloc, itrunc, directories and
-- paths), the calls that fileread and filewrite make, user memory on top of its page tables (the rest
-- of vm.c), exec, traps, the other system calls of sysproc.c and sysfile.c and the devices of
-- w3/kernel; the other programs of w3/user and w5/user, and the rest of sh.c and ulib.c; the hash
-- table without locks of w5/notxv6; assembly other than the switch of threads. Registers of hardware
-- and the order of memory accesses between processors have no place in this model.
pub mod Prelude
pub mod Str
pub mod Kalloc
pub mod Bcache
pub mod Log
pub mod File
pub mod Fs
pub mod Itable
pub mod Print
pub mod Proc
pub mod Pipe
pub mod Uthread
pub mod Ph
pub mod Grep
pub mod Vm
pub mod Spinlock
pub mod Sleeplock
pub mod Console
pub mod Ulib
pub mod Syscall
pub mod Sh
