-- ===== src/Lib.antt =====
-- PingPongOS: the disk and the scheduling of a teaching operating system.
--
-- The program adds three things to a kernel that comes as a binary library (libppos_static.a): a
-- simulated hard disk, a manager that shares it among the tasks, and the scheduling of the tasks.
--
-- disk.c simulates the disk. `disk_cmd` starts an operation and sets a timer; the timer's signal
-- runs `disk_sighandle`, which moves the block and raises SIGUSR1. Device.antt models it: the
-- static structure is the record Hardware, and a run yields a result, the new state and the
-- system calls in order, or ends the process. The answers of the system calls are the argument
-- Env. Device/Timing.antt is about `disk_settimer`, Device/Commands.antt about each command,
-- Device/Invariant.antt about initialisation, the invariant and the signal. Device/Posix.antt is
-- the interface to the bytes of the file and of memory, as POSIX documents `lseek`, `read` and
-- `write`, and Device/Storage.antt is about the disk as an array of blocks.
--
-- ppos_disk.c keeps the requests in a doubly linked list and serves them. Requests.antt models the
-- operations on the list over the memory of Requests/Memory.antt, in which a cell is unused, live or
-- freed: a read of a freed node is counted and yields what the allocator left there. The address
-- that `malloc` returns is the argument `fresh`. Requests/Segment.antt and Requests/Queue.antt
-- say when the memory holds a list; Append, Prepend, Dangling and Remove are about the operations.
-- Selection.antt models `fcfsSched`, `sstfSched` and `cscanSched`; Selection/Nearest.antt is about
-- the second, and Selection/Circular.antt, Stuck.antt and Wrap.antt are about the third.
-- Manager.antt models `disk_mgr_init`, `diskScheduler`, `memActionFinished` and `finishDiskTask`
-- over the manager's variables, the list and the disk together; the descriptors of tasks, mutexes
-- and semaphores belong to the binary library, whose calls are recorded.
-- Manager/Dispatch.antt and Manager/Serve.antt are about `diskScheduler` on requests that the disk
-- takes, Manager/Takes.antt about `diskScheduler` on any requests, Manager/Interrupt.antt about
-- `memActionFinished`, Manager/Startup.antt about `disk_mgr_init` and Manager/Shutdown.antt about
-- `finishDiskTask`.
--
-- Protocol.antt composes these: tasks call `disk_block_read` and `disk_block_write`, the disk
-- task runs `diskTaskBody`, and the disk's timer interrupts. `segment` is one call of a task on
-- the mutex of requests or on a semaphore, `disk_segment` one of the disk task; a step of Work or
-- Step runs one of them in the state of the manager, and is there only where none of its calls
-- blocks. Within a step no other task runs, so that a step that begins behind a call of the
-- kernel ends with the next one; the two calls on the queue mutex inside `addNodeInFront` belong
-- to one step. The tasks are numbered below n, which is less than 2^31. Protocol/Sync.antt has
-- the interface SyncLib of the mutexes and semaphores as ppos.h describes them, with the value of
-- a semaphore a natural number, and what the recorded calls do to them. Reach is the states that
-- follow a call of `disk_mgr_init` on an uninitialised disk whose file opens and whose timer is
-- created, where freeing a node keeps the request in it: `diskScheduler` reads the node that it
-- has freed. Protocol/Invariant.antt states what holds in all of them, Clients, Timer, Serving
-- and Entering keep it for each kind of step, and Reachable puts them together; Counts counts the
-- semaphores, and Totals.antt sums over tasks. Safety is about what can never happen; Progress,
-- Measure, Liveness and Drained are about what must happen.
--
-- ppos-core-aux.c holds what the kernel calls. Kernel.antt models `scheduler` with aging,
-- `tickHandler`, `task_setprio`, `task_getprio` and the hooks that keep the metrics, over the tasks
-- and the global variables of ppos-core-globals.h; Kernel/Hooks.antt has the hooks that do nothing.
-- Kernel/Ring.antt says when the ready queue is a ring; Schedule, Aging and Turn are about
-- `scheduler`, Fair about calls of it in a row, Ticks about `tickHandler`, Priority and Metrics about
-- the rest.
--
-- pingpong-prodcons.c is a program over the kernel: producers and consumers share a buffer.
-- Producers.antt models the buffer and the tasks, whose turns end where another task may run;
-- Producers/Fifo.antt is about the buffer as a queue, Flow and Turns are about what every turn keeps,
-- and Safety is about what turns never do and always can.
--
-- Single.antt is one call of `disk_block_read` or `disk_block_write` by the only task that uses the
-- disk. `disk_block_call` has the steps of Protocol.antt in the order in which they end: the caller
-- adds its request and announces it, and blocks in its `sem_down` on `treatedReqSem`; the disk task
-- serves the request, the timer ends the operation, and only then the caller's `sem_down` ends, which
-- therefore stands behind them. Single/Turns.antt is about whose turn it is at each moment in
-- Protocol.antt while one task is inside, and Single/Order.antt about the order as a whole.
-- Single/Begin.antt is about `diskScheduler` on the only request, Single/Call.antt about the call as a
-- whole, and Single/Blocks.antt about what its system calls do to the file and to memory. Disco.antt is
-- pingpong-disco1.c, which calls the disk in that way; what it stores in memory itself is the
-- interface Stores, and the answers of code outside of the repository are the argument Answers. At its
-- end `main` runs what the hook `after_task_exit` does to the manager, `leave`.
-- Disco/Buffer.antt is about its buffer, Steps about one call, Reads and Writes about its two
-- loops, and Main about the whole.
--
-- pingpong-racecond.c has tasks that add to one sum under a semaphore. Racecond.antt models their
-- steps, the load and the store of an addition apart; Racecond/Sum.antt is about what every step
-- keeps, and Racecond/Result.antt about where the runs end.
--
-- pingpong-disco2.c has sixteen tasks that swap the blocks of the two halves of the disk.
-- Movers.antt models which calls of `disk_block_read` and `disk_block_write` each of them makes, one
-- after the other, whatever the calls do and in whatever order they return: the movers only print
-- what a call returns, and write buffers that they have read. What the calls do to the blocks is not
-- part of it: a call that others join may return before its own block is moved.
-- Movers/Ranges.antt is about the blocks of each mover, Fits and Keeps about what every step keeps,
-- and Result about all runs.
--
-- An `int` has 32 bits and wraps around (Base/Int.antt); the program is compiled without
-- optimisation. The loops over the ready queue run on fuel, and one round for each task is enough.
-- The loops over the request list are bounded by its size, as in the source. The loop of
-- `finishDiskTask` has one round more than the list has nodes.
--
-- Not modelled: the binary library, the messages printed but for those of pingpong-disco1.c, of which
-- the times are left out, the other test programs (pingpong-*.c) and the installation of the tick
-- timer (`before_ppos_init`). `finishDiskTask` is modelled, but is
-- no step of Protocol.antt. A tick that makes a task yield, or the disk's signal, in the middle of
-- a step of Protocol.antt or of a turn of Producers.antt is not modelled: Kernel.antt models the
-- ticks by themselves. The number of the task that asks stands for the address of its task_t.
pub mod Base
pub mod Device
pub mod Requests
pub mod Selection
pub mod Manager
pub mod Kernel
pub mod Protocol
pub mod Totals
pub mod Producers
pub mod Racecond
pub mod Movers
pub mod Single
pub mod Disco
pub mod Tests
