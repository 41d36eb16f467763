-- ===== src/Protocol.antt =====
-- ppos_disk.c: disk_block_read, disk_block_write and diskTaskBody, and how the tasks that call the
-- first two, the disk task and the disk's timer take turns. A step is the code of a task up to and
-- with its next call on the mutex of requests or on a semaphore: within a step no other task runs.
pub mod Sync
pub mod Counts
pub mod Invariant
pub mod Clients
pub mod Timer
pub mod Serving
pub mod Entering
pub mod Reachable
pub mod Progress
pub mod Measure
pub mod Safety
pub mod Liveness
pub mod Drained
use ping_pong_so.Base.{[], false, if◌then◌else◌, refl, some, true, ℕ, ◌/◌, ◌<◌, ◌≡◌, ◌≢◌, ◌≤◌, ◌⊎◌}
use ping_pong_so.Base.Int.{pos, pos_part, ℤ, ◌≤ℤ◌}
use ping_pong_so.Device.{Env, idle, unknown}
use ping_pong_so.Device.Valid.{max_blocks}
use ping_pong_so.Manager.{disk_interrupt, disk_mgr_init, disk_scheduler}
use ping_pong_so.Manager.State.{M, System, done, get, on_list, return, set_list, sync, ◌>>=◌, ◌>>◌}
use ping_pong_so.Protocol.Sync.{Sems, SyncLib, effects}
use ping_pong_so.Requests.{add_node_in_front}
use ping_pong_so.Requests.Memory.{
  Node, Ptr, Request, is_live, mutex_lock, mutex_unlock, new_requests, null, request_mutex,
  sem_down, sem_up, treated_requests,
}
use ping_pong_so.Totals.{with_pc}

-- The request of the task that executes.
abbrev pub ask : ℤ → ℤ → Ptr → System → Request
ask action block buffer s = record {
  task = s.task_exec;
  block = block;
  buffer = buffer;
  task_action = action;
  starting_time = s.system_time;
}

-- The first part of `disk_block_read` and `disk_block_write`: the call of `addNodeInFront`.
unfoldable pub enqueue : Ptr → ℤ → ℤ → Ptr → M (Unit {0})
enqueue fresh action block buffer = do
  s ← get
  l ← on_list (add_node_in_front fresh s.list (ask action block buffer s))
  set_list l

unfoldable pub disk_block_read : Ptr → ℤ → Ptr → M ℤ
disk_block_read fresh block buffer = do
  enqueue fresh (pos 1) block buffer
  sync (mutex_lock request_mutex)
  sync (sem_up new_requests)
  sync (sem_down treated_requests)
  sync (mutex_unlock request_mutex)
  return (pos 0)

unfoldable pub disk_block_write : Ptr → ℤ → Ptr → M ℤ
disk_block_write fresh block buffer = do
  enqueue fresh (pos 2) block buffer
  sync (mutex_lock request_mutex)
  sync (sem_up new_requests)
  sync (sem_down treated_requests)
  sync (mutex_unlock request_mutex)
  return (pos 0)

-- Where a task stands: outside of the two functions, or before one of their four last calls.
pub data Pc : Type 0 where
  outside : Pc
  queued : Pc
  locked : Pc
  signalled : Pc
  served : Pc

-- The call that stands there, and the place behind it.
unfoldable pub segment : Pc → M (Unit {0})
segment outside = return tt
segment queued = sync (mutex_lock request_mutex)
segment locked = sync (sem_up new_requests)
segment signalled = sync (sem_down treated_requests)
segment served = sync (mutex_unlock request_mutex)

unfoldable pub after : Pc → Pc
after outside = outside
after queued = locked
after locked = signalled
after signalled = served
after served = outside

-- The two functions are their first part and the four calls.
disk_block-segments :
    (fresh : Ptr) (block : ℤ) (buffer : Ptr)
    → (disk_block_read fresh block buffer ≡ (do
      enqueue fresh (pos 1) block buffer
      segment queued
      segment (after queued)
      segment (after (after queued))
      segment (after (after (after queued)))
      return (pos 0)))
      × (disk_block_write fresh block buffer ≡ (do
        enqueue fresh (pos 2) block buffer
        segment queued
        segment (after queued)
        segment (after (after queued))
        segment (after (after (after queued)))
        return (pos 0)))
unfolding disk_block_read disk_block_write segment after
disk_block-segments fresh block buffer = (refl, refl)

-- Where the disk task stands: before `sem_down`, before `diskScheduler`, or behind its loop.
pub data DiskPc : Type 0 where
  waiting : DiskPc
  scheduling : DiskPc
  ended : DiskPc

unfoldable pub disk_segment : Env → DiskPc → M (Unit {0})
disk_segment e waiting = sync (sem_down new_requests)
disk_segment e scheduling = do disk_scheduler e; return tt
disk_segment e ended = return tt

-- The loop's condition is tested behind `diskScheduler`.
unfoldable pub disk_after : DiskPc → System → DiskPc
disk_after waiting s = scheduling
disk_after scheduling s = if s.disk.init then waiting else ended
disk_after ended s = ended

-- A step begins with an empty record of calls.
abbrev pub fresh_calls : System → System
fresh_calls s = record s { mem = record s.mem { calls = [] } }

abbrev pub as_task : ℕ → System → System
as_task i s = record (fresh_calls s) { task_exec = i }

-- What `disk_mgr_init` finds and relies on; `keeps` says that freeing a node keeps its request.
pub record IsBoot (e : Env) (s : System) : Type 0 where
  pub unknown_ : s.hw.status ≡ unknown
  pub opened : pos 0 ≤ℤ e.opened
  pub created : e.timer_created ≡ true
  pub sized : pos 0 ≤ℤ e.file_end
  pub small : pos_part e.file_end / 64 ≤ max_blocks
  pub keeps : (m : Node) → (s.mem.residue m).request ≡ m.request

module _ (lib : SyncLib) (n : ℕ) where
  pub record State : Type 0 where
    pub sys : System
    pub sems : Sems lib
    pub pc : ℕ → Pc
    pub disk_pc : DiskPc

  -- The code runs to its end, and none of its calls blocks.
  pub record Runs {A : Type 0} (m : M A) (s : System) (v : Sems lib) (t : System) (w : Sems lib)
      : Type 0 where
    pub result : A
    pub ends : m s ≡ done result t
    pub calls : effects lib t.mem.calls v ≡ some w

  -- The steps of the `n` tasks inside the two functions, of the disk task and of the timer.
  pub data Work (s : State) : State → Type 0 where
    client :
        (i : ℕ) (t : System) (w : Sems lib)
        → i < n
        → s.pc i ≢ outside
        → Runs (segment (s.pc i)) (as_task i s.sys) s.sems t w
        → Work s (record s { sys = t; sems = w; pc = with_pc s.pc i (after (s.pc i)) })
    disk_task :
        (e : Env) (t : System) (w : Sems lib)
        → e.timer_set ≡ true
        → s.disk_pc ≢ ended
        → Runs (disk_segment e s.disk_pc) (fresh_calls s.sys) s.sems t w
        → Work s (record s { sys = t; sems = w; disk_pc = disk_after s.disk_pc t })
    timer :
        (t : System) (w : Sems lib)
        → s.sys.hw.status ≢ idle
        → Runs disk_interrupt (fresh_calls s.sys) s.sems t w
        → Work s (record s { sys = t; sems = w })

  -- Besides, a task enters one of the two functions, or the clock ticks.
  pub data Step (s : State) : State → Type 0 where
    work : {t : State} → Work s t → Step s t
    enter :
        (i : ℕ) (fresh : Ptr) (action block : ℤ) (buffer : Ptr) (t : System) (w : Sems lib)
        → i < n
        → s.pc i ≡ outside
        → (action ≡ pos 1) ⊎ (action ≡ pos 2)
        → fresh ≢ null
        → is_live (s.sys.mem.cell fresh) ≡ false
        → Runs (enqueue fresh action block buffer) (as_task i s.sys) s.sems t w
        → Step s (record s { sys = t; sems = w; pc = with_pc s.pc i queued })
    clock : (now : ℕ) → Step s (record s { sys = record s.sys { system_time = now } })

  -- The states that the tasks can reach once `disk_mgr_init` has been called as IsBoot says.
  pub data Reach : State → Type 0 where
    start :
        (e : Env) (s t : System) (v w : Sems lib)
        → IsBoot e s
        → Runs (disk_mgr_init e true true) (fresh_calls s) v t w
        → Reach (record { sys = t; sems = w; pc = λ _. outside; disk_pc = waiting })
    later : {s t : State} → Reach s → Step s t → Reach t
