-- ===== src/Manager.antt =====
-- ppos_disk.c: the disk manager. `disk_mgr_init`, the dispatch of a request (`diskScheduler`), the
-- handler of the disk's signal (`memActionFinished`) and the shutdown (`finishDiskTask`).
pub mod State
pub mod Dispatch
pub mod Serve
pub mod Interrupt
pub mod Startup
pub mod Takes
pub mod Shutdown
use ping_pong_so.Base.{Bool, Option, false, if◌then◌else◌, none, some, suc, true}
use ping_pong_so.Base.Int.{
  abs, add_int, eq_ℤ, ltb_ℤ, negsuc, pos, pos_part, sub_int, to_int, to_short, ℤ,
}
use ping_pong_so.Device.{Env, disk_cmd, disk_sighandle}
use ping_pong_so.Manager.State.{
  Algorithm, M, cscan, fcfs, get, modify, on_disk, on_list, return, set_list, sstf, sync, ◌>>=◌,
  ◌>>◌,
}
use ping_pong_so.Requests.{RequestList, create_list, empty_list, free_nodes, is_empty, remove_node}
use ping_pong_so.Requests.Memory.{
  Cmd, Ptr, load, mutex_create, new_requests, queue_mutex, request_mutex, sem_create, sem_up,
  task_create, task_setprio, treated_requests,
}
use ping_pong_so.Selection.{cscan_sched, fcfs_sched, sstf_sched}

-- The node that an algorithm chooses.
unfoldable pub select : Algorithm → ℤ → Option RequestList → Cmd Ptr
select fcfs head l = fcfs_sched l
select sstf head l = sstf_sched head l
select cscan head l = cscan_sched head l

-- The rest of `diskScheduler`, once the chosen node has been taken off the list and the disk is
-- idle. The node has been freed: each of its fields is read from freed memory.
unfoldable pub dispatch : Env → Ptr → M ℤ
dispatch e req = do
  s ← get
  modify (λ d. record d { starting_time = to_int (pos s.system_time) })
  n ← on_list (load req)
  modify (λ d. record d {
    total_block_access =
        add_int d.total_block_access (abs (sub_int n.request.block d.i_curr_block));
  })
  n ← on_list (load req)
  modify (λ d. record d { i_curr_block = n.request.block })
  n ← on_list (load req)
  modify (λ d. record d { buffer = n.request.buffer })
  n ← on_list (load req)
  s ← get
  r ← on_disk (disk_cmd e n.request.task_action s.disk.i_curr_block s.disk.buffer)
  if eq_ℤ r (pos 0) then return (pos 0) else do sync (sem_up treated_requests); return (negsuc 0)

-- `diskScheduler`: the result is -1 where the disk is busy or refuses the request.
unfoldable pub disk_scheduler : Env → M ℤ
disk_scheduler e = do
  s ← get
  if is_empty s.list then return (pos 0) else do
    modify (λ d. record d { algorithm = sstf })
    req ← on_list (select sstf s.disk.i_curr_block s.list)
    l ← on_list (remove_node s.list req)
    set_list l
    state ← on_disk (disk_cmd e (pos 3) (pos 0) 0)
    modify (λ d. record d { status = state })
    if eq_ℤ state (pos 1) then dispatch e req else return (negsuc 0)

-- The handler of SIGUSR1.
unfoldable pub mem_action_finished : M (Unit {0})
mem_action_finished = do
  modify (λ d. record d { package_sync = to_short (add_int d.package_sync (pos 1)) })
  sync (sem_up treated_requests)
  s ← get
  modify (λ d. record d {
    exec_time = add_int d.exec_time (sub_int (pos s.system_time) d.starting_time);
  })

-- The disk's timer fires: the disk's handler raises SIGUSR1 at its end.
unfoldable pub disk_interrupt : M (Unit {0})
disk_interrupt = do on_disk disk_sighandle; mem_action_finished

-- `finishDiskTask` on a list that is there and not empty. Fuel: one round more than nodes.
unfoldable pub finish_list : RequestList → M Bool
finish_list l = do
  on_list (free_nodes (suc (pos_part l.i_size)) l.first_node)
  set_list (some empty_list)
  modify (λ d. record d { init = false })
  sync (sem_up new_requests)
  return true

unfoldable pub finish_task : Option RequestList → M Bool
finish_task none = return false
finish_task (some l) = if eq_ℤ l.i_size (pos 0) then return false else finish_list l

unfoldable pub finish_disk_task : M Bool
unfolding finish_task
finish_disk_task = do s ← get; finish_task s.list

-- `disk_mgr_init` after the three commands to the disk: `handled` says whether `sigaction` accepts
-- the handler, and `allocated` whether there is room for the list. The result is -1 on an error.
unfoldable pub set_up : Bool → Bool → M ℤ
set_up handled allocated = do
  modify (λ d. record d { init = true })
  sync (mutex_create request_mutex)
  sync (mutex_create queue_mutex)
  sync (sem_create treated_requests (pos 0))
  sync (sem_create new_requests (pos 0))
  modify (λ d. record d { total_block_access = pos 0; exec_time = pos 0 })
  modify (λ d. record d { package_sync = pos 0 })
  l ← on_list (create_list allocated)
  set_list (some l)
  if handled
      then (do sync task_create; sync (task_setprio (pos 0)); return (pos 0))
      else return (negsuc 0)

-- The two queries of `disk_mgr_init`; the values also go to the caller, in the manager's variables.
unfoldable pub read_sizes : Env → Bool → Bool → M ℤ
read_sizes e handled allocated = do
  size ← on_disk (disk_cmd e (pos 4) (pos 0) 0)
  modify (λ d. record d { size = size })
  if ltb_ℤ size (pos 0) then return (negsuc 0) else do
    bytes ← on_disk (disk_cmd e (pos 5) (pos 0) 0)
    modify (λ d. record d { i_block_size = bytes })
    if ltb_ℤ bytes (pos 0) then return (negsuc 0) else set_up handled allocated

unfoldable pub disk_mgr_init : Env → Bool → Bool → M ℤ
disk_mgr_init e handled allocated = do
  r ← on_disk (disk_cmd e (pos 0) (pos 0) 0)
  if eq_ℤ r (pos 0) then read_sizes e handled allocated else return (negsuc 0)
