-- ===== src/Kernel.antt =====
-- ppos-core-aux.c: the scheduler with aging, the preemption by ticks and the metrics of the tasks.
-- The loops over the circular ready queue run on fuel.
pub mod State
pub mod Ring
pub mod Schedule
pub mod Aging
pub mod Turn
pub mod Fair
pub mod Metrics
pub mod Hooks
pub mod Ticks
pub mod Priority
use ping_pong_so.Base.{if◌then◌else◌, suc, zero, ℕ, ◌&&◌, ◌==◌}
use ping_pong_so.Base.Int.{add_int, eq_ℤ, leb_ℤ, ltb_ℤ, negsuc, pos, ℤ}
use ping_pong_so.Kernel.State.{
  K, Kernel, Ptr, Task, add_unsigned, change, emit, finish_disk, give, null, on_task, print_info,
  state, sub_unsigned, task, task_yield, too_long, ◌>>=◌, ◌>>◌,
}
use ping_pong_so.Manager.State.{next}

abbrev pub unix_max_prio : ℤ
unix_max_prio = pos 20

abbrev pub unix_min_prio : ℤ
unix_min_prio = negsuc 19

abbrev pub unix_aging_factor : ℤ
unix_aging_factor = negsuc 0

abbrev pub default_task_ticks : ℤ
default_task_ticks = pos 40

-- The loop of `getHighestPrioTaks`, entered with the runner and the best task so far.
unfoldable pub highest_loop : ℕ → Ptr → Ptr → Ptr → K Ptr
highest_loop zero first runner highest = λ _. too_long
highest_loop (suc k) first runner highest = do
  r ← task runner
  h ← task highest
  let best = if ltb_ℤ r.i_dinam_prio h.i_dinam_prio then runner else highest
  if r.next == first then give best else highest_loop k first r.next best

unfoldable pub get_highest_prio_task : ℕ → Ptr → K Ptr
get_highest_prio_task fuel first = highest_loop fuel first first first

abbrev pub age : Task → Task
age t = record t { i_dinam_prio = add_int t.i_dinam_prio unix_aging_factor }

abbrev pub reset : Task → Task
reset t = record t { i_dinam_prio = t.i_static_prio }

-- The aging loop of `scheduler`: every task but the chosen one.
unfoldable pub aging_loop : ℕ → Ptr → Ptr → Ptr → K (Unit {0})
aging_loop zero first chosen runner = λ _. too_long
aging_loop (suc k) first chosen runner = do
  if runner == chosen then give tt else on_task runner age
  r ← task runner
  if r.next == first then give tt else aging_loop k first chosen r.next

unfoldable pub scheduler : ℕ → K Ptr
scheduler fuel = do
  s ← state
  if s.ready_queue == null then give s.ready_queue else do
    next ← get_highest_prio_task fuel s.ready_queue
    on_task next reset
    aging_loop fuel s.ready_queue next s.ready_queue
    give next

-- A null task stands for the one that executes.
abbrev pub or_exec : Ptr → Kernel → Ptr
or_exec p s = if p == null then s.task_exec else p

unfoldable pub task_setprio : Ptr → ℤ → K (Unit {0})
task_setprio p prio =
    if leb_ℤ unix_min_prio prio && leb_ℤ prio unix_max_prio
    then (do s ← state; on_task (or_exec p s) (λ t. record t { i_static_prio = prio }))
    else give tt

unfoldable pub task_getprio : Ptr → K ℤ
task_getprio p = do s ← state; t ← task (or_exec p s); give t.i_static_prio

-- The tick handler once the ticks of the task have run out.
abbrev pub quantum_over : K (Unit {0})
quantum_over = do
  change (λ s. record s { ticks_left = default_task_ticks })
  s ← state
  if s.task_exec == s.task_disp then give tt else emit task_yield

unfoldable pub tick_handler : K (Unit {0})
tick_handler = do
  change (λ s. record s {
    ticks_left = add_int s.ticks_left (negsuc 0);
    system_time = add_unsigned s.system_time 1;
  })
  s ← state
  if leb_ℤ s.ticks_left (pos 0) then quantum_over else give tt

unfoldable pub metrics_handler : Ptr → Ptr → K (Unit {0})
metrics_handler previous next = do
  s ← state
  on_task previous (λ t. record t {
    ui_processor_ticks =
        add_unsigned t.ui_processor_ticks (sub_unsigned s.system_time s.starting_tick);
  })
  on_task next (λ t. record t { ui_activations = add_unsigned t.ui_activations 1 })
  change (λ s. record s { starting_tick = s.system_time })

-- The hook that the kernel calls before it switches from the task that executes to `p`.
unfoldable pub before_task_switch : Ptr → K (Unit {0})
before_task_switch p = do s ← state; metrics_handler s.task_exec p

-- The hook that the kernel calls after it has created the task `p`.
unfoldable pub after_task_create : Ptr → K (Unit {0})
after_task_create p = do s ← state; on_task p (λ t. record t { ui_exec_ticks = s.system_time })

unfoldable pub print_task_info : K (Unit {0})
print_task_info = do
  s ← state
  t ← task s.task_exec
  if eq_ℤ t.id (pos 0) then emit finish_disk else give tt
  emit (print_info t.id t.ui_exec_ticks t.ui_processor_ticks t.ui_activations)

-- The hook that the kernel calls when the task that executes exits.
unfoldable pub after_task_exit : K (Unit {0})
after_task_exit = do
  s ← state
  on_task s.task_exec (λ t. record t { ui_exec_ticks = sub_unsigned s.system_time t.ui_exec_ticks })
  print_task_info
