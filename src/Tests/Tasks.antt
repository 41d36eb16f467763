-- ===== src/Tests/Tasks.antt =====
-- A ring of two ready tasks, and the dispatcher.
use ping_pong_so.Base.{[], arith, length, none, refl, ◌+◌, ◌/◌, ◌∷◌, ◌≡◌, ◌≤◌}
use ping_pong_so.Base.Int.{negsuc, pos, ℤ}
use ping_pong_so.Kernel.{
  age, aging_loop, before_task_switch, get_highest_prio_task, highest_loop, reset, scheduler,
  task_getprio, task_setprio,
}
use ping_pong_so.Kernel.Fair.{Passed, never, once_more}
use ping_pong_so.Kernel.Fair.Bound.{InRange, Passed-le}
use ping_pong_so.Kernel.Metrics.{IsSwitch, Switched, before_task_switch-Switched}
use ping_pong_so.Kernel.Priority.{Prioritised, some_task, task_setprio-get}
use ping_pong_so.Kernel.Ring.{IsRing}
use ping_pong_so.Kernel.State.{Completes, Kernel, Ptr, Task, on_task, task, with_task, ◌>>◌}
use ping_pong_so.Kernel.Ticks.{Ticked, ticks, ticks-Ticked, ticks-quantum}
use ping_pong_so.Kernel.Turn.{Scheduled, scheduler-Scheduled}
use ping_pong_so.Manager.State.{next}
use mathlib.Core.List.Perm

abbrev at_prio : Ptr → ℤ → ℤ → Task
at_prio next static dynamic = record {
  next = next;
  id = pos 1;
  i_static_prio = static;
  i_dinam_prio = dynamic;
  ui_exec_ticks = 0;
  ui_processor_ticks = 0;
  ui_activations = 0;
}

abbrev first : Task
first = at_prio 2 (pos 5) (pos 5)

abbrev second : Task
second = at_prio 1 (pos 4) (negsuc 2)

abbrev kernel : Kernel
kernel = record {
  tasks = with_task (with_task (λ a. none) 1 first) 2 second;
  task_exec = 1;
  task_disp = 9;
  ready_queue = 1;
  system_time = 100;
  starting_tick = 80;
  ticks_left = pos 40;
  calls = [];
}

kernel-IsRing : IsRing kernel (1, first) ((2, second) ∷ [])
unfolding with_task
kernel-IsRing = record {
  chain = (refl, omega arith, refl, (refl, omega arith, refl, tt));
  apart = (refl, (refl, tt));
  first = refl;
}

scheduler-Scheduled_example :
    Completes (Scheduled kernel (1, first) ((2, second) ∷ [])) (scheduler 2 kernel)
scheduler-Scheduled_example =
    scheduler-Scheduled kernel (1, first) ((2, second) ∷ []) 2 kernel-IsRing (omega arith)

-- Three ticks at the end of a quantum.
abbrev late : Kernel
late = record kernel { ticks_left = pos 2 }

ticks-Ticked_example :
    Completes (λ _ t. Ticked late 38 (1 ∷ 1 ∷ 2 ∷ []) t) (ticks (1 ∷ 1 ∷ 2 ∷ []) late)
ticks-Ticked_example = ticks-Ticked (1 ∷ 1 ∷ 2 ∷ []) late 38 (omega arith) refl (omega arith)

ticks-quantum_example :
    Completes (λ _ t. length t.calls ≡ 0 + (38 + 3) / 40) (ticks (1 ∷ 1 ∷ 2 ∷ []) late)
ticks-quantum_example =
    ticks-quantum (1 ∷ 1 ∷ 2 ∷ []) late 38 (omega arith) refl (omega arith)
      (omega arith, (omega arith, (omega arith, tt)))

task_setprio-get_example :
    Completes
      (Prioritised kernel 2 second (pos 21))
      ((task_setprio 2 (pos 21) >> task_getprio 2) kernel)
unfolding with_task
task_setprio-get_example =
    task_setprio-get kernel 2 2 second (pos 21) (some_task (omega arith)) refl (omega arith)

to_second : IsSwitch kernel first 2 second
unfolding with_task
to_second = record {
  running = refl;
  running_held = omega arith;
  entering = refl;
  entering_held = omega arith;
}

before_task_switch-Switched_example :
    Completes (λ _ s. Switched kernel 2 s) (before_task_switch 2 kernel)
before_task_switch-Switched_example = before_task_switch-Switched kernel first 2 second to_second

-- A call of `scheduler` that passes over task 1.
abbrev ticked : Kernel
ticked = record kernel { tasks = with_task (with_task kernel.tasks 2 (reset second)) 1 (age first) }

ticked-IsRing : IsRing ticked (1, age first) ((2, reset second) ∷ [])
unfolding with_task
ticked-IsRing = record {
  chain = (refl, omega arith, refl, (refl, omega arith, refl, tt));
  apart = (refl, (refl, tt));
  first = refl;
}

passed : Passed 1 1 kernel (1, first) ((2, second) ∷ [])
unfolding scheduler get_highest_prio_task highest_loop aging_loop task on_task with_task
passed =
    once_more 2 ticked 2 (omega arith) refl (omega arith) (λ b. refl) (Perm.refl _) ticked-IsRing
      never

first-InRange : InRange first
first-InRange = record {
  static_low = omega arith;
  static_high = omega arith;
  dynamic_low = omega arith;
  dynamic_high = omega arith;
}

second-InRange : InRange second
second-InRange = record {
  static_low = omega arith;
  static_high = omega arith;
  dynamic_low = omega arith;
  dynamic_high = omega arith;
}

Passed-le_example : 1 ≤ 39 + 2
Passed-le_example =
    Passed-le 1 1 kernel (1, first) ((2, second) ∷ []) kernel-IsRing refl
      (first-InRange, (second-InRange, tt)) (omega arith) passed
