-- ===== src/Tests/Turns.antt =====
-- A task that reads block 9, up to the point where the disk task has noticed its request.
use ping_pong_so.Base.{
  Bool, List, [], arith, false, inl, none, refl, some, true, ℕ, ◌*◌, ◌+◌, ◌∷◌, ◌≡◌, ◌≢◌, ◌≤◌,
}
use ping_pong_so.Base.Int.{add_int, pos, to_int}
use ping_pong_so.Device.{
  disk_cmd, disk_init, disk_open, lseek_end, open_disk, sigaction_sigio, timer_create,
}
use ping_pong_so.Manager.{disk_mgr_init, read_sizes, set_up}
use ping_pong_so.Manager.Startup.{Started, disk_mgr_init-Started, startup_calls}
use ping_pong_so.Manager.State.{Finishes, System}
use ping_pong_so.Protocol.{
  IsBoot, Reach, Runs, State, Work, after, client, disk_after, disk_segment, disk_task, enqueue,
  enter, fresh_calls, later, locked, outside, queued, scheduling, segment, signalled, start,
  waiting, work,
}
use ping_pong_so.Protocol.Drained.{Drained, drains}
use ping_pong_so.Protocol.Invariant.{Inv, holds_mutex}
use ping_pong_so.Protocol.Liveness.{Works, Works-le, no_deadlock, none_, one_more}
use ping_pong_so.Protocol.Reachable.{Reach-Inv}
use ping_pong_so.Protocol.Safety.{IsServing, mutual_exclusion, scheduling-IsServing}
use ping_pong_so.Protocol.Sync.{Sems, effect, effects}
use ping_pong_so.Requests.{add_node_in_front, append_node, create_list, create_node, empty_list}
use ping_pong_so.Requests.Memory.{
  SyncCall, live, mutex_lock, mutex_unlock, new_requests, node, queue_mutex, request_mutex,
  sem_down, sem_up, unused, update,
}
use ping_pong_so.Single.Order.{InOrder, Turns, lone_call-InOrder, next_turn, no_turn}
use ping_pong_so.Single.Turns.{Actor, Alone, by_whom, the_caller, the_disk_task}
use ping_pong_so.Tests.Disks.{blank, env, free_disk}
use ping_pong_so.Tests.Numbers.{numbers, take_lock, take_one}
use ping_pong_so.Tests.Queues.{system}
use ping_pong_so.Totals.{with_pc, with_pc-apart}

abbrev pub sems : Bool → Bool → ℕ → ℕ → Sems numbers
sems r q new treated = record {
  request_lock = r;
  queue_lock = q;
  new_count = new;
  treated_count = treated;
}

-- Before `disk_mgr_init`, and behind it.
abbrev pub off : System
off = record system {
  disk = record system.disk { init = false; size = pos 0; i_block_size = pos 0 };
  list = none;
  mem = record { cell = λ a. unused; residue = λ m. m; stale = 0; calls = [] };
  hw = blank;
}

abbrev on : System
on = record off {
  disk = record off.disk { init = true; size = pos 16; i_block_size = pos 64 };
  list = some empty_list;
  mem = record off.mem { calls = startup_calls };
  hw = record free_disk { prev_block = pos 0; next_block = pos 0 };
  io = open_disk ∷ lseek_end (pos 3) ∷ sigaction_sigio ∷ timer_create ∷ [];
}

boot-Runs :
    Runs numbers 2
      (disk_mgr_init env true true)
      (fresh_calls off)
      (sems true true 5 5)
      on
      (sems false false 0 0)
unfolding disk_mgr_init read_sizes set_up disk_cmd disk_init disk_open create_list effects effect
    to_int
boot-Runs = record { result = pos 0; ends = refl; calls = refl }

pub off-IsBoot : IsBoot env off
off-IsBoot = record {
  unknown_ = refl;
  opened = omega arith;
  created = refl;
  sized = omega arith;
  small = omega arith;
  keeps = λ m. refl;
}

abbrev booted : State numbers 2
booted = record { sys = on; sems = sems false false 0 0; pc = λ _. outside; disk_pc = waiting }

booted-Reach : Reach numbers 2 booted
booted-Reach = start env off on (sems true true 5 5) (sems false false 0 0) off-IsBoot boot-Runs

-- Task 0 asks for block 9.
abbrev asked : System
asked = record on {
  list = some (record { first_node = 10; last_node = 10; i_size = pos 1 });
  mem = record on.mem {
    cell = update on.mem.cell 10 (
        live (
          node 0 0 (record {
            task = 0;
            block = pos 9;
            buffer = 1000;
            task_action = pos 1;
            starting_time = 17;
          })));
    calls = mutex_unlock queue_mutex ∷ mutex_lock queue_mutex ∷ [];
  };
  task_exec = 0;
}

abbrev entered : State numbers 2
entered = record booted {
  sys = asked;
  sems = sems false false 0 0;
  pc = with_pc (λ _. outside) 0 queued;
}

entered-Reach : Reach numbers 2 entered
unfolding enqueue add_node_in_front append_node create_node add_int to_int effects effect take_lock
entered-Reach = later booted-Reach (
    enter 0 10 (pos 1) (pos 9) 1000 asked (sems false false 0 0) (omega arith) refl (inl refl)
      (omega arith) refl (record { result = tt; ends = refl; calls = refl }))

-- It takes the mutex and raises the semaphore, and the disk task goes on.
abbrev with_calls : List SyncCall → System
with_calls cs = record asked { mem = record asked.mem { calls = cs } }

abbrev holding : State numbers 2
holding = record entered {
  sys = with_calls (mutex_lock request_mutex ∷ []);
  sems = sems true false 0 0;
  pc = with_pc entered.pc 0 locked;
}

abbrev announced : State numbers 2
announced = record holding {
  sys = with_calls (sem_up new_requests ∷ []);
  sems = sems true false 1 0;
  pc = with_pc holding.pc 0 signalled;
}

abbrev noticed : State numbers 2
noticed = record announced {
  sys = with_calls (sem_down new_requests ∷ []);
  sems = sems true false 0 0;
  disk_pc = scheduling;
}

to_holding : Work numbers 2 entered holding
unfolding segment after with_pc effects effect take_lock
to_holding =
    client 0 holding.sys holding.sems (omega arith) (λ e. cc)
      (record { result = tt; ends = refl; calls = refl })

to_announced : Work numbers 2 holding announced
unfolding segment after with_pc effects effect
to_announced =
    client 0 announced.sys announced.sems (omega arith) (λ e. cc)
      (record { result = tt; ends = refl; calls = refl })

to_noticed : Work numbers 2 announced noticed
unfolding disk_segment disk_after effects effect take_one
to_noticed =
    disk_task env noticed.sys noticed.sems refl (λ e. cc)
      (record { result = tt; ends = refl; calls = refl })

noticed-Reach : Reach numbers 2 noticed
noticed-Reach =
    later (later (later entered-Reach (work to_holding)) (work to_announced)) (work to_noticed)

Reach-Inv_example : Inv numbers 2 noticed
Reach-Inv_example = Reach-Inv numbers 2 (omega arith) noticed noticed-Reach

mutual_exclusion_example : ◌≡◌ {A = ℕ} 0 0
unfolding with_pc holds_mutex
mutual_exclusion_example =
    mutual_exclusion numbers 2 noticed 0 0 (omega arith) noticed-Reach (omega arith) (omega arith)
      refl refl

scheduling-IsServing_example : IsServing numbers 2 noticed
scheduling-IsServing_example =
    scheduling-IsServing numbers 2 noticed (omega arith) noticed-Reach refl

away_from_outside : noticed.pc 0 ≢ outside
unfolding with_pc
away_from_outside = λ e. cc

no_deadlock_example : (t : State numbers 2) × Work numbers 2 noticed t
no_deadlock_example =
    no_deadlock numbers 2 env noticed 0 (omega arith) refl noticed-Reach (omega arith)
      away_from_outside

Works-le_example : 3 ≤ 7 * 2 + 3
Works-le_example =
    Works-le numbers 2 3 entered noticed (omega arith) entered-Reach
      (one_more to_holding (one_more to_announced (one_more to_noticed none_)))

drains_example :
    (j : ℕ) × (u : State numbers 2) × (j ≤ 7 * 2 + 3)
    × Works numbers 2 j noticed u
    × Drained numbers 2 u
drains_example = drains numbers 2 env noticed (omega arith) refl noticed-Reach

disk_mgr_init-Started_example : Finishes (Started 1024 off) (disk_mgr_init env true true off)
disk_mgr_init-Started_example =
    disk_mgr_init-Started env off refl (omega arith) refl (omega arith) (omega arith)

alone : Alone numbers 2 0 entered
alone j less away = with_pc-apart (λ _. outside) 0 queued j away

abbrev three_actors : List Actor
three_actors = the_caller ∷ the_caller ∷ the_disk_task ∷ []

entered-Turns : Turns numbers 2 three_actors entered noticed
unfolding by_whom to_holding to_announced to_noticed
entered-Turns =
    next_turn the_caller to_holding refl
      (next_turn the_caller to_announced refl (next_turn the_disk_task to_noticed refl no_turn))

lone_call-InOrder_example : InOrder numbers 2 0 three_actors noticed
unfolding with_pc
lone_call-InOrder_example =
    lone_call-InOrder numbers 2 (omega arith) 0 (omega arith) env entered noticed three_actors refl
      entered-Reach refl alone entered-Turns
