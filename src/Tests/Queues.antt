-- ===== src/Tests/Queues.antt =====
-- A list of two disk requests, for the blocks 9 and 3.
use ping_pong_so.Base.{[], arith, false, inl, refl, some, true, ℕ, ◌++◌, ◌<◌, ◌∷◌, ◌≡◌, ◌≢◌}
use ping_pong_so.Base.Argmin.{IsFirstMin}
use ping_pong_so.Base.Int.{pos, ℤ}
use ping_pong_so.Manager.{disk_scheduler, finish_disk_task}
use ping_pong_so.Manager.Dispatch.{IsServable}
use ping_pong_so.Manager.Serve.{Served, disk_scheduler-Served}
use ping_pong_so.Manager.Shutdown.{Stopped, finish_disk_task-Stopped}
use ping_pong_so.Manager.State.{Finishes, System, sstf}
use ping_pong_so.Manager.Takes.{Takes, disk_scheduler-Takes}
use ping_pong_so.Requests.{RequestList, add_node, add_node_in_back, add_node_in_front, remove_node}
use ping_pong_so.Requests.Append.{Added, add_node_in_front-snoc, entry}
use ping_pong_so.Requests.Dangling.{Dangles, add_node-Dangles}
use ping_pong_so.Requests.Memory.{
  Ends, Memory, Ptr, Request, Run, live, mutex_lock, mutex_unlock, node, queue_mutex, unused,
  update,
}
use ping_pong_so.Requests.Prepend.{add_node_in_back-cons}
use ping_pong_so.Requests.Queue.{IsQueue}
use ping_pong_so.Requests.Remove.{remove_node-append}
use ping_pong_so.Requests.Remove.Middle.{Removed}
use ping_pong_so.Requests.Segment.{Entries, has}
use ping_pong_so.Selection.{cscan_sched, sstf_sched}
use ping_pong_so.Selection.Nearest.{distance_of, sstf_sched-IsFirstMin}
use ping_pong_so.Selection.Wrap.{Circled, cscan_sched-Circled}
use ping_pong_so.Tests.Disks.{env, free_disk, free_disk-IsReady}

abbrev asks : ℤ → Request
asks b = record { task = 100; block = b; buffer = 1000; task_action = pos 1; starting_time = 0 }

abbrev two : Entries
two = (10, asks (pos 9)) ∷ (20, asks (pos 3)) ∷ []

abbrev mem : Memory
mem = record {
  cell =
      update (update (λ a. unused) 10 (live (node 0 20 (asks (pos 9))))) 20
        (live (node 10 0 (asks (pos 3))));
  residue = λ n. n;
  stale = 0;
  calls = [];
}

abbrev list : RequestList
list = record { first_node = 10; last_node = 20; i_size = pos 2 }

two-IsQueue : IsQueue mem list two
unfolding update
two-IsQueue = record {
  chain = (refl, omega arith, (refl, omega arith, tt));
  first = refl;
  last = refl;
  size = refl;
  distinct = (refl, (refl, tt));
}

add_node_in_front-snoc_example :
    Ends
      (λ o g.
        (l' : RequestList) × (o ≡ some l')
        × IsQueue g l' (two ++ entry 30 (asks (pos 7)))
        × ((a : Ptr) → a ≢ 30 → has a two ≡ false → g.cell a ≡ mem.cell a)
        × (g.stale ≡ mem.stale)
        × (g.residue ≡ mem.residue)
        × (g.calls ≡ mutex_unlock queue_mutex ∷ mutex_lock queue_mutex ∷ mem.calls))
      (add_node_in_front 30 (some list) (asks (pos 7)) mem)
unfolding update
add_node_in_front-snoc_example =
    add_node_in_front-snoc mem 30 list (asks (pos 7)) two two-IsQueue (omega arith) refl
      (omega arith)

add_node_in_back-cons_example :
    Ends
      (λ o g. (l' : RequestList) × (o ≡ some l') × Added mem 30 two ((30, asks (pos 7)) ∷ two) l' g)
      (add_node_in_back 30 (some list) (asks (pos 7)) mem)
unfolding update
add_node_in_back-cons_example =
    add_node_in_back-cons mem 30 list (asks (pos 7)) two two-IsQueue (omega arith) refl
      (omega arith)

remove_node-append_example :
    Ends
      (Removed mem ((10, asks (pos 9)) ∷ []) 20 (asks (pos 3)) [])
      (remove_node (some list) 20 mem)
remove_node-append_example =
    remove_node-append mem list ((10, asks (pos 9)) ∷ []) 20 (asks (pos 3)) [] two-IsQueue
      (omega arith)

add_node-Dangles_example :
    Ends
      (Dangles list two 40 10 (asks (pos 6)) ((20, asks (pos 3)) ∷ []))
      (add_node 40 list 10 (asks (pos 6)) mem)
unfolding update
add_node-Dangles_example =
    add_node-Dangles mem list 40 [] 10 (asks (pos 9)) (asks (pos 6)) ((20, asks (pos 3)) ∷ [])
      two-IsQueue (omega arith) refl (omega arith)

sstf_sched-IsFirstMin_example :
    (m : Ptr × Request) × (sstf_sched (pos 2) (some list) mem ≡ Run.ok m.0 mem)
    × IsFirstMin (distance_of (pos 2)) two m
sstf_sched-IsFirstMin_example =
    sstf_sched-IsFirstMin mem (pos 2) list (10, asks (pos 9)) ((20, asks (pos 3)) ∷ []) two-IsQueue
      (omega arith)

-- Both requests stand behind the head.
cscan_sched-Circled_example :
    (m : Ptr × Request) × (cscan_sched (pos 10) (some list) mem ≡ Run.ok m.0 mem)
    × Circled (pos 10) (10, asks (pos 9)) ((20, asks (pos 3)) ∷ []) m
cscan_sched-Circled_example =
    cscan_sched-Circled mem (pos 10) list (10, asks (pos 9)) ((20, asks (pos 3)) ∷ []) two-IsQueue
      (omega arith)

-- The manager with that list, and the idle disk.
abbrev pub system : System
system = record {
  disk = record {
    init = true;
    size = pos 16;
    i_block_size = pos 64;
    i_curr_block = pos 2;
    buffer = 0;
    status = pos 1;
    package_sync = pos 0;
    algorithm = sstf;
    starting_time = pos 0;
    total_block_access = pos 0;
    exec_time = pos 0;
  };
  list = some list;
  mem = mem;
  hw = free_disk;
  io = [];
  system_time = 17;
  task_exec = 100;
}

asks-IsServable : (b : ℕ) → b < 16 → IsServable free_disk (asks (pos b))
asks-IsServable b h = record {
  action = inl refl;
  buffered = omega arith;
  low = omega arith;
  high = omega arith;
}

disk_scheduler-Served_example : Finishes (Served system two) (disk_scheduler env system)
disk_scheduler-Served_example =
    disk_scheduler-Served env system list (10, asks (pos 9)) ((20, asks (pos 3)) ∷ []) refl
      two-IsQueue (omega arith) free_disk-IsReady refl refl
      (asks-IsServable 9 (omega arith), (asks-IsServable 3 (omega arith), tt)) (λ n. refl)

finish_disk_task-Stopped_example : Finishes (Stopped system two) (finish_disk_task system)
finish_disk_task-Stopped_example =
    finish_disk_task-Stopped system list (10, asks (pos 9)) ((20, asks (pos 3)) ∷ []) refl
      two-IsQueue (omega arith)

-- The request for block 3 asks for block 30 instead, which the disk does not have.
abbrev beyond : Entries
beyond = (10, asks (pos 9)) ∷ (20, asks (pos 30)) ∷ []

abbrev beyond_system : System
beyond_system = record system {
  disk = record system.disk { i_curr_block = pos 25 };
  mem = record mem {
    cell =
        update (update (λ a. unused) 10 (live (node 0 20 (asks (pos 9))))) 20
          (live (node 10 0 (asks (pos 30))));
  };
}

beyond-IsQueue : IsQueue beyond_system.mem list beyond
unfolding update
beyond-IsQueue = record {
  chain = (refl, omega arith, (refl, omega arith, tt));
  first = refl;
  last = refl;
  size = refl;
  distinct = (refl, (refl, tt));
}

disk_scheduler-Takes_example :
    Finishes (Takes beyond_system beyond) (disk_scheduler env beyond_system)
disk_scheduler-Takes_example =
    disk_scheduler-Takes env beyond_system list (10, asks (pos 9)) ((20, asks (pos 30)) ∷ []) refl
      beyond-IsQueue (omega arith) free_disk-IsReady refl refl (inl refl, (inl refl, tt))
      (λ n. refl)
