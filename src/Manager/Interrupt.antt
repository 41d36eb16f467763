-- ===== src/Manager/Interrupt.antt =====
-- memActionFinished, after the handler of the disk's timer.
use ping_pong_so.Base.{refl, ◌∷◌, ◌≡◌, ◌≢◌}
use ping_pong_so.Base.Int.{add_int, pos, sub_int, to_short}
use ping_pong_so.Device.{Status, disk_sighandle}
use ping_pong_so.Device.Invariant.{Completed, sighandle-Completed}
use ping_pong_so.Device.Valid.{IsReady, Returns-inv}
use ping_pong_so.Manager.{disk_interrupt, mem_action_finished}
use ping_pong_so.Manager.State.{Finishes, System}
use ping_pong_so.Requests.Memory.{sem_up, treated_requests}

-- The outcome of the interrupt that ends an operation.
pub record Ended (s t : System) : Type 0 where
  pub is_idle : t.hw.status ≡ Status.idle
  pub ready : IsReady t.hw
  pub head : t.hw.prev_block ≡ s.hw.next_block
  pub list : t.list ≡ s.list
  pub cells : t.mem.cell ≡ s.mem.cell
  pub residue : t.mem.residue ≡ s.mem.residue
  pub calls : t.mem.calls ≡ sem_up treated_requests ∷ s.mem.calls
  pub disk : t.disk ≡ record s.disk {
    package_sync = to_short (add_int s.disk.package_sync (pos 1));
    exec_time = add_int s.disk.exec_time (sub_int (pos s.system_time) s.disk.starting_time);
  }

-- When the timer of a ready disk at work fires, the two handlers end without a fault: the disk is
-- idle and ready with its head at the block of the operation, the semaphore of treated requests has
-- been raised once, the time since the operation began is added to the manager's, and the list is
-- as before.
pub disk_interrupt-Ended :
    (s : System)
    → IsReady s.hw
    → s.hw.status ≢ Status.idle
    → Finishes (λ _ t. Ended s t) (disk_interrupt s)
unfolding disk_interrupt mem_action_finished
disk_interrupt-Ended s ready busy =
    let (u, d, calls, run, comp) =
      Returns-inv (Completed s.hw) (disk_sighandle s.hw) (sighandle-Completed s.hw ready busy) in
    rw run (record {
      is_idle = comp.is_idle;
      ready = comp.ready;
      head = comp.head;
      list = refl;
      cells = refl;
      residue = refl;
      calls = refl;
      disk = refl;
    })
