-- ===== src/Manager/Dispatch.antt =====
-- diskScheduler: which request it serves, and how.
use ping_pong_so.Base.{List, ap, arith, if◌then◌else◌, inl, inr, refl, true, ◌+◌, ◌≡◌, ◌≢◌, ◌⊎◌}
use ping_pong_so.Base.Int.{
  abs, add_int, eq_ℤ, neg_part, neg_part-eq-zero, negsuc, pos, sub_int, to_int, ℤ, ◌<ℤ◌, ◌≤ℤ◌,
}
use ping_pong_so.Device.{
  Call, Env, Hardware, Outcome, Status, crashed, disk_cmd, idle, reading, returned, writing,
}
use ping_pong_so.Device.Commands.{Accepted, busy-IsReady, disk_cmd-accepts}
use ping_pong_so.Device.Invariant.{delay-IsReady}
use ping_pong_so.Device.Valid.{HasRequest, IsBlock, IsReady, Returns, Returns-map}
use ping_pong_so.Manager.{dispatch}
use ping_pong_so.Manager.State.{Disk, Finishes, M, System, next, return, run_device, sync, ◌>>◌}
use ping_pong_so.Requests.Memory.{
  Memory, Node, Ptr, Request, freed, load, null, ok, sem_up, treated_requests,
}
use ping_pong_so.Requests.Queue.{ne_null-false}

load-freed :
    (h : Memory) (p : Ptr) (n : Node)
    → h.cell p ≡ freed n
    → p ≢ null
    → load p h ≡ ok n (record h { stale = h.stale + 1 })
unfolding load
load-freed h p n e ne = rw (ne_null-false p ne, e)

-- The manager's variables after a request has been handed to the disk.
abbrev pub started : System → Request → Disk
started s r = record s.disk {
  starting_time = to_int (pos s.system_time);
  total_block_access =
      add_int s.disk.total_block_access (abs (sub_int r.block s.disk.i_curr_block));
  i_curr_block = r.block;
  buffer = r.buffer;
}

-- Four reads of the freed node, and the command.
abbrev pub handed : System → Request → System
handed s r = record s {
  disk = started s r;
  mem = record s.mem { stale = s.mem.stale + 1 + 1 + 1 + 1 };
}

-- What `dispatch` does with the answer of the disk.
abbrev pub answer : ℤ → M ℤ
answer r =
    if eq_ℤ r (pos 0) then return (pos 0) else do sync (sem_up treated_requests); return (negsuc 0)

pub dispatch-run :
    (e : Env) (p : Ptr) (n : Node) (s : System)
    → s.mem.cell p ≡ freed n
    → p ≢ null
    → dispatch e p s
      ≡ next
          (run_device
            (disk_cmd e n.request.task_action n.request.block n.request.buffer s.hw)
            (handed s n.request))
          answer
unfolding dispatch
dispatch-run e p n s c ne =
    let h1 : Memory = record s.mem { stale = s.mem.stale + 1 } in
    let h2 : Memory = record h1 { stale = h1.stale + 1 } in
    let h3 : Memory = record h2 { stale = h2.stale + 1 } in
    simp (
      load-freed s.mem p n c ne,
      load-freed h1 p n c ne,
      load-freed h2 p n c ne,
      load-freed h3 p n c ne,
    )

-- A request that the disk takes when it is idle.
pub record IsServable (d : Hardware) (r : Request) : Type 0 where
  pub action : (r.task_action ≡ pos 1) ⊎ (r.task_action ≡ pos 2)
  pub buffered : r.buffer ≢ 0
  pub low : pos 0 ≤ℤ r.block
  pub high : r.block <ℤ d.num_blocks

abbrev pub busy_with : ℤ → Status
busy_with a = if eq_ℤ a (pos 1) then reading else writing

-- The disk works on the request.
pub record IsBusyWith (d : Hardware) (r : Request) (g : Hardware) : Type 0 where
  pub status : g.status ≡ busy_with r.task_action
  pub block : g.next_block ≡ r.block
  pub buffer : g.buffer ≡ r.buffer
  pub head : g.prev_block ≡ d.prev_block
  pub blocks : g.num_blocks ≡ d.num_blocks
  pub ready : IsReady g

-- An accepted command leaves the disk at work on the request.
Accepted-IsBusyWith :
    (d : Hardware) (r : Request) (a : ℤ) (g : Hardware) (calls : List Call)
    → IsReady d
    → IsServable d r
    → HasRequest (busy_with r.task_action) r.buffer r.block d.num_blocks
    → Accepted d (busy_with r.task_action) r.block r.buffer a g calls
    → (a ≡ pos 0) × IsBusyWith d r g
Accepted-IsBusyWith d r a g calls ready fit pending (t, low, high, armed) =
    let nonneg : neg_part r.block ≡ 0 = neg_part-eq-zero r.block fit.low in
    let inside : IsBlock d r.block = (nonneg, omega (arith, nonneg, fit.high, ready.sized)) in
    (
      armed.0,
      rw armed.1 (record {
        status = refl;
        block = refl;
        buffer = refl;
        head = refl;
        blocks = refl;
        ready =
            delay-IsReady _ _
              (busy-IsReady (busy_with r.task_action) r.block r.buffer ready pending inside);
      }),
    )

pub disk_cmd-busy :
    (e : Env) (d : Hardware) (r : Request)
    → IsReady d
    → d.status ≡ idle
    → e.timer_set ≡ true
    → IsServable d r
    → Returns
        (λ a g _. (a ≡ pos 0) × IsBusyWith d r g)
        (disk_cmd e r.task_action r.block r.buffer d)
disk_cmd-busy e d r ready is set fit =
    let taken = disk_cmd-accepts e d r.block r.buffer ready is set fit.buffered fit.low fit.high in
    elim fit.action [
      | inl reads ↦
          Returns-map _ _ _
            (λ a g calls acc.
              Accepted-IsBusyWith d r a g calls ready fit (rw reads (fit.buffered, fit.high))
                (rw reads acc))
            (rw reads taken.0)
      | inr writes ↦
          Returns-map _ _ _
            (λ a g calls acc.
              Accepted-IsBusyWith d r a g calls ready fit (rw writes (fit.buffered, fit.high))
                (rw writes acc))
            (rw writes taken.1)
    ]

-- The outcome of serving the request `r`.
pub record Serves (s : System) (r : Request) (result : ℤ) (t : System) : Type 0 where
  pub accepted : result ≡ pos 0
  pub disk : t.disk ≡ started s r
  pub list : t.list ≡ s.list
  pub mem : t.mem ≡ record s.mem { stale = s.mem.stale + 4 }
  pub hw : IsBusyWith s.hw r t.hw

pub answer-Serves :
    (s : System) (r : Request) (o : Outcome ℤ)
    → Returns (λ a g _. (a ≡ pos 0) × IsBusyWith s.hw r g) o
    → Finishes (Serves s r) (next (run_device o (handed s r)) answer)
answer-Serves s r (returned a g calls) (zero_, busy) = rw zero_ (record {
  accepted = refl;
  disk = refl;
  list = refl;
  mem = ap (λ n. record s.mem { stale = n }) (omega arith);
  hw = busy;
})
answer-Serves s r (Outcome.exited calls) p = absurd p
answer-Serves s r crashed p = absurd p

pub dispatch-Serves :
    (e : Env) (p : Ptr) (n : Node) (s : System)
    → s.mem.cell p ≡ freed n
    → p ≢ null
    → IsReady s.hw
    → s.hw.status ≡ idle
    → e.timer_set ≡ true
    → IsServable s.hw n.request
    → Finishes (Serves s n.request) (dispatch e p s)
dispatch-Serves e p n s c ne ready is set fit =
    rw (dispatch-run e p n s c ne)
      (answer-Serves s n.request _ (disk_cmd-busy e s.hw n.request ready is set fit))
