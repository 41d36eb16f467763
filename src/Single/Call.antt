-- ===== src/Single/Call.antt =====
-- One call of disk_block_read or disk_block_write that no other task interferes with.
use ping_pong_so.Base.{
  List, [], ap, append-nil, append_assoc, arith, false, if◌then◌else◌, refl, some, subst, sym, ◌++◌,
  ◌∙◌, ◌∷◌, ◌≡◌, ◌≢◌,
}
use ping_pong_so.Base.Int.{pos, ℤ}
use ping_pong_so.Device.{
  Call, Env, Hardware, Outcome, Status, disk_cmd, disk_sighandle, is_status, returned,
}
use ping_pong_so.Device.Valid.{IsReady}
use ping_pong_so.Manager.{disk_interrupt, disk_scheduler, mem_action_finished}
use ping_pong_so.Manager.State.{M, Result, System, done, get, next, return, run_device, ◌>>=◌, ◌>>◌}
use ping_pong_so.Manager.Takes.{requeue_cells}
use ping_pong_so.Protocol.{ask, disk_segment, enqueue, segment, served, signalled}
use ping_pong_so.Protocol.Entering.{enqueue-run}
use ping_pong_so.Requests.{RequestList, add_node_in_front}
use ping_pong_so.Requests.Append.{add_node_in_front-snoc}
use ping_pong_so.Requests.Memory.{
  Ends-inv, Memory, Node, Ptr, Request, SyncCall, is_live, mutex_lock, mutex_unlock, new_requests,
  null, queue_mutex, request_mutex, sem_down, sem_up, treated_requests,
}
use ping_pong_so.Requests.Queue.{IsQueue}
use ping_pong_so.Single.{disk_block_call}
use ping_pong_so.Single.Begin.{Begun, begins-Begun}

-- The manager between two calls.
pub record IsResting (s : System) : Type 0 where
  pub list : RequestList
  pub there : s.list ≡ some list
  pub queue : IsQueue s.mem list []
  pub no_nodes : (a : Ptr) → is_live (s.mem.cell a) ≡ false
  pub ready : IsReady s.hw
  pub is_idle : s.hw.status ≡ Status.idle
  pub keeps : (m : Node) → (s.mem.residue m).request ≡ m.request

-- A command that the disk accepts, and the handler's run that ends it.
pub record Transfers (e : Env) (r : Request) (d : Hardware) (g : Hardware) : Type 0 where
  pub busy : Hardware
  pub armed : List Call
  pub moved : List Call
  pub begins : disk_cmd e r.task_action r.block r.buffer d ≡ returned (pos 0) busy armed
  pub works : busy.status ≢ Status.idle
  pub ends : disk_sighandle busy ≡ returned tt g moved

-- The calls of the task library that a call makes, the last one first.
abbrev pub call_sequence : List SyncCall
call_sequence =
    mutex_unlock request_mutex
    ∷ sem_down treated_requests
    ∷ sem_up treated_requests
    ∷ sem_down new_requests
    ∷ sem_up new_requests
    ∷ mutex_lock request_mutex
    ∷ mutex_unlock queue_mutex
    ∷ mutex_lock queue_mutex
    ∷ []

-- What a call leaves behind.
pub record Called (s : System) (g : Hardware) (calls : List Call) (t : System) : Type 0 where
  pub list : RequestList
  pub there : t.list ≡ some list
  pub queue : IsQueue t.mem list []
  pub no_nodes : (a : Ptr) → is_live (t.mem.cell a) ≡ false
  pub residue : t.mem.residue ≡ s.mem.residue
  pub sync_calls : t.mem.calls ≡ call_sequence ++ s.mem.calls
  pub hw : t.hw ≡ g
  pub io : t.io ≡ s.io ++ calls

-- The rest of the call from the outcome of the disk's handler.
abbrev rest : M ℤ
rest = do segment signalled; segment served; return (pos 0)

abbrev closing : M ℤ
closing = do disk_interrupt; rest

is_status-other : (a : Status) → a ≢ Status.idle → is_status a Status.idle ≡ false
is_status-other a ne = ground arith

module _ (u : System) where
  abbrev closing_from : Outcome (Unit {0}) → Result ℤ
  closing_from o = next (next (run_device o u) (λ _. mem_action_finished)) (λ _. rest)

  module _ (g : Hardware) (calls : List Call) where
    closed :
        (t : System) × (closing_from (returned tt g calls) ≡ done (pos 0) t)
        × (t.list ≡ u.list)
        × (t.mem.cell ≡ u.mem.cell)
        × (t.mem.residue ≡ u.mem.residue)
        × (t.mem.calls
            ≡ mutex_unlock request_mutex
              ∷ sem_down treated_requests
              ∷ sem_up treated_requests
              ∷ u.mem.calls)
        × (t.hw ≡ g)
        × (t.io ≡ u.io ++ calls)
    unfolding mem_action_finished segment
    closed = (_, refl, refl, refl, refl, refl, refl, refl)

module _ (e : Env) (s : System) (v : IsResting s) (fresh : Ptr) (action block : ℤ) (buffer : Ptr)
    (ne : fresh ≢ null) where
  abbrev req : Request
  req = ask action block buffer s

  -- The state in which the disk task runs.
  abbrev announced : RequestList → Memory → System
  announced l h = record s {
    list = some l;
    mem = record h {
      calls = sem_down new_requests ∷ sem_up new_requests ∷ mutex_lock request_mutex ∷ h.calls;
    };
  }

  -- What follows once the disk task has run.
  abbrev later : Result ℤ → Result ℤ
  later r = next (next r (λ _. return tt)) (λ _. do
    t ← get
    if is_status t.hw.status Status.idle then return tt else disk_interrupt
    rest)

  call-later :
      (l : RequestList) (h : Memory)
      → enqueue fresh action block buffer s ≡ done tt (record s { list = some l; mem = h })
      → disk_block_call e fresh action block buffer s ≡ later (disk_scheduler e (announced l h))
  unfolding disk_block_call segment disk_segment
  call-later l h run = rw run refl

  still_busy :
      (u : System)
      → u.hw.status ≢ Status.idle
      → later (done (pos 0) u) ≡ closing_from u (disk_sighandle u.hw)
  unfolding disk_interrupt
  still_busy u busy = rw (is_status-other u.hw.status busy) refl

  module _ (g : Hardware) (moves : Transfers e req s.hw g) where
    abbrev Treats : Result ℤ → Type 0
    Treats r = (t : System) × (r ≡ done (pos 0) t) × Called s g (moves.armed ++ moves.moved) t

    -- The disk is busy once the disk task waits again.
    later-closing :
        (l : RequestList) (h : Memory)
        → h.residue ≡ s.mem.residue
        → h.calls ≡ mutex_unlock queue_mutex ∷ mutex_lock queue_mutex ∷ s.mem.calls
        → Begun e (announced l h) moves.busy moves.armed
        → Treats (later (disk_scheduler e (announced l h)))
    later-closing l h same made b =
        let (t, runs, list, cells, residue, calls, hw, io) = closed b.state g moves.moved in
        (
          t,
          ap later b.runs
              ∙ still_busy b.state (λ idle_. moves.works (sym (ap (λ d. d.status) b.hw) ∙ idle_))
              ∙ ap (closing_from b.state) (ap disk_sighandle b.hw ∙ moves.ends)
              ∙ runs,
          record {
            list = b.left;
            there = list ∙ b.list;
            queue = requeue_cells cells b.queue;
            no_nodes = λ a. ap (λ f. is_live (f a)) cells ∙ b.no_nodes a;
            residue = residue ∙ b.residue ∙ same;
            sync_calls =
                calls
                ∙ ap
                    (λ cs.
                      mutex_unlock request_mutex
                      ∷ sem_down treated_requests
                      ∷ sem_up treated_requests
                      ∷ cs)
                    b.calls_
                ∙ ap
                    (λ cs.
                      mutex_unlock request_mutex
                      ∷ sem_down treated_requests
                      ∷ sem_up treated_requests
                      ∷ sem_down new_requests
                      ∷ sem_up new_requests
                      ∷ mutex_lock request_mutex
                      ∷ cs)
                    made;
            hw = hw;
            io =
                io
                ∙ ap (λ cs. cs ++ moves.moved)
                    (b.io ∙ ap (λ cs. cs ++ moves.armed) (append-nil s.io))
                ∙ append_assoc s.io moves.armed moves.moved;
          },
        )

    pub call-Called : Treats (disk_block_call e fresh action block buffer s)
    call-Called =
        let (o, h, run, (l, is, queue, same, stale, residue, calls)) =
          Ends-inv _ (add_node_in_front fresh (some v.list) req s.mem) (
            add_node_in_front-snoc s.mem fresh v.list req [] v.queue ne (v.no_nodes fresh)
              (omega arith)) in
        let begun_by =
          begins-Begun e (announced l h) l fresh req refl (requeue_cells refl queue) v.is_idle
            (λ m. ap (λ (f : Node → Node). (f m).request) residue ∙ v.keeps m)
            (λ a ne. ap is_live (same a ne refl) ∙ v.no_nodes a) moves.busy moves.armed
            moves.begins in
        subst Treats
          (sym
            (call-later l h (enqueue-run s v.list fresh action block buffer l o h v.there run is)))
          (later-closing l h residue calls begun_by)
