-- ===== src/Manager/Startup.antt =====
-- disk_mgr_init on a disk that has not been initialised.
use ping_pong_so.Base.{
  List, [], ap, append-nil, arith, false, refl, some, sym, true, ℕ, ◌++◌, ◌/◌, ◌∙◌, ◌∷◌, ◌≡◌, ◌≤◌,
}
use ping_pong_so.Base.Int.{ltb_ℤ, ltb_ℤ-false, pos, pos_part, ℤ, ◌≤ℤ◌}
use ping_pong_so.Device.{
  Call, Env, Status, disk_cmd, lseek_end, open_disk, returned, sigaction_sigio, timer_create,
  unknown,
}
use ping_pong_so.Device.Commands.{disk_cmd-query}
use ping_pong_so.Device.Invariant.{Opened, disk_cmd-opens}
use ping_pong_so.Device.Valid.{IsReady, Returns-inv, max_blocks}
use ping_pong_so.Manager.{disk_mgr_init, read_sizes, set_up}
use ping_pong_so.Manager.State.{Finishes, System}
use ping_pong_so.Requests.{create_list, empty_list}
use ping_pong_so.Requests.Memory.{
  SyncCall, mutex_create, new_requests, queue_mutex, request_mutex, sem_create, task_create,
  task_setprio, treated_requests,
}

-- The calls of `disk_mgr_init`, the last one first.
abbrev pub startup_calls : List SyncCall
startup_calls =
    task_setprio (pos 0)
    ∷ task_create
    ∷ sem_create new_requests (pos 0)
    ∷ sem_create treated_requests (pos 0)
    ∷ mutex_create queue_mutex
    ∷ mutex_create request_mutex
    ∷ []

-- The system calls of `disk_mgr_init`, where `fd` is the file's descriptor.
abbrev pub opening_calls : ℤ → List Call
opening_calls fd = open_disk ∷ lseek_end fd ∷ sigaction_sigio ∷ timer_create ∷ []

-- The outcome of `disk_mgr_init` for a file of `n` bytes.
pub record Started (n : ℕ) (s : System) (a : ℤ) (t : System) : Type 0 where
  pub result : a ≡ pos 0
  pub list : t.list ≡ some empty_list
  pub is_idle : t.hw.status ≡ Status.idle
  pub ready : IsReady t.hw
  pub init : t.disk.init ≡ true
  pub size : t.disk.size ≡ pos (n / 64)
  pub block_size : t.disk.i_block_size ≡ pos 64
  pub blocks : t.hw.num_blocks ≡ pos (n / 64)
  pub traced : t.io ≡ s.io ++ opening_calls t.hw.fd
  pub cells : t.mem.cell ≡ s.mem.cell
  pub residue : t.mem.residue ≡ s.mem.residue
  pub calls : t.mem.calls ≡ startup_calls ++ s.mem.calls

-- The state once the sizes have been read.
abbrev sized : System → ℕ → System
sized s k = record s {
  disk = record s.disk { size = pos k; i_block_size = pos 64 };
  io = (s.io ++ []) ++ [];
}

read_sizes-run :
    (e : Env) (s : System) (k : ℕ)
    → disk_cmd e (pos 4) (pos 0) 0 s.hw ≡ returned (pos k) s.hw []
    → disk_cmd e (pos 5) (pos 0) 0 s.hw ≡ returned (pos 64) s.hw []
    → read_sizes e true true s ≡ set_up true true (sized s k)
unfolding read_sizes
read_sizes-run e s k blocks per_block =
    let nonneg : ltb_ℤ (pos k) (pos 0) ≡ false = ltb_ℤ-false (pos k) (pos 0) (omega arith) in
    rw (blocks, nonneg) (rw per_block refl)

set_up-Started :
    (n : ℕ) (s t : System)
    → t.hw.status ≡ Status.idle
    → IsReady t.hw
    → t.hw.num_blocks ≡ pos (n / 64)
    → t.io ≡ s.io ++ opening_calls t.hw.fd
    → t.mem ≡ s.mem
    → Finishes (Started n s) (set_up true true (sized t (n / 64)))
unfolding set_up create_list
set_up-Started n s t is ready blocks traced same = record {
  result = refl;
  list = refl;
  is_idle = is;
  ready = ready;
  init = refl;
  size = refl;
  block_size = refl;
  blocks = blocks;
  traced = append-nil (t.io ++ []) ∙ append-nil t.io ∙ traced;
  cells = ap (λ h. h.cell) same;
  residue = ap (λ h. h.residue) same;
  calls = ap (λ h. startup_calls ++ h.calls) same;
}

-- `disk_mgr_init` on an uninitialised disk of a file of `n` bytes, where the file opens, the timer
-- is created, the number of blocks is small enough, the signal's handler is installed and there is
-- room for the list, ends with result 0. The disk is ready and idle, the list is empty, the
-- manager knows the number of blocks `n / 64` and their size 64, and the two mutexes, the two
-- semaphores with value 0 and the disk task have been created in this order.
pub disk_mgr_init-Started :
    (e : Env) (s : System)
    → s.hw.status ≡ unknown
    → pos 0 ≤ℤ e.opened
    → e.timer_created ≡ true
    → pos 0 ≤ℤ e.file_end
    → pos_part e.file_end / 64 ≤ max_blocks
    → Finishes (Started (pos_part e.file_end) s) (disk_mgr_init e true true s)
unfolding disk_mgr_init
disk_mgr_init-Started e s is opens created size small =
    let n = pos_part e.file_end in
    let (a, d, calls, run, o) =
      Returns-inv (Opened e n) (disk_cmd e (pos 0) (pos 0) 0 s.hw)
        (disk_cmd-opens e s.hw (pos 0) 0 is opens created size small) in
    let q = disk_cmd-query e d (pos 0) 0 (λ no. cc (no, o.is_idle)) in
    let s1 : System = record s { hw = d; io = s.io ++ calls } in
    let init_run : disk_mgr_init e true true s ≡ read_sizes e true true s1 =
      rw (run, o.result) refl in
    rw
      (init_run
        ∙ read_sizes-run e s1 (n / 64) (q.2 ∙ ap (λ b. returned b d []) o.blocks)
            (q.3 ∙ ap (λ b. returned b d []) o.ready.block_size))
      (set_up-Started n s s1 o.is_idle o.ready o.blocks
        (ap (λ cs. s.io ++ cs) (o.traced ∙ ap opening_calls (sym o.fd))) refl)
