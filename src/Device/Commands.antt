-- ===== src/Device/Commands.antt =====
-- What each command of `disk_cmd` does, in every state of the disk.
use ping_pong_so.Base.{List, [], arith, refl, true, ℕ, ◌≡◌, ◌≢◌, ◌≤◌, ◌⊎◌}
use ping_pong_so.Base.Int.{
  neg_part, neg_part-eq-zero, negsuc, pos, pos_of_nonneg, pos_part, ℤ, ◌<ℤ◌, ◌≤ℤ◌,
}
use ping_pong_so.Device.{
  Call, Env, Hardware, Status, command, disk_cmd, disk_init, disk_settimer, idle, reading, request,
  returned, run_command, status_code, unknown, writing,
}
use ping_pong_so.Device.Timing.{Armed, settimer_bounds}
use ping_pong_so.Device.Valid.{HasRequest, IsBlock, IsReady, Returns, Returns-map}

-- An accepted request: the disk is busy with it, and the timer is set.
abbrev pub Accepted : Hardware → Status → ℤ → ℕ → ℤ → Hardware → List Call → Type 0
Accepted d busy block buffer r d' calls =
    (time : ℕ) × (30 ≤ time)
    × (time ≤ 325)
    × Armed time (record d { buffer = buffer; next_block = block; status = busy }) r d' calls

-- With a pending block of the disk and a buffer, a ready disk stays ready when it becomes busy.
pub busy-IsReady :
    {d : Hardware} (busy : Status) (block : ℤ) (buffer : ℕ)
    → IsReady d
    → HasRequest busy buffer block d.num_blocks
    → IsBlock d block
    → IsReady (record d { buffer = buffer; next_block = block; status = busy })
busy-IsReady busy block buffer r p b = record {
  sized = r.sized;
  small = r.small;
  block_size = r.block_size;
  delay_min = r.delay_min;
  delay_max = r.delay_max;
  prev = r.prev;
  next = b;
  pending = p;
}

-- A request that passes the guards goes on to set the timer.
request-guarded :
    (e : Env) (d : Hardware) (busy : Status) (block : ℤ) (buffer : ℕ)
    → d.status ≡ idle
    → buffer ≢ 0
    → pos 0 ≤ℤ block
    → block <ℤ d.num_blocks
    → request e busy block buffer d
      ≡ disk_settimer e (record d { buffer = buffer; next_block = block; status = busy })
unfolding request
request-guarded e d busy block buffer is hb low high = ground arith

pub request-accepts :
    (e : Env) (d : Hardware) (busy : Status) (block : ℤ) (buffer : ℕ)
    → IsReady d
    → d.status ≡ idle
    → e.timer_set ≡ true
    → buffer ≢ 0
    → pos 0 ≤ℤ block
    → block <ℤ d.num_blocks
    → HasRequest busy buffer block d.num_blocks
    → Returns (Accepted d busy block buffer) (request e busy block buffer d)
request-accepts e d busy block buffer r is set hb low high pending =
    let nonneg : neg_part block ≡ 0 = neg_part-eq-zero block low in
    let d' : Hardware = record d { buffer = buffer; next_block = block; status = busy } in
    let (t, less, more, armed) =
      settimer_bounds e d' (pos_part block) (pos_part d.prev_block) (pos_part d.num_blocks) set
        (busy-IsReady busy block buffer r pending (omega arith, omega arith))
        (pos_of_nonneg block (omega arith)) (pos_of_nonneg d.prev_block r.prev.0)
        (pos_of_nonneg d.num_blocks r.sized) (omega (arith, r.sized)) in
    rw (request-guarded e d busy block buffer is hb low high)
      (Returns-map (Armed t d') _ (disk_settimer e d') (λ a g calls h. (t, less, more, h)) armed)

-- An idle disk takes a request to read or to write a block of the disk into or from a buffer: it
-- is busy with that request and no other field changes but the timer's, and the timer is set for
-- 30 to 325 ms. The disk must be ready and the timer must work.
pub disk_cmd-accepts :
    (e : Env) (d : Hardware) (block : ℤ) (buffer : ℕ)
    → IsReady d
    → d.status ≡ idle
    → e.timer_set ≡ true
    → buffer ≢ 0
    → pos 0 ≤ℤ block
    → block <ℤ d.num_blocks
    → Returns (Accepted d reading block buffer) (disk_cmd e (pos 1) block buffer d)
      × Returns (Accepted d writing block buffer) (disk_cmd e (pos 2) block buffer d)
unfolding disk_cmd
disk_cmd-accepts e d block buffer r is set hb low high = (
  request-accepts e d reading block buffer r is set hb low high (hb, high),
  request-accepts e d writing block buffer r is set hb low high (hb, high),
)

pub request-refused :
    (e : Env) (d : Hardware) (busy : Status) (block : ℤ) (buffer : ℕ)
    → (d.status ≢ idle) ⊎ (buffer ≡ 0) ⊎ (block <ℤ pos 0) ⊎ (d.num_blocks ≤ℤ block)
    → request e busy block buffer d ≡ returned (negsuc 0) d []
unfolding request
request-refused e d busy block buffer bad = ground arith

-- A request that meets a disk that is not idle, a null buffer or a block outside the disk gets -1,
-- makes no system call and changes nothing.
pub disk_cmd-refuses :
    (e : Env) (d : Hardware) (block : ℤ) (buffer : ℕ)
    → (d.status ≢ idle) ⊎ (buffer ≡ 0) ⊎ (block <ℤ pos 0) ⊎ (d.num_blocks ≤ℤ block)
    → (disk_cmd e (pos 1) block buffer d ≡ returned (negsuc 0) d [])
      × (disk_cmd e (pos 2) block buffer d ≡ returned (negsuc 0) d [])
unfolding disk_cmd
disk_cmd-refuses e d block buffer bad =
    (request-refused e d reading block buffer bad, request-refused e d writing block buffer bad)

-- Before initialisation every number but those of the commands to initialise and to report the
-- status gets -1, makes no system call and changes nothing.
pub disk_cmd-unready :
    (e : Env) (d : Hardware) (cmd block : ℤ) (buffer : ℕ)
    → d.status ≡ unknown
    → cmd ≢ pos 0
    → cmd ≢ pos 3
    → disk_cmd e cmd block buffer d ≡ returned (negsuc 0) d []
unfolding disk_cmd request command run_command
disk_cmd-unready e d (negsuc n) block buffer is not_init not_status = refl
disk_cmd-unready e d (pos n) block buffer is not_init not_status = ground arith

pub init-again :
    (e : Env) (d : Hardware) → d.status ≢ unknown → disk_init e d ≡ returned (negsuc 0) d []
unfolding disk_init
init-again e d ready = ground arith

-- After initialisation the queries answer from the state, change nothing and make no system call,
-- and so does a second command to initialise, which gets -1.
pub disk_cmd-query :
    (e : Env) (d : Hardware) (block : ℤ) (buffer : ℕ)
    → d.status ≢ unknown
    → (disk_cmd e (pos 0) block buffer d ≡ returned (negsuc 0) d [])
      × (disk_cmd e (pos 3) block buffer d ≡ returned (status_code d.status) d [])
      × (disk_cmd e (pos 4) block buffer d ≡ returned d.num_blocks d [])
      × (disk_cmd e (pos 5) block buffer d ≡ returned d.block_size d [])
      × (disk_cmd e (pos 6) block buffer d ≡ returned d.delay_min d [])
      × (disk_cmd e (pos 7) block buffer d ≡ returned d.delay_max d [])
unfolding disk_cmd disk_init
disk_cmd-query e d block buffer ready = ground arith
