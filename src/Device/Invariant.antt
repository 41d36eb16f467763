-- ===== src/Device/Invariant.antt =====
-- An initialised disk stays ready under every command and under the signal of its timer.
use ping_pong_so.Base.{
  List, [], ap₂, arith, false, if◌then◌else◌, inl, inr, refl, true, ℕ, ◌*◌, ◌/◌, ◌∙◌, ◌∷◌, ◌≡◌, ◌≢◌,
  ◌≤◌, ◌⊎◌,
}
use ping_pong_so.Base.Int.{
  div_ℤ, ltb_ℤ, ltb_ℤ-false, mul_int, mul_int-pos, neg_part, neg_part-eq-zero, pos, pos_of_nonneg,
  pos_part, to_int, to_int-id, ℤ, ◌<ℤ◌, ◌≤ℤ◌,
}
use ping_pong_so.Device.{
  Call, Command, Env, Hardware, Status, command, disk_cmd, disk_init, disk_open, disk_sighandle,
  exited, finish, idle, lseek_end, lseek_set, open_disk, raise_sigusr1, read_file, reading, request,
  run_command, sigaction_sigio, sighandle_in, timer_create, unknown, write_file, writing,
}
use ping_pong_so.Device.Commands.{
  Accepted, busy-IsReady, init-again, request-accepts, request-refused,
}
use ping_pong_so.Device.Valid.{HasRequest, IsReady, Returns, Returns-map, known, max_blocks}

-- The fields of the timer play no part in what is ready.
pub delay-IsReady :
    {d : Hardware} (sec nsec : ℤ)
    → IsReady d
    → IsReady (record d { delay_sec = sec; delay_nsec = nsec })
delay-IsReady sec nsec r = record {
  sized = r.sized;
  small = r.small;
  block_size = r.block_size;
  delay_min = r.delay_min;
  delay_max = r.delay_max;
  prev = r.prev;
  next = r.next;
  pending = r.pending;
}

module _ (e : Env) (d : Hardware) (r : IsReady d) (set : e.timer_set ≡ true) where
  accepted-IsReady :
      (busy : Status) (block : ℤ) (buffer : ℕ)
      → d.status ≡ idle
      → buffer ≢ 0
      → pos 0 ≤ℤ block
      → block <ℤ d.num_blocks
      → HasRequest busy buffer block d.num_blocks
      → Returns (λ _ g _. IsReady g) (request e busy block buffer d)
  accepted-IsReady busy block buffer is hb low high pending =
      let nonneg : neg_part block ≡ 0 = neg_part-eq-zero block low in
      let ready =
        busy-IsReady busy block buffer r pending (nonneg, omega (arith, nonneg, r.sized)) in
      Returns-map (Accepted d busy block buffer) _ (request e busy block buffer d)
        (λ a g calls (t, less, more, armed). rw armed.1 (delay-IsReady _ _ ready))
        (request-accepts e d busy block buffer r is set hb low high pending)

  refused-IsReady :
      (busy : Status) (block : ℤ) (buffer : ℕ)
      → (d.status ≢ idle) ⊎ (buffer ≡ 0) ⊎ (block <ℤ pos 0) ⊎ (d.num_blocks ≤ℤ block)
      → Returns (λ _ g _. IsReady g) (request e busy block buffer d)
  refused-IsReady busy block buffer bad = rw (request-refused e d busy block buffer bad) r

  -- Either the four guards hold or one of them fails.
  guards :
      (block : ℤ) (buffer : ℕ)
      → ((d.status ≡ idle) × (buffer ≢ 0) × (pos 0 ≤ℤ block) × (block <ℤ d.num_blocks))
        ⊎ (d.status ≢ idle)
        ⊎ (buffer ≡ 0)
        ⊎ (block <ℤ pos 0)
        ⊎ (d.num_blocks ≤ℤ block)
  guards block buffer = ground arith

  request-IsReady :
      (busy : Status) (block : ℤ) (buffer : ℕ)
      → (buffer ≢ 0 → block <ℤ d.num_blocks → HasRequest busy buffer block d.num_blocks)
      → Returns (λ _ g _. IsReady g) (request e busy block buffer d)
  request-IsReady busy block buffer pending = elim (guards block buffer) [
    | inl (is, hb, low, high) ↦ accepted-IsReady busy block buffer is hb low high (pending hb high)
    | inr bad ↦ refused-IsReady busy block buffer bad
  ]

  run_command-IsReady :
      (c : Command) (block : ℤ) (buffer : ℕ)
      → Returns (λ _ g _. IsReady g) (run_command e c block buffer d)
  unfolding run_command
  run_command-IsReady Command.read block buffer =
      request-IsReady reading block buffer (λ hb h. (hb, h))
  run_command-IsReady Command.write block buffer =
      request-IsReady writing block buffer (λ hb h. (hb, h))
  run_command-IsReady Command.init block buffer =
      rw (init-again e d (known d.status _ _ _ r.pending)) r
  run_command-IsReady _ block buffer = r

-- Every command given to a ready disk returns, whatever its number and its arguments, and leaves
-- the disk ready, provided that the timer works.
pub disk_cmd-IsReady :
    (e : Env) (d : Hardware) (cmd block : ℤ) (buffer : ℕ)
    → IsReady d
    → e.timer_set ≡ true
    → Returns (λ _ g _. IsReady g) (disk_cmd e cmd block buffer d)
unfolding disk_cmd
disk_cmd-IsReady e d cmd block buffer r set =
    run_command-IsReady e d r set (command cmd) block buffer

-- The outcome of a successful initialisation.
pub record Opened (e : Env) (n : ℕ) (r : ℤ) (d : Hardware) (calls : List Call) : Type 0 where
  pub result : r ≡ pos 0
  pub is_idle : d.status ≡ Status.idle
  pub fd : d.fd ≡ e.opened
  pub blocks : d.num_blocks ≡ pos (n / 64)
  pub head : d.prev_block ≡ pos 0
  pub ready : IsReady d
  pub traced : calls ≡ open_disk ∷ lseek_end e.opened ∷ sigaction_sigio ∷ timer_create ∷ []

-- Initialising an uninitialised disk of `n` bytes, whose file opens and whose timer is created,
-- gives a ready idle disk of `n / 64` blocks with the head at block 0. The number of blocks must
-- be small enough for the seek times to be computed without overflow.
pub disk_cmd-opens :
    (e : Env) (d : Hardware) (block : ℤ) (buffer : ℕ)
    → d.status ≡ unknown
    → pos 0 ≤ℤ e.opened
    → e.timer_created ≡ true
    → pos 0 ≤ℤ e.file_end
    → pos_part e.file_end / 64 ≤ max_blocks
    → Returns (Opened e (pos_part e.file_end)) (disk_cmd e (pos 0) block buffer d)
unfolding disk_cmd disk_init disk_open
disk_cmd-opens e d block buffer is opened created size small =
    rw (is, ltb_ℤ-false e.opened (pos 0) opened, created)
      (record {
        result = refl;
        is_idle = refl;
        fd = refl;
        blocks = blocks;
        head = refl;
        ready = record {
          sized = rw blocks refl;
          small = rw blocks small;
          block_size = refl;
          delay_min = refl;
          delay_max = refl;
          prev = (refl, omega arith);
          next = (refl, omega arith);
          pending = tt;
        };
        traced = refl;
      })
  where
    blocks : to_int (div_ℤ e.file_end (pos 64)) ≡ pos (pos_part e.file_end / 64)
    blocks =
        rw (pos_of_nonneg e.file_end (neg_part-eq-zero e.file_end size))
          (to_int-id _ (omega arith, omega arith))

-- Where the file does not open, or the timer is not created, initialising an uninitialised disk
-- ends the process, and no timer is set.
pub disk_cmd-exits :
    (e : Env) (d : Hardware) (block : ℤ) (buffer : ℕ)
    → d.status ≡ unknown
    → (e.opened <ℤ pos 0) ⊎ (e.timer_created ≡ false)
    → (calls : List Call) × (disk_cmd e (pos 0) block buffer d ≡ exited (open_disk ∷ calls))
unfolding disk_cmd disk_init disk_open
disk_cmd-exits e d block buffer is (inl closed) = ([], ground arith)
disk_cmd-exits e d block buffer is (inr failed) = (rest, ground arith)
  where
    rest : List Call
    rest =
        if ltb_ℤ e.opened (pos 0)
        then []
        else lseek_end e.opened ∷ sigaction_sigio ∷ timer_create ∷ []

-- The system call that moves the block of a pending operation.
abbrev pub moved : Status → ℤ → ℕ → Call
moved reading fd buffer = read_file fd buffer (pos 64)
moved _ fd buffer = write_file fd buffer (pos 64)

-- The outcome of a signal: one block is moved, and the disk is free again with the head there.
pub record Completed (d : Hardware) (r : Unit {0}) (g : Hardware) (calls : List Call) : Type 0 where
  pub is_idle : g.status ≡ Status.idle
  pub head : g.prev_block ≡ d.next_block
  pub ready : IsReady g
  pub blocks : g.num_blocks ≡ d.num_blocks
  pub fd : g.fd ≡ d.fd
  pub traced :
      calls
      ≡ lseek_set d.fd (pos (pos_part d.next_block * 64))
        ∷ moved d.status d.fd d.buffer
        ∷ raise_sigusr1
        ∷ []

finish-IsReady : (d : Hardware) → IsReady d → IsReady (finish d)
finish-IsReady d r = record {
  sized = r.sized;
  small = r.small;
  block_size = r.block_size;
  delay_min = r.delay_min;
  delay_max = r.delay_max;
  prev = r.next;
  next = r.next;
  pending = tt;
}

-- The byte position of a block of a ready disk does not overflow.
position :
    (d : Hardware)
    → IsReady d
    → mul_int d.next_block d.block_size ≡ pos (pos_part d.next_block * 64)
position d r =
    ap₂ mul_int (pos_of_nonneg d.next_block r.next.0) r.block_size
    ∙ mul_int-pos (pos_part d.next_block) 64 (omega (arith, r.next, r.small))

sighandle_in-Completed :
    (s : Status) (d : Hardware)
    → d.status ≡ s
    → IsReady d
    → s ≢ unknown
    → s ≢ idle
    → Returns (Completed d) (sighandle_in s d)
unfolding sighandle_in
sighandle_in-Completed unknown d e r known busy = absurd (known refl)
sighandle_in-Completed idle d e r known busy = absurd (busy refl)
sighandle_in-Completed reading d e r known busy = record {
  is_idle = refl;
  head = refl;
  ready = finish-IsReady d r;
  blocks = refl;
  fd = refl;
  traced = rw (position d r, r.block_size, e);
}
sighandle_in-Completed writing d e r known busy = record {
  is_idle = refl;
  head = refl;
  ready = finish-IsReady d r;
  blocks = refl;
  fd = refl;
  traced = rw (position d r, r.block_size, e);
}

-- When the timer of a ready disk with a pending operation fires, the handler moves the block of
-- that operation to or from its buffer at the byte position 64 times its number, and then raises
-- SIGUSR1. It leaves the disk idle and ready, with its head at that block.
pub sighandle-Completed :
    (d : Hardware) → IsReady d → d.status ≢ idle → Returns (Completed d) (disk_sighandle d)
unfolding disk_sighandle
sighandle-Completed d r busy =
    sighandle_in-Completed d.status d refl r (known d.status _ _ _ r.pending) busy
