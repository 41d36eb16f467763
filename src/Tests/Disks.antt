-- ===== src/Tests/Disks.antt =====
-- The disk of disk.c: a file of 16 blocks.
use ping_pong_so.Base.{[], arith, inr, refl, true, ℕ, ◌≡◌, ◌≤◌}
use ping_pong_so.Base.Int.{negsuc, pos}
use ping_pong_so.Device.{
  Env, Hardware, disk_cmd, disk_settimer, disk_sighandle, idle, reading, returned, unknown, writing,
}
use ping_pong_so.Device.Commands.{Accepted, disk_cmd-accepts, disk_cmd-refuses}
use ping_pong_so.Device.Invariant.{
  Completed, Opened, disk_cmd-IsReady, disk_cmd-opens, sighandle-Completed,
}
use ping_pong_so.Device.Timing.{Armed, settimer_bounds}
use ping_pong_so.Device.Valid.{IsReady, Returns}

abbrev pub env : Env
env = record {
  opened = pos 3;
  file_end = pos 1024;
  random = 123;
  timer_created = true;
  timer_set = true;
}

abbrev no_file : Env
no_file = record env { opened = negsuc 0 }

-- The disk before it is initialised.
abbrev pub blank : Hardware
blank = record {
  status = unknown;
  fd = pos 0;
  num_blocks = pos 0;
  block_size = pos 0;
  buffer = 0;
  prev_block = pos 0;
  next_block = pos 0;
  delay_min = pos 0;
  delay_max = pos 0;
  delay_sec = pos 0;
  delay_nsec = pos 0;
}

-- An idle disk with the head at block 2, and one that reads block 5.
abbrev pub free_disk : Hardware
free_disk = record {
  status = idle;
  fd = pos 3;
  num_blocks = pos 16;
  block_size = pos 64;
  buffer = 0;
  prev_block = pos 2;
  next_block = pos 2;
  delay_min = pos 30;
  delay_max = pos 300;
  delay_sec = pos 0;
  delay_nsec = pos 0;
}

abbrev pub busy_disk : Hardware
busy_disk = record free_disk { status = reading; buffer = 1000; next_block = pos 5 }

pub free_disk-IsReady : IsReady free_disk
free_disk-IsReady = record {
  sized = refl;
  small = omega arith;
  block_size = refl;
  delay_min = refl;
  delay_max = refl;
  prev = (refl, omega arith);
  next = (refl, omega arith);
  pending = tt;
}

pub busy_disk-IsReady : IsReady busy_disk
busy_disk-IsReady = record {
  sized = refl;
  small = omega arith;
  block_size = refl;
  delay_min = refl;
  delay_max = refl;
  prev = (refl, omega arith);
  next = (refl, omega arith);
  pending = (omega arith, omega arith);
}

settimer_bounds_example :
    (t : ℕ) × (30 ≤ t) × (t ≤ 325) × Returns (Armed t busy_disk) (disk_settimer env busy_disk)
settimer_bounds_example =
    settimer_bounds env busy_disk 5 2 16 refl busy_disk-IsReady refl refl refl (omega arith)

disk_cmd-accepts_example :
    Returns (Accepted free_disk reading (pos 5) 1000) (disk_cmd env (pos 1) (pos 5) 1000 free_disk)
    × Returns
        (Accepted free_disk writing (pos 5) 1000)
        (disk_cmd env (pos 2) (pos 5) 1000 free_disk)
disk_cmd-accepts_example =
    disk_cmd-accepts env free_disk (pos 5) 1000 free_disk-IsReady refl refl (omega arith)
      (omega arith) (omega arith)

-- A block beyond the end.
disk_cmd-refuses_example :
    (disk_cmd env (pos 1) (pos 16) 1000 free_disk ≡ returned (negsuc 0) free_disk [])
    × (disk_cmd env (pos 2) (pos 16) 1000 free_disk ≡ returned (negsuc 0) free_disk [])
disk_cmd-refuses_example =
    disk_cmd-refuses env free_disk (pos 16) 1000 (inr (inr (inr (omega arith))))

disk_cmd-opens_example : Returns (Opened env 1024) (disk_cmd env (pos 0) (pos 0) 0 blank)
disk_cmd-opens_example =
    disk_cmd-opens env blank (pos 0) 0 refl (omega arith) refl (omega arith) (omega arith)

disk_cmd-IsReady_example :
    Returns (λ _ g _. IsReady g) (disk_cmd env (pos 2) (pos 7) 1000 free_disk)
disk_cmd-IsReady_example =
    disk_cmd-IsReady env free_disk (pos 2) (pos 7) 1000 free_disk-IsReady refl

sighandle-Completed_example : Returns (Completed busy_disk) (disk_sighandle busy_disk)
sighandle-Completed_example = sighandle-Completed busy_disk busy_disk-IsReady (λ e. cc)
