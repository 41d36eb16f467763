-- ===== src/Movers.antt =====
-- pingpong-disco2.c: sixteen tasks that swap the blocks of the first half of the disk with those of
-- the second half, two at a time. What they ask of the disk is modelled, whatever the disk does.
pub mod Ranges
pub mod Fits
pub mod Keeps
pub mod Result
use ping_pong_so.Base.{List, Option, [], none, some, suc, zero, ℕ, ◌++◌, ◌<◌, ◌∷◌, ◌≡◌}
use ping_pong_so.Base.Int.{add_int, div_int, mul_int, pos, pos_part, sub_int, ℤ}
use ping_pong_so.Totals.{with_pc}

abbrev pub num_movers : ℕ
num_movers = 16

-- `blocksPerTask`, and the blocks with which mover `m` begins.
unfoldable pub per_task : ℤ → ℤ
per_task blocks = div_int (div_int blocks (pos num_movers)) (pos 2)

unfoldable pub first_orig : ℤ → ℕ → ℤ
unfolding per_task
first_orig blocks m = mul_int (pos m) (per_task blocks)

unfoldable pub first_dest : ℤ → ℕ → ℤ
unfolding per_task
first_dest blocks m = sub_int (sub_int blocks (pos 1)) (mul_int (pos m) (per_task blocks))

pub data BlockBuffer : Type 0 where
  buffer1 : BlockBuffer
  buffer2 : BlockBuffer

-- The calls of `disk_block_read` and `disk_block_write`.
pub data BlockCall : Type 0 where
  block_read : (block : ℤ) → BlockBuffer → BlockCall
  block_write : (block : ℤ) → BlockBuffer → BlockCall

-- The block that a call is for.
unfoldable pub called_for : BlockCall → ℤ
called_for (block_read block b) = block
called_for (block_write block b) = block

-- Where a mover stands in its loop, with the rounds left, `block_orig` and `block_dest`: before a
-- round, behind its first, second or third call, or behind the loop.
pub data Mover : Type 0 where
  at_loop : (left : ℕ) (block_orig block_dest : ℤ) → Mover
  has_orig : (left : ℕ) (block_orig block_dest : ℤ) → Mover
  has_both : (left : ℕ) (block_orig block_dest : ℤ) → Mover
  wrote_dest : (left : ℕ) (block_orig block_dest : ℤ) → Mover
  terminated : Mover

-- The movers, and the calls that each has made, the first one first.
pub record Moving : Type 0 where
  pub pc : ℕ → Mover
  pub calls : ℕ → List BlockCall

abbrev pub makes : ℕ → BlockCall → Mover → Moving → Moving
makes m c q s = record { pc = with_pc s.pc m q; calls = with_pc s.calls m (s.calls m ++ c ∷ []) }

-- The code of mover `m` up to and with its next call, or to its end. What a call returns is printed,
-- and changes nothing else.
unfoldable pub move_at : Mover → ℕ → Moving → Option Moving
move_at (at_loop zero o d) m s = some (record s { pc = with_pc s.pc m terminated })
move_at (at_loop (suc k) o d) m s = some (makes m (block_read o buffer1) (has_orig k o d) s)
move_at (has_orig k o d) m s = some (makes m (block_read d buffer2) (has_both k o d) s)
move_at (has_both k o d) m s = some (makes m (block_write d buffer1) (wrote_dest k o d) s)
move_at (wrote_dest k o d) m s =
    some (makes m (block_write o buffer2) (at_loop k (add_int o (pos 1)) (sub_int d (pos 1))) s)
move_at terminated m s = none

unfoldable pub mover_step : ℕ → Moving → Option Moving
unfolding move_at
mover_step m s = move_at (s.pc m) m s

-- What `main` sets up on a disk of so many blocks.
abbrev pub set_off : ℤ → Moving
set_off blocks = record {
  pc = λ m. at_loop (pos_part (per_task blocks)) (first_orig blocks m) (first_dest blocks m);
  calls = λ m. [];
}

-- The movers have taken so many steps, in whatever order their calls return.
pub data Moves (blocks : ℤ) : ℕ → Moving → Type 0 where
  off_we_go : Moves blocks 0 (set_off blocks)
  on_we_go :
      {l : ℕ} {s t : Moving} (m : ℕ)
      → Moves blocks l s
      → m < num_movers
      → mover_step m s ≡ some t
      → Moves blocks (suc l) t
