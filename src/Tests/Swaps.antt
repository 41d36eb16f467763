-- ===== src/Tests/Swaps.antt =====
-- Two steps of the movers of pingpong-disco2.c on a disk of 64 blocks.
use ping_pong_so.Base.{arith, refl, some, ◌≡◌}
use ping_pong_so.Base.Int.{div_int, mul_int, pos, sub_int, to_int}
use ping_pong_so.Movers.{
  Moves, Moving, block_read, buffer1, buffer2, first_dest, first_orig, has_both, has_orig, makes,
  move_at, mover_step, off_we_go, on_we_go, per_task, set_off,
}
use ping_pong_so.Movers.Result.{Swapping, moves-Swapping}
use ping_pong_so.Totals.{with_pc}

abbrev idle_movers : Moving
idle_movers = set_off (pos 64)

abbrev one_read : Moving
one_read = makes 3 (block_read (pos 6) buffer1) (has_orig 1 (pos 6) (pos 57)) idle_movers

abbrev both_read : Moving
both_read = makes 3 (block_read (pos 57) buffer2) (has_both 1 (pos 6) (pos 57)) one_read

to_one_read : mover_step 3 idle_movers ≡ some one_read
unfolding mover_step move_at per_task first_orig first_dest mul_int div_int sub_int to_int
to_one_read = refl

to_both_read : mover_step 3 one_read ≡ some both_read
unfolding mover_step move_at with_pc
to_both_read = refl

both_read-Moves : Moves (pos 64) 2 both_read
both_read-Moves =
    on_we_go 3 (on_we_go 3 off_we_go (omega arith) to_one_read) (omega arith) to_both_read

moves-Swapping_example : Swapping 64 (omega arith) 2 both_read
moves-Swapping_example = moves-Swapping 64 (omega arith) 2 both_read both_read-Moves
