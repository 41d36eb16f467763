-- ===== src/Tests/Adders.antt =====
-- Two steps of the fourth of thirty tasks of pingpong-racecond.c.
use ping_pong_so.Base.{arith, refl, some, ◌*◌, ◌+◌, ◌<◌, ◌≡◌, ◌⊎◌}
use ping_pong_so.Base.Int.{pos}
use ping_pong_so.Racecond.{
  Adders, After, begun, in_section, loaded, num_steps, num_tasks, set_out, then_, work_at,
  work_step,
}
use ping_pong_so.Racecond.Result.{Goes, Right, run-Right}
use ping_pong_so.Tests.Numbers.{numbers, take_one}
use ping_pong_so.Totals.{with_pc}

abbrev before : Adders numbers
before = set_out numbers num_steps

abbrev holding : Adders numbers
holding = record before { sem = 0; pc = with_pc before.pc 3 (in_section 9_999_999) }

abbrev reading : Adders numbers
reading = record holding { pc = with_pc holding.pc 3 (loaded 9_999_999 (pos 0)) }

to_holding : work_step numbers 3 before ≡ some holding
unfolding work_step work_at take_one
to_holding = refl

to_reading : work_step numbers 3 holding ≡ some reading
unfolding work_step work_at with_pc
to_reading = refl

reading-After : After numbers num_tasks num_steps 2 reading
reading-After = then_ 3 (then_ 3 begun (omega arith) to_holding) (omega arith) to_reading

run-Right_example :
    ((2 < num_tasks * (4 * num_steps + 1)) × Goes numbers num_tasks num_steps reading)
    ⊎ ((2 ≡ num_tasks * (4 * num_steps + 1)) × Right numbers num_tasks num_steps reading)
run-Right_example = run-Right numbers num_tasks num_steps 2 reading (omega arith) reading-After
