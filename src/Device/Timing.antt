-- ===== src/Device/Timing.antt =====
-- The time for which the disk's timer is set.
use ping_pong_so.Base.{
  List, [], ap, arith, refl, suc, true, zero, ℕ, ◌%◌, ◌*◌, ◌+◌, ◌-◌, ◌/◌, ◌<◌, ◌∙◌, ◌∷◌, ◌≡◌, ◌≤◌,
}
use ping_pong_so.Base.Int.{
  abs-sub_int, add_int-pos, dist, div_int, div_int-pos, mul_int-pos, pos, pos_part, sub_int, ℤ,
}
use ping_pong_so.Device.{Call, Env, Hardware, disk_settimer, time_ms, timer_settime}
use ping_pong_so.Device.Valid.{IsReady, Returns, max_blocks}

-- The travel time, in tenths of the largest delay.
travel_bound : (n p m : ℕ) → n < m → p < m → dist n p * 270 / m ≤ 269
travel_bound n p m hn hp = grind arith

span : sub_int (pos 300) (pos 30) ≡ pos 270
unfolding sub_int
span = refl

time_ms-parts :
    (e : Env) (d : Hardware)
    → IsReady d
    → (n p m : ℕ) → d.next_block ≡ pos n
    → d.prev_block ≡ pos p
    → d.num_blocks ≡ pos (suc m)
    → n ≤ m
    → p ≤ m
    → suc m ≤ max_blocks
    → time_ms e d ≡ pos (dist n p * 270 / suc m + 30 + e.random % 270 / 10)
unfolding time_ms
time_ms-parts e d r n p m en ep em hn hp hm =
    let travel = travel_bound n p (suc m) (omega arith) (omega arith) in
    rw (
      en,
      ep,
      em,
      r.delay_min,
      r.delay_max,
      span,
      abs-sub_int n p (omega arith) (omega arith),
      mul_int-pos (dist n p) 270 (omega arith),
      div_int-pos (dist n p * 270) (suc m) (omega arith),
      add_int-pos (dist n p * 270 / suc m) 30 (omega arith),
      add_int-pos (dist n p * 270 / suc m + 30) (e.random % 270 / 10) (omega arith),
    )

-- What `disk_settimer` leaves behind: the timer runs once, `time` milliseconds from now.
abbrev pub Armed : ℕ → Hardware → ℤ → Hardware → List Call → Type 0
Armed time d r d' calls =
    (r ≡ pos 0)
    × (d' ≡ record d { delay_sec = pos 0; delay_nsec = pos (time * 1_000_000) })
    × (calls ≡ timer_settime (pos 0) (pos (time * 1_000_000)) ∷ [])

settimer-time :
    (e : Env) (d : Hardware) (t m : ℕ)
    → e.timer_set ≡ true
    → d.num_blocks ≡ pos (suc m)
    → IsReady d
    → time_ms e d ≡ pos t
    → t ≤ 325
    → Returns (Armed t d) (disk_settimer e d)
unfolding disk_settimer
settimer-time e d t m set em r et small =
    let quotient : div_int (pos t) (pos 1000) ≡ pos 0 =
      div_int-pos t 1000 (omega arith) ∙ ap pos (omega arith) in
    rw et (
      simp
        (em, r.delay_min, r.delay_max, span, mul_int-pos t 1_000_000 (omega arith), quotient, set)
        (ground arith))

-- The time lies between 30 and 325 milliseconds, so its seconds are 0 and its nanoseconds stay
-- below a second.
pub settimer_bounds :
    (e : Env) (d : Hardware) (n p m : ℕ)
    → e.timer_set ≡ true
    → IsReady d
    → d.next_block ≡ pos n
    → d.prev_block ≡ pos p
    → d.num_blocks ≡ pos m
    → n < m
    → (t : ℕ) × (30 ≤ t) × (t ≤ 325) × Returns (Armed t d) (disk_settimer e d)
settimer_bounds e d n p zero set r en ep em hn = absurd (omega arith)
settimer_bounds e d n p (suc m) set r en ep em hn =
    let hp : p ≤ m =
      let raw : pos_part (pos p) ≤ pos_part (pos (suc m)) - 1 = rw (ep, em) at r.prev.1 in
      omega arith in
    (
      dist n p * 270 / suc m + 30 + e.random % 270 / 10,
      omega arith,
      omega (arith, travel_bound n p (suc m) hn (omega arith)),
      settimer-time e d _ m set em r
          (time_ms-parts e d r n p m en ep em (omega arith) hp (omega (arith, rw em at r.small)))
          (omega (arith, travel_bound n p (suc m) hn (omega arith))),
    )
