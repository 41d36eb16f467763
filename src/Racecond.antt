-- ===== src/Racecond.antt =====
-- pingpong-racecond.c: tasks that add to one sum under a semaphore. Between two of its steps a task
-- may be preempted: the load, the addition and the store of `soma += 1` are not one step.
pub mod Sum
pub mod Result
use ping_pong_so.Base.{
  Bool, Option, if◌then◌else◌, ltb, none, some, suc, zero, ℕ, ◌%◌, ◌+◌, ◌-◌, ◌<◌, ◌^◌, ◌≡◌,
}
use ping_pong_so.Base.Int.{eq_ℤ, mul_int, neg_part, negsuc, pos, pos_part, sub_ℕ, ℤ}
use ping_pong_so.Protocol.Sync.{SyncLib}
use ping_pong_so.Totals.{with_pc}

abbrev pub num_tasks : ℕ
num_tasks = 30

abbrev pub num_steps : ℕ
num_steps = 10_000_000

-- `long int` has 64 bits, and wraps around.
abbrev pub bits_long : ℤ → ℕ
bits_long (pos n) = n % 2 ^ 64
bits_long (negsuc n) = 2 ^ 64 - 1 - n % 2 ^ 64

unfoldable pub add_long : ℤ → ℤ → ℤ
add_long a b =
    let u = bits_long (sub_ℕ (pos_part a + pos_part b) (neg_part a + neg_part b)) in
    if ltb u (2 ^ 63) then pos u else negsuc (2 ^ 64 - 1 - u)

-- The test of `main` behind its calls of `task_join`, for so many tasks and steps.
unfoldable pub is_right : ℕ → ℕ → ℤ → Bool
is_right n steps soma = eq_ℤ soma (mul_int (pos n) (pos steps))

-- Where a task stands in the loop of `taskBody`, with the rounds left behind this one; behind the
-- load, with the value loaded.
pub data Worker : Type 0 where
  looping : ℕ → Worker
  in_section : ℕ → Worker
  loaded : ℕ → ℤ → Worker
  stored : ℕ → Worker
  finished : Worker

module _ (lib : SyncLib) where
  -- The variables `s` and `soma`, and the tasks.
  pub record Adders : Type 0 where
    pub sem : lib.Sem
    pub soma : ℤ
    pub pc : ℕ → Worker

  abbrev pub moved_to : ℕ → Worker → Adders → Adders
  moved_to i w s = record s { pc = with_pc s.pc i w }

  -- One step of a task, or none where it waits or has ended.
  unfoldable pub work_at : Worker → ℕ → Adders → Option Adders
  work_at (looping zero) i s = some (moved_to i finished s)
  work_at (looping (suc k)) i s = elim (lib.down s.sem) [
    | none ↦ none
    | some d ↦ some (moved_to i (in_section k) (record s { sem = d }))
  ]
  work_at (in_section k) i s = some (moved_to i (loaded k s.soma) s)
  work_at (loaded k v) i s = some (moved_to i (stored k) (record s { soma = add_long v (pos 1) }))
  work_at (stored k) i s = some (moved_to i (looping k) (record s { sem = lib.up s.sem }))
  work_at finished i s = none

  unfoldable pub work_step : ℕ → Adders → Option Adders
  unfolding work_at
  work_step i s = work_at (s.pc i) i s

  -- What `main` sets up.
  abbrev pub set_out : ℕ → Adders
  set_out steps = record { sem = lib.counter (pos 1); soma = pos 0; pc = λ i. looping steps }

  -- `n` tasks have taken so many steps in any order.
  pub data After (n steps : ℕ) : ℕ → Adders → Type 0 where
    begun : After n steps 0 (set_out steps)
    then_ :
        {l : ℕ} {s t : Adders} (i : ℕ)
        → After n steps l s
        → i < n
        → work_step i s ≡ some t
        → After n steps (suc l) t
