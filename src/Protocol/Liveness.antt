-- ===== src/Protocol/Liveness.antt =====
-- The steps that the tasks, the disk task and the timer can take in a row.
use ping_pong_so.Base.{arith, suc, true, zero, ℕ, ◌*◌, ◌+◌, ◌<◌, ◌^◌, ◌≡◌, ◌≢◌, ◌≤◌}
use ping_pong_so.Device.{Env}
use ping_pong_so.Producers.{set}
use ping_pong_so.Protocol.{Reach, State, Work, outside}
use ping_pong_so.Protocol.Invariant.{Inv}
use ping_pong_so.Protocol.Measure.{Work-measure, measure, measure-le}
use ping_pong_so.Protocol.Progress.{inside-Moves}
use ping_pong_so.Protocol.Reachable.{Reach-Inv, Work-Inv}
use ping_pong_so.Protocol.Sync.{SyncLib}

module _ (lib : SyncLib) (n : ℕ) where
  -- `k` steps in which no task enters.
  pub data Works : ℕ → State lib n → State lib n → Type 0 where
    none_ : {s : State lib n} → Works 0 s s
    one_more : {k : ℕ} {s t u : State lib n} → Work lib n s t → Works k t u → Works (suc k) s u

  Works-measure :
      (k : ℕ) (s u : State lib n)
      → n < 2 ^ 31
      → Inv lib n s
      → Works k s u
      → k + measure lib n u ≤ measure lib n s
  Works-measure zero s u few v none_ = omega arith
  Works-measure (suc k) s u few v (one_more {t = t} st ws) =
      omega (
        arith,
        Work-measure lib n s v few st,
        Works-measure k t u few (Work-Inv lib n few s v st) ws,
      )

  -- No deadlock: in every state that fewer than 2^31 tasks can reach, while a task is inside
  -- `disk_block_read` or `disk_block_write`, some task, the disk task or the timer can take a step.
  pub no_deadlock :
      (e : Env) (s : State lib n) (i : ℕ)
      → n < 2 ^ 31
      → e.timer_set ≡ true
      → Reach lib n s
      → i < n
      → s.pc i ≢ outside
      → (t : State lib n) × Work lib n s t
  no_deadlock e s i few set r inside away =
      inside-Moves lib n s (Reach-Inv lib n few s r) e i few set inside away

  -- No livelock: from every state that fewer than 2^31 tasks can reach, at most 7 n + 3 steps can be
  -- taken in a row in which no task enters.
  pub Works-le :
      (k : ℕ) (s u : State lib n) → n < 2 ^ 31 → Reach lib n s → Works k s u → k ≤ 7 * n + 3
  Works-le k s u few r ws =
      let v = Reach-Inv lib n few s r in
      omega (arith, Works-measure k s u few v ws, measure-le lib n s v)
