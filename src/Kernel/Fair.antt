-- ===== src/Kernel/Fair.antt =====
-- scheduler: calls in a row on the ready queue, which the kernel may reorder in between.
mod Sums
mod Potential
mod Step
pub mod Bound
use ping_pong_so.Base.{List, Option, [], length, none, some, suc, ℕ, ◌∷◌, ◌≡◌, ◌≢◌, ◌≤◌}
use ping_pong_so.Base.Int.{ℤ}
use ping_pong_so.Kernel.{scheduler}
use ping_pong_so.Kernel.Ring.{IsRing, Queue}
use ping_pong_so.Kernel.State.{Kernel, Ptr, Task, ran}
use mathlib.Core.List.{Perm}

-- What `scheduler` reads of a task: its static and its dynamic priority.
unfoldable pub prios : Kernel → Ptr → Option (ℤ × ℤ)
prios s a = elim (s.tasks a) [ none ↦ none | some t ↦ some (t.i_static_prio, t.i_dinam_prio) ]

abbrev pub addresses : Queue → List Ptr
addresses [] = []
addresses ((p, _) ∷ xs) = p ∷ addresses xs

-- The calls of `scheduler` on the ring `x ∷ xs`, `k` in a row, that choose another task than `a`.
-- Between two calls the kernel may put the ready tasks in another order.
pub data Passed (a : Ptr) : ℕ → Kernel → Ptr × Task → Queue → Type 0 where
  never : {s : Kernel} {x : Ptr × Task} {xs : Queue} → Passed a 0 s x xs
  once_more :
      {k : ℕ} {s u : Kernel} {x y : Ptr × Task} {xs ys : Queue}
      → (fuel : ℕ) (t : Kernel) (p : Ptr) → length (x ∷ xs) ≤ fuel
      → scheduler fuel s ≡ ran p t
      → p ≢ a
      → ((b : Ptr) → prios u b ≡ prios t b)
      → Perm (addresses (y ∷ ys)) (addresses (x ∷ xs))
      → IsRing u y ys
      → Passed a k u y ys
      → Passed a (suc k) s x xs
