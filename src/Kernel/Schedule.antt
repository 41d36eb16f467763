-- ===== src/Kernel/Schedule.antt =====
-- scheduler: the choice of the task with the least dynamic priority, and the aging of the others.
use ping_pong_so.Base.{
  Bool, Bool-cases, [], arith, eq_self, false, if◌then◌else◌, inl, inr, length, ne-false, some, suc,
  true, zero, ℕ, ◌==◌, ◌∙◌, ◌∷◌, ◌≡◌, ◌≢◌, ◌≤◌,
}
use ping_pong_so.Base.Argmin.{argmin}
use ping_pong_so.Base.Int.{ltb_ℤ, ℤ}
use ping_pong_so.Kernel.{highest_loop}
use ping_pong_so.Kernel.Ring.{Chain, Queue, holds, holds-head}
use ping_pong_so.Kernel.State.{Kernel, Ptr, Task, null, ran, task-some}

abbrev pub prio : Ptr × Task → ℤ
prio (p, t) = t.i_dinam_prio

module _ (s : Kernel) (first : Ptr) where
  -- One round: the better of the task at hand and the best so far.
  highest_round :
      (k : ℕ) (best y : Ptr × Task)
      → s.tasks y.0 ≡ some y.1
      → y.0 ≢ null
      → s.tasks best.0 ≡ some best.1
      → best.0 ≢ null
      → highest_loop (suc k) first y.0 best.0 s ≡ (
          let m = if ltb_ℤ (prio y) (prio best) then y else best in
          if y.1.next == first then ran m.0 s else highest_loop k first y.1.next m.0 s)
  unfolding highest_loop
  highest_round k best y hy ny hb nb =
      let tl = task-some s y.0 y.1 hy ny in
      let tb = task-some s best.0 best.1 hb nb in
      elim (Bool-cases (ltb_ℤ (prio y) (prio best))) [
        | inl less ↦ elim (Bool-cases (y.1.next == first)) [
          | inl stop ↦ simp (tl, tb, less, stop)
          | inr more ↦ simp (tl, tb, less, more)
        ]
        | inr least ↦ elim (Bool-cases (y.1.next == first)) [
          | inl stop ↦ simp (tl, tb, least, stop)
          | inr more ↦ simp (tl, tb, least, more)
        ]
      ]

  better-held :
      (best y : Ptr × Task)
      → (s.tasks y.0 ≡ some y.1) × (y.0 ≢ null)
      → (s.tasks best.0 ≡ some best.1) × (best.0 ≢ null)
      → (b : Bool)
      → (s.tasks (if b then y else best).0 ≡ some (if b then y else best).1)
        × ((if b then y else best).0 ≢ null)
  better-held best y hy hb true = hy
  better-held best y hy hb false = hb

  -- From a task inside the ring the loop goes on to the end of the ring.
  pub highest_loop-argmin :
      (k : ℕ) (best y : Ptr × Task) (ys : Queue)
      → Chain s.tasks (y ∷ ys) first
      → holds first ys ≡ false
      → (s.tasks best.0 ≡ some best.1) × (best.0 ≢ null)
      → length (y ∷ ys) ≤ k
      → highest_loop k first y.0 best.0 s ≡ ran (argmin prio best (y ∷ ys)).0 s
  unfolding argmin
  highest_loop-argmin zero best y ys c out held enough = absurd (omega arith)
  highest_loop-argmin (suc k) best y [] c out held enough =
      highest_round k best y c.0 c.1 held.0 held.1 ∙ simp (c.2, eq_self first)
  highest_loop-argmin (suc k) best y (z ∷ ys) c out held enough =
      highest_round k best y c.0 c.1 held.0 held.1
      ∙ simp (c.2, ne-false z.0 first (holds-head z.0 first z.1 ys out).0)
          (highest_loop-argmin k (if ltb_ℤ (prio y) (prio best) then y else best) z ys c.3
            (holds-head z.0 first z.1 ys out).1
            (better-held best y (c.0, c.1) held (ltb_ℤ (prio y) (prio best))) (omega arith))
