-- ===== src/Kernel/Aging.antt =====
-- scheduler: the loop that ages every task of the ready queue but the chosen one.
use ping_pong_so.Base.{
  Bool-cases, Option, [], ap, arith, eq_self, eq_of_test, false, if◌then◌else◌, inl, inr, length,
  ne-false, none, refl, some, suc, sym, true, zero, ℕ, ◌==◌, ◌∙◌, ◌∷◌, ◌≡◌, ◌≢◌, ◌≤◌,
}
use ping_pong_so.Kernel.{age, aging_loop}
use ping_pong_so.Kernel.Ring.{
  Apart, Chain, Chain-frame, Queue, find, find-out, holds, holds-head, holds-ne,
}
use ping_pong_so.Kernel.State.{
  Kernel, Ptr, Task, give, go_on, null, on_task, ran, task, task-some, with_task, with_task-same,
}
use mathlib.Core.Path.{fun_ext}

-- The store after one round.
unfoldable pub age_one : (Ptr → Option Task) → Ptr → Ptr → Task → Ptr → Option Task
age_one f chosen p t a = if p == chosen then f a else with_task f p (age t) a

-- The store after the loop.
unfoldable pub age_all : (Ptr → Option Task) → Ptr → Queue → Ptr → Option Task
age_all f chosen [] = f
age_all f chosen ((p, t) ∷ xs) = age_all (age_one f chosen p t) chosen xs

age_step :
    (f : Ptr → Option Task) (chosen p : Ptr) (t : Task) (xs : Queue) (a : Ptr)
    → holds p xs ≡ false
    → (elim (find a xs) [
      | none ↦ age_one f chosen p t a
      | some u ↦ if a == chosen then age_one f chosen p t a else some (age u)
    ])
      ≡ elim (find a ((p, t) ∷ xs)) [
        | none ↦ f a
        | some u ↦ if a == chosen then f a else some (age u)
      ]
unfolding find age_one with_task
age_step f chosen p t xs a out = elim (Bool-cases (a == p)) [
  | inl here ↦
      let same = eq_of_test a p here in
      let none_ : find a xs ≡ none = ap (λ b. find b xs) same ∙ find-out p xs out in
      rw (none_, here) (ground arith)
  | inr away ↦ rw away (ground arith)
]

pub age_all-find :
    (f : Ptr → Option Task) (chosen : Ptr) (xs : Queue) (a : Ptr)
    → Apart xs
    → age_all f chosen xs a
      ≡ elim (find a xs) [ none ↦ f a | some t ↦ if a == chosen then f a else some (age t) ]
unfolding age_all find
age_all-find f chosen [] a d = refl
age_all-find f chosen ((p, t) ∷ xs) a d =
    age_all-find (age_one f chosen p t) chosen xs a d.1 ∙ age_step f chosen p t xs a d.0

age_one-skip :
    (f : Ptr → Option Task) (chosen p : Ptr) (t : Task)
    → (p == chosen) ≡ true
    → age_one f chosen p t ≡ f
unfolding age_one
age_one-skip f chosen p t here = fun_ext λ a. rw here

age_one-age :
    (f : Ptr → Option Task) (chosen p : Ptr) (t : Task)
    → (p == chosen) ≡ false
    → age_one f chosen p t ≡ with_task f p (age t)
unfolding age_one
age_one-age f chosen p t away = fun_ext λ a. rw away

age_one-other :
    (f : Ptr → Option Task) (chosen p : Ptr) (t : Task) (a : Ptr)
    → a ≢ p
    → age_one f chosen p t a ≡ f a
unfolding age_one with_task
age_one-other f chosen p t a ne = ground arith

Chain-age_one :
    (f : Ptr → Option Task) (chosen p : Ptr) (t : Task) (xs : Queue) (stop : Ptr)
    → holds p xs ≡ false
    → Chain f xs stop
    → Chain (age_one f chosen p t) xs stop
Chain-age_one f chosen p t xs stop out c =
    Chain-frame f (age_one f chosen p t) xs stop
      (λ a i. age_one-other f chosen p t a (λ e. holds-ne p a xs out i (sym e))) c

abbrev pub with_tasks : Kernel → (Ptr → Option Task) → Kernel
with_tasks s f = record s { tasks = f }

pub on_task-some :
    (s : Kernel) (p : Ptr) (t : Task) (g : Task → Task)
    → s.tasks p ≡ some t
    → p ≢ null
    → on_task p g s ≡ ran tt (with_tasks s (with_task s.tasks p (g t)))
unfolding on_task
on_task-some s p t g e ne = rw (task-some s p t e ne)

module _ (first chosen : Ptr) where
  aging_tail :
      (k : ℕ) (s : Kernel) (p : Ptr) (t : Task)
      → s.tasks p ≡ some t
      → p ≢ null
      → go_on
          (task p s)
          (λ r. if r.next == first then give tt else aging_loop k first chosen r.next)
        ≡ (if t.next == first then ran tt s else aging_loop k first chosen t.next s)
  aging_tail k s p t e ne = elim (Bool-cases (t.next == first)) [
    | inl stop ↦ simp (task-some s p t e ne, stop)
    | inr more ↦ simp (task-some s p t e ne, more)
  ]

  aging_round :
      (k : ℕ) (s : Kernel) (p : Ptr) (t : Task)
      → s.tasks p ≡ some t
      → p ≢ null
      → aging_loop (suc k) first chosen p s ≡ (
          let s1 = with_tasks s (age_one s.tasks chosen p t) in
          if t.next == first then ran tt s1 else aging_loop k first chosen t.next s1)
  unfolding aging_loop
  aging_round k s p t e ne = elim (Bool-cases (p == chosen)) [
    | inl here ↦ rw (here, age_one-skip s.tasks chosen p t here) (aging_tail k s p t e ne)
    | inr away ↦
        rw (away, age_one-age s.tasks chosen p t away, on_task-some s p t age e ne)
          (aging_tail k (with_tasks s (with_task s.tasks p (age t))) p (age t)
            (with_task-same s.tasks p (age t)) ne)
  ]

  pub aging_loop-run :
      (k : ℕ) (s : Kernel) (y : Ptr × Task) (ys : Queue)
      → Chain s.tasks (y ∷ ys) first
      → holds first ys ≡ false
      → Apart (y ∷ ys)
      → length (y ∷ ys) ≤ k
      → aging_loop k first chosen y.0 s ≡ ran tt (with_tasks s (age_all s.tasks chosen (y ∷ ys)))
  unfolding age_all
  aging_loop-run zero s y ys c out d enough = absurd (omega arith)
  aging_loop-run (suc k) s y [] c out d enough =
      aging_round k s y.0 y.1 c.0 c.1 ∙ simp (c.2, eq_self first)
  aging_loop-run (suc k) s y (z ∷ ys) c out d enough =
      aging_round k s y.0 y.1 c.0 c.1
      ∙ simp (c.2, ne-false z.0 first (holds-head z.0 first z.1 ys out).0)
          (aging_loop-run k (with_tasks s (age_one s.tasks chosen y.0 y.1)) z ys
            (Chain-age_one s.tasks chosen y.0 y.1 (z ∷ ys) first d.0 c.3)
            (holds-head z.0 first z.1 ys out).1 d.1 (omega arith))
