-- ===== src/Kernel/Priority.antt =====
-- task_setprio and task_getprio.
use ping_pong_so.Base.{
  Bool, Bool-cases, ap, arith, if◌then◌else◌, inl, inr, refl, some, subst, sym, ◌&&◌, ◌∙◌, ◌≡◌, ◌≢◌,
}
use ping_pong_so.Base.Int.{leb_ℤ, negsuc, pos, ℤ}
use ping_pong_so.Kernel.{or_exec, task_getprio, task_setprio}
use ping_pong_so.Kernel.Aging.{on_task-some, with_tasks}
use ping_pong_so.Kernel.Schedule.{prio}
use ping_pong_so.Kernel.State.{
  Completes, Kernel, Ptr, Task, null, task-some, with_task, with_task-other, with_task-same, ◌>>◌,
}
use ping_pong_so.Requests.Remove.Middle.{outside}

-- The range of a static priority.
abbrev pub in_range : ℤ → Bool
in_range prio = leb_ℤ (negsuc 19) prio && leb_ℤ prio (pos 20)

-- The task whose priority is meant: `p`, or the one that executes where `p` is null.
pub data Means (s : Kernel) (p : Ptr) : Ptr → Type 0 where
  some_task : p ≢ null → Means s p p
  no_task : p ≡ null → Means s p s.task_exec

Means-or_exec : (s : Kernel) (p q : Ptr) → Means s p q → or_exec p s ≡ q
Means-or_exec s p _ (some_task ne) = ground arith
Means-or_exec s p _ (no_task is) = ground arith

-- The outcome of setting the priority of `p`, which holds `t`, and reading it back.
pub record Prioritised (s : Kernel) (p : Ptr) (t : Task) (prio : ℤ) (result : ℤ) (s' : Kernel)
    : Type 0 where
  pub result_ : result ≡ (if in_range prio then prio else t.i_static_prio)
  pub this : s'.tasks p ≡ some (record t { i_static_prio = result })
  pub others : (q : Ptr) → q ≢ p → s'.tasks q ≡ s.tasks q
  pub rest : s' ≡ record s { tasks = s'.tasks }

-- The task as the code finds it.
setprio-get_or_exec :
    (s : Kernel) (p : Ptr) (t : Task) (prio : ℤ)
    → s.tasks (or_exec p s) ≡ some t
    → or_exec p s ≢ null
    → Completes (Prioritised s (or_exec p s) t prio) ((task_setprio p prio >> task_getprio p) s)
unfolding task_setprio task_getprio
setprio-get_or_exec s p t prio there ne = elim (Bool-cases (in_range prio)) [
  | inl inside ↦
      let t' = record t { i_static_prio = prio } in
      simp
        (
          inside,
          on_task-some s (or_exec p s) t (λ t. record t { i_static_prio = prio }) there ne,
          task-some (with_tasks s (with_task s.tasks (or_exec p s) t')) (or_exec p s) t'
              (with_task-same s.tasks (or_exec p s) t') ne,
        )
        (record {
          result_ = rw inside refl;
          this = with_task-same s.tasks (or_exec p s) t';
          others = with_task-other s.tasks (or_exec p s) t';
          rest = refl;
        })
  | inr outside ↦
      simp (outside, task-some s (or_exec p s) t there ne)
        (record { result_ = rw outside refl; this = there; others = λ q away. refl; rest = refl })
]

-- Setting the priority of a task that is there, named by `p` or executing where `p` is null, and
-- reading it back ends without a bad pointer. The result is `prio` where that lies in -20 ... 20, and
-- else the old static priority; it is the static priority of the task then. Nothing else changes.
pub task_setprio-get :
    (s : Kernel) (p q : Ptr) (t : Task) (prio : ℤ)
    → Means s p q
    → s.tasks q ≡ some t
    → q ≢ null
    → Completes (Prioritised s q t prio) ((task_setprio p prio >> task_getprio p) s)
task_setprio-get s p q t prio means there ne =
    let is = Means-or_exec s p q means in
    subst (λ a. Completes (Prioritised s a t prio) ((task_setprio p prio >> task_getprio p) s)) is
      (setprio-get_or_exec s p t prio (ap s.tasks is ∙ there) (λ e. ne (sym is ∙ e)))
