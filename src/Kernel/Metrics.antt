-- ===== src/Kernel/Metrics.antt =====
-- before_task_switch: the processor ticks and activations of the tasks.
use ping_pong_so.Base.{
  Bool-cases, Option, ap, eq_of_test, if◌then◌else◌, inl, inr, none, refl, some, sym, ℕ, ◌==◌, ◌∙◌,
  ◌≡◌, ◌≢◌,
}
use ping_pong_so.Kernel.{before_task_switch, metrics_handler}
use ping_pong_so.Kernel.Aging.{on_task-some, with_tasks}
use ping_pong_so.Kernel.State.{
  Completes, Kernel, Ptr, Task, add_unsigned, null, sub_unsigned, with_task, with_task-other,
}

-- The two tasks of a switch; they may be one.
pub record IsSwitch (s : Kernel) (from : Task) (to_ : Ptr) (next_task : Task) : Type 0 where
  pub running : s.tasks s.task_exec ≡ some from
  pub running_held : s.task_exec ≢ null
  pub entering : s.tasks to_ ≡ some next_task
  pub entering_held : to_ ≢ null

-- The ticks since the last switch, on a clock of 32 bits.
abbrev pub elapsed : Kernel → ℕ
elapsed s = sub_unsigned s.system_time s.starting_tick

abbrev pub charged : Kernel → Task → Task
charged s t = record t { ui_processor_ticks = add_unsigned t.ui_processor_ticks (elapsed s) }

abbrev pub activated : Task → Task
activated t = record t { ui_activations = add_unsigned t.ui_activations 1 }

-- What a switch leaves at each address.
abbrev pub metered : Kernel → Ptr → Ptr → Task → Task
metered s p a t =
    let u = if a == s.task_exec then charged s t else t in if a == p then activated u else u

-- The outcome of the hook before a switch to `p`.
pub record Switched (s : Kernel) (p : Ptr) (s' : Kernel) : Type 0 where
  pub tasks :
      (a : Ptr) → s'.tasks a ≡ elim (s.tasks a) [ none ↦ none | some u ↦ some (metered s p a u) ]
  pub rest : s' ≡ record s { tasks = s'.tasks; starting_tick = s.system_time }

module _ (s : Kernel) (from : Task) (p : Ptr) (t : Task) (w : IsSwitch s from p t) where
  abbrev once : Ptr → Option Task
  once = with_task s.tasks s.task_exec (charged s from)

  charged-at :
      (a : Ptr) (u : Task)
      → s.tasks a ≡ some u
      → once a ≡ some (if a == s.task_exec then charged s u else u)
  unfolding with_task
  charged-at a u there = elim (Bool-cases (a == s.task_exec)) [
    | inl here ↦
        let same = sym w.running ∙ ap s.tasks (sym (eq_of_test a s.task_exec here)) ∙ there in
        rw here (ap (λ o. elim o [ none ↦ none | some v ↦ some (charged s v) ]) same)
    | inr away ↦ rw away there
  ]

  metered-at :
      (a : Ptr) (o : Option Task)
      → s.tasks a ≡ o
      → with_task once p (activated (if p == s.task_exec then charged s t else t)) a
        ≡ elim o [ none ↦ none | some u ↦ some (metered s p a u) ]
  unfolding with_task
  metered-at a none e =
      with_task-other once p _ a (λ same. cc (w.entering, e, ap s.tasks same))
      ∙ with_task-other s.tasks s.task_exec _ a (λ same. cc (w.running, e, ap s.tasks same))
      ∙ e
  metered-at a (some u) e = elim (Bool-cases (a == p)) [
    | inl here ↦
        let q = eq_of_test a p here in
        let same : some t ≡ some u = sym w.entering ∙ ap s.tasks (sym q) ∙ e in
        let new = λ (v : Task). activated (if p == s.task_exec then charged s v else v) in
        rw (here, q) (ap (λ o. elim o [ none ↦ none | some v ↦ some (new v) ]) same)
    | inr away ↦ rw away (charged-at a u e)
  ]

  -- Before a switch from the task that executes to a task that is there, maybe the same one, the
  -- hook ends without a bad pointer. The ticks since the last switch are added to the processor
  -- ticks of the task that executes, and one activation to the task that enters. Every other task
  -- and field is as before, and the next ticks are counted from now on.
  pub before_task_switch-Switched : Completes (λ _ s'. Switched s p s') (before_task_switch p s)
  unfolding before_task_switch metrics_handler
  before_task_switch-Switched =
      simp
        (
          on_task-some s s.task_exec from (charged s) w.running w.running_held,
          on_task-some (with_tasks s once) p _ activated (charged-at p t w.entering)
              w.entering_held,
        )
        (record { tasks = λ a. metered-at a (s.tasks a) refl; rest = refl })
