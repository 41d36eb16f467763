-- ===== src/Protocol/Measure.antt =====
-- How far the calls of disk_block_read and disk_block_write are from their end.
use ping_pong_so.Base.{
  Bool-cases, ap, arith, inl, inr, refl, some, sym, true, ℕ, ◌*◌, ◌+◌, ◌<◌, ◌^◌, ◌∙◌, ◌≡◌, ◌≢◌, ◌≤◌,
  ◌⊎◌,
}
use ping_pong_so.Device.{Env, Hardware, Status}
use ping_pong_so.Manager.{disk_interrupt}
use ping_pong_so.Manager.Dispatch.{answer}
use ping_pong_so.Manager.Interrupt.{Ended, disk_interrupt-Ended}
use ping_pong_so.Manager.State.{System, sync}
use ping_pong_so.Producers.{set}
use ping_pong_so.Protocol.{
  DiskPc, Pc, Runs, State, Work, after, as_task, client, disk_after, disk_segment, disk_task, ended,
  fresh_calls, locked, outside, queued, scheduling, segment, served, signalled, timer, waiting,
}
use ping_pong_so.Protocol.Clients.{Finishes-done, sync-Called}
use ping_pong_so.Protocol.Counts.{
  Made-inv, down_new-Made, down_treated-Made, effects-one, lock-Made, unlock-Made, up_new-Made,
  up_treated-Made,
}
use ping_pong_so.Protocol.Invariant.{Inv, at_scheduler, in_flight}
use ping_pong_so.Protocol.Serving.{serving-Counts}
use ping_pong_so.Protocol.Sync.{Sems, SyncLib, effect, effects}
use ping_pong_so.Protocol.Timer.{awaits-le, in_flight-idle, in_flight-one}
use ping_pong_so.Requests.Memory.{new_requests, sem_down, sem_up, treated_requests}
use ping_pong_so.Totals.{total, total-le-mul, total-with_pc, with_pc}
use native.Mathlib.Decide.{dec_lt}

-- The steps that a task has before it, those of others apart.
unfoldable pub steps_left : Pc → ℕ
steps_left outside = 0
steps_left queued = 7
steps_left locked = 6
steps_left signalled = 2
steps_left served = 1

-- Behind `diskScheduler` the disk task waits or has ended.
at_scheduler-after : (t : System) → at_scheduler (disk_after scheduling t) ≡ 0
unfolding at_scheduler disk_after
at_scheduler-after t = elim (Bool-cases t.disk.init) [ inl e ↦ rw e refl | inr e ↦ rw e refl ]

-- A step takes one off, and `diskScheduler` one or two.
abbrev pub IsLower : DiskPc → ℕ → ℕ → Type 0
IsLower p b a = (b + 1 ≡ a) ⊎ ((p ≡ scheduling) × (b + 2 ≡ a))

module _ (lib : SyncLib) (n : ℕ) where
  unfoldable pub measure : State lib n → ℕ
  measure s =
      total steps_left n s.pc
      + 3 * lib.value s.sems.new_count
      + 2 * at_scheduler s.disk_pc
      + in_flight s.sys.hw.status

  module _ (s : State lib n) (v : Inv lib n s) where
    module _ (i : ℕ) (inside : i < n) (t : System) (w : Sems lib) where
      left :
          (p p' : Pc)
          → s.pc i ≡ p
          → total steps_left n (with_pc s.pc i p') + steps_left p
            ≡ total steps_left n s.pc + steps_left p'
      left p p' at_ = rw (← at_) (total-with_pc steps_left n s.pc i p' inside)

      client-measure :
          (p : Pc)
          → s.pc i ≡ p
          → p ≢ outside
          → Runs lib n (segment p) (as_task i s.sys) s.sems t w
          → measure (record s { sys = t; sems = w; pc = with_pc s.pc i (after p) }) + 1 ≡ measure s
      unfolding segment after measure steps_left
      client-measure outside at_ away r = absurd (away refl)
      client-measure queued at_ away r =
          let c = sync-Called lib n _ i s.sys s.sems t w r in
          elim (lock-Made lib s.sems) [
            | inl (h, stuck) ↦ cc (stuck, c.effect_)
            | inr (h, m) ↦
                let k = Made-inv lib s.sems w _ _ _ _ _ m c.effect_ in
                omega (
                  arith,
                  k.new_,
                  left queued locked at_,
                  ap (λ (d : Hardware). in_flight d.status) c.same.hw,
                )
          ]
      client-measure locked at_ away r =
          let c = sync-Called lib n _ i s.sys s.sems t w r in
          let k = Made-inv lib s.sems w _ _ _ _ _ (up_new-Made lib s.sems) c.effect_ in
          omega (
            arith,
            k.new_,
            left locked signalled at_,
            ap (λ (d : Hardware). in_flight d.status) c.same.hw,
          )
      client-measure signalled at_ away r =
          let c = sync-Called lib n _ i s.sys s.sems t w r in
          elim (down_treated-Made lib s.sems) [
            | inl (h, stuck) ↦ cc (stuck, c.effect_)
            | inr (j, h, m) ↦
                let k = Made-inv lib s.sems w _ _ _ _ _ m c.effect_ in
                omega (
                  arith,
                  k.new_,
                  left signalled served at_,
                  ap (λ (d : Hardware). in_flight d.status) c.same.hw,
                )
          ]
      client-measure served at_ away r =
          let c = sync-Called lib n _ i s.sys s.sems t w r in
          let k = Made-inv lib s.sems w _ _ _ _ _ (unlock-Made lib s.sems) c.effect_ in
          omega (
            arith,
            k.new_,
            left served outside at_,
            ap (λ (d : Hardware). in_flight d.status) c.same.hw,
          )

    module _ (t : System) (w : Sems lib) where
      wait-measure :
          s.disk_pc ≡ waiting
          → Runs lib n (sync (sem_down new_requests)) (fresh_calls s.sys) s.sems t w
          → measure (record s { sys = t; sems = w; disk_pc = scheduling }) + 1 ≡ measure s
      unfolding measure at_scheduler
      wait-measure at_ r =
          let c = sync-Called lib n _ s.sys.task_exec s.sys s.sems t w r in
          elim (down_new-Made lib s.sems) [
            | inl (h, stuck) ↦ cc (stuck, c.effect_)
            | inr (j, h, m) ↦
                let k = Made-inv lib s.sems w _ _ _ _ _ m c.effect_ in
                omega (
                  arith,
                  k.new_,
                  h,
                  ap at_scheduler at_,
                  ap (λ (d : Hardware). in_flight d.status) c.same.hw,
                )
          ]

      -- `diskScheduler` announces nothing, and a request that the disk refuses is treated at once.
      serve-measure :
          (e : Env)
          → n < 2 ^ 31
          → e.timer_set ≡ true
          → s.disk_pc ≡ scheduling
          → Runs lib n (disk_segment e scheduling) (fresh_calls s.sys) s.sems t w
          → IsLower scheduling
              (measure (record s { sys = t; sems = w; disk_pc = disk_after scheduling t }))
              (measure s)
      unfolding measure at_scheduler
      serve-measure e few set at_ r =
          let (k, c, answer) = serving-Counts lib n s v e set at_ t w few r in
          let none_then = at_scheduler-after t in
          let one_now = ap at_scheduler at_ in
          elim (dec_lt 0 (in_flight t.hw.status)) [
            | yes takes ↦ inl (
                omega
                  (arith, c.new_, answer, v.tokens, awaits-le lib n s v, one_now, none_then, takes))
            | no refuses ↦ inr (
              refl,
              omega (
                arith,
                c.new_,
                answer,
                v.tokens,
                awaits-le lib n s v,
                one_now,
                none_then,
                refuses,
              ),
            )
          ]

      timer-measure :
          s.sys.hw.status ≢ Status.idle
          → Runs lib n disk_interrupt (fresh_calls s.sys) s.sems t w
          → measure (record s { sys = t; sems = w }) + 1 ≡ measure s
      unfolding measure
      timer-measure busy r =
          let d =
            Finishes-done (λ _ u. Ended (fresh_calls s.sys) u) (disk_interrupt (fresh_calls s.sys))
              r.result t (disk_interrupt-Ended (fresh_calls s.sys) v.ready busy) r.ends in
          let up : effect lib (sem_up treated_requests) s.sems ≡ some w =
            sym (effects-one lib s.sems (sem_up treated_requests))
            ∙ ap (λ cs. effects lib cs s.sems) (sym d.calls)
            ∙ r.calls in
          let k = Made-inv lib s.sems w _ _ _ _ _ (up_treated-Made lib s.sems) up in
          omega (
            arith,
            k.new_,
            in_flight-one s.sys.hw.status busy,
            in_flight-idle t.hw.status d.is_idle,
          )

    disk_at-measure :
        (e : Env) (t : System) (w : Sems lib) (p : DiskPc)
        → s.disk_pc ≡ p
        → n < 2 ^ 31
        → e.timer_set ≡ true
        → Runs lib n (disk_segment e p) (fresh_calls s.sys) s.sems t w
        → IsLower p (measure (record s { sys = t; sems = w; disk_pc = disk_after p t })) (measure s)
    unfolding disk_segment disk_after
    disk_at-measure e t w waiting at_ few set r = inl (wait-measure t w at_ r)
    disk_at-measure e t w scheduling at_ few set r = serve-measure t w e few set at_ r
    disk_at-measure e t w ended at_ few set r = absurd (v.alive at_)

  pub Work-IsLower :
      (s : State lib n) {t : State lib n}
      → Inv lib n s
      → n < 2 ^ 31
      → Work lib n s t
      → IsLower s.disk_pc (measure t) (measure s)
  Work-IsLower s v few (client i t w inside away r) =
      inl (client-measure s v i inside t w (s.pc i) refl away r)
  Work-IsLower s v few (disk_task e t w set alive r) =
      disk_at-measure s v e t w s.disk_pc refl few set r
  Work-IsLower s v few (timer t w busy r) = inl (timer-measure s v t w busy r)

  pub Work-measure :
      (s : State lib n) {t : State lib n}
      → Inv lib n s
      → n < 2 ^ 31
      → Work lib n s t
      → measure t < measure s
  Work-measure s v few st = elim (Work-IsLower s v few st) [
    | inl one_less ↦ omega arith
    | inr (refl, two_less) ↦ omega arith
  ]

  -- The measure is bounded by the number of tasks.
  pub measure-le : (s : State lib n) → Inv lib n s → measure s ≤ 7 * n + 3
  unfolding measure steps_left
  measure-le s v =
      omega (arith, v.tokens, awaits-le lib n s v, total-le-mul steps_left 7 steps_left-le n s.pc)
    where
      steps_left-le : (p : Pc) → steps_left p ≤ 7
      steps_left-le outside = omega arith
      steps_left-le queued = omega arith
      steps_left-le locked = omega arith
      steps_left-le signalled = omega arith
      steps_left-le served = omega arith
