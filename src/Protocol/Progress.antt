-- ===== src/Protocol/Progress.antt =====
-- The steps that can be taken while a task is inside disk_block_read or disk_block_write.
use ping_pong_so.Base.{
  [], ap, arith, inl, inr, refl, some, subst, sym, true, ℕ, ◌<◌, ◌^◌, ◌∙◌, ◌∷◌, ◌≡◌, ◌≢◌,
}
use ping_pong_so.Base.Int.{ℤ}
use ping_pong_so.Device.{Env, Status}
use ping_pong_so.Kernel.Ring.{holds}
use ping_pong_so.Manager.{disk_interrupt, disk_scheduler}
use ping_pong_so.Manager.Interrupt.{Ended, disk_interrupt-Ended}
use ping_pong_so.Manager.Serve.{taken}
use ping_pong_so.Manager.State.{Finishes-inv, System, sync}
use ping_pong_so.Manager.Takes.{Answered, Takes}
use ping_pong_so.Protocol.{
  DiskPc, Pc, Runs, State, Work, as_task, client, disk_segment, disk_task, ended, fresh_calls,
  locked, outside, queued, scheduling, segment, served, signalled, timer, waiting,
}
use ping_pong_so.Protocol.Counts.{
  Made, down_new-Made, down_treated-Made, effects-none, effects-one, lock-Made, unlock-Made,
  up_new-Made, up_treated-Made,
}
use ping_pong_so.Protocol.Invariant.{Inv, at_scheduler, awaits, holds_mutex}
use ping_pong_so.Protocol.Serving.{serving-Takes}
use ping_pong_so.Protocol.Sync.{Sems, SyncLib, effect, effects, held}
use ping_pong_so.Protocol.Timer.{in_flight-idle}
use ping_pong_so.Requests.Memory.{SyncCall}
use ping_pong_so.Totals.{le-total, total-pos}
use native.Mathlib.Decide.{dec_lt}

module _ (lib : SyncLib) (n : ℕ) (s : State lib n) (v : Inv lib n s) where
  -- Some step can be taken.
  abbrev Moves : Type 0
  Moves = (t : State lib n) × Work lib n s t

  -- A call that does not block can be made.
  sync-Runs :
      (c : SyncCall) (i a b k l : ℕ)
      → Made lib s.sems (effect lib c s.sems) a b k l
      → (t : System) × (w : Sems lib) × Runs lib n (sync c) (as_task i s.sys) s.sems t w
  sync-Runs c i a b k l m = (
    record s.sys { task_exec = i; mem = record s.sys.mem { calls = c ∷ [] } },
    m.left,
    record { result = tt; ends = refl; calls = effects-one lib s.sems c ∙ m.made },
  )

  client-Moves :
      (i : ℕ) (p : Pc)
      → i < n
      → s.pc i ≡ p
      → p ≢ outside
      → (t : System) × (w : Sems lib) × Runs lib n (segment p) (as_task i s.sys) s.sems t w
      → Moves
  client-Moves i p inside at_ away (t, w, r) = (
    _,
    client i t w inside (λ e. away (sym at_ ∙ e))
        (subst (λ (q : Pc). Runs lib n (segment q) (as_task i s.sys) s.sems t w) (sym at_) r),
  )

  lock-Moves : (i : ℕ) → i < n → s.pc i ≡ queued → held lib s.sems.request_lock ≡ 0 → Moves
  unfolding segment
  lock-Moves i inside at_ idle_ = elim (lock-Made lib s.sems) [
    | inl (h, stuck) ↦ absurd (omega arith)
    | inr (h, m) ↦ client-Moves i queued inside at_ (λ e. cc) (sync-Runs _ i _ _ _ _ m)
  ]

  signal-Moves : (i : ℕ) → i < n → s.pc i ≡ locked → Moves
  unfolding segment
  signal-Moves i inside at_ =
      client-Moves i locked inside at_ (λ e. cc) (sync-Runs _ i _ _ _ _ (up_new-Made lib s.sems))

  unlock-Moves : (i : ℕ) → i < n → s.pc i ≡ served → Moves
  unfolding segment
  unlock-Moves i inside at_ =
      client-Moves i served inside at_ (λ e. cc) (sync-Runs _ i _ _ _ _ (unlock-Made lib s.sems))

  wake-Moves : (i : ℕ) → i < n → s.pc i ≡ signalled → lib.value s.sems.treated_count ≢ 0 → Moves
  unfolding segment
  wake-Moves i inside at_ some_ = elim (down_treated-Made lib s.sems) [
    | inl (h, stuck) ↦ absurd (some_ h)
    | inr (j, h, m) ↦ client-Moves i signalled inside at_ (λ e. cc) (sync-Runs _ i _ _ _ _ m)
  ]

  timer-Moves : s.sys.hw.status ≢ Status.idle → Moves
  timer-Moves busy =
      let (u, t, run, d) =
        Finishes-inv (λ _ t. Ended (fresh_calls s.sys) t) (disk_interrupt (fresh_calls s.sys))
          (disk_interrupt-Ended (fresh_calls s.sys) v.ready busy) in
      let m = up_treated-Made lib s.sems in
      (
        _,
        timer t m.left busy (record {
          result = u;
          ends = run;
          calls = ap (λ cs. effects lib cs s.sems) d.calls ∙ effects-one lib s.sems _ ∙ m.made;
        }),
      )

  disk-Moves :
      (e : Env) (p : DiskPc) (t : System) (w : Sems lib)
      → e.timer_set ≡ true
      → s.disk_pc ≡ p
      → Runs lib n (disk_segment e p) (fresh_calls s.sys) s.sems t w
      → Moves
  disk-Moves e p t w set at_ r = (
    _,
    disk_task e t w set v.alive (
        subst (λ (q : DiskPc). Runs lib n (disk_segment e q) (fresh_calls s.sys) s.sems t w)
          (sym at_) r),
  )

  wait-Moves :
      (e : Env) → e.timer_set ≡ true → s.disk_pc ≡ waiting → lib.value s.sems.new_count ≢ 0 → Moves
  unfolding disk_segment
  wait-Moves e set at_ some_ = elim (down_new-Made lib s.sems) [
    | inl (h, stuck) ↦ absurd (some_ h)
    | inr (j, h, m) ↦
        let (t, w, r) = sync-Runs _ s.sys.task_exec _ _ _ _ m in disk-Moves e waiting t w set at_ r
  ]

  Answered-effects :
      (a : ℤ) (t : System)
      → Answered (fresh_calls s.sys) a t
      → (w : Sems lib) × (effects lib t.mem.calls s.sems ≡ some w)
  Answered-effects a t (inl (x, busy, calls)) =
      (s.sems, ap (λ cs. effects lib cs s.sems) calls ∙ effects-none lib s.sems)
  Answered-effects a t (inr (x, is, calls)) =
      let m = up_treated-Made lib s.sems in
      (m.left, ap (λ cs. effects lib cs s.sems) calls ∙ effects-one lib s.sems _ ∙ m.made)

  serve-Moves : (e : Env) → n < 2 ^ 31 → e.timer_set ≡ true → s.disk_pc ≡ scheduling → Moves
  unfolding disk_segment
  serve-Moves e few set at_ =
      let (a, t, run, k) =
        Finishes-inv (Takes (fresh_calls s.sys) v.entries) (disk_scheduler e (fresh_calls s.sys))
          (serving-Takes lib n s v e set at_ few) in
      let (w, made) = Answered-effects a t k.answered in
      disk-Moves e scheduling t w set at_ (record { result = tt; ends = rw run refl; calls = made })

  -- What a task that waits is waiting for.
  awaited-Moves :
      (e : Env) (i : ℕ) (p : DiskPc)
      → n < 2 ^ 31
      → e.timer_set ≡ true
      → i < n
      → s.pc i ≡ signalled
      → s.disk_pc ≡ p
      → Moves
  unfolding awaits at_scheduler
  awaited-Moves e i ended few set inside at_ d = absurd (v.alive d)
  awaited-Moves e i scheduling few set inside at_ d = serve-Moves e few set d
  awaited-Moves e i waiting few set inside at_ d = elim (dec_lt 0 (lib.value s.sems.new_count)) [
    | yes more ↦ wait-Moves e set d (λ zero_. omega arith)
    | no none_ ↦ elim (dec_lt 0 (lib.value s.sems.treated_count)) [
      | yes more ↦ wake-Moves i inside at_ (λ zero_. omega arith)
      | no quiet ↦ timer-Moves (λ is. omega (
        arith,
        v.tokens,
        in_flight-idle s.sys.hw.status is,
        ap at_scheduler d,
        le-total awaits n s.pc i inside,
        ap awaits at_,
      ))
    ]
  ]

  holder-Moves :
      (e : Env) (i : ℕ) (p : Pc)
      → n < 2 ^ 31
      → e.timer_set ≡ true
      → i < n
      → s.pc i ≡ p
      → holds_mutex p ≢ 0
      → Moves
  unfolding holds_mutex
  holder-Moves e i outside few set inside at_ holds = absurd (holds refl)
  holder-Moves e i queued few set inside at_ holds = absurd (holds refl)
  holder-Moves e i locked few set inside at_ holds = signal-Moves i inside at_
  holder-Moves e i signalled few set inside at_ holds =
      awaited-Moves e i s.disk_pc few set inside at_ refl
  holder-Moves e i served few set inside at_ holds = unlock-Moves i inside at_

  entered-Moves :
      (e : Env) (i : ℕ) (p : Pc)
      → n < 2 ^ 31
      → e.timer_set ≡ true
      → i < n
      → s.pc i ≡ p
      → p ≢ outside
      → held lib s.sems.request_lock ≡ 0
      → Moves
  unfolding holds_mutex
  entered-Moves e i outside few set inside at_ away idle_ = absurd (away refl)
  entered-Moves e i queued few set inside at_ away idle_ = lock-Moves i inside at_ idle_
  entered-Moves e i locked few set inside at_ away idle_ = signal-Moves i inside at_
  entered-Moves e i signalled few set inside at_ away idle_ =
      awaited-Moves e i s.disk_pc few set inside at_ refl
  entered-Moves e i served few set inside at_ away idle_ = unlock-Moves i inside at_

  pub inside-Moves :
      (e : Env) (i : ℕ) → n < 2 ^ 31 → e.timer_set ≡ true → i < n → s.pc i ≢ outside → Moves
  inside-Moves e i few set inside away = elim (dec_lt 0 (held lib s.sems.request_lock)) [
    | yes taken ↦
        let (j, within, holds) = total-pos holds_mutex n s.pc (λ zero_. omega (arith, v.holder)) in
        holder-Moves e j (s.pc j) few set within refl holds
    | no free_ ↦ entered-Moves e i (s.pc i) few set inside refl away (omega arith)
  ]
