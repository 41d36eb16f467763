-- ===== src/Single/Turns.antt =====
-- ppos_disk.c while one task is inside disk_block_read or disk_block_write: whose turn it is.
use ping_pong_so.Base.{
  ap, arith, if◌then◌else◌, inl, inr, refl, subst, sym, ℕ, ◌*◌, ◌+◌, ◌<◌, ◌==◌, ◌||◌, ◌∙◌, ◌≡◌, ◌≢◌,
  ◌≤◌, ◌⊎◌,
}
use ping_pong_so.Device.{Env, Status}
use ping_pong_so.Manager.State.{System}
use ping_pong_so.Protocol.{
  DiskPc, Pc, Runs, State, Work, after, as_task, client, disk_segment, disk_task, ended,
  fresh_calls, locked, outside, queued, scheduling, segment, served, signalled, timer, waiting,
}
use ping_pong_so.Protocol.Clients.{sync-Called}
use ping_pong_so.Protocol.Counts.{down_new-Made, down_treated-Made}
use ping_pong_so.Protocol.Invariant.{Inv, at_scheduler, awaits, in_flight}
use ping_pong_so.Protocol.Measure.{measure, steps_left}
use ping_pong_so.Protocol.Sync.{Sems, SyncLib}
use ping_pong_so.Protocol.Timer.{awaits-le, in_flight-one}
use ping_pong_so.Totals.{total, total-lone, with_pc-cases}
use native.Mathlib.Decide.{dec_lt}

pub data Actor : Type 0 where
  the_caller : Actor
  the_disk_task : Actor
  the_timer : Actor

-- Whose turn it is with so many steps left, for a request that the disk takes.
unfoldable pub actor_at : ℕ → Actor
actor_at k = if k == 3 then the_timer else if k == 4 || k == 5 then the_disk_task else the_caller

module _ (lib : SyncLib) (n : ℕ) where
  -- Who takes a step.
  unfoldable pub by_whom : {s t : State lib n} → Work lib n s t → Actor
  by_whom (client i t w inside away r) = the_caller
  by_whom (disk_task e t w set alive r) = the_disk_task
  by_whom (timer t w busy r) = the_timer

  -- No task but `i` is inside.
  abbrev pub Alone : ℕ → State lib n → Type 0
  Alone i s = (j : ℕ) → j < n → j ≢ i → s.pc j ≡ outside

  module _ (s : State lib n) (v : Inv lib n s) (i : ℕ) (within : i < n) (lone : Alone i s) where
    lone_total : (f : Pc → ℕ) → f outside ≡ 0 → total f n s.pc ≡ f (s.pc i)
    lone_total f uncounted =
        total-lone f n s.pc i within (λ j hj away. ap f (lone j hj away) ∙ uncounted)

    -- What the invariant says where the only task inside stands.
    lone_tokens :
        (p : Pc)
        → s.pc i ≡ p
        → awaits p
          ≡ lib.value s.sems.new_count
            + at_scheduler s.disk_pc
            + in_flight s.sys.hw.status
            + lib.value s.sems.treated_count
    unfolding awaits
    lone_tokens p at_ = omega (arith, v.tokens, lone_total awaits refl, ap awaits at_)

    lone_measure :
        (p : Pc)
        → s.pc i ≡ p
        → measure lib n s
          ≡ steps_left p
            + 3 * lib.value s.sems.new_count
            + 2 * at_scheduler s.disk_pc
            + in_flight s.sys.hw.status
    unfolding measure steps_left
    lone_measure p at_ = omega (arith, lone_total steps_left refl, ap steps_left at_)

    -- Each step is taken by the one whose turn it is.
    client_turn :
        (p : Pc) (t : System) (w : Sems lib)
        → s.pc i ≡ p
        → p ≢ outside
        → Runs lib n (segment p) (as_task i s.sys) s.sems t w
        → actor_at (measure lib n s) ≡ the_caller
    unfolding segment actor_at awaits steps_left
    client_turn outside t w at_ away r = absurd (away refl)
    client_turn queued t w at_ away r =
        let here : measure lib n s ≡ 7 =
          omega (arith, lone_tokens queued at_, lone_measure queued at_) in
        rw here refl
    client_turn locked t w at_ away r =
        let here : measure lib n s ≡ 6 =
          omega (arith, lone_tokens locked at_, lone_measure locked at_) in
        rw here refl
    client_turn signalled t w at_ away r =
        let c = sync-Called lib n _ i s.sys s.sems t w r in
        elim (down_treated-Made lib s.sems) [
          | inl (h, stuck) ↦ cc (stuck, c.effect_)
          | inr (j, h, m) ↦
              let here : measure lib n s ≡ 2 =
                omega (arith, h, lone_tokens signalled at_, lone_measure signalled at_) in
              rw here refl
        ]
    client_turn served t w at_ away r =
        let here : measure lib n s ≡ 1 =
          omega (arith, lone_tokens served at_, lone_measure served at_) in
        rw here refl

    -- While something is to be done for it, the caller waits.
    lone_waits :
        (p : Pc)
        → s.pc i ≡ p
        → 1 ≤ lib.value s.sems.new_count + at_scheduler s.disk_pc + in_flight s.sys.hw.status
        → measure lib n s
          ≡ 2
            + 3 * lib.value s.sems.new_count
            + 2 * at_scheduler s.disk_pc
            + in_flight s.sys.hw.status
    unfolding awaits steps_left
    lone_waits outside at_ more = absurd (omega (arith, lone_tokens outside at_))
    lone_waits queued at_ more = absurd (omega (arith, lone_tokens queued at_))
    lone_waits locked at_ more = absurd (omega (arith, lone_tokens locked at_))
    lone_waits signalled at_ more = lone_measure signalled at_
    lone_waits served at_ more = absurd (omega (arith, lone_tokens served at_))

    pub scheduling-measure : s.disk_pc ≡ scheduling → measure lib n s ≡ 4
    unfolding at_scheduler
    scheduling-measure at_ =
        let now = ap at_scheduler at_ in
        omega
          (arith, now, lone_waits (s.pc i) refl (omega (arith, now)), v.tokens, awaits-le lib n s v)

    pub queued-measure : s.pc i ≡ queued → measure lib n s ≡ 7
    unfolding steps_left awaits
    queued-measure at_ = omega (arith, lone_tokens queued at_, lone_measure queued at_)

    -- No step is left exactly when the caller is back.
    outside-measure : s.pc i ≡ outside → measure lib n s ≡ 0
    unfolding steps_left awaits
    outside-measure at_ = omega (arith, lone_tokens outside at_, lone_measure outside at_)

    measure-outside : (p : Pc) → s.pc i ≡ p → measure lib n s ≡ 0 → p ≡ outside
    unfolding steps_left
    measure-outside outside at_ e = refl
    measure-outside queued at_ e = absurd (omega (arith, lone_measure queued at_))
    measure-outside locked at_ e = absurd (omega (arith, lone_measure locked at_))
    measure-outside signalled at_ e = absurd (omega (arith, lone_measure signalled at_))
    measure-outside served at_ e = absurd (omega (arith, lone_measure served at_))

    pub measure-cases :
        ((measure lib n s ≡ 0) × (s.pc i ≡ outside)) ⊎ ((measure lib n s ≢ 0) × (s.pc i ≢ outside))
    measure-cases = elim (dec_lt 0 (measure lib n s)) [
      | yes more ↦ inr ((λ e. omega arith), λ e. omega (arith, outside-measure e))
      | no over ↦
          let e : measure lib n s ≡ 0 = omega arith in inl (e, measure-outside (s.pc i) refl e)
    ]

    disk_turn :
        (e : Env) (d : DiskPc) (t : System) (w : Sems lib)
        → s.disk_pc ≡ d
        → d ≢ ended
        → Runs lib n (disk_segment e d) (fresh_calls s.sys) s.sems t w
        → actor_at (measure lib n s) ≡ the_disk_task
    unfolding disk_segment actor_at at_scheduler
    disk_turn e waiting t w at_ alive r =
        let c = sync-Called lib n _ s.sys.task_exec s.sys s.sems t w r in
        elim (down_new-Made lib s.sems) [
          | inl (h, stuck) ↦ cc (stuck, c.effect_)
          | inr (j, h, m) ↦
              let here : measure lib n s ≡ 5 = omega (
                arith,
                h,
                lone_waits (s.pc i) refl (omega (arith, h)),
                v.tokens,
                awaits-le lib n s v,
              ) in
              rw here refl
        ]
    disk_turn e scheduling t w at_ alive r =
        let now = ap at_scheduler at_ in
        let here : measure lib n s ≡ 4 = omega (
          arith,
          now,
          lone_waits (s.pc i) refl (omega (arith, now)),
          v.tokens,
          awaits-le lib n s v,
        ) in
        rw here refl
    disk_turn e ended t w at_ alive r = absurd (alive refl)

    timer_turn : s.sys.hw.status ≢ Status.idle → actor_at (measure lib n s) ≡ the_timer
    unfolding actor_at
    timer_turn busy =
        let now = in_flight-one s.sys.hw.status busy in
        let here : measure lib n s ≡ 3 = omega (
          arith,
          now,
          lone_waits (s.pc i) refl (omega (arith, now)),
          v.tokens,
          awaits-le lib n s v,
        ) in
        rw here refl

    pub by_whom-actor_at :
        {t : State lib n} (st : Work lib n s t) → by_whom st ≡ actor_at (measure lib n s)
    unfolding by_whom
    by_whom-actor_at (client j t w inside away r) = elim (with_pc-cases s.pc i outside j) [
      | inl (here, same) ↦ sym (
          client_turn (s.pc j) t w (ap s.pc (sym here)) away
            (subst (λ k. Runs lib n (segment (s.pc j)) (as_task k s.sys) s.sems t w) here r))
      | inr (apart, same) ↦ absurd (away (lone j inside apart))
    ]
    by_whom-actor_at (disk_task e t w set_ alive r) = sym (disk_turn e s.disk_pc t w refl alive r)
    by_whom-actor_at (timer t w busy r) = sym (timer_turn busy)

    pub Alone-Work : {t : State lib n} (st : Work lib n s t) → Alone i t
    Alone-Work (client j t w inside away r) k hk apart =
        elim (with_pc-cases s.pc j (after (s.pc j)) k) [
          | inl (here, same) ↦ absurd (away (lone j inside (λ e. apart (here ∙ e))))
          | inr (away_from, same) ↦ same ∙ lone k hk apart
        ]
    Alone-Work (disk_task e t w set_ alive r) k hk apart = lone k hk apart
    Alone-Work (timer t w busy r) k hk apart = lone k hk apart
