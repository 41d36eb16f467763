-- ===== src/Protocol/Timer.antt =====
-- The invariant and the steps of the waiting disk task and of the disk's timer.
use ping_pong_so.Base.{ap, arith, inl, inr, refl, some, sym, ℕ, ◌∙◌, ◌≡◌, ◌≢◌, ◌≤◌}
use ping_pong_so.Device.{Status}
use ping_pong_so.Manager.{disk_interrupt}
use ping_pong_so.Manager.Interrupt.{Ended, disk_interrupt-Ended}
use ping_pong_so.Manager.State.{System, sync}
use ping_pong_so.Manager.Takes.{requeue_cells}
use ping_pong_so.Protocol.{
  Pc, Runs, State, fresh_calls, locked, outside, queued, scheduling, served, signalled, waiting,
}
use ping_pong_so.Protocol.Clients.{Finishes-done, Inv-counts, sync-Called}
use ping_pong_so.Protocol.Counts.{Made-inv, down_new-Made, effects-one, held-le, up_treated-Made}
use ping_pong_so.Protocol.Invariant.{Inv, at_scheduler, awaits, holds_mutex, in_flight}
use ping_pong_so.Protocol.Sync.{Sems, SyncLib, effect, effects}
use ping_pong_so.Requests.Memory.{new_requests, sem_down, sem_up, treated_requests}
use ping_pong_so.Totals.{total, total-le}

pub in_flight-zero : (a : Status) → in_flight a ≡ 0 → a ≡ Status.idle
unfolding in_flight
in_flight-zero Status.unknown e = absurd (omega arith)
in_flight-zero Status.idle e = refl
in_flight-zero Status.reading e = absurd (omega arith)
in_flight-zero Status.writing e = absurd (omega arith)

pub in_flight-one : (a : Status) → a ≢ Status.idle → in_flight a ≡ 1
unfolding in_flight
in_flight-one Status.unknown ne = refl
in_flight-one Status.idle ne = absurd (ne refl)
in_flight-one Status.reading ne = refl
in_flight-one Status.writing ne = refl

pub in_flight-idle : (a : Status) → a ≡ Status.idle → in_flight a ≡ 0
unfolding in_flight
in_flight-idle a e = rw e refl

module _ (lib : SyncLib) (n : ℕ) (s : State lib n) (v : Inv lib n s) where
  -- At most one task waits.
  pub awaits-le : total awaits n s.pc ≤ 1
  unfolding awaits holds_mutex
  awaits-le = omega (
    arith,
    total-le awaits holds_mutex awaits-le-holds n s.pc,
    v.holder,
    held-le lib s.sems.request_lock,
  )
    where
      awaits-le-holds : (p : Pc) → awaits p ≤ holds_mutex p
      awaits-le-holds outside = omega arith
      awaits-le-holds queued = omega arith
      awaits-le-holds locked = omega arith
      awaits-le-holds signalled = omega arith
      awaits-le-holds served = omega arith

  module _ (t : System) (w : Sems lib) where
    pub disk_wait-Inv :
        s.disk_pc ≡ waiting
        → Runs lib n (sync (sem_down new_requests)) (fresh_calls s.sys) s.sems t w
        → Inv lib n (record s { sys = t; sems = w; disk_pc = scheduling })
    unfolding at_scheduler
    disk_wait-Inv at_ r =
        let c = sync-Called lib n _ s.sys.task_exec s.sys s.sems t w r in
        let before : at_scheduler s.disk_pc ≡ 0 = rw at_ refl in
        elim (down_new-Made lib s.sems) [
          | inl (h, stuck) ↦ cc (stuck, c.effect_)
          | inr (j, h, m) ↦
              let k = Made-inv lib s.sems w _ _ _ _ _ m c.effect_ in
              Inv-counts lib n s (record s { sys = t; sems = w; disk_pc = scheduling }) v c.same
                (λ no. cc) (omega (arith, k.queue_, v.queue_free))
                (omega (arith, k.requests_, v.holder))
                (omega (arith, k.new_, k.treated_, h, v.tokens, before))
                (omega (arith, k.new_, h, v.pending, before))
        ]

    pub timer-Inv :
        s.sys.hw.status ≢ Status.idle
        → Runs lib n disk_interrupt (fresh_calls s.sys) s.sems t w
        → Inv lib n (record s { sys = t; sems = w })
    timer-Inv busy r =
        let d =
          Finishes-done (λ _ u. Ended (fresh_calls s.sys) u) (disk_interrupt (fresh_calls s.sys))
            r.result t (disk_interrupt-Ended (fresh_calls s.sys) v.ready busy) r.ends in
        let up : effect lib (sem_up treated_requests) s.sems ≡ some w =
          sym (effects-one lib s.sems (sem_up treated_requests))
          ∙ ap (λ cs. effects lib cs s.sems) (sym d.calls)
          ∙ r.calls in
        let k = Made-inv lib s.sems w _ _ _ _ _ (up_treated-Made lib s.sems) up in
        record {
          list = v.list;
          entries = v.entries;
          there = d.list ∙ v.there;
          queue = requeue_cells d.cells v.queue;
          kinds = v.kinds;
          ready = d.ready;
          keeps = rw d.residue v.keeps;
          init = ap (λ q. q.init) d.disk ∙ v.init;
          alive = v.alive;
          queue_free = k.queue_ ∙ v.queue_free;
          holder = omega (arith, k.requests_, v.holder);
          tokens = omega (
            arith,
            k.new_,
            k.treated_,
            v.tokens,
            in_flight-one s.sys.hw.status busy,
            in_flight-idle t.hw.status d.is_idle,
          );
          pending = omega (arith, k.new_, v.pending);
        }
