-- ===== src/Protocol/Reachable.antt =====
-- The states that the tasks can reach.
use ping_pong_so.Base.{[], ap, arith, refl, sym, true, ℕ, ◌<◌, ◌^◌, ◌∙◌, ◌≡◌}
use ping_pong_so.Base.Int.{pos_part}
use ping_pong_so.Device.{Env}
use ping_pong_so.Manager.{disk_mgr_init}
use ping_pong_so.Manager.Startup.{Started, disk_mgr_init-Started}
use ping_pong_so.Manager.State.{System}
use ping_pong_so.Protocol.{
  DiskPc, IsBoot, Reach, Runs, State, Step, Work, client, clock, disk_after, disk_segment,
  disk_task, ended, enter, fresh_calls, later, outside, scheduling, start, timer, waiting, work,
}
use ping_pong_so.Protocol.Clients.{Finishes-done, Inv-counts, client-Inv}
use ping_pong_so.Protocol.Counts.{Made-inv, startup-Made}
use ping_pong_so.Protocol.Entering.{enter-Inv}
use ping_pong_so.Protocol.Invariant.{Inv, at_scheduler, awaits, holds_mutex, unannounced}
use ping_pong_so.Protocol.Serving.{serving-Inv}
use ping_pong_so.Protocol.Sync.{Sems, SyncLib, effects}
use ping_pong_so.Protocol.Timer.{disk_wait-Inv, in_flight-idle, timer-Inv}
use ping_pong_so.Requests.{empty_list}
use ping_pong_so.Requests.Memory.{Node}
use ping_pong_so.Totals.{total-same}

module _ (lib : SyncLib) (n : ℕ) where
  start-Inv :
      (e : Env) (s t : System) (v w : Sems lib)
      → IsBoot e s
      → Runs lib n (disk_mgr_init e true true) (fresh_calls s) v t w
      → Inv lib n (record { sys = t; sems = w; pc = λ _. outside; disk_pc = waiting })
  unfolding holds_mutex awaits unannounced at_scheduler
  start-Inv e s t v w b r =
      let k =
        Finishes-done (Started (pos_part e.file_end) (fresh_calls s))
          (disk_mgr_init e true true (fresh_calls s)) r.result t
          (disk_mgr_init-Started e (fresh_calls s) b.unknown_ b.opened b.created b.sized b.small)
          r.ends in
      let made = sym (ap (λ cs. effects lib cs v) k.calls) ∙ r.calls in
      let c = Made-inv lib v w _ _ _ _ _ (startup-Made lib v) made in
      record {
        list = empty_list;
        entries = [];
        there = k.list;
        queue = record { chain = tt; first = refl; last = refl; size = refl; distinct = tt };
        kinds = tt;
        ready = k.ready;
        keeps = λ m. ap (λ (f : Node → Node). (f m).request) k.residue ∙ b.keeps m;
        init = k.init;
        alive = λ no. cc;
        queue_free = c.queue_;
        holder = total-same holds_mutex n outside refl ∙ sym c.requests_;
        tokens = omega (
          arith,
          total-same awaits n outside refl,
          c.new_,
          c.treated_,
          in_flight-idle t.hw.status k.is_idle,
        );
        pending = omega (arith, total-same unannounced n outside refl, c.new_);
      }

  module _ (few : n < 2 ^ 31) where
    disk_at :
        (s : State lib n) (v : Inv lib n s) (e : Env) (t : System) (w : Sems lib) (p : DiskPc)
        → s.disk_pc ≡ p
        → e.timer_set ≡ true
        → Runs lib n (disk_segment e p) (fresh_calls s.sys) s.sems t w
        → Inv lib n (record s { sys = t; sems = w; disk_pc = disk_after p t })
    unfolding disk_segment disk_after
    disk_at s v e t w waiting at_ set r = disk_wait-Inv lib n s v t w at_ r
    disk_at s v e t w scheduling at_ set r = serving-Inv lib n s v e set at_ t w few r
    disk_at s v e t w ended at_ set r = absurd (v.alive at_)

    pub Work-Inv : (s : State lib n) {t : State lib n} → Inv lib n s → Work lib n s t → Inv lib n t
    Work-Inv s v (client i t w inside away r) = client-Inv lib n s v i inside t w away r
    Work-Inv s v (disk_task e t w set alive r) = disk_at s v e t w s.disk_pc refl set r
    Work-Inv s v (timer t w busy r) = timer-Inv lib n s v t w busy r

    Step-Inv : (s : State lib n) {t : State lib n} → Inv lib n s → Step lib n s t → Inv lib n t
    Step-Inv s v (work st) = Work-Inv s v st
    Step-Inv s v (enter i fresh action block buffer t w inside away kind ne dead r) =
        enter-Inv lib n s v i inside away fresh action block buffer t w few kind ne dead r
    Step-Inv s v (clock now) =
        Inv-counts lib n s (record s { sys = record s.sys { system_time = now } }) v
          (record { list = refl; cells = refl; residue = refl; hw = refl; init = refl }) v.alive
          v.queue_free v.holder v.tokens v.pending

    -- In every state that fewer than 2^31 tasks can reach, the list is well linked and holds only
    -- reads and writes, the disk is ready, the mutex of requests is held by one task exactly while a
    -- task is past its lock, the tasks that wait are as many as the requests announced, about to be
    -- served, at work or treated, and the list is as long as the requests that have not been handed
    -- to the disk are many.
    pub Reach-Inv : (s : State lib n) → Reach lib n s → Inv lib n s
    Reach-Inv s (start e s0 t v w b r) = start-Inv e s0 t v w b r
    Reach-Inv s (later {s = u} r st) = Step-Inv u (Reach-Inv u r) st
