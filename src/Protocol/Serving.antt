-- ===== src/Protocol/Serving.antt =====
-- The invariant and the step of the disk task that runs diskScheduler.
use ping_pong_so.Base.{
  All, Bool, Option, [], ap, arith, if◌then◌else◌, inl, inr, length, refl, some, subst, suc, sym,
  true, ℕ, ◌++◌, ◌+◌, ◌<◌, ◌^◌, ◌∙◌, ◌∷◌, ◌≡◌, ◌≢◌, ◌≤◌,
}
use ping_pong_so.Base.Int.{ℤ}
use ping_pong_so.Device.{Env, Status}
use ping_pong_so.Manager.{disk_scheduler}
use ping_pong_so.Manager.Dispatch.{answer}
use ping_pong_so.Manager.State.{Finishes, Result, System, done, next, return}
use ping_pong_so.Manager.Takes.{Answered, IsTransfer, Takes, disk_scheduler-Takes, requeue_cells}
use ping_pong_so.Protocol.{
  Pc, Runs, State, disk_after, disk_segment, ended, fresh_calls, locked, outside, queued,
  scheduling, served, signalled, waiting,
}
use ping_pong_so.Protocol.Clients.{Finishes-done}
use ping_pong_so.Protocol.Counts.{Made-inv, effects-none, effects-one, up_treated-Made}
use ping_pong_so.Protocol.Invariant.{Inv, at_scheduler, awaits, in_flight, unannounced}
use ping_pong_so.Protocol.Sync.{Counts, Sems, SyncLib, effect, effects, held}
use ping_pong_so.Protocol.Timer.{awaits-le, in_flight-idle, in_flight-one, in_flight-zero}
use ping_pong_so.Requests.Memory.{Ptr, Request, sem_up, treated_requests}
use ping_pong_so.Requests.Queue.{IsQueue}
use ping_pong_so.Requests.Segment.{Entries}
use ping_pong_so.Totals.{total-le-both}

pub nonempty : (xs : Entries) → length xs ≢ 0 → (x : Ptr × Request) × (ys : Entries) × (xs ≡ x ∷ ys)
nonempty [] ne = absurd (ne refl)
nonempty (x ∷ ys) ne = (x, ys, refl)

All-without :
    (P : Ptr × Request → Type 0) (xs : Entries) (m : Ptr × Request) (ys : Entries)
    → All P (xs ++ m ∷ ys)
    → All P (xs ++ ys)
All-without P [] m ys a = a.1
All-without P (x ∷ xs) m ys a = (a.0, All-without P xs m ys a.1)

length-without :
    (xs : Entries) (m : Ptr × Request) (ys : Entries)
    → length (xs ++ m ∷ ys) ≡ suc (length (xs ++ ys))
length-without [] m ys = refl
length-without (x ∷ xs) m ys = ap (λ k. suc k) (length-without xs m ys)

-- A run whose result is dropped.
module _ {A : Type 0} (P : A → System → Type 0) where
  drop-Finishes :
      (r : Result A) → Finishes P r → Finishes (λ _ t. (a : A) × P a t) (next r (λ _. return tt))
  drop-Finishes (done a t) k = (a, k)
  drop-Finishes Result.exited k = absurd k
  drop-Finishes Result.fault k = absurd k
  drop-Finishes Result.out_of_fuel k = absurd k

pub exclusive : (p : Pc) → unannounced p + awaits p ≤ 1
unfolding unannounced awaits
exclusive outside = omega arith
exclusive queued = omega arith
exclusive locked = omega arith
exclusive signalled = omega arith
exclusive served = omega arith

-- The list is never longer than there are tasks.
module _ (lib : SyncLib) (n : ℕ) (s : State lib n) (v : Inv lib n s) where
  pub length-le : length v.entries ≤ n
  length-le = omega (arith, v.pending, v.tokens, total-le-both unannounced awaits exclusive n s.pc)

  module _ (e : Env) (set : e.timer_set ≡ true) (at_ : s.disk_pc ≡ scheduling) where
    one : at_scheduler s.disk_pc ≡ 1
    unfolding at_scheduler
    one = rw at_ refl

    -- The disk is idle when the disk task serves a request.
    pub serving-idle : s.sys.hw.status ≡ Status.idle
    serving-idle =
        in_flight-zero s.sys.hw.status (omega (arith, awaits-le lib n s v, v.tokens, one))

    pub serving-Takes :
        n < 2 ^ 31
        → Finishes (Takes (fresh_calls s.sys) v.entries) (disk_scheduler e (fresh_calls s.sys))
    serving-Takes few =
        let (x, xs, is) = nonempty v.entries (omega (arith, v.pending, one)) in
        rw is (
          disk_scheduler-Takes e (fresh_calls s.sys) v.list x xs v.there
            (subst (IsQueue (fresh_calls s.sys).mem v.list) is (requeue_cells refl v.queue))
            (omega (arith, length-le, ap (λ (ys : Entries). length ys) is)) v.ready serving-idle set
            (subst (All (λ y. IsTransfer y.1)) is v.kinds) v.keeps)

    module _ (t : System) (w : Sems lib) where
      abbrev served_ : State lib n
      served_ = record s { sys = t; sems = w; disk_pc = waiting }

      -- Either the disk is at work, or the waiting task may go on.
      Answered-Counts :
          (a : ℤ)
          → Answered (fresh_calls s.sys) a t
          → effects lib t.mem.calls s.sems ≡ some w
          → (k : ℕ) × Counts lib w
              (held lib s.sems.request_lock)
              (held lib s.sems.queue_lock)
              (lib.value s.sems.new_count)
              k
            × (in_flight t.hw.status + k ≡ 1 + lib.value s.sems.treated_count)
      Answered-Counts a (inl (ok_, busy, calls)) made =
          let same : ◌≡◌ {A = Option (Sems lib)} (some s.sems) (some w) =
            sym (ap (λ cs. effects lib cs s.sems) calls ∙ effects-none lib s.sems) ∙ made in
          (
            lib.value s.sems.treated_count,
            subst
                (λ (u : Sems lib).
                  Counts lib u (held lib s.sems.request_lock) (held lib s.sems.queue_lock)
                    (lib.value s.sems.new_count) (lib.value s.sems.treated_count))
                (cc same)
                (record { requests_ = refl; queue_ = refl; new_ = refl; treated_ = refl }),
            omega (arith, in_flight-one t.hw.status busy),
          )
      Answered-Counts a (inr (failed, is, calls)) made =
          let up : effect lib (sem_up treated_requests) s.sems ≡ some w =
            sym (
              ap (λ cs. effects lib cs s.sems) calls
              ∙ effects-one lib s.sems (sem_up treated_requests))
            ∙ made in
          (
            suc (lib.value s.sems.treated_count),
            Made-inv lib s.sems w _ _ _ _ _ (up_treated-Made lib s.sems) up,
            omega (arith, in_flight-idle t.hw.status is),
          )

      Takes-Inv :
          (a : ℤ)
          → Takes (fresh_calls s.sys) v.entries a t
          → effects lib t.mem.calls s.sems ≡ some w
          → Inv lib n served_
      unfolding at_scheduler
      Takes-Inv a k made =
          let (treated, c, answer) = Answered-Counts a k.answered made in
          let rest = k.nearest.before ++ k.nearest.after in
          let fewer : length v.entries ≡ suc (length rest) =
            ap (λ (ys : Entries). length ys) k.nearest.split
            ∙ length-without k.nearest.before k.chosen k.nearest.after in
          record {
            list = k.list;
            entries = rest;
            there = k.left;
            queue = k.queue;
            kinds =
                All-without (λ y. IsTransfer y.1) k.nearest.before k.chosen k.nearest.after
                  (subst (All (λ y. IsTransfer y.1)) k.nearest.split v.kinds);
            ready = k.ready;
            keeps = rw k.residue v.keeps;
            init = k.init ∙ v.init;
            alive = λ no. cc;
            queue_free = c.queue_ ∙ v.queue_free;
            holder = omega (arith, c.requests_, v.holder);
            tokens = omega (
              arith,
              c.new_,
              c.treated_,
              answer,
              v.tokens,
              one,
              in_flight-idle s.sys.hw.status serving-idle,
            );
            pending = omega (arith, c.new_, fewer, v.pending, one);
          }

      serving-taken :
          n < 2 ^ 31
          → Runs lib n (disk_segment e scheduling) (fresh_calls s.sys) s.sems t w
          → (a : ℤ) × Takes (fresh_calls s.sys) v.entries a t
      unfolding disk_segment
      serving-taken few r =
          Finishes-done (λ _ u. (a : ℤ) × Takes (fresh_calls s.sys) v.entries a u)
            (next (disk_scheduler e (fresh_calls s.sys)) (λ _. return tt)) r.result t
            (drop-Finishes (Takes (fresh_calls s.sys) v.entries)
              (disk_scheduler e (fresh_calls s.sys)) (serving-Takes few))
            r.ends

      pub serving-Counts :
          n < 2 ^ 31
          → Runs lib n (disk_segment e scheduling) (fresh_calls s.sys) s.sems t w
          → (k : ℕ) × Counts lib w
              (held lib s.sems.request_lock)
              (held lib s.sems.queue_lock)
              (lib.value s.sems.new_count)
              k
            × (in_flight t.hw.status + k ≡ 1 + lib.value s.sems.treated_count)
      serving-Counts few r =
          let (a, k) = serving-taken few r in Answered-Counts a k.answered r.calls

      pub serving-Inv :
          n < 2 ^ 31
          → Runs lib n (disk_segment e scheduling) (fresh_calls s.sys) s.sems t w
          → Inv lib n (record s { sys = t; sems = w; disk_pc = disk_after scheduling t })
      unfolding disk_segment disk_after
      serving-Inv few r =
          let (a, k) = serving-taken few r in
          subst
            (λ (b : Bool).
              Inv lib n (record s { sys = t; sems = w; disk_pc = if b then waiting else ended }))
            (sym (k.init ∙ v.init)) (Takes-Inv a k r.calls)
