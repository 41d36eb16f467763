-- ===== src/Protocol/Safety.antt =====
-- What holds whenever the tasks, the disk task and the timer have taken any turns.
use ping_pong_so.Base.{ap, arith, length, some, subst, ℕ, ◌<◌, ◌^◌, ◌∷◌, ◌≡◌, ◌≤◌}
use ping_pong_so.Device.{Status}
use ping_pong_so.Device.Valid.{IsReady}
use ping_pong_so.Protocol.{Reach, State, scheduling}
use ping_pong_so.Protocol.Counts.{held-le}
use ping_pong_so.Protocol.Invariant.{Inv, at_scheduler, holds_mutex}
use ping_pong_so.Protocol.Reachable.{Reach-Inv}
use ping_pong_so.Protocol.Serving.{length-le, nonempty}
use ping_pong_so.Protocol.Sync.{SyncLib}
use ping_pong_so.Protocol.Timer.{awaits-le, in_flight-zero}
use ping_pong_so.Requests.{RequestList}
use ping_pong_so.Requests.Memory.{Ptr, Request}
use ping_pong_so.Requests.Queue.{IsQueue}
use ping_pong_so.Requests.Segment.{Entries}
use ping_pong_so.Totals.{le-total_two}
use native.Mathlib.Decide.{dec_lt}

module _ (lib : SyncLib) (n : ℕ) where
  not_both :
      (s : State lib n) (i j : ℕ)
      → Inv lib n s
      → i < n
      → j < i
      → holds_mutex (s.pc i) ≡ 1
      → holds_mutex (s.pc j) ≡ 1
      → ⊥
  not_both s i j v hi hj a b =
      omega (
        arith,
        le-total_two holds_mutex n s.pc i j hi hj,
        v.holder,
        held-le lib s.sems.request_lock,
      )

  -- Of fewer than 2^31 tasks, two are never past the call that takes the mutex of requests at once,
  -- whatever turns have been taken since `disk_mgr_init`.
  pub mutual_exclusion :
      (s : State lib n) (i j : ℕ)
      → n < 2 ^ 31
      → Reach lib n s
      → i < n
      → j < n
      → holds_mutex (s.pc i) ≡ 1
      → holds_mutex (s.pc j) ≡ 1
      → i ≡ j
  mutual_exclusion s i j few r hi hj a b =
      let v = Reach-Inv lib n few s r in
      elim (dec_lt j i) [
        | yes less ↦ absurd (not_both s i j v hi less a b)
        | no more ↦ elim (dec_lt i j) [
          | yes less ↦ absurd (not_both s j i v hj less b a)
          | no same ↦ omega arith
        ]
      ]

  -- What `diskScheduler` finds when the disk task calls it.
  pub record IsServing (s : State lib n) : Type 0 where
    pub list : RequestList
    pub first : Ptr × Request
    pub others : Entries
    pub there : s.sys.list ≡ some list
    pub queue : IsQueue s.sys.mem list (first ∷ others)
    pub few : length (first ∷ others) ≤ n
    pub idle_ : s.sys.hw.status ≡ Status.idle
    pub ready : IsReady s.sys.hw
    pub quiet : lib.value s.sems.treated_count ≡ 0

  -- Whenever the disk task is about to call `diskScheduler`, the list is well linked and holds at
  -- least one request and at most as many as there are tasks, the disk is ready and idle, and no
  -- treated request waits to be taken notice of: a second operation is never begun while one is at
  -- work.
  pub scheduling-IsServing :
      (s : State lib n) → n < 2 ^ 31 → Reach lib n s → s.disk_pc ≡ scheduling → IsServing s
  unfolding at_scheduler
  scheduling-IsServing s few r at_ =
      let v = Reach-Inv lib n few s r in
      let (x, xs, is) = nonempty v.entries (omega (arith, v.pending, ap at_scheduler at_)) in
      record {
        list = v.list;
        first = x;
        others = xs;
        there = v.there;
        queue = subst (IsQueue s.sys.mem v.list) is v.queue;
        few = omega (arith, length-le lib n s v, ap (λ (ys : Entries). length ys) is);
        idle_ =
            in_flight-zero s.sys.hw.status
              (omega (arith, awaits-le lib n s v, v.tokens, ap at_scheduler at_));
        ready = v.ready;
        quiet = omega (arith, awaits-le lib n s v, v.tokens, ap at_scheduler at_);
      }
