-- ===== src/Single/Order.antt =====
-- ppos_disk.c while one task is inside disk_block_read or disk_block_write: the order of the steps of
-- that task, the disk task and the timer, which is the order in which `disk_block_call` has them.
use ping_pong_so.Base.{
  Bool-cases, List, [], ap, arith, eq_of_test, if◌then◌else◌, inl, inr, refl, subst, suc, sym, true,
  zero, ℕ, ◌++◌, ◌<◌, ◌==◌, ◌^◌, ◌∙◌, ◌∷◌, ◌≡◌, ◌≢◌, ◌⊎◌,
}
use ping_pong_so.Device.{Env}
use ping_pong_so.Protocol.{Reach, State, Work, outside, queued}
use ping_pong_so.Protocol.Invariant.{Inv}
use ping_pong_so.Protocol.Measure.{IsLower, Work-IsLower, measure}
use ping_pong_so.Protocol.Progress.{inside-Moves}
use ping_pong_so.Protocol.Reachable.{Reach-Inv, Work-Inv}
use ping_pong_so.Protocol.Sync.{SyncLib}
use ping_pong_so.Single.Turns.{
  Actor, Alone, Alone-Work, actor_at, by_whom, by_whom-actor_at, measure-cases, queued-measure,
  scheduling-measure, the_caller, the_disk_task, the_timer,
}

-- The caller locks the mutex and announces its request, the disk task wakes up and calls
-- `diskScheduler`, the timer fires, and the caller wakes up and unlocks the mutex; and the same for
-- a request that the disk refuses, so that no timer is set.
abbrev pub taken_order : List Actor
taken_order =
    the_caller ∷ the_caller ∷ the_disk_task ∷ the_disk_task ∷ the_timer ∷ the_caller ∷ the_caller
    ∷ []

abbrev pub refused_order : List Actor
refused_order =
    the_caller ∷ the_caller ∷ the_disk_task ∷ the_disk_task ∷ the_caller ∷ the_caller ∷ []

-- The turns that are left when so many steps are.
unfoldable order : ℕ → List Actor
order zero = []
order (suc k) = actor_at (suc k) ∷ order k

unfoldable order_refused : ℕ → List Actor
order_refused zero = []
order_refused (suc k) = actor_at (suc k) ∷ (if k == 3 then order 2 else order_refused k)

whole_orders : (order 7 ≡ taken_order) × (order_refused 7 ≡ refused_order)
unfolding order order_refused actor_at
whole_orders = (refl, refl)

abbrev Ahead : ℕ → List Actor → ℕ → Type 0
Ahead k l m = (l ++ order m ≡ order k) ⊎ (l ++ order m ≡ order_refused k)

Ahead-suc : (k : ℕ) (l : List Actor) (m : ℕ) → Ahead k l m → Ahead (suc k) (actor_at (suc k) ∷ l) m
unfolding order order_refused
Ahead-suc k l m (inl e) = inl (ap (λ x. actor_at (suc k) ∷ x) e)
Ahead-suc k l m (inr e) = elim (Bool-cases (k == 3)) [
  | inl here ↦
      let is = eq_of_test k 3 here in
      inl (ap (λ x. actor_at (suc k) ∷ x) (e ∙ ap order_refused is ∙ sym (ap order is)))
  | inr away ↦ inr (rw away (ap (λ x. actor_at (suc k) ∷ x) e))
]

-- The disk refuses.
Ahead-refused : (l : List Actor) (m : ℕ) → Ahead 2 l m → Ahead 4 (actor_at 4 ∷ l) m
unfolding order order_refused
Ahead-refused l m (inl e) = inr (ap (λ x. actor_at 4 ∷ x) e)
Ahead-refused l m (inr e) = inr (ap (λ x. actor_at 4 ∷ x) e)

order-empty : (k : ℕ) → k ≢ 0 → order k ≢ []
unfolding order
order-empty zero ne = absurd (ne refl)
order-empty (suc k) ne = λ e. cc e

module _ (lib : SyncLib) (n : ℕ) where
  -- Steps in which no task enters, with who takes each.
  pub data Turns : List Actor → State lib n → State lib n → Type 0 where
    no_turn : {s : State lib n} → Turns [] s s
    next_turn :
        {l : List Actor} {s t u : State lib n} (a : Actor) (st : Work lib n s t)
        → by_whom lib n st ≡ a
        → Turns l t u
        → Turns (a ∷ l) s u

  -- The turns so far are the first ones of one of the two orders. Where those are all, the caller is
  -- back, and else it is not, and a next step can be taken.
  pub record InOrder (i : ℕ) (l : List Actor) (t : State lib n) : Type 0 where
    pub rest : List Actor
    pub whole : (l ++ rest ≡ taken_order) ⊎ (l ++ rest ≡ refused_order)
    pub back_or_goes :
        ((rest ≡ []) × (t.pc i ≡ outside))
        ⊎ ((rest ≢ []) × (t.pc i ≢ outside) × ((u : State lib n) × Work lib n t u))

  module _ (few : n < 2 ^ 31) (i : ℕ) (within : i < n) where
    lowered :
        (s t : State lib n) (v : Inv lib n s) (lone : Alone lib n i s)
        → IsLower s.disk_pc (measure lib n t) (measure lib n s)
        → (l : List Actor) (m : ℕ) → Ahead (measure lib n t) l m
        → Ahead (measure lib n s) (actor_at (measure lib n s) ∷ l) m
    lowered s t v lone (inl e) l m h =
        let is : suc (measure lib n t) ≡ measure lib n s = omega arith in
        subst (λ k. Ahead k (actor_at k ∷ l) m) is (Ahead-suc (measure lib n t) l m h)
    lowered s t v lone (inr (at_, e)) l m h =
        let four = scheduling-measure lib n s v i within lone at_ in
        let two : measure lib n t ≡ 2 = omega arith in
        rw four (Ahead-refused l m (subst (λ k. Ahead k l m) two h))

    Turns-Ahead :
        (s t : State lib n) (l : List Actor)
        → Inv lib n s
        → Alone lib n i s
        → Turns l s t
        → Ahead (measure lib n s) l (measure lib n t) × Inv lib n t × Alone lib n i t
    Turns-Ahead s t [] v lone no_turn = (inl refl, v, lone)
    Turns-Ahead s t (a ∷ l) v lone (next_turn {t = u} b st is ts) =
        let (before, v', lone') =
          Turns-Ahead u t l (Work-Inv lib n few s v st) (Alone-Work lib n s v i within lone st)
            ts in
        (
          subst (λ c. Ahead (measure lib n s) (c ∷ l) (measure lib n t))
              (sym (by_whom-actor_at lib n s v i within lone st) ∙ is)
              (lowered s u v lone (Work-IsLower lib n s v few st) l (measure lib n t) before),
          v',
          lone',
        )

    -- Where one of fewer than 2^31 tasks has just added its request in disk_block_read or
    -- disk_block_write and all others are outside of both, in a state that the tasks can reach: as
    -- long as no task enters, every run of steps of that task, the disk task and the timer is the
    -- beginning of one of two orders. In the first the caller locks the mutex and announces its
    -- request; the disk task, which waits until then, wakes up and calls diskScheduler; the timer
    -- fires; only then does the caller's sem_down end, and it unlocks the mutex. The second is the
    -- same without the timer. While the order has a step left, the caller is inside and a step can be
    -- taken, and once it has none the caller is back. It is for a timer that can be set.
    pub lone_call-InOrder :
        (e : Env) (s t : State lib n) (l : List Actor)
        → e.timer_set ≡ true
        → Reach lib n s
        → s.pc i ≡ queued
        → Alone lib n i s
        → Turns l s t
        → InOrder i l t
    unfolding order
    lone_call-InOrder e s t l set_ r at_ lone ts =
        let v = Reach-Inv lib n few s r in
        let (before, v', lone') = Turns-Ahead s t l v lone ts in
        let start_ =
          subst (λ k. Ahead k l (measure lib n t)) (queued-measure lib n s v i within lone at_)
            before in
        record {
          rest = order (measure lib n t);
          whole = elim start_ [
            | inl same ↦ inl (same ∙ whole_orders.0)
            | inr same ↦ inr (same ∙ whole_orders.1)
          ];
          back_or_goes = elim (measure-cases lib n t v' i within lone') [
            | inl (over, back) ↦ inl (ap order over, back)
            | inr (more, away) ↦
                inr (order-empty _ more, away, inside-Moves lib n t v' e i few set_ within away)
          ];
        }
