-- ===== src/Protocol/Drained.antt =====
-- The end of the calls of disk_block_read and disk_block_write that are under way.
use ping_pong_so.Base.{
  Bool, Bool-cases, [], ap, arith, false, if◌then◌else◌, inl, inr, length, refl, some, subst, suc,
  true, zero, ℕ, ◌*◌, ◌+◌, ◌<◌, ◌^◌, ◌∷◌, ◌≡◌, ◌≢◌, ◌≤◌, ◌⊎◌,
}
use ping_pong_so.Device.{Env, Status}
use ping_pong_so.Protocol.{Pc, Reach, State, Work, locked, outside, queued, served, signalled}
use ping_pong_so.Protocol.Invariant.{Inv, awaits, holds_mutex, unannounced}
use ping_pong_so.Protocol.Liveness.{Works, Works-le, none_, one_more}
use ping_pong_so.Protocol.Measure.{Work-measure, measure}
use ping_pong_so.Protocol.Progress.{inside-Moves}
use ping_pong_so.Protocol.Reachable.{Reach-Inv, Work-Inv}
use ping_pong_so.Protocol.Sync.{SyncLib, held}
use ping_pong_so.Protocol.Timer.{in_flight-zero}
use ping_pong_so.Requests.{RequestList}
use ping_pong_so.Requests.Queue.{IsQueue}
use ping_pong_so.Requests.Segment.{Entries}
use ping_pong_so.Totals.{le-total, total, total-le, total-pos}
use native.Mathlib.Decide.{dec_lt}

-- The tasks inside the two functions.
unfoldable inside : Pc → ℕ
inside outside = 0
inside _ = 1

inside-zero : (p : Pc) → inside p ≡ 0 → p ≡ outside
unfolding inside
inside-zero outside z = refl
inside-zero queued z = absurd (omega arith)
inside-zero locked z = absurd (omega arith)
inside-zero signalled z = absurd (omega arith)
inside-zero served z = absurd (omega arith)

-- What counts only tasks inside counts none when none is inside.
total-none :
    (f : Pc → ℕ)
    → ((p : Pc) → f p ≤ inside p)
    → (n : ℕ) (pc : ℕ → Pc) → total inside n pc ≡ 0
    → total f n pc ≡ 0
total-none f h n pc none_inside = omega (arith, total-le f inside h n pc)

counts-le :
    (p : Pc) → (holds_mutex p ≤ inside p) × (unannounced p ≤ inside p) × (awaits p ≤ inside p)
unfolding inside holds_mutex unannounced awaits
counts-le outside = (omega arith, omega arith, omega arith)
counts-le queued = (omega arith, omega arith, omega arith)
counts-le locked = (omega arith, omega arith, omega arith)
counts-le signalled = (omega arith, omega arith, omega arith)
counts-le served = (omega arith, omega arith, omega arith)

no_entries : (xs : Entries) → length xs ≡ 0 → xs ≡ []
no_entries [] e = refl
no_entries (x ∷ xs) e = absurd (omega arith)

inside-pos : (p : Pc) → inside p ≢ 0 → p ≢ outside
unfolding inside
inside-pos p ne is = ne (rw is refl)

module _ (lib : SyncLib) (n : ℕ) where
  -- Every task is outside, no request is left, and the disk is idle.
  pub record Drained (s : State lib n) : Type 0 where
    pub list : RequestList
    pub all_outside : (i : ℕ) → i < n → s.pc i ≡ outside
    pub there : s.sys.list ≡ some list
    pub empty : IsQueue s.sys.mem list []
    pub is_idle : s.sys.hw.status ≡ Status.idle
    pub unlocked : lib.is_held s.sems.request_lock ≡ false
    pub new_ : lib.value s.sems.new_count ≡ 0
    pub treated_ : lib.value s.sems.treated_count ≡ 0

  free_lock : (m : lib.Lock) → held lib m ≡ 0 → lib.is_held m ≡ false
  free_lock m e = elim (Bool-cases (lib.is_held m)) [
    | inl locked_ ↦ absurd (omega (arith, ap {B = ℕ} (λ (b : Bool). if b then 1 else 0) locked_))
    | inr free_ ↦ free_
  ]

  outside-Drained : (s : State lib n) → Inv lib n s → total inside n s.pc ≡ 0 → Drained s
  outside-Drained s v out =
      let holding = total-none holds_mutex (λ p. (counts-le p).0) n s.pc out in
      let announcing = total-none unannounced (λ p. (counts-le p).1) n s.pc out in
      let awaiting = total-none awaits (λ p. (counts-le p).2) n s.pc out in
      record {
        list = v.list;
        all_outside =
            λ i within. inside-zero (s.pc i) (omega (arith, le-total inside n s.pc i within, out));
        there = v.there;
        empty =
            subst (IsQueue s.sys.mem v.list)
              (no_entries v.entries (omega (arith, v.pending, v.tokens, announcing, awaiting)))
              v.queue;
        is_idle = in_flight-zero s.sys.hw.status (omega (arith, v.tokens, awaiting));
        unlocked = free_lock s.sems.request_lock (omega (arith, v.holder, holding));
        new_ = omega (arith, v.tokens, awaiting);
        treated_ = omega (arith, v.tokens, awaiting);
      }

  -- Either no task is inside, or some step brings the calls nearer to their end.
  settled_or_moves :
      (e : Env) (s : State lib n)
      → n < 2 ^ 31
      → e.timer_set ≡ true
      → Inv lib n s
      → Drained s
        ⊎ ((t : State lib n) × Work lib n s t × Inv lib n t × (measure lib n t < measure lib n s))
  settled_or_moves e s few set v = elim (dec_lt 0 (total inside n s.pc)) [
    | no none_inside ↦ inl (outside-Drained s v (omega arith))
    | yes some_ ↦
        let (i, within, ne) = total-pos inside n s.pc (λ z. omega arith) in
        let (t, step) = inside-Moves lib n s v e i few set within (inside-pos (s.pc i) ne) in
        inr (t, step, Work-Inv lib n few s v step, Work-measure lib n s v few step)
  ]

  drain :
      (e : Env) (k : ℕ) (s : State lib n)
      → n < 2 ^ 31
      → e.timer_set ≡ true
      → Inv lib n s
      → measure lib n s < k
      → (j : ℕ) × (u : State lib n) × Works lib n j s u × Drained u
  drain e zero s few set v fuel = absurd (omega arith)
  drain e (suc k) s few set v fuel = elim (settled_or_moves e s few set v) [
    | inl d ↦ (0, s, none_, d)
    | inr (t, step, v', less) ↦
        let (j, u, ws, d) = drain e k t few set v' (omega (arith, less)) in
        (suc j, u, one_more step ws, d)
  ]

  -- From every state that fewer than 2^31 tasks can reach, some at most 7 n + 3 steps in which no
  -- task enters make every call of `disk_block_read` and `disk_block_write` return, and leave an
  -- empty list, an idle disk, a free mutex and both semaphores at 0. It holds where the timer works.
  pub drains :
      (e : Env) (s : State lib n)
      → n < 2 ^ 31
      → e.timer_set ≡ true
      → Reach lib n s
      → (j : ℕ) × (u : State lib n) × (j ≤ 7 * n + 3) × Works lib n j s u × Drained u
  drains e s few set r =
      let (j, u, ws, d) =
        drain e (suc (measure lib n s)) s few set (Reach-Inv lib n few s r) (omega arith) in
      (j, u, Works-le lib n j s u few r ws, ws, d)
