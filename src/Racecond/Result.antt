-- ===== src/Racecond/Result.antt =====
-- Where the runs of pingpong-racecond.c end.
use ping_pong_so.Base.{
  ap, arith, inl, inr, refl, some, subst, suc, sym, true, zero, ℕ, ◌*◌, ◌+◌, ◌-◌, ◌<◌, ◌^◌, ◌∙◌,
  ◌≡◌, ◌≢◌, ◌≤◌, ◌⊎◌,
}
use ping_pong_so.Base.Int.{mul_int-pos, pos}
use ping_pong_so.Protocol.Sync.{SyncLib}
use ping_pong_so.Racecond.{
  Adders, After, Worker, finished, in_section, is_right, loaded, looping, moved_to, stored, work_at,
  work_step,
}
use ping_pong_so.Racecond.Sum.{After-Sums, Sums, credit, critical, todo}
use ping_pong_so.Totals.{le-total, total, total-le, total-pos}
use native.Mathlib.Decide.{dec_lt}

credit-le-todo : (w : Worker) → credit w ≤ todo w
unfolding credit todo
credit-le-todo (looping k) = omega arith
credit-le-todo (in_section k) = omega arith
credit-le-todo (loaded k v) = omega arith
credit-le-todo (stored k) = omega arith
credit-le-todo finished = omega arith

todo-zero : (w : Worker) → todo w ≡ 0 → w ≡ finished
unfolding todo
todo-zero (looping k) e = absurd (omega arith)
todo-zero (in_section k) e = absurd (omega arith)
todo-zero (loaded k v) e = absurd (omega arith)
todo-zero (stored k) e = absurd (omega arith)
todo-zero finished e = refl

is_right-product : (n steps : ℕ) → n * steps < 2 ^ 31 → is_right n steps (pos (n * steps)) ≡ true
unfolding is_right
is_right-product n steps small = rw (mul_int-pos n steps small) (ground arith)

module _ (lib : SyncLib) (n steps : ℕ) where
  -- All tasks have all_ended, and `main` finds the right sum.
  abbrev pub Right : Adders lib → Type 0
  Right s =
      ((i : ℕ) → i < n → s.pc i ≡ finished)
      × (s.soma ≡ pos (n * steps))
      × (is_right n steps s.soma ≡ true)

  abbrev pub Goes : Adders lib → Type 0
  Goes s = (i : ℕ) × (t : Adders lib) × (i < n) × (work_step lib i s ≡ some t)

  module _ (l : ℕ) (s : Adders lib) (u : Sums lib n steps l s) where
    all_ended : n * steps < 2 ^ 31 → total todo n s.pc ≡ 0 → Right s
    all_ended small e =
        let exact : s.soma ≡ pos (n * steps) =
          u.soma ∙ ap pos (omega (arith, u.count, total-le credit todo credit-le-todo n s.pc)) in
        (
          λ i within. todo-zero (s.pc i) (omega (arith, le-total todo n s.pc i within)),
          exact,
          ap (is_right n steps) exact ∙ is_right-product n steps small,
        )

    step-Goes :
        (i : ℕ) (w : Worker) (t : Adders lib)
        → i < n
        → s.pc i ≡ w
        → work_at lib w i s ≡ some t
        → Goes s
    unfolding work_step
    step-Goes i w t within at_ run =
        (i, t, within, subst (λ (x : Worker). work_at lib x i s ≡ some t) (sym at_) run)

    -- A task that holds the semaphore goes on.
    holder-Goes : (i : ℕ) → i < n → (w : Worker) → s.pc i ≡ w → critical w ≢ 0 → Goes s
    unfolding work_at critical
    holder-Goes i within (in_section k) at_ ne = step-Goes i _ _ within at_ refl
    holder-Goes i within (loaded k v) at_ ne = step-Goes i _ _ within at_ refl
    holder-Goes i within (stored k) at_ ne = step-Goes i _ _ within at_ refl
    holder-Goes i within (looping k) at_ ne = absurd (ne refl)
    holder-Goes i within finished at_ ne = absurd (ne refl)

    -- A task at the head of its loop goes on where the semaphore is free.
    looping-Goes :
        (i : ℕ)
        → i < n
        → (w : Worker) → s.pc i ≡ w
        → todo w ≢ 0
        → critical w ≡ 0
        → lib.value s.sem ≢ 0
        → Goes s
    unfolding work_at critical todo
    looping-Goes i within (looping zero) at_ ne out open_ = step-Goes i _ _ within at_ refl
    looping-Goes i within (looping (suc k)) at_ ne out open_ =
        let (d, e, less) = lib.down-pos s.sem (lib.value s.sem - 1) (omega (arith, open_)) in
        step-Goes i _ (moved_to lib i (in_section k) (record s { sem = d })) within at_
          (rw (work_at, e) refl)
    looping-Goes i within (in_section k) at_ ne out open_ = absurd (omega arith)
    looping-Goes i within (loaded k v) at_ ne out open_ = absurd (omega arith)
    looping-Goes i within (stored k) at_ ne out open_ = absurd (omega arith)
    looping-Goes i within finished at_ ne out open_ = absurd (ne refl)

    some_go : total todo n s.pc ≢ 0 → Goes s
    some_go ne = elim (dec_lt 0 (total critical n s.pc)) [
      | yes held_ ↦
          let (i, within, in_) = total-pos critical n s.pc (λ z. omega arith) in
          holder-Goes i within (s.pc i) refl in_
      | no free_ ↦
          let (i, within, left) = total-pos todo n s.pc ne in
          looping-Goes i within (s.pc i) refl left
            (omega (arith, le-total critical n s.pc i within)) (λ z. omega (arith, u.mutex))
    ]

  -- In whatever order `n` tasks of pingpong-racecond.c run, also where a task is preempted between
  -- the load and the store of `soma += 1`: as long as fewer than n times (4 steps + 1) steps have
  -- been taken, some task can take one, and once so many have been taken, which is the most there
  -- can be, every task has all_ended, the sum is n times the steps and `main` finds it right. The
  -- product must be less than 2^31, as 30 times 10000000 is.
  pub run-Right :
      (l : ℕ) (s : Adders lib)
      → n * steps < 2 ^ 31
      → After lib n steps l s
      → ((l < n * (4 * steps + 1)) × Goes s) ⊎ ((l ≡ n * (4 * steps + 1)) × Right s)
  run-Right l s small r =
      let u = After-Sums lib n steps (omega arith) l s r in
      elim (dec_lt 0 (total todo n s.pc)) [
        | yes more ↦ inl (omega (arith, u.length_), some_go l s u (λ z. omega arith))
        | no done_ ↦ inr (omega (arith, u.length_), all_ended l s u small (omega arith))
      ]
