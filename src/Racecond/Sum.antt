-- ===== src/Racecond/Sum.antt =====
-- What every step of pingpong-racecond.c keeps.
use ping_pong_so.Base.{
  Option, ap, arith, inl, inr, none, refl, some, subst, suc, sym, zero, ℕ, ◌*◌, ◌+◌, ◌<◌, ◌^◌, ◌∙◌,
  ◌≡◌, ◌≢◌,
}
use ping_pong_so.Base.Int.{pos, ℤ}
use ping_pong_so.Protocol.Sync.{SyncLib, down-value}
use ping_pong_so.Racecond.{
  Adders, After, Worker, add_long, begun, finished, in_section, loaded, looping, moved_to, set_out,
  stored, then_, work_at, work_step,
}
use ping_pong_so.Totals.{
  le-total_apart, total, total-constant, total-with_pc, with_pc, with_pc-cases,
}

-- The tasks that hold the semaphore, the additions that are still to come, and the steps.
unfoldable pub critical : Worker → ℕ
critical (in_section k) = 1
critical (loaded k v) = 1
critical (stored k) = 1
critical _ = 0

unfoldable pub credit : Worker → ℕ
credit (looping k) = k
credit (in_section k) = suc k
credit (loaded k v) = suc k
credit (stored k) = k
credit finished = 0

unfoldable pub todo : Worker → ℕ
todo (looping k) = 4 * k + 1
todo (in_section k) = 4 * k + 4
todo (loaded k v) = 4 * k + 3
todo (stored k) = 4 * k + 2
todo finished = 0

add_long-one : (a : ℕ) → suc a < 2 ^ 63 → add_long (pos a) (pos 1) ≡ pos (suc a)
unfolding add_long
add_long-one a small = ground arith

module _ (lib : SyncLib) (n steps : ℕ) where
  pub record Sums (l : ℕ) (s : Adders lib) : Type 0 where
    pub mutex : lib.value s.sem + total critical n s.pc ≡ 1
    pub sum : ℕ
    pub soma : s.soma ≡ pos sum
    pub count : sum + total credit n s.pc ≡ n * steps
    pub fresh : (i k : ℕ) (v : ℤ) → i < n → s.pc i ≡ loaded k v → v ≡ s.soma
    pub length_ : l + total todo n s.pc ≡ n * (4 * steps + 1)

  set_out-Sums : Sums 0 (set_out lib steps)
  unfolding critical credit todo
  set_out-Sums = record {
    mutex =
        omega (
          arith,
          lib.value-counter 1,
          total-constant critical n (λ i. looping steps) 0 (λ i. refl),
        );
    sum = 0;
    soma = refl;
    count = omega (arith, total-constant credit n (λ i. looping steps) steps (λ i. refl));
    fresh = λ i k v within e. cc e;
    length_ = omega (arith, total-constant todo n (λ i. looping steps) (4 * steps + 1) (λ i. refl));
  }

  module _ (l : ℕ) (s : Adders lib) (u : Sums l s) (i : ℕ) (within : i < n) where
    moving_to :
        (f : Worker → ℕ) (p q : Worker)
        → s.pc i ≡ p
        → total f n (with_pc s.pc i q) + f p ≡ total f n s.pc + f q
    moving_to f p q at_ = rw (← at_) (total-with_pc f n s.pc i q within)

    -- A step that leaves the sum alone.
    keeps :
        (d : lib.Sem) (p q : Worker)
        → s.pc i ≡ p
        → lib.value d + critical q ≡ lib.value s.sem + critical p
        → credit q ≡ credit p
        → suc (todo q) ≡ todo p
        → ((k : ℕ) (v : ℤ) → q ≡ loaded k v → v ≡ s.soma)
        → Sums (suc l) (record s { sem = d; pc = with_pc s.pc i q })
    keeps d p q at_ m c t f = record {
      mutex = omega (arith, u.mutex, m, moving_to critical p q at_);
      sum = u.sum;
      soma = u.soma;
      count = omega (arith, u.count, c, moving_to credit p q at_);
      fresh = λ j k v less e. elim (with_pc-cases s.pc i q j) [
        | inl (here, is) ↦ f k v (sym is ∙ e)
        | inr (away, is) ↦ u.fresh j k v less (sym is ∙ e)
      ];
      length_ = omega (arith, u.length_, t, moving_to todo p q at_);
    }

    module _ (t : Adders lib) where
      at_looping :
          (k : ℕ)
          → s.pc i ≡ looping (suc k)
          → (o : Option lib.Sem) → lib.down s.sem ≡ o
          → (elim o as (λ _. Option (Adders lib)) [
            | none ↦ none
            | some d ↦ some (moved_to lib i (in_section k) (record s { sem = d }))
          ])
            ≡ some t
          → Sums (suc l) t
      unfolding critical credit todo
      at_looping k at_ none e run = cc run
      at_looping k at_ (some d) e run =
          let less = down-value lib s.sem d (lib.value s.sem) refl e in
          subst (Sums (suc l)) (cc run) (
            keeps d (looping (suc k)) (in_section k) at_ (omega (arith, less)) refl (omega arith)
              (λ k' v no. cc no))

      -- Nobody else has loaded the sum when a task stores it.
      alone :
          (k : ℕ) (v : ℤ)
          → s.pc i ≡ loaded k v
          → (j k' : ℕ) (v' : ℤ) → j ≢ i
          → j < n
          → s.pc j ≡ loaded k' v'
          → ⊥
      unfolding critical
      alone k v at_ j k' v' away less e = omega (
        arith,
        u.mutex,
        le-total_apart critical n s.pc j i less within away,
        ap critical at_,
        ap critical e,
      )

      at_loaded :
          (k : ℕ) (v : ℤ)
          → s.pc i ≡ loaded k v
          → n * steps < 2 ^ 63
          → Sums (suc l) (moved_to lib i (stored k) (record s { soma = add_long v (pos 1) }))
      unfolding critical credit todo
      at_loaded k v at_ small =
          let counted = moving_to credit (loaded k v) (stored k) at_ in
          let exact : add_long v (pos 1) ≡ pos (suc u.sum) =
            ap (λ x. add_long x (pos 1)) (u.fresh i k v within at_ ∙ u.soma)
            ∙ add_long-one u.sum (omega (arith, u.count, counted)) in
          record {
            mutex = omega (arith, u.mutex, moving_to critical (loaded k v) (stored k) at_);
            sum = suc u.sum;
            soma = exact;
            count = omega (arith, u.count, counted);
            fresh = λ j k' v' less e. elim (with_pc-cases s.pc i (stored k) j) [
              | inl (here, is) ↦ cc (is, e)
              | inr (away, is) ↦ absurd (alone k v at_ j k' v' away less (sym is ∙ e))
            ];
            length_ = omega (arith, u.length_, moving_to todo (loaded k v) (stored k) at_);
          }

      work_at-Sums :
          n * steps < 2 ^ 63
          → (p : Worker) → s.pc i ≡ p
          → work_at lib p i s ≡ some t
          → Sums (suc l) t
      unfolding work_at critical credit todo
      work_at-Sums small (looping zero) at_ run =
          subst (Sums (suc l)) (cc run)
            (keeps s.sem (looping zero) finished at_ refl refl refl (λ k v no. cc no))
      work_at-Sums small (looping (suc k)) at_ run = at_looping k at_ (lib.down s.sem) refl run
      work_at-Sums small (in_section k) at_ run = subst (Sums (suc l)) (cc run) (
          keeps s.sem (in_section k) (loaded k s.soma) at_ refl refl (omega arith) (λ k' v e. cc e))
      work_at-Sums small (loaded k v) at_ run =
          subst (Sums (suc l)) (cc run) (at_loaded k v at_ small)
      work_at-Sums small (stored k) at_ run = subst (Sums (suc l)) (cc run) (
          keeps (lib.up s.sem) (stored k) (looping k) at_ (omega (arith, lib.value-up s.sem)) refl
            (omega arith) (λ k' v no. cc no))
      work_at-Sums small finished at_ run = cc run

  pub After-Sums : n * steps < 2 ^ 63 → (l : ℕ) (s : Adders lib) → After lib n steps l s → Sums l s
  unfolding work_step
  After-Sums small l s begun = set_out-Sums
  After-Sums small l s (then_ {l = l'} {s = u} i r within run) =
      work_at-Sums l' u (After-Sums small l' u r) i within s small (u.pc i) refl run
