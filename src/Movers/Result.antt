-- ===== src/Movers/Result.antt =====
-- Which calls the runs of pingpong-disco2.c consist of, and where the runs end.
use ping_pong_so.Base.{
  All, All-map, ap, ap₂, arith, inl, inr, refl, some, subst, suc, sym, zero, ℕ, ◌*◌, ◌+◌, ◌-◌, ◌/◌,
  ◌<◌, ◌^◌, ◌∙◌, ◌≡◌, ◌≢◌, ◌≤◌, ◌⊎◌,
}
use ping_pong_so.Base.Int.{
  div_int, div_int-pos, mul_int, mul_int-pos, pos, pos_part, sub_int, sub_int-pos,
}
use ping_pong_so.Movers.{
  BlockCall, Mover, Moves, Moving, at_loop, called_for, first_dest, first_orig, has_both, has_orig,
  move_at, mover_step, num_movers, off_we_go, on_we_go, per_task, set_off, terminated, wrote_dest,
}
use ping_pong_so.Movers.Fits.{At, Fits, Kept, Owned, mover_steps, swaps}
use ping_pong_so.Movers.Keeps.{mover_step-Kept}
use ping_pong_so.Movers.Ranges.{
  base-apart, high, high-lt_size, high-ne, low, low-lt, low-lt_size, low-ne, low-ne_high,
}
use ping_pong_so.Totals.{le-total, total, total-constant, total-pos}
use native.Mathlib.Decide.{dec_lt}

steps-zero : (q : Mover) → mover_steps q ≡ 0 → q ≡ terminated
unfolding mover_steps
steps-zero (at_loop k o d) e = absurd (omega arith)
steps-zero (has_orig k o d) e = absurd (omega arith)
steps-zero (has_both k o d) e = absurd (omega arith)
steps-zero (wrote_dest k o d) e = absurd (omega arith)
steps-zero terminated e = refl

per_task-pos : (n : ℕ) → n < 2 ^ 31 → per_task (pos n) ≡ pos (n / 16 / 2)
unfolding per_task
per_task-pos n small =
    ap (λ a. div_int a (pos 2)) (div_int-pos n 16 (omega arith))
    ∙ div_int-pos (n / 16) 2 (omega arith)

module _ (n : ℕ) (small : n < 2 ^ 31) where
  -- The number of blocks that a mover swaps.
  abbrev pub per : ℕ
  per = n / 16 / 2

  pub room : 2 * (num_movers * per) ≤ n
  room = omega arith

  base-lt : (m : ℕ) → m < num_movers → m * per < 2 ^ 31
  base-lt m within = omega (arith, base-apart per m num_movers within)

  set_off-At :
      (m : ℕ)
      → m < num_movers
      → 0 < per
      → At n per room m 0 (first_orig (pos n) m) (first_dest (pos n) m)
  unfolding first_orig first_dest
  set_off-At m within some_ =
      let product : mul_int (pos m) (per_task (pos n)) ≡ pos (m * per) =
        ap (mul_int (pos m)) (per_task-pos n small) ∙ mul_int-pos m per (base-lt m within) in
      let below = low-lt n per room m 0 within some_ in
      (
        product ∙ ap pos (omega arith),
        ap₂ sub_int (sub_int-pos n 1 (omega arith) small) product
            ∙ sub_int-pos (n - 1) (m * per) (omega (arith, below)) (omega arith)
            ∙ ap pos (omega arith),
      )

  set_off-Kept : Kept n per room 0 (set_off (pos n))
  unfolding Fits mover_steps swaps
  set_off-Kept =
      let rounds : pos_part (per_task (pos n)) ≡ per = ap pos_part (per_task-pos n small) in
      record {
        fits = λ m within. record {
          j = 0;
          rounds = omega (arith, rounds);
          spots = set_off-At m within;
          calls = refl;
        };
        owned = λ m within. tt;
        length_ = omega (
          arith,
          total-constant mover_steps num_movers (set_off (pos n)).pc (4 * per + 1)
              (λ i. ap (λ x. 4 * x + 1) rounds),
        );
      }

  Moves-Kept : (l : ℕ) (s : Moving) → Moves (pos n) l s → Kept n per room l s
  Moves-Kept l s off_we_go = set_off-Kept
  Moves-Kept l s (on_we_go {l = l'} {s = u} m r within run) =
      mover_step-Kept n per room small l' u (Moves-Kept l' u r) m within s run

  abbrev pub MoverGoes : Moving → Type 0
  MoverGoes s = (m : ℕ) × (t : Moving) × (m < num_movers) × (mover_step m s ≡ some t)

  -- All movers have ended, and each has made the calls of its rounds, one round after the other.
  pub record Swapped (s : Moving) : Type 0 where
    pub all_ended : (m : ℕ) → m < num_movers → s.pc m ≡ terminated
    pub all_calls : (m : ℕ) → m < num_movers → s.calls m ≡ swaps n per room m per

  -- What a state after `l` steps is like.
  pub record Swapping (l : ℕ) (s : Moving) : Type 0 where
    pub on_disk :
        (m : ℕ) → m < num_movers → All (λ c. (x : ℕ) × (x < n) × (called_for c ≡ pos x)) (s.calls m)
    pub apart :
        (m k : ℕ)
        → m < num_movers
        → k < num_movers
        → m ≢ k
        → All (λ c. All (λ b. called_for c ≢ called_for b) (s.calls k)) (s.calls m)
    pub goes_or_ends :
        ((l < num_movers * (4 * per + 1)) × MoverGoes s)
        ⊎ ((l ≡ num_movers * (4 * per + 1)) × Swapped s)

  Owned-inside :
      (m : ℕ) (c : BlockCall)
      → m < num_movers
      → Owned n per room m c
      → (x : ℕ) × (x < n) × (called_for c ≡ pos x)
  Owned-inside m c within (i, less, inl e) =
      (low n per room m i, low-lt_size n per room m i within less, e)
  Owned-inside m c within (i, less, inr e) =
      (high n per room m i, high-lt_size n per room m i within less, e)

  Owned-apart :
      (m k : ℕ) (c b : BlockCall)
      → m < num_movers
      → k < num_movers
      → m ≢ k
      → Owned n per room m c
      → Owned n per room k b
      → called_for c ≢ called_for b
  Owned-apart m k c b hm hk away (i, hi, inl e) (j, hj, inl e') =
      λ same. low-ne n per room m i k j hi hj (inl away) (ap pos_part (sym e ∙ same ∙ e'))
  Owned-apart m k c b hm hk away (i, hi, inl e) (j, hj, inr e') =
      λ same. low-ne_high n per room m i k j hm hi hk hj (ap pos_part (sym e ∙ same ∙ e'))
  Owned-apart m k c b hm hk away (i, hi, inr e) (j, hj, inl e') =
      λ same. low-ne_high n per room k j m i hk hj hm hi (ap pos_part (sym e' ∙ sym same ∙ e))
  Owned-apart m k c b hm hk away (i, hi, inr e) (j, hj, inr e') =
      λ same. high-ne n per room m i k j hm hi hk hj (inl away) (ap pos_part (sym e ∙ same ∙ e'))

  module _ (l : ℕ) (s : Moving) (u : Kept n per room l s) where
    goes_at :
        (m : ℕ) (q : Mover) (t : Moving)
        → m < num_movers
        → s.pc m ≡ q
        → move_at q m s ≡ some t
        → MoverGoes s
    unfolding mover_step
    goes_at m q t within at_ run = (m, t, within, subst (λ x. move_at x m s ≡ some t) (sym at_) run)

    step-MoverGoes :
        (m : ℕ) (q : Mover) → m < num_movers → s.pc m ≡ q → mover_steps q ≢ 0 → MoverGoes s
    unfolding move_at mover_steps
    step-MoverGoes m (at_loop zero o d) within at_ ne = goes_at m _ _ within at_ refl
    step-MoverGoes m (at_loop (suc k) o d) within at_ ne = goes_at m _ _ within at_ refl
    step-MoverGoes m (has_orig k o d) within at_ ne = goes_at m _ _ within at_ refl
    step-MoverGoes m (has_both k o d) within at_ ne = goes_at m _ _ within at_ refl
    step-MoverGoes m (wrote_dest k o d) within at_ ne = goes_at m _ _ within at_ refl
    step-MoverGoes m terminated within at_ ne = absurd (ne refl)

    ended_at :
        total mover_steps num_movers s.pc ≡ 0 → (m : ℕ) → m < num_movers → s.pc m ≡ terminated
    ended_at e m within =
        steps-zero (s.pc m) (omega (arith, le-total mover_steps num_movers s.pc m within))

    calls_at :
        total mover_steps num_movers s.pc ≡ 0
        → (m : ℕ) → m < num_movers
        → s.calls m ≡ swaps n per room m per
    unfolding Fits
    calls_at e m within =
        subst (λ q. Fits n per room m q (s.calls m)) (ended_at e m within) (u.fits m within)

    goes_or_ends-Kept :
        ((l < num_movers * (4 * per + 1)) × MoverGoes s)
        ⊎ ((l ≡ num_movers * (4 * per + 1)) × Swapped s)
    goes_or_ends-Kept = elim (dec_lt 0 (total mover_steps num_movers s.pc)) [
      | yes more ↦
          let (m, within, ne) = total-pos mover_steps num_movers s.pc (λ z. omega arith) in
          inl (omega (arith, u.length_), step-MoverGoes m (s.pc m) within refl ne)
      | no over ↦
          let none_left : total mover_steps num_movers s.pc ≡ 0 = omega arith in
          inr (
            omega (arith, u.length_),
            record { all_ended = ended_at none_left; all_calls = calls_at none_left },
          )
    ]

  -- In whatever order the calls of disk_block_read and disk_block_write of the sixteen movers of
  -- pingpong-disco2.c return, and whatever they do: every call is for a block of the disk, which has
  -- n blocks, fewer than 2^31; no two movers ever call for the same block; as long as fewer than
  -- 16 (4 p + 1) steps have been taken, where p is n / 16 / 2, some mover can take one;
  -- once so many have been taken, which is the most there can be, every mover m has
  -- ended, and its calls were, for each i below p in turn, those that read the blocks m p + i and
  -- n - 1 - (m p + i) into its two buffers and write the first buffer to the second of these blocks
  -- and the second buffer to the first.
  pub moves-Swapping : (l : ℕ) (s : Moving) → Moves (pos n) l s → Swapping l s
  moves-Swapping l s r =
      let u = Moves-Kept l s r in
      record {
        on_disk = λ m within.
            All-map (Owned n per room m) _ (s.calls m) (λ c. Owned-inside m c within)
              (u.owned m within);
        apart = λ m k hm hk away.
            All-map (Owned n per room m) _ (s.calls m)
              (λ c mine.
                All-map (Owned n per room k) _ (s.calls k)
                  (λ b theirs. Owned-apart m k c b hm hk away mine theirs) (u.owned k hk))
              (u.owned m hm);
        goes_or_ends = goes_or_ends-Kept l s u;
      }
