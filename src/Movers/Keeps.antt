-- ===== src/Movers/Keeps.antt =====
-- What every step of pingpong-disco2.c keeps.
use ping_pong_so.Base.{
  All, All-append, List, [], ap, append_assoc, ap₂, arith, inl, inr, refl, some, subst, suc, zero,
  ℕ, ◌*◌, ◌++◌, ◌+◌, ◌-◌, ◌<◌, ◌^◌, ◌∙◌, ◌∷◌, ◌≡◌, ◌≢◌, ◌≤◌, ◌⊎◌,
}
use ping_pong_so.Base.Int.{add_int, add_int-pos, pos, sub_int, sub_int-pos, ℤ}
use ping_pong_so.Movers.{
  BlockCall, Mover, Moving, at_loop, block_read, block_write, buffer1, buffer2, called_for,
  has_both, has_orig, makes, move_at, mover_step, num_movers, terminated, wrote_dest,
}
use ping_pong_so.Movers.Fits.{At, Fits, Kept, Owned, mover_steps, swaps}
use ping_pong_so.Movers.Ranges.{high, low, low-lt}
use ping_pong_so.Requests.Memory.{own}
use ping_pong_so.Totals.{total, total-with_pc, with_pc, with_pc-apart, with_pc-same}

same_or_apart : (m k : ℕ) → (m ≡ k) ⊎ (m ≢ k)
same_or_apart m k = ground arith

module _ (n p : ℕ) (room : 2 * (num_movers * p) ≤ n) (small : n < 2 ^ 31) where
  module _ (l : ℕ) (s : Moving) (u : Kept n p room l s) (k : ℕ) (within : k < num_movers) where
    moving_on :
        (q' q : Mover)
        → s.pc k ≡ q'
        → total mover_steps num_movers (with_pc s.pc k q) + mover_steps q'
          ≡ total mover_steps num_movers s.pc + mover_steps q
    moving_on q' q at_ = rw (← at_) (total-with_pc mover_steps num_movers s.pc k q within)

    -- A step of mover `k` from `q'` to `q`, behind which it has made the calls `cs`.
    keeps :
        (q' q : Mover) (cs : List BlockCall) (f : ℕ → List BlockCall)
        → s.pc k ≡ q'
        → f k ≡ cs
        → ((m : ℕ) → m ≢ k → f m ≡ s.calls m)
        → Fits n p room k q cs
        → All (Owned n p room k) cs
        → suc (mover_steps q) ≡ mover_steps q'
        → Kept n p room (suc l) (record { pc = with_pc s.pc k q; calls = f })
    keeps q' q cs f at_ mine others fit own t = record {
      fits = λ m hm. elim (same_or_apart m k) [
        | inl here ↦ rw (here, with_pc-same s.pc k q, mine) fit
        | inr away ↦ rw (with_pc-apart s.pc k q m away, others m away) (u.fits m hm)
      ];
      owned = λ m hm. elim (same_or_apart m k) [
        | inl here ↦ rw (here, mine) own
        | inr away ↦ rw (others m away) (u.owned m hm)
      ];
      length_ = omega (arith, u.length_, t, moving_on q' q at_);
    }

    -- The step makes a call.
    calls :
        (q' q : Mover) (c : BlockCall)
        → s.pc k ≡ q'
        → Fits n p room k q (s.calls k ++ c ∷ [])
        → Owned n p room k c
        → suc (mover_steps q) ≡ mover_steps q'
        → Kept n p room (suc l) (makes k c q s)
    calls q' q c at_ fit own t =
        keeps q' q (s.calls k ++ c ∷ []) _ at_ (with_pc-same s.calls k _)
          (λ m away. with_pc-apart s.calls k _ m away) fit
          (All-append (Owned n p room k) (s.calls k) (c ∷ []) (u.owned k within) (own, tt)) t

    -- The next round.
    next_spots :
        (j : ℕ) (o d : ℤ)
        → suc j < p
        → At n p room k j o d
        → At n p room k (suc j) (add_int o (pos 1)) (sub_int d (pos 1))
    next_spots j o d more (e, e') =
        let bound = low-lt n p room k (suc j) within more in
        let up : low n p room k j + 1 ≡ low n p room k (suc j) = omega arith in
        let down : high n p room k j - 1 ≡ high n p room k (suc j) = omega (arith, bound) in
        (
          rw e (add_int-pos (low n p room k j) 1 (omega (arith, bound)) ∙ ap pos up),
          rw e' (
              sub_int-pos (high n p room k j) 1 (omega (arith, bound)) (omega (arith, bound))
              ∙ ap pos down),
        )

    stays_at :
        (q : Mover) (t : Moving)
        → s.pc k ≡ q
        → Fits n p room k q (s.calls k)
        → move_at q k s ≡ some t
        → Kept n p room (suc l) t
    unfolding move_at Fits mover_steps called_for swaps
    stays_at (at_loop zero o d) t at_ v run =
        let over : v.j ≡ p = omega (arith, v.rounds) in
        subst (Kept n p room (suc l)) (cc run) (
          keeps (at_loop zero o d) terminated (s.calls k) s.calls at_ refl (λ m away. refl)
            (v.calls ∙ ap (swaps n p room k) over) (u.owned k within) refl)
    stays_at (at_loop (suc r) o d) t at_ v run =
        let inside_ : v.j < p = omega (arith, v.rounds) in
        let spots = v.spots inside_ in
        subst (Kept n p room (suc l)) (cc run) (
          calls (at_loop (suc r) o d) (has_orig r o d) (block_read o buffer1) at_
            (record {
              j = v.j;
              rounds = v.rounds;
              spots = spots;
              calls = ap (λ cs. cs ++ block_read o buffer1 ∷ []) v.calls;
            })
            (v.j, inside_, inl spots.0) (omega arith))
    stays_at (has_orig r o d) t at_ v run = subst (Kept n p room (suc l)) (cc run) (
        calls (has_orig r o d) (has_both r o d) (block_read d buffer2) at_
          (record {
            j = v.j;
            rounds = v.rounds;
            spots = v.spots;
            calls =
                ap (λ cs. cs ++ block_read d buffer2 ∷ []) v.calls
                ∙ append_assoc (swaps n p room k v.j) _ _;
          })
          (v.j, omega (arith, v.rounds), inr v.spots.1) (omega arith))
    stays_at (has_both r o d) t at_ v run = subst (Kept n p room (suc l)) (cc run) (
        calls (has_both r o d) (wrote_dest r o d) (block_write d buffer1) at_
          (record {
            j = v.j;
            rounds = v.rounds;
            spots = v.spots;
            calls =
                ap (λ cs. cs ++ block_write d buffer1 ∷ []) v.calls
                ∙ append_assoc (swaps n p room k v.j) _ _;
          })
          (v.j, omega (arith, v.rounds), inr v.spots.1) (omega arith))
    stays_at (wrote_dest r o d) t at_ v run = subst (Kept n p room (suc l)) (cc run) (
        calls (wrote_dest r o d) (at_loop r (add_int o (pos 1)) (sub_int d (pos 1)))
          (block_write o buffer2) at_
          (record {
            j = suc v.j;
            rounds = omega (arith, v.rounds);
            spots = λ more. next_spots v.j o d more v.spots;
            calls =
                ap (λ cs. cs ++ block_write o buffer2 ∷ []) v.calls
                ∙ append_assoc (swaps n p room k v.j) _ _
                ∙ ap₂
                    (λ x y.
                      swaps n p room k v.j
                      ++ block_read x buffer1
                        ∷ block_read y buffer2
                        ∷ block_write y buffer1
                        ∷ block_write x buffer2
                        ∷ [])
                    v.spots.0 v.spots.1;
          })
          (v.j, omega (arith, v.rounds), inl v.spots.0) (omega arith))
    stays_at terminated t at_ v run = cc run

    pub mover_step-Kept : (t : Moving) → mover_step k s ≡ some t → Kept n p room (suc l) t
    unfolding mover_step
    mover_step-Kept t run = stays_at (s.pc k) t refl (u.fits k within) run
