-- ===== src/Movers/Fits.antt =====
-- The calls that the movers of pingpong-disco2.c have made, by where they stand.
use ping_pong_so.Base.{All, List, [], suc, zero, ℕ, ◌*◌, ◌++◌, ◌+◌, ◌<◌, ◌∷◌, ◌≡◌, ◌≤◌, ◌⊎◌}
use ping_pong_so.Base.Int.{pos, ℤ}
use ping_pong_so.Movers.{
  BlockCall, Mover, Moving, at_loop, block_read, block_write, buffer1, buffer2, called_for,
  has_both, has_orig, num_movers, terminated, wrote_dest,
}
use ping_pong_so.Movers.Ranges.{high, low}
use ping_pong_so.Totals.{total}

-- The steps that a mover has before it.
unfoldable pub mover_steps : Mover → ℕ
mover_steps (at_loop k o d) = 4 * k + 1
mover_steps (has_orig k o d) = 4 * k + 4
mover_steps (has_both k o d) = 4 * k + 3
mover_steps (wrote_dest k o d) = 4 * k + 2
mover_steps terminated = 0

module _ (n p : ℕ) (room : 2 * (num_movers * p) ≤ n) where
  -- The calls of one round, which swap a block with the one that is as far from the end.
  abbrev pub round_calls : ℕ → ℕ → List BlockCall
  round_calls m j =
      block_read (pos (low n p room m j)) buffer1
      ∷ block_read (pos (high n p room m j)) buffer2
      ∷ block_write (pos (high n p room m j)) buffer1
      ∷ block_write (pos (low n p room m j)) buffer2
      ∷ []

  -- The calls of mover `m` in its first `j` rounds.
  unfoldable pub swaps : ℕ → ℕ → List BlockCall
  swaps m zero = []
  swaps m (suc j) = swaps m j ++ round_calls m j

  -- `block_orig` and `block_dest` in round `j`.
  abbrev pub At : ℕ → ℕ → ℤ → ℤ → Type 0
  At m j o d = (o ≡ pos (low n p room m j)) × (d ≡ pos (high n p room m j))

  -- Mover `m` is in round `j`, with `k` rounds behind that one, and has made the calls `made` of it.
  pub record InRound (m k : ℕ) (o d : ℤ) (made : ℤ → ℤ → List BlockCall) (cs : List BlockCall)
      : Type 0 where
    pub j : ℕ
    pub rounds : j + suc k ≡ p
    pub spots : At m j o d
    pub calls : cs ≡ swaps m j ++ made o d

  pub record BeforeRound (m k : ℕ) (o d : ℤ) (cs : List BlockCall) : Type 0 where
    pub j : ℕ
    pub rounds : j + k ≡ p
    pub spots : j < p → At m j o d
    pub calls : cs ≡ swaps m j

  unfoldable pub Fits : ℕ → Mover → List BlockCall → Type 0
  Fits m (at_loop k o d) cs = BeforeRound m k o d cs
  Fits m (has_orig k o d) cs = InRound m k o d (λ x y. block_read x buffer1 ∷ []) cs
  Fits m (has_both k o d) cs =
      InRound m k o d (λ x y. block_read x buffer1 ∷ block_read y buffer2 ∷ []) cs
  Fits m (wrote_dest k o d) cs =
      InRound m k o d
        (λ x y. block_read x buffer1 ∷ block_read y buffer2 ∷ block_write y buffer1 ∷ []) cs
  Fits m terminated cs = cs ≡ swaps m p

  -- A call for a block of mover `m`.
  abbrev pub Owned : ℕ → BlockCall → Type 0
  Owned m c =
      (i : ℕ) × (i < p)
      × ((called_for c ≡ pos (low n p room m i)) ⊎ (called_for c ≡ pos (high n p room m i)))

  pub record Kept (l : ℕ) (s : Moving) : Type 0 where
    pub fits : (m : ℕ) → m < num_movers → Fits m (s.pc m) (s.calls m)
    pub owned : (m : ℕ) → m < num_movers → All (Owned m) (s.calls m)
    pub length_ : l + total mover_steps num_movers s.pc ≡ num_movers * (4 * p + 1)
