-- ===== src/Movers/Ranges.antt =====
-- The blocks that each mover of pingpong-disco2.c swaps.
use ping_pong_so.Base.{ap, arith, inl, inr, suc, zero, ℕ, ◌*◌, ◌+◌, ◌-◌, ◌<◌, ◌≡◌, ◌≢◌, ◌≤◌, ◌⊎◌}
use ping_pong_so.Movers.{num_movers}
use native.Mathlib.Decide.{dec_lt}

pub base-apart : (p m k : ℕ) → m < k → m * p + p ≤ k * p
base-apart p m zero less = absurd (omega arith)
base-apart p m (suc k) less = elim (dec_lt m k) [
  | yes lower ↦ let rest = base-apart p m k lower in grind (arith, rest)
  | no last ↦ let same : m ≡ k = omega arith in rw same (grind arith)
]

-- On a disk of `n` blocks with `p` blocks for each mover.
module _ (n p : ℕ) (room : 2 * (num_movers * p) ≤ n) where
  -- The `i`-th block of mover `m` in the first half, and the one that it is swapped with.
  abbrev pub low : ℕ → ℕ → ℕ
  low m i = m * p + i

  abbrev pub high : ℕ → ℕ → ℕ
  high m i = n - 1 - (m * p + i)

  pub low-lt : (m i : ℕ) → m < num_movers → i < p → low m i < num_movers * p
  low-lt m i within inside = omega (arith, base-apart p m num_movers within)

  pub low-lt_size : (m i : ℕ) → m < num_movers → i < p → low m i < n
  low-lt_size m i within inside = omega (arith, low-lt m i within inside)

  pub high-lt_size : (m i : ℕ) → m < num_movers → i < p → high m i < n
  high-lt_size m i within inside = omega (arith, low-lt m i within inside)

  pub low-ne_high :
      (m i k j : ℕ) → m < num_movers → i < p → k < num_movers → j < p → low m i ≢ high k j
  low-ne_high m i k j hm hi hk hj = λ e. omega (arith, low-lt m i hm hi, low-lt k j hk hj)

  pub low-ne : (m i k j : ℕ) → i < p → j < p → (m ≢ k) ⊎ (i ≢ j) → low m i ≢ low k j
  low-ne m i k j hi hj apart = λ e. elim (dec_lt m k) [
    | yes less ↦ omega (arith, base-apart p m k less)
    | no more ↦ elim (dec_lt k m) [
      | yes less ↦ omega (arith, base-apart p k m less)
      | no same ↦
          let here : m ≡ k = omega arith in
          elim apart [
            | inl away ↦ away here
            | inr away ↦ away (omega (arith, ap (λ (x : ℕ). x * p) here))
          ]
    ]
  ]

  pub high-ne :
      (m i k j : ℕ)
      → m < num_movers
      → i < p
      → k < num_movers
      → j < p
      → (m ≢ k) ⊎ (i ≢ j)
      → high m i ≢ high k j
  high-ne m i k j hm hi hk hj apart =
      λ e. low-ne m i k j hi hj apart (omega (arith, low-lt m i hm hi, low-lt k j hk hj))
