-- ===== src/Totals.antt =====
-- Sums over tasks, by where each one stands.
use ping_pong_so.Base.{
  Bool-cases, ap, arith, eq_of_test, if◌then◌else◌, inl, inr, ne-false, refl, suc, zero, ℕ, ◌*◌,
  ◌+◌, ◌<◌, ◌==◌, ◌≡◌, ◌≢◌, ◌≤◌, ◌⊎◌,
}
use native.Mathlib.Decide.{dec_lt}

-- The place of task `i` changes.
unfoldable pub with_pc : {A : Type 0} → (ℕ → A) → ℕ → A → ℕ → A
with_pc f i p j = if j == i then p else f j

unfoldable pub total : {A : Type 0} → (A → ℕ) → ℕ → (ℕ → A) → ℕ
total f zero pc = 0
total f (suc k) pc = f (pc k) + total f k pc

module _ {A : Type 0} (f : A → ℕ) where
  total-with_pc_out :
      (n : ℕ) (pc : ℕ → A) (i : ℕ) (p : A) → n ≤ i → total f n (with_pc pc i p) ≡ total f n pc
  unfolding total with_pc
  total-with_pc_out zero pc i p out = refl
  total-with_pc_out (suc k) pc i p out =
      let away = ne-false k i (omega arith) in
      rw away (ap (λ t. f (pc k) + t) (total-with_pc_out k pc i p (omega arith)))

  -- Moving one task.
  pub total-with_pc :
      (n : ℕ) (pc : ℕ → A) (i : ℕ) (p : A)
      → i < n
      → total f n (with_pc pc i p) + f (pc i) ≡ total f n pc + f p
  unfolding total with_pc
  total-with_pc zero pc i p inside = absurd (omega arith)
  total-with_pc (suc k) pc i p inside = elim (Bool-cases (k == i)) [
    | inl here ↦
        let e = eq_of_test k i here in
        rw (here, e) (omega (arith, total-with_pc_out i pc i p (omega arith)))
    | inr away ↦
        let ne : i ≢ k = ground arith in
        rw away (omega (arith, total-with_pc k pc i p (omega (arith, ne))))
  ]

  pub total-same : (n : ℕ) (a : A) → f a ≡ 0 → total f n (λ _. a) ≡ 0
  unfolding total
  total-same zero a e = refl
  total-same (suc k) a e = omega (arith, total-same k a e, e)

  pub le-total : (n : ℕ) (pc : ℕ → A) (i : ℕ) → i < n → f (pc i) ≤ total f n pc
  unfolding total
  le-total zero pc i inside = absurd (omega arith)
  le-total (suc k) pc i inside = elim (Bool-cases (i == k)) [
    | inl here ↦ rw (eq_of_test i k here) (omega arith)
    | inr away ↦ let ne : i ≢ k = ground arith in omega (arith, le-total k pc i (omega (arith, ne)))
  ]

  -- A sum that is not 0 has a task that counts.
  pub total-pos : (n : ℕ) (pc : ℕ → A) → total f n pc ≢ 0 → (i : ℕ) × (i < n) × (f (pc i) ≢ 0)
  unfolding total
  total-pos zero pc ne = absurd (ne refl)
  total-pos (suc k) pc ne = elim (dec_lt 0 (f (pc k))) [
    | yes here ↦ (k, omega arith, omega arith)
    | no away ↦
        let (i, inside, found) = total-pos k pc (λ e. ne (omega arith)) in (i, omega arith, found)
  ]

pub total-le :
    {A : Type 0} (f g : A → ℕ)
    → ((p : A) → f p ≤ g p)
    → (n : ℕ) (pc : ℕ → A) → total f n pc ≤ total g n pc
unfolding total
total-le f g h zero pc = omega arith
total-le f g h (suc k) pc = omega (arith, h (pc k), total-le f g h k pc)

pub total-le-mul :
    {A : Type 0} (f : A → ℕ) (c : ℕ)
    → ((p : A) → f p ≤ c)
    → (n : ℕ) (pc : ℕ → A) → total f n pc ≤ n * c
unfolding total
total-le-mul f c h zero pc = omega arith
total-le-mul f c h (suc k) pc = grind (arith, h (pc k), total-le-mul f c h k pc)

-- Two kinds of tasks that exclude each other.
pub total-le-both :
    {A : Type 0} (f g : A → ℕ)
    → ((p : A) → f p + g p ≤ 1)
    → (n : ℕ) (pc : ℕ → A) → total f n pc + total g n pc ≤ n
unfolding total
total-le-both f g h zero pc = omega arith
total-le-both f g h (suc k) pc = omega (arith, h (pc k), total-le-both f g h k pc)

pub total-zero :
    {A : Type 0} (f : A → ℕ) (n : ℕ) (pc : ℕ → A) → ((i : ℕ) → f (pc i) ≡ 0) → total f n pc ≡ 0
unfolding total
total-zero f zero pc h = refl
total-zero f (suc k) pc h = omega (arith, h k, total-zero f k pc h)

-- Two tasks that count, count twice.
pub le-total_two :
    {A : Type 0} (f : A → ℕ) (n : ℕ) (pc : ℕ → A) (i j : ℕ)
    → i < n
    → j < i
    → f (pc i) + f (pc j) ≤ total f n pc
unfolding total
le-total_two f zero pc i j hi hj = absurd (omega arith)
le-total_two f (suc k) pc i j hi hj = elim (Bool-cases (i == k)) [
  | inl here ↦
      let e = eq_of_test i k here in rw e (omega (arith, le-total f k pc j (omega (arith, e))))
  | inr away ↦
      let ne : i ≢ k = ground arith in omega (arith, le-total_two f k pc i j (omega (arith, ne)) hj)
]

pub le-total_apart :
    {A : Type 0} (f : A → ℕ) (n : ℕ) (pc : ℕ → A) (i j : ℕ)
    → i < n
    → j < n
    → i ≢ j
    → f (pc i) + f (pc j) ≤ total f n pc
le-total_apart f n pc i j hi hj ne = elim (dec_lt j i) [
  | yes less ↦ le-total_two f n pc i j hi less
  | no more ↦ let counted = le-total_two f n pc j i hj (omega (arith, ne)) in omega (arith, counted)
]

pub with_pc-cases :
    {A : Type 0} (pc : ℕ → A) (i : ℕ) (p : A) (j : ℕ)
    → ((j ≡ i) × (with_pc pc i p j ≡ p)) ⊎ ((j ≢ i) × (with_pc pc i p j ≡ pc j))
unfolding with_pc
with_pc-cases pc i p j = elim (Bool-cases (j == i)) [
  | inl here ↦ inl (eq_of_test j i here, rw here refl)
  | inr away ↦ inr (ground arith, rw away refl)
]

pub total-constant :
    {A : Type 0} (f : A → ℕ) (n : ℕ) (pc : ℕ → A) (c : ℕ)
    → ((i : ℕ) → f (pc i) ≡ c)
    → total f n pc ≡ n * c
unfolding total
total-constant f zero pc c h = ground arith
total-constant f (suc n) pc c h = grind (arith, h n, total-constant f n pc c h)

pub with_pc-same : {A : Type 0} (pc : ℕ → A) (i : ℕ) (p : A) → with_pc pc i p i ≡ p
unfolding with_pc
with_pc-same pc i p = ground arith

pub with_pc-apart :
    {A : Type 0} (pc : ℕ → A) (i : ℕ) (p : A) (j : ℕ) → j ≢ i → with_pc pc i p j ≡ pc j
unfolding with_pc
with_pc-apart pc i p j ne = ground arith

total-none :
    {A : Type 0} (f : A → ℕ) (n : ℕ) (pc : ℕ → A)
    → ((j : ℕ) → j < n → f (pc j) ≡ 0)
    → total f n pc ≡ 0
unfolding total
total-none f zero pc h = refl
total-none f (suc k) pc h =
    omega (arith, h k (omega arith), total-none f k pc (λ j less. h j (omega arith)))

-- Only one task counts.
pub total-lone :
    {A : Type 0} (f : A → ℕ) (n : ℕ) (pc : ℕ → A) (i : ℕ)
    → i < n
    → ((j : ℕ) → j < n → j ≢ i → f (pc j) ≡ 0)
    → total f n pc ≡ f (pc i)
unfolding total
total-lone f zero pc i inside h = absurd (omega arith)
total-lone f (suc k) pc i inside h = elim (Bool-cases (i == k)) [
  | inl here ↦
      let e = eq_of_test i k here in
      rw e (omega (arith, total-none f k pc (λ j less. h j (omega arith) (λ q. omega (arith, e)))))
  | inr away ↦
      let ne : i ≢ k = ground arith in
      omega (
        arith,
        h k (omega arith) (λ q. ne (omega arith)),
        total-lone f k pc i (omega (arith, ne)) (λ j less apart. h j (omega arith) apart),
      )
]
