-- ===== src/Kernel/Fair/Sums.antt =====
-- Sums over addresses, which do not depend on the order.
use ping_pong_so.Base.{
  Bool, Bool-cases, List, [], ap, arith, eq_of_test, eq_self, false, if◌then◌else◌, inl, inr,
  length, refl, subst, true, ℕ, ◌+◌, ◌<◌, ◌==◌, ◌||◌, ◌∙◌, ◌∷◌, ◌≡◌, ◌≤◌,
}
use mathlib.Core.List.{Perm, Permᴰ}
use mathlib.Core.Logic.{∥∥₁_elim}
use native.Mathlib.Nat.{ℕ_set}

unfoldable pub sum_of : (ℕ → ℕ) → List ℕ → ℕ
sum_of f [] = 0
sum_of f (x ∷ xs) = f x + sum_of f xs

abbrev pub is_in : ℕ → List ℕ → Bool
is_in a [] = false
is_in a (x ∷ xs) = (a == x) || is_in a xs

sum_of-reorder : (f : ℕ → ℕ) {xs ys : List ℕ} → Permᴰ xs ys → sum_of f xs ≡ sum_of f ys
unfolding sum_of
sum_of-reorder f Permᴰ.nil = refl
sum_of-reorder f (Permᴰ.cons e p) = omega (arith, ap f e, sum_of-reorder f p)
sum_of-reorder f (Permᴰ.swap d e) = omega (arith, ap f d, ap f e)
sum_of-reorder f (Permᴰ.trans p q) = sum_of-reorder f p ∙ sum_of-reorder f q

pub sum_of-perm : (f : ℕ → ℕ) {xs ys : List ℕ} → Perm xs ys → sum_of f xs ≡ sum_of f ys
sum_of-perm f p = ∥∥₁_elim p (ℕ_set _ _) (λ d. sum_of-reorder f d)

-- Membership as a sum.
times : ℕ → ℕ → ℕ
times a x = if a == x then 1 else 0

is_in-sum : (a : ℕ) (xs : List ℕ) → is_in a xs ≡ true → 0 < sum_of (times a) xs
unfolding sum_of times
is_in-sum a [] e = cc
is_in-sum a (x ∷ xs) e = ground (arith, is_in-sum a xs)

sum-is_in : (a : ℕ) (xs : List ℕ) → 0 < sum_of (times a) xs → is_in a xs ≡ true
unfolding sum_of times
sum-is_in a [] e = absurd (omega arith)
sum-is_in a (x ∷ xs) e = ground (arith, sum-is_in a xs)

pub is_in-perm : (a : ℕ) {xs ys : List ℕ} → Perm xs ys → is_in a xs ≡ true → is_in a ys ≡ true
is_in-perm a {xs} {ys} p e =
    sum-is_in a ys (omega (arith, is_in-sum a xs e, sum_of-perm (times a) p))

pub sum_of-le :
    (f g : ℕ → ℕ) (xs : List ℕ)
    → ((a : ℕ) → is_in a xs ≡ true → f a ≤ g a)
    → sum_of f xs ≤ sum_of g xs
unfolding sum_of
sum_of-le f g [] h = omega arith
sum_of-le f g (x ∷ xs) h =
    omega (arith, h x (ground (arith, eq_self x)), sum_of-le f g xs (λ a i. h a (ground arith)))

-- One that is less makes the sum less.
pub sum_of-less :
    (f g : ℕ → ℕ) (xs : List ℕ) (c : ℕ)
    → ((a : ℕ) → is_in a xs ≡ true → f a ≤ g a)
    → is_in c xs ≡ true
    → f c < g c
    → sum_of f xs < sum_of g xs
unfolding sum_of
sum_of-less f g [] c h i less = cc
sum_of-less f g (x ∷ xs) c h i less =
    let head = h x (ground (arith, eq_self x)) in
    let rest = sum_of-le f g xs (λ a i. h a (ground arith)) in
    elim (Bool-cases (c == x)) [
      | inl here ↦ let e = eq_of_test c x here in omega (arith, subst (λ y. f y < g y) e less, rest)
      | inr away ↦
          omega (arith, head, sum_of-less f g xs c (λ a i. h a (ground arith)) (ground arith) less)
    ]

pub sum_of-bound : (f : ℕ → ℕ) (xs : List ℕ) → ((a : ℕ) → f a ≤ 1) → sum_of f xs ≤ length xs
unfolding sum_of
sum_of-bound f [] h = omega arith
sum_of-bound f (x ∷ xs) h = omega (arith, h x, sum_of-bound f xs h)

-- One that does not count.
pub sum_of-room :
    (f : ℕ → ℕ) (xs : List ℕ) (c : ℕ)
    → ((a : ℕ) → f a ≤ 1)
    → is_in c xs ≡ true
    → f c ≡ 0
    → sum_of f xs < length xs
unfolding sum_of
sum_of-room f [] c h i zero_ = cc
sum_of-room f (x ∷ xs) c h i zero_ = elim (Bool-cases (c == x)) [
  | inl here ↦
      let e = eq_of_test c x here in
      omega (arith, subst (λ y. f y ≡ 0) e zero_, sum_of-bound f xs h)
  | inr away ↦ omega (arith, h x, sum_of-room f xs c h (ground arith) zero_)
]
