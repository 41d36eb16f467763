-- ===== src/Kernel/Fair/Potential.antt =====
-- scheduler: a number that tells how long a ready task may have to wait. Priorities are shifted to
-- natural numbers: -2^31 to 0, and -20 to the floor.
use ping_pong_so.Base.{
  Bool-cases, List, arith, eq_of_test, eq_self, if◌then◌else◌, inl, inr, leb, length, refl, sym,
  true, ℕ, ◌+◌, ◌-◌, ◌<◌, ◌==◌, ◌^◌, ◌≡◌, ◌≢◌, ◌≤◌,
}
use ping_pong_so.Base.Int.{IsInt, add_int, neg_part, negsuc, pos_part, to_int, ℤ}
use ping_pong_so.Kernel.Fair.Sums.{is_in, sum_of, sum_of-le, sum_of-less, sum_of-room}
use native.Mathlib.Decide.{dec_lt}

abbrev pub level : ℤ → ℕ
level a = pos_part a + 2 ^ 31 - neg_part a

abbrev pub floor : ℕ
floor = 2 ^ 31 - 20

-- A task that stands before `a` for its priority.
unfoldable pub is_before : (ℕ → ℕ) → ℕ → ℕ → ℕ
is_before dynamic a b = if b == a then 0 else if leb (dynamic b) (dynamic a) then 1 else 0

unfoldable pub potential : (ℕ → ℕ) → ℕ → List ℕ → ℕ
potential dynamic a ring = (dynamic a - floor) + sum_of (is_before dynamic a) ring

-- A call of `scheduler` that chooses `p`.
pub record Advance (ring : List ℕ) (static dynamic lowered : ℕ → ℕ) (p : ℕ) : Type 0 where
  pub chosen : is_in p ring ≡ true
  pub least : (b : ℕ) → is_in b ring ≡ true → dynamic p ≤ dynamic b
  pub reset_ : lowered p ≡ static p
  pub aged : (b : ℕ) → is_in b ring ≡ true → b ≢ p → lowered b + 1 ≡ dynamic b

module _ (ring : List ℕ) (static dynamic lowered : ℕ → ℕ) (p a : ℕ)
    (v : Advance ring static dynamic lowered p) (ne : p ≢ a) (here : is_in a ring ≡ true) where
  is_before-lowered : (b : ℕ) → is_in b ring ≡ true → is_before lowered a b ≤ is_before dynamic a b
  unfolding is_before
  is_before-lowered b i = elim (Bool-cases (b == p)) [
    | inl same ↦ let e = eq_of_test b p same in ground (arith, e, v.least a here)
    | inr away ↦
        let nb : b ≢ p = ground arith in
        ground (arith, v.aged b i nb, v.aged a here (λ e. ne (sym e)))
  ]

  is_before-chosen : dynamic a ≤ static p → is_before lowered a p < is_before dynamic a p
  unfolding is_before
  is_before-chosen low = ground (arith, v.least a here, v.reset_, v.aged a here (λ e. ne (sym e)))

  pub potential-less : floor ≤ static p → potential lowered a ring < potential dynamic a ring
  unfolding potential
  potential-less high = elim (dec_lt (static p) (dynamic a)) [
    | yes below ↦ omega (
      arith,
      high,
      below,
      v.aged a here (λ e. ne (sym e)),
      sum_of-le (is_before lowered a) (is_before dynamic a) ring is_before-lowered,
    )
    | no above ↦ omega (
      arith,
      v.aged a here (λ e. ne (sym e)),
      sum_of-less (is_before lowered a) (is_before dynamic a) ring p is_before-lowered v.chosen
          (is_before-chosen (omega arith)),
    )
  ]

is_before-le : (dynamic : ℕ → ℕ) (a b : ℕ) → is_before dynamic a b ≤ 1
unfolding is_before
is_before-le dynamic a b = ground arith

is_before_self : (dynamic : ℕ → ℕ) (a : ℕ) → is_before dynamic a a ≡ 0
unfolding is_before
is_before_self dynamic a = rw (eq_self a) refl

pub potential-le :
    (dynamic : ℕ → ℕ) (a : ℕ) (ring : List ℕ)
    → is_in a ring ≡ true
    → potential dynamic a ring < (dynamic a - floor) + length ring
unfolding potential
potential-le dynamic a ring here = omega (
  arith,
  sum_of-room (is_before dynamic a) ring a (is_before-le dynamic a) here (is_before_self dynamic a),
)

-- A step down of a priority that is not the least `int`.
pub level-age : (d : ℤ) → IsInt d → 0 < level d → level (add_int d (negsuc 0)) + 1 ≡ level d
unfolding add_int to_int
level-age d i more = ground arith
