-- ===== src/Kernel/Fair/Bound.antt =====
-- scheduler: how many calls in a row pass over a ready task.
use ping_pong_so.Base.{
  All, Bool-cases, List, [], ap, arith, eq_of_test, inl, inr, length, refl, some, subst, suc, true,
  zero, ℕ, ◌+◌, ◌-◌, ◌<◌, ◌==◌, ◌^◌, ◌∷◌, ◌≡◌, ◌≢◌, ◌≤◌,
}
use ping_pong_so.Base.Int.{IsInt, negsuc, pos, ℤ, ◌≤ℤ◌}
use ping_pong_so.Kernel.Fair.{Passed, addresses, never, once_more, prios}
use ping_pong_so.Kernel.Fair.Potential.{Advance, floor, level, potential, potential-le}
use ping_pong_so.Kernel.Fair.Step.{
  All-find, Sane, Sane-turn, dynamic, dynamic-level, find-Chain, potential-turn, static,
  static-level, turn-Advance,
}
use ping_pong_so.Kernel.Fair.Sums.{is_in, is_in-perm}
use ping_pong_so.Kernel.Ring.{Chain-find, IsRing, Queue, find}
use ping_pong_so.Kernel.State.{Completes, Kernel, Ptr, Task}
use ping_pong_so.Kernel.Turn.{Scheduled, scheduler-Scheduled}
use mathlib.Core.List.{Perm}
use mathlib.Core.List.Perm

-- The ring is sane, and no priority is so low that it would wrap around.
record IsDeep (s : Kernel) (a : Ptr) (ring : List Ptr) : Type 0 where
  sane : (b : Ptr) → is_in b ring ≡ true → Sane s b
  deep : (b : Ptr) → is_in b ring ≡ true → potential (dynamic s) a ring < dynamic s b
  small : potential (dynamic s) a ring < floor
  here : is_in a ring ≡ true

module _ (s t : Kernel) (x y : Ptr × Task) (xs ys : Queue) (p a : Ptr) (r : IsRing s x xs)
    (v : Scheduled s x xs p t) (u : Kernel) (same : (b : Ptr) → prios u b ≡ prios t b)
    (reordered : Perm (addresses (y ∷ ys)) (addresses (x ∷ xs))) (ne : p ≢ a)
    (d : IsDeep s a (addresses (x ∷ xs))) where
  less : potential (dynamic u) a (addresses (y ∷ ys)) < potential (dynamic s) a (addresses (x ∷ xs))
  less = potential-turn s t x xs p r v a u same y ys reordered d.sane d.deep d.here ne

  advance : Advance (addresses (x ∷ xs)) (static s) (dynamic s) (dynamic u) p
  advance = turn-Advance s t x xs p r v u same d.sane (λ b i. omega (arith, d.deep b i))

  deep_after :
      (b : Ptr)
      → is_in b (addresses (x ∷ xs)) ≡ true
      → potential (dynamic u) a (addresses (y ∷ ys)) < dynamic u b
  deep_after b i = elim (Bool-cases (b == p)) [
    | inl chosen ↦
        let e = eq_of_test b p chosen in
        let k = d.sane b i in
        rw e (
          omega (
            arith,
            less,
            d.small,
            advance.reset_,
            k.high,
            static-level s b k.st k.dy k.there,
            ap (static s) e,
          ))
    | inr away ↦
        let ne_p : b ≢ p = ground arith in omega (arith, less, d.deep b i, advance.aged b i ne_p)
  ]

  IsDeep-turn : IsDeep u a (addresses (y ∷ ys))
  IsDeep-turn = record {
    sane = λ b i. Sane-turn s t x xs p r v u same d.sane b (is_in-perm b reordered i);
    deep = λ b i. deep_after b (is_in-perm b reordered i);
    small = omega (arith, less, d.small);
    here = is_in-perm a (Perm.symm reordered) d.here;
  }

Passed-potential :
    (a : Ptr) (k : ℕ) (s : Kernel) (x : Ptr × Task) (xs : Queue)
    → IsRing s x xs
    → IsDeep s a (addresses (x ∷ xs))
    → Passed a k s x xs
    → k ≤ potential (dynamic s) a (addresses (x ∷ xs))
Passed-potential a zero s x xs r d never = omega arith
Passed-potential a (suc k) s x xs r d
      (once_more {u = u} {y = y} {ys = ys} fuel t p enough run ne same reordered r' rest) =
    let v : Scheduled s x xs p t =
      subst (Completes (Scheduled s x xs)) run (scheduler-Scheduled s x xs fuel r enough) in
    omega (
      arith,
      less s t x y xs ys p a r v u same reordered ne d,
      Passed-potential a k u y ys r' (IsDeep-turn s t x y xs ys p a r v u same reordered ne d) rest,
    )

-- What is asked of the priorities of a task.
pub record InRange (t : Task) : Type 0 where
  pub static_low : negsuc 19 ≤ℤ t.i_static_prio
  pub static_high : t.i_static_prio ≤ℤ pos 20
  pub dynamic_low : negsuc (2 ^ 30 - 1) ≤ℤ t.i_dinam_prio
  pub dynamic_high : t.i_dinam_prio ≤ℤ pos 20

IsInt-low : (z : ℤ) → negsuc (2 ^ 30 - 1) ≤ℤ z → z ≤ℤ pos 20 → IsInt z
IsInt-low (pos n) low high = (omega arith, omega arith)
IsInt-low (negsuc n) low high = (omega arith, omega arith)

InRange-Sane : (s : Kernel) (b : Ptr) (t : Task) → s.tasks b ≡ some t → InRange t → Sane s b
unfolding prios
InRange-Sane s b t e i = record {
  st = t.i_static_prio;
  dy = t.i_dinam_prio;
  there = rw (e, prios) refl;
  st_int = IsInt-low t.i_static_prio (omega (arith, i.static_low)) i.static_high;
  dy_int = IsInt-low t.i_dinam_prio i.dynamic_low i.dynamic_high;
  high = omega (arith, i.static_low);
}

length-addresses : (xs : Queue) → length (addresses xs) ≡ length xs
length-addresses [] = refl
length-addresses (x ∷ xs) = ap (λ n. suc n) (length-addresses xs)

in_ring-InRange :
    (s : Kernel) (x : Ptr × Task) (xs : Queue)
    → IsRing s x xs
    → All (λ y. InRange y.1) (x ∷ xs)
    → (b : Ptr) → is_in b (addresses (x ∷ xs)) ≡ true
    → (u : Task) × (find b (x ∷ xs) ≡ some u) × InRange u
in_ring-InRange s x xs r range b i =
    let (u, found) = find-Chain s.tasks (x ∷ xs) x.0 b r.chain i in
    (u, found, All-find (λ y. InRange y.1) (x ∷ xs) b u range found)

module _ (s : Kernel) (b : Ptr) (t : Task) (e : s.tasks b ≡ some t) (i : InRange t) where
  dynamic-task : dynamic s b ≡ level t.i_dinam_prio
  unfolding prios
  dynamic-task = dynamic-level s b t.i_static_prio t.i_dinam_prio (rw (e, prios) refl)

  dynamic-high : dynamic s b ≤ floor + 40
  dynamic-high = omega (arith, dynamic-task, i.dynamic_high)

  dynamic-low : 2 ^ 30 ≤ dynamic s b
  dynamic-low = omega (arith, dynamic-task, i.dynamic_low)

-- `scheduler` passes over no ready task more than 39 + n times in a row, n the number of ready
-- tasks: it holds where every ready task's static priority is in -20 ... 20 and its dynamic
-- priority in -2^30 ... 20, at most 2^29 tasks are ready, and between two calls the kernel changes
-- neither the ready tasks nor their priorities, but may put them in another order.
pub Passed-le :
    (a : Ptr) (k : ℕ) (s : Kernel) (x : Ptr × Task) (xs : Queue)
    → IsRing s x xs
    → is_in a (addresses (x ∷ xs)) ≡ true
    → All (λ y. InRange y.1) (x ∷ xs)
    → length (x ∷ xs) ≤ 2 ^ 29
    → Passed a k s x xs
    → k ≤ 39 + length (x ∷ xs)
Passed-le a k s x xs r here range few ps =
    let (u, found, mine) = in_ring-InRange s x xs r range a here in
    let high = dynamic-high s a u (Chain-find s.tasks (x ∷ xs) x.0 a u r.chain found) mine in
    let room = potential-le (dynamic s) a (addresses (x ∷ xs)) here in
    let size = length-addresses (x ∷ xs) in
    let good : (b : Ptr)
        → is_in b (addresses (x ∷ xs)) ≡ true
        → (w : Task) × (s.tasks b ≡ some w) × InRange w =
      λ b i.
        let (w, at_, within) = in_ring-InRange s x xs r range b i in
        (w, Chain-find s.tasks (x ∷ xs) x.0 b w r.chain at_, within) in
    let d : IsDeep s a (addresses (x ∷ xs)) = record {
      sane = λ b i. let (w, e, within) = good b i in InRange-Sane s b w e within;
      deep = λ b i.
          let (w, e, within) = good b i in
          omega (arith, dynamic-low s b w e within, high, room, size, few);
      small = omega (arith, high, room, size, few);
      here = here;
    } in
    omega (arith, Passed-potential a k s x xs r d ps, high, room, size)
