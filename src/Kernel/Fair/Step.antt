-- ===== src/Kernel/Fair/Step.antt =====
-- What one call of scheduler does to the priorities of the ring.
use ping_pong_so.Base.{
  All, All-append, All-map, Bool-cases, Option, [], ap, arith, eq_of_test, eq_self, if◌then◌else◌,
  inl, inr, ne-false, none, refl, some, subst, sym, true, ℕ, ◌++◌, ◌<◌, ◌==◌, ◌∙◌, ◌∷◌, ◌≡◌, ◌≢◌,
  ◌≤◌,
}
use ping_pong_so.Base.Argmin.{IsFirstMin}
use ping_pong_so.Base.Int.{IsInt, add_int, negsuc, to_int-IsInt, ℤ, ◌<ℤ◌, ◌≤ℤ◌}
use ping_pong_so.Kernel.Fair.{addresses, prios}
use ping_pong_so.Kernel.Fair.Potential.{
  Advance, floor, is_before, level, level-age, potential, potential-less,
}
use ping_pong_so.Kernel.Fair.Sums.{is_in, sum_of-perm}
use ping_pong_so.Kernel.Ring.{Chain, Chain-find, IsRing, Queue, find}
use ping_pong_so.Kernel.Schedule.{prio}
use ping_pong_so.Kernel.State.{Kernel, Ptr, Task}
use ping_pong_so.Kernel.Turn.{Chain-middle, Scheduled}
use mathlib.Core.List.{Perm}

-- The priorities as natural numbers.
unfoldable pub static : Kernel → Ptr → ℕ
static s b = elim (prios s b) [ none ↦ 0 | some (st, dy) ↦ level st ]

unfoldable pub dynamic : Kernel → Ptr → ℕ
dynamic s b = elim (prios s b) [ none ↦ 0 | some (st, dy) ↦ level dy ]

pub record Sane (s : Kernel) (b : Ptr) : Type 0 where
  pub st : ℤ
  pub dy : ℤ
  pub there : prios s b ≡ some (st, dy)
  pub st_int : IsInt st
  pub dy_int : IsInt dy
  pub high : floor ≤ level st

module _ (s : Kernel) (b : Ptr) (st dy : ℤ) (e : prios s b ≡ some (st, dy)) where
  pub static-level : static s b ≡ level st
  unfolding static
  static-level = rw (e, static) refl

  pub dynamic-level : dynamic s b ≡ level dy
  unfolding dynamic
  dynamic-level = rw (e, dynamic) refl

pub All-find :
    (P : Ptr × Task → Type 0) (xs : Queue) (b : Ptr) (t : Task)
    → All P xs
    → find b xs ≡ some t
    → P (b, t)
unfolding find
All-find P [] b t h e = cc
All-find P ((p, u) ∷ xs) b t h e = elim (Bool-cases (b == p)) [
  | inl here ↦
      let same : some u ≡ some t = rw here at e in
      subst (λ (y : Ptr × Task). P y) (cc (eq_of_test b p here, same)) h.0
  | inr away ↦ All-find P xs b t h.1 (rw away at e)
]

-- The choice is in the ring, and no task of the ring has a lesser priority.
FirstMin-le : (xs : Queue) (m : Ptr × Task) → IsFirstMin prio xs m → All (λ y. prio m ≤ℤ prio y) xs
FirstMin-le xs m f =
    subst (λ (ys : Queue). All (λ y. prio m ≤ℤ prio y) ys) (sym f.split)
      (All-append (λ y. prio m ≤ℤ prio y) f.before (m ∷ f.after)
        (All-map (λ y. prio m <ℤ prio y) _ f.before (λ y h. omega arith) f.greater)
        (omega arith, f.not_less))

is_in-middle :
    (xs : Queue) (m : Ptr × Task) (ys : Queue) → is_in m.0 (addresses (xs ++ m ∷ ys)) ≡ true
is_in-middle [] m ys = rw (eq_self m.0) refl
is_in-middle (x ∷ xs) m ys = ground (arith, is_in-middle xs m ys)

-- A task in the ring, as the store has it.
pub find-Chain :
    (f : Ptr → Option Task) (xs : Queue) (stop b : Ptr)
    → Chain f xs stop
    → is_in b (addresses xs) ≡ true
    → (t : Task) × (find b xs ≡ some t)
unfolding find
find-Chain f [] stop b c i = cc
find-Chain f ((p, t) ∷ xs) stop b c i = elim (Bool-cases (b == p)) [
  | inl here ↦ (t, rw here refl)
  | inr away ↦ let (u, e) = find-Chain f xs stop b c.3 (ground arith) in (u, rw away e)
]

module _ (s t : Kernel) (x : Ptr × Task) (xs : Queue) (p : Ptr) (r : IsRing s x xs)
    (v : Scheduled s x xs p t) where
  -- What the call does to the priorities of a task of the ring.
  prios-turn :
      (b : Ptr) (st dy : ℤ)
      → is_in b (addresses (x ∷ xs)) ≡ true
      → prios s b ≡ some (st, dy)
      → prios t b ≡ some (st, if b == p then st else add_int dy (negsuc 0))
  unfolding prios
  prios-turn b st dy i e =
      let (u, found) = find-Chain s.tasks (x ∷ xs) x.0 b r.chain i in
      let here = Chain-find s.tasks (x ∷ xs) x.0 b u r.chain found in
      let now : prios s b ≡ some (u.i_static_prio, u.i_dinam_prio) = rw (here, prios) refl in
      let then_ : prios t b
          ≡ some (
            u.i_static_prio,
            if b == p then u.i_static_prio else add_int u.i_dinam_prio (negsuc 0),
          ) =
        elim (Bool-cases (b == p)) [
          | inl chosen ↦ rw (v.tasks b, found, chosen, prios) refl
          | inr away ↦ rw (v.tasks b, found, away, prios) refl
        ] in
      then_
      ∙ ap
          (λ (o : Option (ℤ × ℤ)). elim o [
            | none ↦ none
            | some (a, c) ↦ some (a, if b == p then a else add_int c (negsuc 0))
          ])
          (sym now ∙ e)

  choice-held :
      (s.tasks v.chosen.0 ≡ some v.chosen.1) × (is_in v.chosen.0 (addresses (x ∷ xs)) ≡ true)
  choice-held = (
    (Chain-middle s.tasks v.least.before v.chosen v.least.after x.0
        (subst (λ (ys : Queue). Chain s.tasks ys x.0) v.least.split r.chain)).0,
    subst (λ (ys : Queue). is_in v.chosen.0 (addresses ys) ≡ true) (sym v.least.split)
        (is_in-middle v.least.before v.chosen v.least.after),
  )

  pub choice-in : is_in p (addresses (x ∷ xs)) ≡ true
  choice-in = subst (λ (q : Ptr). is_in q (addresses (x ∷ xs)) ≡ true) (sym v.result) choice-held.1

  pub dynamic-least : (b : Ptr) → is_in b (addresses (x ∷ xs)) ≡ true → dynamic s p ≤ dynamic s b
  unfolding prios
  dynamic-least b i =
      let (u, found) = find-Chain s.tasks (x ∷ xs) x.0 b r.chain i in
      let here = Chain-find s.tasks (x ∷ xs) x.0 b u r.chain found in
      let less = All-find _ (x ∷ xs) b u (FirstMin-le (x ∷ xs) v.chosen v.least) found in
      let mine = dynamic-level s b u.i_static_prio u.i_dinam_prio (rw (here, prios) refl) in
      let best =
        dynamic-level s v.chosen.0 v.chosen.1.i_static_prio v.chosen.1.i_dinam_prio
          (rw (choice-held.0, prios) refl) in
      rw v.result (omega (arith, mine, best, less))

  module _ (u : Kernel) (same : (b : Ptr) → prios u b ≡ prios t b)
      (sane : (b : Ptr) → is_in b (addresses (x ∷ xs)) ≡ true → Sane s b) where
    pub Sane-turn : (b : Ptr) → is_in b (addresses (x ∷ xs)) ≡ true → Sane u b
    unfolding add_int
    Sane-turn b i =
        let k = sane b i in
        record {
          st = k.st;
          dy = if b == p then k.st else add_int k.dy (negsuc 0);
          there = same b ∙ prios-turn b k.st k.dy i k.there;
          st_int = k.st_int;
          dy_int = elim (Bool-cases (b == p)) [
            | inl chosen ↦ rw chosen k.st_int
            | inr away ↦ rw away (to_int-IsInt _)
          ];
          high = k.high;
        }

    pub static-turn : (b : Ptr) → is_in b (addresses (x ∷ xs)) ≡ true → static u b ≡ static s b
    static-turn b i =
        let k = sane b i in
        static-level u b k.st _ (same b ∙ prios-turn b k.st k.dy i k.there)
        ∙ sym (static-level s b k.st k.dy k.there)

    pub turn-Advance :
        ((b : Ptr) → is_in b (addresses (x ∷ xs)) ≡ true → 0 < dynamic s b)
        → Advance (addresses (x ∷ xs)) (static s) (dynamic s) (dynamic u) p
    turn-Advance positive = record {
      chosen = choice-in;
      least = dynamic-least;
      reset_ =
          let k = sane p choice-in in
          dynamic-level u p k.st k.st
            (same p ∙ prios-turn p k.st k.dy choice-in k.there ∙ (rw (eq_self p) refl))
          ∙ sym (static-level s p k.st k.dy k.there);
      aged = λ b i away.
          let k = sane b i in
          let now =
            dynamic-level u b k.st (add_int k.dy (negsuc 0))
              (same b ∙ prios-turn b k.st k.dy i k.there ∙ (rw (ne-false b p away) refl)) in
          let old = dynamic-level s b k.st k.dy k.there in
          omega (arith, now, old, level-age k.dy k.dy_int (omega (arith, positive b i, old)));
    }

  -- Each call that passes over `a` makes the potential less.
  module _ (a : Ptr) (u : Kernel) (same : (b : Ptr) → prios u b ≡ prios t b) (y : Ptr × Task)
      (ys : Queue) (reordered : Perm (addresses (y ∷ ys)) (addresses (x ∷ xs)))
      (sane : (b : Ptr) → is_in b (addresses (x ∷ xs)) ≡ true → Sane s b)
      (deep : (b : Ptr)
        → is_in b (addresses (x ∷ xs)) ≡ true
        → potential (dynamic s) a (addresses (x ∷ xs)) < dynamic s b)
      (here : is_in a (addresses (x ∷ xs)) ≡ true) (ne : p ≢ a) where
    pub potential-turn :
        potential (dynamic u) a (addresses (y ∷ ys)) < potential (dynamic s) a (addresses (x ∷ xs))
    unfolding potential
    potential-turn =
        let k = sane p choice-in in
        let less =
          potential-less (addresses (x ∷ xs)) (static s) (dynamic s) (dynamic u) p a
            (turn-Advance u same sane (λ b i. omega (arith, deep b i))) ne here
            (omega (arith, k.high, static-level s p k.st k.dy k.there)) in
        omega (arith, less, sum_of-perm (is_before (dynamic u) a) reordered)
