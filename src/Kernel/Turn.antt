-- ===== src/Kernel/Turn.antt =====
-- scheduler: one call of it on a ring of ready tasks.
use ping_pong_so.Base.{
  Bool-cases, Option, [], ap, arith, eq_of_test, eq_self, if◌then◌else◌, inl, inr, length, ne-false,
  none, refl, some, subst, suc, sym, ℕ, ◌++◌, ◌==◌, ◌∙◌, ◌∷◌, ◌≡◌, ◌≢◌, ◌≤◌,
}
use ping_pong_so.Base.Argmin.{IsFirstMin, argmin, argmin-IsFirstMin}
use ping_pong_so.Base.Int.{ltb_ℤ-irrefl}
use ping_pong_so.Kernel.{age, aging_loop, get_highest_prio_task, reset, scheduler}
use ping_pong_so.Kernel.Aging.{age_all, age_all-find, aging_loop-run, on_task-some, with_tasks}
use ping_pong_so.Kernel.Ring.{
  Apart, Apart-remap, Chain, Chain-find, Chain-remap, IsRing, Queue, find, find-ne, find-ne_null,
  holds-remap, remap,
}
use ping_pong_so.Kernel.Schedule.{highest_loop-argmin, prio}
use ping_pong_so.Kernel.State.{
  Completes, K, Kernel, Ptr, Task, give, null, on_task, ran, with_task, with_task-other, ◌>>=◌,
  ◌>>◌,
}
use ping_pong_so.Manager.State.{next}

-- What a call does to a task of the ring.
unfoldable pub turn : Ptr → Ptr → Task → Task
turn chosen p t = if p == chosen then reset t else age t

-- The choice is reset before the others age.
abbrev reset_one : Ptr → Ptr → Task → Task
reset_one chosen p t = if p == chosen then reset t else t

pub Chain-middle :
    (f : Ptr → Option Task) (xs : Queue) (m : Ptr × Task) (ys : Queue) (stop : Ptr)
    → Chain f (xs ++ m ∷ ys) stop
    → (f m.0 ≡ some m.1) × (m.0 ≢ null)
Chain-middle f [] m ys stop c = (c.0, c.1)
Chain-middle f (x ∷ xs) m ys stop c = Chain-middle f xs m ys stop c.3

length-remap : (g : Ptr → Task → Task) (xs : Queue) → length (remap g xs) ≡ length xs
unfolding remap
length-remap g [] = refl
length-remap g (x ∷ xs) = ap (λ n. suc n) (length-remap g xs)

find-remap :
    (g : Ptr → Task → Task) (a : Ptr) (xs : Queue)
    → find a (remap g xs) ≡ elim (find a xs) [ none ↦ none | some t ↦ some (g a t) ]
unfolding find remap
find-remap g a [] = refl
find-remap g a ((p, t) ∷ xs) = elim (Bool-cases (a == p)) [
  | inl here ↦ rw (here, eq_of_test a p here) refl
  | inr away ↦ rw away (find-remap g a xs)
]

reset_one-next : (chosen p : Ptr) (t : Task) → (reset_one chosen p t).next ≡ t.next
reset_one-next chosen p t = ground arith

pub turn-next : (chosen p : Ptr) (t : Task) → (turn chosen p t).next ≡ t.next
unfolding turn
turn-next chosen p t = ground arith

find-middle :
    (xs : Queue) (m : Ptr × Task) (ys : Queue)
    → Apart (xs ++ m ∷ ys)
    → find m.0 (xs ++ m ∷ ys) ≡ some m.1
unfolding find
find-middle [] m ys d = rw (eq_self m.0) refl
find-middle (x ∷ xs) m ys d =
    let later = find-middle xs m ys d.1 in rw (find-ne m.0 x.0 m.1 (xs ++ m ∷ ys) later d.0) later

-- The body of `scheduler` on the queue `q`.
abbrev queue_turn : ℕ → Ptr → K Ptr
queue_turn fuel q = if q == null then give q else do
  next ← get_highest_prio_task fuel q
  on_task next reset
  aging_loop fuel q next q
  give next

module _ (s : Kernel) (x : Ptr × Task) (xs : Queue) (r : IsRing s x xs) (m : Ptr × Task)
    (held : find m.0 (x ∷ xs) ≡ some m.1) where
  abbrev after_reset : Ptr → Option Task
  after_reset = with_task s.tasks m.0 (reset m.1)

  after_reset-find :
      (a : Ptr) (t : Task) → find a (x ∷ xs) ≡ some t → after_reset a ≡ some (reset_one m.0 a t)
  unfolding with_task
  after_reset-find a t e =
      let there = Chain-find s.tasks (x ∷ xs) x.0 a t r.chain e in
      elim (Bool-cases (a == m.0)) [
        | inl here ↦
            let same : some m.1 ≡ some t =
              sym (Chain-find s.tasks (x ∷ xs) x.0 m.0 m.1 r.chain held)
              ∙ ap s.tasks (sym (eq_of_test a m.0 here))
              ∙ there in
            rw here (ap (λ o. elim o [ none ↦ none | some u ↦ some (reset u) ]) same)
        | inr away ↦ rw away there
      ]

  reset-Chain : Chain after_reset (remap (reset_one m.0) (x ∷ xs)) x.0
  reset-Chain =
      Chain-remap s.tasks after_reset (reset_one m.0) (x ∷ xs) x.0 (reset_one-next m.0)
        after_reset-find r.apart r.chain

  -- The store after the aging loop has run on the store after the reset.
  abbrev after_turn : Ptr → Option Task
  after_turn = age_all after_reset m.0 (remap (reset_one m.0) (x ∷ xs))

  turn-at :
      (a : Ptr) (o : Option Task)
      → find a (x ∷ xs) ≡ o
      → (elim (elim o as (λ _. Option Task) [ none ↦ none | some t ↦ some (reset_one m.0 a t) ]) [
        | none ↦ after_reset a
        | some t ↦ if a == m.0 then after_reset a else some (age t)
      ])
        ≡ elim o [ none ↦ s.tasks a | some t ↦ some (turn m.0 a t) ]
  unfolding turn
  turn-at a none e =
      with_task-other s.tasks m.0 (reset m.1) a
        (λ same. cc (held, e, ap (λ b. find b (x ∷ xs)) same))
  turn-at a (some t) e = elim (Bool-cases (a == m.0)) [
    | inl here ↦ rw here (after_reset-find a t e ∙ (rw here refl))
    | inr away ↦ rw away refl
  ]

  after_turn-find :
      (a : Ptr)
      → after_turn a ≡ elim (find a (x ∷ xs)) [ none ↦ s.tasks a | some t ↦ some (turn m.0 a t) ]
  after_turn-find a =
      age_all-find after_reset m.0 (remap (reset_one m.0) (x ∷ xs)) a
        (Apart-remap (reset_one m.0) (x ∷ xs) r.apart)
      ∙ (rw (find-remap (reset_one m.0) a (x ∷ xs)) (turn-at a (find a (x ∷ xs)) refl))

  after_turn-Chain : Chain after_turn (remap (turn m.0) (x ∷ xs)) x.0
  after_turn-Chain =
      Chain-remap s.tasks after_turn (turn m.0) (x ∷ xs) x.0 (turn-next m.0)
        (λ a t e. after_turn-find a ∙ (rw e refl)) r.apart r.chain

  choice-run :
      (fuel : ℕ)
      → length (x ∷ xs) ≤ fuel
      → argmin prio x (x ∷ xs) ≡ m
      → get_highest_prio_task fuel x.0 s ≡ ran m.0 s
  unfolding get_highest_prio_task
  choice-run fuel enough best =
      highest_loop-argmin s x.0 fuel x x xs r.chain r.apart.0 (r.chain.0, r.chain.1) enough
      ∙ ap (λ y. ran y.0 s) best

  reset-run : on_task m.0 reset s ≡ ran tt (with_tasks s after_reset)
  reset-run =
      on_task-some s m.0 m.1 reset (Chain-find s.tasks (x ∷ xs) x.0 m.0 m.1 r.chain held)
        (find-ne_null s.tasks (x ∷ xs) x.0 m.0 m.1 r.chain held)

  aging-run :
      (fuel : ℕ)
      → length (x ∷ xs) ≤ fuel
      → aging_loop fuel x.0 m.0 x.0 (with_tasks s after_reset) ≡ ran tt (with_tasks s after_turn)
  unfolding remap
  aging-run fuel enough =
      aging_loop-run x.0 m.0 fuel (with_tasks s after_reset) (x.0, reset_one m.0 x.0 x.1)
        (remap (reset_one m.0) xs) reset-Chain (holds-remap (reset_one m.0) x.0 xs ∙ r.apart.0)
        (Apart-remap (reset_one m.0) (x ∷ xs) r.apart)
        (omega (arith, enough, length-remap (reset_one m.0) xs))

  scheduler-run :
      (fuel : ℕ)
      → length (x ∷ xs) ≤ fuel
      → argmin prio x (x ∷ xs) ≡ m
      → scheduler fuel s ≡ ran m.0 (with_tasks s after_turn)
  unfolding scheduler
  scheduler-run fuel enough best =
      ap (λ q. queue_turn fuel q s) r.first
      ∙ simp (
        ne-false x.0 null r.chain.1,
        choice-run fuel enough best,
        reset-run,
        aging-run fuel enough,
      )

-- The outcome of a call of `scheduler` on a ring: the address `p` of the choice, and the state `t`.
pub record Scheduled (s : Kernel) (x : Ptr × Task) (xs : Queue) (p : Ptr) (t : Kernel)
    : Type 0 where
  pub chosen : Ptr × Task
  pub result : p ≡ chosen.0
  pub least : IsFirstMin prio (x ∷ xs) chosen
  pub tasks :
      (a : Ptr)
      → t.tasks a ≡ elim (find a (x ∷ xs)) [
        | none ↦ s.tasks a
        | some u ↦ some (if a == p then reset u else age u)
      ]
  pub rest : t ≡ record s { tasks = t.tasks }
  pub ring : Chain t.tasks (remap (turn p) (x ∷ xs)) x.0

least-find :
    (x : Ptr × Task) (xs : Queue)
    → Apart (x ∷ xs)
    → (m : Ptr × Task) → IsFirstMin prio (x ∷ xs) m
    → find m.0 (x ∷ xs) ≡ some m.1
least-find x xs d m f =
    subst (λ ys. find m.0 ys ≡ some m.1) (sym f.split)
      (find-middle f.before m f.after (subst Apart f.split d))

-- The first task is compared with itself, to no effect.
argmin-head : (x : Ptr × Task) (xs : Queue) → argmin prio x (x ∷ xs) ≡ argmin prio x xs
unfolding argmin
argmin-head x xs = rw (ltb_ℤ-irrefl (prio x)) refl

-- On a ring of ready tasks, with a round of fuel for each task, `scheduler` ends with a result and
-- without a bad pointer. It chooses the first of the tasks with the least dynamic priority: that
-- task's dynamic priority is reset to the static one, every other task of the ring ages once, no
-- task outside of the ring and no other variable changes, and the ring keeps its links and order.
pub scheduler-Scheduled :
    (s : Kernel) (x : Ptr × Task) (xs : Queue) (fuel : ℕ)
    → IsRing s x xs
    → length (x ∷ xs) ≤ fuel
    → Completes (Scheduled s x xs) (scheduler fuel s)
unfolding turn
scheduler-Scheduled s x xs fuel r enough =
    let m = argmin prio x xs in
    let least = argmin-IsFirstMin prio x xs in
    let held = least-find x xs r.apart m least in
    rw (scheduler-run s x xs r m held fuel enough (argmin-head x xs)) (record {
      chosen = m;
      result = refl;
      least = least;
      tasks = after_turn-find s x xs r m held;
      rest = refl;
      ring = after_turn-Chain s x xs r m held;
    })
