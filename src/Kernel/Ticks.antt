-- ===== src/Kernel/Ticks.antt =====
-- tickHandler: the quantum of 40 ticks and the clock.
use ping_pong_so.Base.{
  All, Bool, Bool-cases, List, [], ap, arith, eq_of_test, false, if◌then◌else◌, inl, inr, length,
  ne-false, refl, true, ℕ, ◌%◌, ◌+◌, ◌-◌, ◌/◌, ◌<◌, ◌==◌, ◌^◌, ◌∙◌, ◌∷◌, ◌≡◌, ◌≢◌,
}
use ping_pong_so.Base.Int.{add_int, leb_ℤ, negsuc, pos}
use ping_pong_so.Kernel.{tick_handler}
use ping_pong_so.Kernel.State.{
  Completes, Completes-map, K, Kernel, KernelCall, Ptr, add_unsigned, change, give, ran, task_yield,
  ◌>>◌,
}

-- A task executes at a tick.
abbrev pub executing : Ptr → K (Unit {0})
executing p = change (λ s. record s { task_exec = p })

-- One tick for each task of the list, which is the one that executes then.
unfoldable pub ticks : List Ptr → K (Unit {0})
ticks [] = give tt
ticks (p ∷ ps) = do executing p; tick_handler; ticks ps

-- Whether the tick ends a quantum, `r` ticks of which are over, outside of the dispatcher.
abbrev pub preempts : Ptr → ℕ → Ptr → Bool
preempts disp r p = if r == 39 then (if p == disp then false else true) else false

-- The calls of `task_yield` at the end of each quantum, the last one first.
unfoldable pub yields : Ptr → ℕ → List Ptr → List KernelCall → List KernelCall
yields disp r [] calls = calls
yields disp r (p ∷ ps) calls =
    yields disp ((r + 1) % 40) ps (if preempts disp r p then task_yield ∷ calls else calls)

one_less : (r : ℕ) → r < 40 → add_int (pos (40 - r)) (negsuc 0) ≡ pos (39 - r)
unfolding add_int
one_less r small = ground arith

-- The state after the tick that finds `r` ticks of the quantum over.
abbrev after_tick : Kernel → ℕ → Kernel
after_tick s r = record s {
  ticks_left = pos (40 - (r + 1) % 40);
  system_time = add_unsigned s.system_time 1;
  calls = if preempts s.task_disp r s.task_exec then task_yield ∷ s.calls else s.calls;
}

tick-run :
    (s : Kernel) (r : ℕ)
    → r < 40
    → s.ticks_left ≡ pos (40 - r)
    → tick_handler s ≡ ran tt (after_tick s r)
unfolding tick_handler
tick-run s r small left =
    rw (left, one_less r small)
      (elim (Bool-cases (r == 39)) [
        | inl last ↦
            rw (last, eq_of_test r 39 last)
              (elim (Bool-cases (s.task_exec == s.task_disp)) [
                | inl disp ↦ rw disp refl
                | inr task_ ↦ rw task_ refl
              ])
        | inr more ↦
            let go : leb_ℤ (pos (39 - r)) (pos 0) ≡ false = ground arith in
            let n : 39 - r ≡ 40 - (r + 1) % 40 = ground arith in rw (more, go) (rw n refl)
      ])

-- What the ticks of the list leave.
pub record Ticked (s : Kernel) (r : ℕ) (ps : List Ptr) (t : Kernel) : Type 0 where
  pub ticks_left : t.ticks_left ≡ pos (40 - (r + length ps) % 40)
  pub system_time : t.system_time ≡ (s.system_time + length ps) % 2 ^ 32
  pub calls : t.calls ≡ yields s.task_disp r ps s.calls
  pub tasks : t.tasks ≡ s.tasks
  pub ready_queue : t.ready_queue ≡ s.ready_queue

Ticked-after :
    (s : Kernel) (r : ℕ) (p : Ptr) (ps : List Ptr) (t : Kernel)
    → r < 40
    → Ticked (after_tick (record s { task_exec = p }) r) ((r + 1) % 40) ps t
    → Ticked s r (p ∷ ps) t
unfolding yields
Ticked-after s r p ps t small d = record {
  ticks_left = d.ticks_left ∙ ap (λ n. pos n) (ground arith);
  system_time = d.system_time ∙ (omega arith);
  calls = d.calls;
  tasks = d.tasks;
  ready_queue = d.ready_queue;
}

-- From `r` of 40 ticks into a quantum, on a clock of 32 bits, any run of ticks ends. The ticks left
-- are those of the current quantum, the clock has gone on by their number modulo 2^32, each tick
-- that ends a quantum has called `task_yield` unless the dispatcher executed, and the tasks and the
-- ready queue are as before.
pub ticks-Ticked :
    (ps : List Ptr) (s : Kernel) (r : ℕ)
    → r < 40
    → s.ticks_left ≡ pos (40 - r)
    → s.system_time < 2 ^ 32
    → Completes (λ _ t. Ticked s r ps t) (ticks ps s)
unfolding ticks yields
ticks-Ticked [] s r small left clock = record {
  ticks_left = left ∙ ap (λ n. pos n) (ground arith);
  system_time = ground arith;
  calls = refl;
  tasks = refl;
  ready_queue = refl;
}
ticks-Ticked (p ∷ ps) s r small left clock =
    let s1 = after_tick (record s { task_exec = p }) r in
    rw (tick-run (record s { task_exec = p }) r small left) (
      Completes-map _ _ (ticks ps s1) (λ _ t. Ticked-after s r p ps t small)
        (ticks-Ticked ps s1 ((r + 1) % 40) (omega arith) refl (omega arith)))

yields-length :
    (disp : Ptr) (r : ℕ) (ps : List Ptr) (calls : List KernelCall)
    → r < 40
    → All (λ p. p ≢ disp) ps
    → length (yields disp r ps calls) ≡ length calls + (r + length ps) / 40
unfolding yields
yields-length disp r [] calls small ne = omega arith
yields-length disp r (p ∷ ps) calls small ne =
    let away = ne-false p disp ne.0 in
    let rest =
      λ (cs : List KernelCall). yields-length disp ((r + 1) % 40) ps cs (omega arith) ne.1 in
    elim (Bool-cases (r == 39)) [
      | inl last ↦ rw (last, away) (omega (arith, rest (task_yield ∷ calls), eq_of_test r 39 last))
      | inr more ↦ let n : r ≢ 39 = ground arith in rw more (omega (arith, rest calls, n))
    ]

-- From `r` of 40 ticks into a quantum, on a clock of 32 bits, any run of ticks during which the
-- dispatcher does not execute ends, having called `task_yield` once for each quantum completed: the
-- calls grow by (r + number of ticks) / 40.
pub ticks-quantum :
    (ps : List Ptr) (s : Kernel) (r : ℕ)
    → r < 40
    → s.ticks_left ≡ pos (40 - r)
    → s.system_time < 2 ^ 32
    → All (λ p. p ≢ s.task_disp) ps
    → Completes (λ _ t. length t.calls ≡ length s.calls + (r + length ps) / 40) (ticks ps s)
ticks-quantum ps s r small left clock ne =
    Completes-map _ _ (ticks ps s)
      (λ _ t d. ap (λ cs. length cs) d.calls ∙ yields-length s.task_disp r ps s.calls small ne)
      (ticks-Ticked ps s r small left clock)
