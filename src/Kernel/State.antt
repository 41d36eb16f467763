-- ===== src/Kernel/State.antt =====
-- The state of the kernel that ppos-core-aux.c works on: the tasks, the global variables of
-- ppos-core-globals.h, and programs over them.
use ping_pong_so.Base.{
  List, Option, arith, false, if◌then◌else◌, none, some, ℕ, ◌%◌, ◌+◌, ◌-◌, ◌==◌, ◌^◌, ◌∷◌, ◌≡◌, ◌≢◌,
}
use ping_pong_so.Base.Int.{ℤ}

abbrev pub Ptr : Type 0
Ptr = ℕ

abbrev pub null : Ptr
null = 0

-- The fields of `task_t` that ppos-core-aux.c uses. `next` links the circular ready queue.
pub record Task : Type 0 where
  pub next : Ptr
  pub id : ℤ
  pub i_static_prio : ℤ
  pub i_dinam_prio : ℤ
  pub ui_exec_ticks : ℕ
  pub ui_processor_ticks : ℕ
  pub ui_activations : ℕ

-- The calls out of ppos-core-aux.c that other code answers.
pub data KernelCall : Type 0 where
  task_yield : KernelCall
  finish_disk : KernelCall
  print_info : (id : ℤ) (exec processor activations : ℕ) → KernelCall

-- `ticks_left` is the static `iTaskTicksQty` of `tickHandler`. `calls` holds the calls made, the
-- last one first.
pub record Kernel : Type 0 where
  pub tasks : Ptr → Option Task
  pub task_exec : Ptr
  pub task_disp : Ptr
  pub ready_queue : Ptr
  pub system_time : ℕ
  pub starting_tick : ℕ
  pub ticks_left : ℤ
  pub calls : List KernelCall

-- A run ends with a result, follows a bad pointer, or runs out of fuel.
pub data Exec (A : Type 0) : Type 0 where
  ran : A → Kernel → Exec A
  bad_pointer : Exec A
  too_long : Exec A

abbrev pub K : Type 0 → Type 0
K A = Kernel → Exec A

abbrev pub give : {A : Type 0} → A → K A
give = ran

module _ {A B : Type 0} where
  abbrev pub go_on : Exec A → (A → K B) → Exec B
  go_on (ran a s) k = k a s
  go_on bad_pointer k = bad_pointer
  go_on too_long k = too_long

  infixl 5 ◌>>=◌ ◌>>◌
  abbrev pub ◌>>=◌ : K A → (A → K B) → K B
  m >>= k = λ s. go_on (m s) k

  abbrev pub ◌>>◌ : K A → K B → K B
  m >> n = m >>= λ _. n

unfoldable pub with_task : (Ptr → Option Task) → Ptr → Task → Ptr → Option Task
with_task f p t q = if q == p then some t else f q

abbrev pub state : K Kernel
state s = ran s s

abbrev pub change : (Kernel → Kernel) → K (Unit {0})
change f s = ran tt (f s)

abbrev pub emit : KernelCall → K (Unit {0})
emit c = change (λ s. record s { calls = c ∷ s.calls })

unfoldable pub task : Ptr → K Task
task p s =
    if p == null then bad_pointer else elim (s.tasks p) [ none ↦ bad_pointer | some t ↦ ran t s ]

abbrev pub put_task : Ptr → Task → K (Unit {0})
put_task p t = change (λ s. record s { tasks = with_task s.tasks p t })

unfoldable pub on_task : Ptr → (Task → Task) → K (Unit {0})
on_task p f = do t ← task p; put_task p (f t)

-- Unsigned arithmetic of 32 bits.
abbrev pub add_unsigned : ℕ → ℕ → ℕ
add_unsigned a b = (a + b) % 2 ^ 32

abbrev pub sub_unsigned : ℕ → ℕ → ℕ
sub_unsigned a b = (a + 2 ^ 32 - b) % 2 ^ 32

pub with_task-same : (f : Ptr → Option Task) (p : Ptr) (t : Task) → with_task f p t p ≡ some t
unfolding with_task
with_task-same f p t = ground arith

pub with_task-other :
    (f : Ptr → Option Task) (p : Ptr) (t : Task) (q : Ptr) → q ≢ p → with_task f p t q ≡ f q
unfolding with_task
with_task-other f p t q ne = ground arith

pub task-some :
    (s : Kernel) (p : Ptr) (t : Task) → s.tasks p ≡ some t → p ≢ null → task p s ≡ ran t s
unfolding task
task-some s p t e ne = let here : (p == null) ≡ false = ground arith in rw (here, e)

-- The run ends with a result and a state as stated.
abbrev pub Completes : {A : Type 0} → (A → Kernel → Type 0) → Exec A → Type 0
Completes P (ran a s) = P a s
Completes P bad_pointer = ⊥
Completes P too_long = ⊥

pub Completes-map :
    {A : Type 0} (P Q : A → Kernel → Type 0) (m : Exec A)
    → ((a : A) (s : Kernel) → P a s → Q a s)
    → Completes P m
    → Completes Q m
Completes-map P Q (ran a s) f p = f a s p
Completes-map P Q bad_pointer f p = p
Completes-map P Q too_long f p = p
