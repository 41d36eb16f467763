-- ===== src/Requests/Memory.antt =====
-- The memory that holds the request nodes of ppos_disk.c, and the commands over it.
-- A read of freed memory does not stop the program: it yields what the allocator left there, and
-- is counted. Every other bad access is a fault.
use ping_pong_so.Base.{
  Bool, List, arith, false, if◌then◌else◌, refl, true, ℕ, ◌+◌, ◌==◌, ◌∷◌, ◌≡◌, ◌≢◌,
}
use ping_pong_so.Base.Int.{ℤ}

-- A pointer is an address.
abbrev pub Ptr : Type 0
Ptr = ℕ

abbrev pub null : Ptr
null = 0

-- What a request asks for: the fields of `ST_RequestNode` other than its links.
pub record Request : Type 0 where
  pub task : Ptr
  pub block : ℤ
  pub buffer : Ptr
  pub task_action : ℤ
  pub starting_time : ℕ

-- `ST_RequestNode`
pub record Node : Type 0 where
  pub prev : Ptr
  pub next : Ptr
  pub request : Request

abbrev pub node : Ptr → Ptr → Request → Node
node p n r = record { prev = p; next = n; request = r }

pub data Cell : Type 0 where
  unused : Cell
  live : Node → Cell
  freed : Node → Cell

abbrev pub is_live : Cell → Bool
is_live (live _) = true
is_live _ = false

pub data Mutex : Type 0 where
  request_mutex : Mutex
  queue_mutex : Mutex

pub data Semaphore : Type 0 where
  new_requests : Semaphore
  treated_requests : Semaphore

-- The calls of the task library, in the order in which they are made.
pub data SyncCall : Type 0 where
  mutex_create : Mutex → SyncCall
  sem_create : Semaphore → ℤ → SyncCall
  mutex_lock : Mutex → SyncCall
  mutex_unlock : Mutex → SyncCall
  sem_up : Semaphore → SyncCall
  sem_down : Semaphore → SyncCall
  task_create : SyncCall
  task_setprio : ℤ → SyncCall
  task_exit : SyncCall

-- `residue` is what the allocator leaves of a node that is freed, `stale` counts the reads of freed
-- nodes, and `calls` holds the calls made so far, the last one first.
pub record Memory : Type 0 where
  pub cell : Ptr → Cell
  pub residue : Node → Node
  pub stale : ℕ
  pub calls : List SyncCall

-- A run follows a bad pointer, runs out of fuel, or ends with a result.
pub data Run (A : Type 0) : Type 0 where
  fault : Run A
  out_of_fuel : Run A
  ok : A → Memory → Run A

abbrev pub Cmd : Type 0 → Type 0
Cmd A = Memory → Run A

module _ {A B : Type 0} where
  abbrev pub and_then : Run A → (A → Cmd B) → Run B
  and_then fault rest = fault
  and_then out_of_fuel rest = out_of_fuel
  and_then (ok a g) rest = rest a g

  infixl 5 ◌>>=◌ ◌>>◌
  abbrev pub ◌>>=◌ : Cmd A → (A → Cmd B) → Cmd B
  c >>= rest = λ h. and_then (c h) rest

  abbrev pub ◌>>◌ : Cmd A → Cmd B → Cmd B
  c >> d = c >>= λ _. d

abbrev pub pure : {A : Type 0} → A → Cmd A
pure = ok

abbrev pub crash : {A : Type 0} → Cmd A
crash h = fault

unfoldable pub update : (Ptr → Cell) → Ptr → Cell → Ptr → Cell
update h p c a = if a == p then c else h a

abbrev pub store : Ptr → Cell → Cmd (Unit {0})
store p c h = ok tt (record h { cell = update h.cell p c })

abbrev pub call : SyncCall → Cmd (Unit {0})
call c h = ok tt (record h { calls = c ∷ h.calls })

pub update-other : (h : Ptr → Cell) (p : Ptr) (c : Cell) (a : Ptr) → a ≢ p → update h p c a ≡ h a
unfolding update
update-other h p c a ne = ground arith

pub update-same : (h : Ptr → Cell) (p : Ptr) (c : Cell) → update h p c p ≡ c
unfolding update
update-same h p c = ground arith

-- A read through `p`.
unfoldable pub load : Ptr → Cmd Node
load p h = if p == null then fault else elim (h.cell p) [
  | unused ↦ fault
  | live n ↦ ok n h
  | freed n ↦ ok n (record h { stale = h.stale + 1 })
]

-- A node that may be written to or freed.
unfoldable pub own : Ptr → Cmd Node
own p h = if p == null then fault else elim (h.cell p) [ live n ↦ ok n h | _ ↦ fault ]

unfoldable pub set_next : Ptr → Ptr → Cmd (Unit {0})
set_next p q = do n ← own p; store p (live (record n { next = q }))

unfoldable pub set_prev : Ptr → Ptr → Cmd (Unit {0})
set_prev p q = do n ← own p; store p (live (record n { prev = q }))

unfoldable pub free : Ptr → Cmd (Unit {0})
free p = do n ← own p; λ h. store p (freed (h.residue n)) h

-- Total correctness of a run: it ends without a fault, in a result and a memory as stated.
abbrev pub Ends : {A : Type 0} → (A → Memory → Type 0) → Run A → Type 0
Ends P (ok a h) = P a h
Ends P fault = ⊥
Ends P out_of_fuel = ⊥

pub Ends-bind :
    {A B : Type 0} (P : A → Memory → Type 0) (Q : B → Memory → Type 0) (m : Run A) (k : A → Cmd B)
    → Ends P m
    → ((a : A) (h : Memory) → P a h → Ends Q (k a h))
    → Ends Q (and_then m k)
Ends-bind P Q (ok a h) k p next = next a h p
Ends-bind P Q fault k p next = absurd p
Ends-bind P Q out_of_fuel k p next = absurd p

pub Ends-inv :
    {A : Type 0} (P : A → Memory → Type 0) (m : Run A)
    → Ends P m
    → (a : A) × (h : Memory) × (m ≡ ok a h) × P a h
Ends-inv P (ok a h) p = (a, h, refl, p)
Ends-inv P fault p = absurd p
Ends-inv P out_of_fuel p = absurd p
