-- ===== src/Producers.antt =====
-- pingpong-prodcons.c: producers and consumers that share a buffer of five integers.
pub mod Fifo
pub mod Flow
pub mod Turns
pub mod Safety
use ping_pong_so.Base.{
  List, Option, [], if◌then◌else◌, length, none, some, suc, zero, ℕ, ◌&&◌, ◌++◌, ◌-◌, ◌<◌, ◌∷◌, ◌≡◌,
  ◌⊎◌,
}
use ping_pong_so.Base.Int.{add_int, leb_ℤ, ltb_ℤ, pos, pos_part, sub_int, ℤ}
use ping_pong_so.Protocol.Sync.{SyncLib}
use ping_pong_so.Totals.{with_pc}

abbrev pub buffer_size : ℕ
buffer_size = 5

pub record Buffer : Type 0 where
  pub array : List ℤ
  pub i : ℤ

-- An index out of range has no value, and is not written.
abbrev pub get_elem? : List ℤ → ℕ → Option ℤ
get_elem? [] j = none
get_elem? (x ∷ xs) zero = some x
get_elem? (x ∷ xs) (suc j) = get_elem? xs j

abbrev pub set : List ℤ → ℕ → ℤ → List ℤ
set [] j v = []
set (x ∷ xs) zero v = v ∷ xs
set (x ∷ xs) (suc j) v = x ∷ set xs j v

abbrev pub buffer_init : Buffer → Buffer
buffer_init b = record b { i = pos 0 }

-- A write beyond the array has no outcome.
unfoldable pub buffer_place : ℤ → Buffer → Option Buffer
buffer_place item b =
    if leb_ℤ (pos 0) b.i && ltb_ℤ b.i (pos buffer_size)
    then some (record { array = set b.array (pos_part b.i) item; i = add_int b.i (pos 1) })
    else none

-- The loop of `bufferRetrieve`, by the rounds left; `j` is one less than in the source.
unfoldable pub shift_loop : ℕ → ℕ → List ℤ → Option (List ℤ)
shift_loop zero j a = some a
shift_loop (suc k) j a = elim (get_elem? a (suc j)) [
  | none ↦ none
  | some x ↦ shift_loop k (suc j) (set a j x)
]

unfoldable pub buffer_retrieve : Buffer → Option (ℤ × Buffer)
buffer_retrieve b = elim (get_elem? b.array 0) [
  | none ↦ none
  | some item ↦ elim (shift_loop (pos_part b.i - 1) 0 b.array) [
    | none ↦ none
    | some a ↦ some (item, record { array = a; i = sub_int b.i (pos 1) })
  ]
]

-- Where a task stands: before which call of `taskProdutor` or of `taskConsumidor`.
pub data Place : Type 0 where
  producing : Place
  has_slot : Place
  placing : Place
  has_placed : Place
  consuming : Place
  has_item : Place
  retrieving : Place
  has_retrieved : Place

-- A turn of a task ends, waits for a semaphore, or leaves the array.
pub data Turn (A : Type 0) : Type 0 where
  went : A → Turn A
  blocked : Turn A
  fault : Turn A

module _ (lib : SyncLib) where
  -- The buffer, the semaphores sVaga, sItem and sBuffer, the places of the tasks, and the items
  -- placed and retrieved so far, the first one first.
  pub record Shop : Type 0 where
    pub buffer : Buffer
    pub slots : lib.Sem
    pub items : lib.Sem
    pub mutex : lib.Sem
    pub pc : ℕ → Place
    pub placed : List ℤ
    pub taken : List ℤ

  -- `sem_down`
  abbrev pub wait_for : lib.Sem → (lib.Sem → Shop) → Turn Shop
  wait_for c k = elim (lib.down c) [ none ↦ blocked | some d ↦ went (k d) ]

  -- The code of a task from where it stands to its next call of `sem_down`, or to the next call that
  -- may let another task run. `item` is what `random` yields.
  unfoldable pub turn_at : Place → ℕ → ℤ → Shop → Turn Shop
  turn_at producing i item s =
      wait_for s.slots (λ d. record s { slots = d; pc = with_pc s.pc i has_slot })
  turn_at has_slot i item s =
      wait_for s.mutex (λ d. record s { mutex = d; pc = with_pc s.pc i placing })
  turn_at placing i item s = elim (buffer_place item s.buffer) [
    | none ↦ fault
    | some b ↦ went (record s {
      buffer = b;
      mutex = lib.up s.mutex;
      pc = with_pc s.pc i has_placed;
      placed = s.placed ++ item ∷ [];
    })
  ]
  turn_at has_placed i item s =
      went (record s { items = lib.up s.items; pc = with_pc s.pc i producing })
  turn_at consuming i item s =
      wait_for s.items (λ d. record s { items = d; pc = with_pc s.pc i has_item })
  turn_at has_item i item s =
      wait_for s.mutex (λ d. record s { mutex = d; pc = with_pc s.pc i retrieving })
  turn_at retrieving i item s = elim (buffer_retrieve s.buffer) [
    | none ↦ fault
    | some (x, b) ↦ went (record s {
      buffer = b;
      mutex = lib.up s.mutex;
      pc = with_pc s.pc i has_retrieved;
      taken = s.taken ++ x ∷ [];
    })
  ]
  turn_at has_retrieved i item s =
      went (record s { slots = lib.up s.slots; pc = with_pc s.pc i consuming })

  unfoldable pub task_turn : ℕ → ℤ → Shop → Turn Shop
  task_turn i item s = turn_at (s.pc i) i item s

  -- What `main` sets up, for tasks that stand at the start of their loops.
  abbrev pub open_shop : Buffer → (ℕ → Place) → Shop
  open_shop b pc = record {
    buffer = buffer_init b;
    slots = lib.counter (pos 5);
    items = lib.counter (pos 0);
    mutex = lib.counter (pos 1);
    pc = pc;
    placed = [];
    taken = [];
  }

  -- The states that `n` tasks can reach by turns in any order.
  pub data Reaches (n : ℕ) : Shop → Type 0 where
    opened :
        (b : Buffer) (pc : ℕ → Place)
        → length b.array ≡ buffer_size
        → ((i : ℕ) → (pc i ≡ producing) ⊎ (pc i ≡ consuming))
        → Reaches n (open_shop b pc)
    turned :
        {s t : Shop} (i : ℕ) (item : ℤ)
        → Reaches n s
        → i < n
        → task_turn i item s ≡ went t
        → Reaches n t
