-- ===== src/Disco.antt =====
-- pingpong-disco1.c: one task shows every block of the disk and then overwrites each with a
-- character. Its calls of the disk are those of `Single`; times that it prints are left out.
pub mod Buffer
pub mod Steps
pub mod Reads
pub mod Writes
pub mod Main
use ping_pong_so.Base.{
  Bool, List, Option, [], if◌then◌else◌, none, some, suc, zero, ℕ, ◌%◌, ◌++◌, ◌+◌, ◌==◌, ◌∷◌, ◌≡◌,
}
use ping_pong_so.Base.Int.{eq_ℤ, ltb_ℤ, pos, pos_part, ℤ}
use ping_pong_so.Device.{Env}
use ping_pong_so.Device.Posix.{Posix, perform_all}
use ping_pong_so.Manager.{disk_mgr_init, finish_disk_task}
use ping_pong_so.Manager.State.{Result, System, done}
use ping_pong_so.Requests.Memory.{Memory, Ptr, null}
use ping_pong_so.Single.{block_call}

-- How the program's own stores change memory.
pub record Stores (os : Posix) : Type 0 where
  pub store : ℕ → ℕ → os.World → os.World
  pub store-memory :
      (a c x : ℕ) (w : os.World) → os.memory (store a c w) x ≡ (if x == a then c else os.memory w x)
  pub store-file : (a c i : ℕ) (w : os.World) → os.file (store a c w) i ≡ os.file w i
  pub store-size : (a c : ℕ) (w : os.World) → os.size (store a c w) ≡ os.size w

-- What the code outside of the repository answers: the system calls of `disk_mgr_init` and of the
-- call for each block, `malloc` for the buffer and for a node, and `random` for each block.
pub record Answers : Type 0 where
  pub boot : Env
  pub handled : Bool
  pub allocated : Bool
  pub buffer : Ptr
  pub fresh : Memory → Ptr
  pub reads : ℕ → Env
  pub writes : ℕ → Env
  pub random : ℕ → ℕ

-- What the program prints.
pub data Line : Type 0 where
  main_starts : Line
  cannot_open : Line
  disk_has : (blocks bytes : ℤ) → Line
  no_memory : Line
  reading_block : ℕ → Line
  failed : Line
  shown : List ℕ → Line
  writing_block : (block char : ℕ) → Line
  main_ends : Line

-- The manager with the disk, the file with memory, and what has been printed.
pub record Machine (W : Type 0) : Type 0 where
  pub sys : System
  pub world : W
  pub out : List Line

abbrev pub Act : Type 0 → Type 0 → Type 0
Act W A = Machine W → Option (A × Machine W)

module _ {W A B : Type 0} where
  abbrev pub continue : Option (A × Machine W) → (A → Act W B) → Option (B × Machine W)
  continue none k = none
  continue (some (a, m)) k = k a m

  infixl 5 ◌>>=◌ ◌>>◌
  abbrev pub ◌>>=◌ : Act W A → (A → Act W B) → Act W B
  act >>= k = λ m. continue (act m) k

  abbrev pub ◌>>◌ : Act W A → Act W B → Act W B
  act >> k = act >>= λ _. k

module _ {W : Type 0} where
  abbrev pub give : {A : Type 0} → A → Act W A
  give a m = some (a, m)

  abbrev pub look : Act W (Machine W)
  look m = some (m, m)

  abbrev pub print : Line → Act W (Unit {0})
  print l m = some (tt, record m { out = m.out ++ l ∷ [] })

  abbrev pub change : (W → W) → Act W (Unit {0})
  change f m = some (tt, record m { world = f m.world })

  -- What a call of the disk gives back.
  abbrev pub called : Machine W → Option (ℤ × System × W) → Option (ℤ × Machine W)
  called m none = none
  called m (some (r, s, w)) = some (r, record m { sys = s; world = w })

-- `n` bytes from `a`.
unfoldable pub bytes : (ℕ → ℕ) → ℕ → ℕ → List ℕ
bytes f zero a = []
bytes f (suc n) a = f a ∷ bytes f n (suc a)

abbrev pub char_of : ℕ → ℕ
char_of r = 32 + r % 48

module _ (os : Posix) (cpu : Stores os) (ans : Answers) where
  open os use {World}

  -- The loop that fills the buffer: `n` bytes from `a`.
  unfoldable pub fill : ℕ → ℕ → ℕ → World → World
  fill zero a c w = w
  fill (suc n) a c w = fill n (suc a) c (cpu.store a c w)

  -- A call of the disk for block `i`.
  unfoldable pub transfer_block : Env → ℤ → ℕ → Act World ℤ
  unfolding block_call
  transfer_block e action i m =
      called m (block_call os e (ans.fresh m.sys.mem) action (pos i) ans.buffer m.sys m.world)

  abbrev pub complain : ℤ → Act World (Unit {0})
  complain r = if eq_ℤ r (pos 0) then give tt else print failed

  -- The first loop, with `k` rounds left before block `i`.
  unfoldable pub read_blocks : ℕ → ℕ → ℕ → Act World (Unit {0})
  unfolding transfer_block
  read_blocks size zero i = give tt
  read_blocks size (suc k) i = do
    print (reading_block i)
    r ← transfer_block (ans.reads i) (pos 1) i
    complain r
    m ← look
    print (shown (bytes (os.memory m.world) size ans.buffer))
    read_blocks size k (suc i)

  -- The second loop.
  unfoldable pub write_blocks : ℕ → ℕ → ℕ → Act World (Unit {0})
  unfolding transfer_block
  write_blocks size zero i = give tt
  write_blocks size (suc k) i = do
    let c = char_of (ans.random i)
    change (fill size ans.buffer c)
    print (writing_block i c)
    r ← transfer_block (ans.writes i) (pos 2) i
    complain r
    write_blocks size k (suc i)

  abbrev pub booted : Machine World → Result ℤ → Option (ℤ × Machine World)
  booted m (done r s) = some (r, record m { sys = s; world = perform_all os s.io m.world })
  booted m _ = none

  -- `disk_mgr_init`
  unfoldable pub start_manager : Act World ℤ
  unfolding perform_all
  start_manager m =
      booted m (disk_mgr_init ans.boot ans.handled ans.allocated (record m.sys { io = [] }))

  abbrev pub leave_with : Machine World → Result Bool → Option (Unit {0} × Machine World)
  leave_with m (done b t) = some (tt, record m { sys = t })
  leave_with m _ = none

  -- What the hook `after_task_exit` does to this state, as the task of `main` has the number 0.
  unfoldable pub leave : Act World (Unit {0})
  unfolding finish_disk_task
  leave m = leave_with m (finish_disk_task m.sys)

  -- `main` from the first loop on, for so many bytes in a block and so many blocks.
  unfoldable pub visit_each : ℕ → ℕ → Act World ℤ
  visit_each size blocks = do
    read_blocks size blocks 0
    write_blocks size blocks 0
    print main_ends
    leave
    give (pos 0)

  -- `main` from the malloc of the buffer on.
  unfoldable pub visit_blocks : Act World ℤ
  visit_blocks =
      if ans.buffer == null
      then (do print no_memory; give (pos 1))
      else do m ← look; visit_each (pos_part m.sys.disk.i_block_size) (pos_part m.sys.disk.size)

  -- `main`: the result is what it hands to `exit` or to `task_exit`.
  unfoldable pub main : Act World ℤ
  unfolding start_manager
  main = do
    print main_starts
    r ← start_manager
    if ltb_ℤ r (pos 0)
        then (do print cannot_open; give (pos 1))
        else do m ← look; print (disk_has m.sys.disk.size m.sys.disk.i_block_size); visit_blocks
