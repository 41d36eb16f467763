-- ===== src/Manager/State.antt =====
-- The state of the disk manager in ppos_disk.c together with the disk of disk.c, and the programs
-- over it.
use ping_pong_so.Base.{Bool, List, Option, refl, ℕ, ◌++◌, ◌≡◌}
use ping_pong_so.Base.Int.{ℤ}
use ping_pong_so.Device.{Call, Hardware, Outcome}
use ping_pong_so.Requests.{RequestList}
use ping_pong_so.Requests.Memory.{Cmd, Memory, Ptr, Run, SyncCall, call}

-- `EN_DiskAlgorithm`
pub data Algorithm : Type 0 where
  fcfs : Algorithm
  sstf : Algorithm
  cscan : Algorithm

-- `disk_t` of ppos_disk.h, less the descriptors of its task, mutexes and semaphores, which belong
-- to the task library.
pub record Disk : Type 0 where
  pub init : Bool
  pub size : ℤ
  pub i_block_size : ℤ
  pub i_curr_block : ℤ
  pub buffer : Ptr
  pub status : ℤ
  pub package_sync : ℤ
  pub algorithm : Algorithm
  pub starting_time : ℤ
  pub total_block_access : ℤ
  pub exec_time : ℤ

-- The manager's variables, the memory of its request list, the disk, the tick counter of the
-- kernel and the task that executes. `io` holds the system calls that the disk has made.
pub record System : Type 0 where
  pub disk : Disk
  pub list : Option RequestList
  pub mem : Memory
  pub hw : Hardware
  pub io : List Call
  pub system_time : ℕ
  pub task_exec : Ptr

-- A run ends with a result, ends the process, or is killed.
pub data Result (A : Type 0) : Type 0 where
  done : A → System → Result A
  exited : Result A
  fault : Result A
  out_of_fuel : Result A

abbrev pub M : Type 0 → Type 0
M A = System → Result A

abbrev pub return : {A : Type 0} → A → M A
return = done

module _ {A B : Type 0} where
  abbrev pub next : Result A → (A → M B) → Result B
  next (done a s) k = k a s
  next exited k = exited
  next fault k = fault
  next out_of_fuel k = out_of_fuel

  infixl 5 ◌>>=◌ ◌>>◌
  abbrev pub ◌>>=◌ : M A → (A → M B) → M B
  m >>= k = λ s. next (m s) k

  abbrev pub ◌>>◌ : M A → M B → M B
  m >> n = m >>= λ _. n

-- The state as it stands, a change of the manager's variables, and a new request list.
abbrev pub get : M System
get s = done s s

abbrev pub modify : (Disk → Disk) → M (Unit {0})
modify f s = done tt (record s { disk = f s.disk })

abbrev pub set_list : Option RequestList → M (Unit {0})
set_list l s = done tt (record s { list = l })

abbrev pub run_in : {A : Type 0} → Run A → System → Result A
run_in (Run.ok a h) s = done a (record s { mem = h })
run_in Run.fault s = fault
run_in Run.out_of_fuel s = out_of_fuel

-- A command on the request list.
abbrev pub on_list : {A : Type 0} → Cmd A → M A
on_list m s = run_in (m s.mem) s

abbrev pub run_device : {A : Type 0} → Outcome A → System → Result A
run_device (Outcome.returned a d calls) s = done a (record s { hw = d; io = s.io ++ calls })
run_device (Outcome.exited calls) s = exited
run_device Outcome.crashed s = fault

-- A command to the disk.
abbrev pub on_disk : {A : Type 0} → (Hardware → Outcome A) → M A
on_disk m s = run_device (m s.hw) s

-- A call of the task library.
abbrev pub sync : SyncCall → M (Unit {0})
sync c = on_list (call c)

-- The run ends with a result and a state as stated.
abbrev pub Finishes : {A : Type 0} → (A → System → Type 0) → Result A → Type 0
Finishes P (done a s) = P a s
Finishes P exited = ⊥
Finishes P fault = ⊥
Finishes P out_of_fuel = ⊥

pub Finishes-map :
    {A : Type 0} (P Q : A → System → Type 0) (m : Result A)
    → ((a : A) (s : System) → P a s → Q a s)
    → Finishes P m
    → Finishes Q m
Finishes-map P Q (done a s) f p = f a s p
Finishes-map P Q exited f p = p
Finishes-map P Q fault f p = p
Finishes-map P Q out_of_fuel f p = p

pub Finishes-inv :
    {A : Type 0} (P : A → System → Type 0) (m : Result A)
    → Finishes P m
    → (a : A) × (s : System) × (m ≡ done a s) × P a s
Finishes-inv P (done a s) p = (a, s, refl, p)
Finishes-inv P exited p = absurd p
Finishes-inv P fault p = absurd p
Finishes-inv P out_of_fuel p = absurd p
