-- ===== src/Device.antt =====
-- disk.c: the simulated hard disk. `disk_cmd` takes a command, and `disk_sighandle` is the handler
-- of the timer that ends an operation. The system calls are recorded in order, and their answers
-- are the argument `Env`.
pub mod Valid
pub mod Timing
pub mod Commands
pub mod Invariant
pub mod Posix
pub mod Storage
use ping_pong_so.Base.{Bool, List, [], if◌then◌else◌, ℕ, ◌++◌, ◌==◌, ◌||◌, ◌∷◌}
use ping_pong_so.Base.Int.{
  abs, add_int, div_int, div_ℤ, eq_ℤ, leb_ℤ, ltb_ℤ, mul_int, negsuc, pos, rem_ℤ, sub_int, to_int, ℤ,
}

-- DISK_STATUS_UNKNOWN to DISK_STATUS_WRITE
pub data Status : Type 0 where
  unknown : Status
  idle : Status
  reading : Status
  writing : Status

-- The number that stands for a status.
abbrev pub status_code : Status → ℤ
status_code unknown = pos 0
status_code idle = pos 1
status_code reading = pos 2
status_code writing = pos 3

-- DISK_CMD_INIT to DISK_CMD_DELAYMAX; `other` is any other number.
pub data Command : Type 0 where
  init : Command
  read : Command
  write : Command
  status : Command
  disk_size : Command
  block_size : Command
  delay_min : Command
  delay_max : Command
  other : Command

-- The command that an `int` stands for.
unfoldable pub command : ℤ → Command
command (negsuc _) = other
command (pos n) =
    if n == 0
    then init
    else if n == 1
    then read
    else if n == 2
    then write
    else if n == 3
    then status
    else if n == 4
    then disk_size
    else if n == 5
    then block_size
    else if n == 6
    then delay_min
    else if n == 7
    then delay_max
    else other

abbrev pub disk_block_size : ℤ
disk_block_size = pos 64

abbrev pub disk_delay_min : ℤ
disk_delay_min = pos 30

abbrev pub disk_delay_max : ℤ
disk_delay_max = pos 300

-- `disk_t` of disk.c, less the file's name and the structures handed to sigaction and timer_create.
-- A pointer is a number, and NULL is 0.
pub record Hardware : Type 0 where
  pub status : Status
  pub fd : ℤ
  pub num_blocks : ℤ
  pub block_size : ℤ
  pub buffer : ℕ
  pub prev_block : ℤ
  pub next_block : ℤ
  pub delay_min : ℤ
  pub delay_max : ℤ
  pub delay_sec : ℤ
  pub delay_nsec : ℤ

-- The system calls, with the arguments that vary.
pub data Call : Type 0 where
  open_disk : Call
  lseek_end : ℤ → Call
  sigaction_sigio : Call
  timer_create : Call
  timer_settime : (sec nsec : ℤ) → Call
  lseek_set : (fd offset : ℤ) → Call
  read_file : (fd : ℤ) (buffer : ℕ) (size : ℤ) → Call
  write_file : (fd : ℤ) (buffer : ℕ) (size : ℤ) → Call
  raise_sigusr1 : Call

-- What the system calls of one command answer: the descriptor that `open` returns, the position
-- that `lseek` to the end of the file returns, `random ()`, and whether the two timer calls work.
pub record Env : Type 0 where
  pub opened : ℤ
  pub file_end : ℤ
  pub random : ℕ
  pub timer_created : Bool
  pub timer_set : Bool

-- A run returns, ends the process by `exit (1)`, or is killed by a division by zero.
pub data Outcome (A : Type 0) : Type 0 where
  returned : A → Hardware → List Call → Outcome A
  exited : List Call → Outcome A
  crashed : Outcome A

-- `time_ms` of `disk_settimer`.
unfoldable pub time_ms : Env → Hardware → ℤ
time_ms e d =
    let span = sub_int d.delay_max d.delay_min in
    let travel = div_int (mul_int (abs (sub_int d.next_block d.prev_block)) span) d.num_blocks in
    add_int (add_int travel d.delay_min) (div_ℤ (rem_ℤ (pos e.random) span) (pos 10))

-- Arms the timer that ends the operation.
unfoldable pub disk_settimer : Env → Hardware → Outcome ℤ
disk_settimer e d =
    if eq_ℤ d.num_blocks (pos 0) || eq_ℤ (sub_int d.delay_max d.delay_min) (pos 0)
    then crashed
    else let time = time_ms e d in
      let nsec = mul_int time (pos 1_000_000) in
      let sec = div_int time (pos 1000) in
      let calls = timer_settime sec nsec ∷ [] in
      if e.timer_set
      then returned (pos 0) (record d { delay_sec = sec; delay_nsec = nsec }) calls
      else exited calls

-- The transfer that `disk_sighandle` makes before it frees the disk.
abbrev pub transfer : Hardware → (ℤ → ℕ → ℤ → Call) → List Call
transfer d call =
    lseek_set d.fd (mul_int d.next_block d.block_size) ∷ call d.fd d.buffer d.block_size ∷ []

abbrev pub finish : Hardware → Hardware
finish d = record d { prev_block = d.next_block; status = idle }

-- `disk_sighandle` by the state of the disk.
unfoldable pub sighandle_in : Status → Hardware → Outcome (Unit {0})
sighandle_in reading d = returned tt (finish d) (transfer d read_file ++ raise_sigusr1 ∷ [])
sighandle_in writing d = returned tt (finish d) (transfer d write_file ++ raise_sigusr1 ∷ [])
sighandle_in _ d = exited []

-- The handler of the timer's signal SIGIO.
unfoldable pub disk_sighandle : Hardware → Outcome (Unit {0})
unfolding sighandle_in
disk_sighandle d = sighandle_in d.status d

-- `disk_init` once the disk is known to be uninitialised.
unfoldable pub disk_open : Env → Hardware → Outcome ℤ
disk_open e d =
    if ltb_ℤ e.opened (pos 0)
    then exited (open_disk ∷ [])
    else let calls = open_disk ∷ lseek_end e.opened ∷ sigaction_sigio ∷ timer_create ∷ [] in
      if e.timer_created
      then returned (pos 0)
          (record d {
            status = idle;
            next_block = pos 0;
            prev_block = pos 0;
            fd = e.opened;
            block_size = disk_block_size;
            num_blocks = to_int (div_ℤ e.file_end disk_block_size);
            delay_min = disk_delay_min;
            delay_max = disk_delay_max;
          })
          calls
      else exited calls

abbrev pub is_status : Status → Status → Bool
is_status s t = eq_ℤ (status_code s) (status_code t)

unfoldable pub disk_init : Env → Hardware → Outcome ℤ
disk_init e d = if is_status d.status unknown then disk_open e d else returned (negsuc 0) d []

-- A query that is answered once the disk is initialised.
abbrev pub query : ℤ → Hardware → Outcome ℤ
query value d = returned (if is_status d.status unknown then negsuc 0 else value) d []

-- The cases DISK_CMD_READ and DISK_CMD_WRITE, with the status that the operation sets.
unfoldable pub request : Env → Status → ℤ → ℕ → Hardware → Outcome ℤ
request e busy block buffer d =
    if is_status d.status idle
    then if buffer == 0 || (ltb_ℤ block (pos 0) || leb_ℤ d.num_blocks block)
      then returned (negsuc 0) d []
      else disk_settimer e (record d { buffer = buffer; next_block = block; status = busy })
    else returned (negsuc 0) d []

-- `disk_cmd` by its command.
unfoldable pub run_command : Env → Command → ℤ → ℕ → Hardware → Outcome ℤ
run_command e init block buffer d = disk_init e d
run_command e status block buffer d = returned (status_code d.status) d []
run_command e disk_size block buffer d = query d.num_blocks d
run_command e block_size block buffer d = query d.block_size d
run_command e delay_min block buffer d = query d.delay_min d
run_command e delay_max block buffer d = query d.delay_max d
run_command e read block buffer d = request e reading block buffer d
run_command e write block buffer d = request e writing block buffer d
run_command e other block buffer d = returned (negsuc 0) d []

-- The low-level interface of the disk.
unfoldable pub disk_cmd : Env → ℤ → ℤ → ℕ → Hardware → Outcome ℤ
unfolding command run_command
disk_cmd e cmd block buffer d = run_command e (command cmd) block buffer d
