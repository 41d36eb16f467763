-- ===== src/Single.antt =====
-- ppos_disk.c with one task that calls disk_block_read and disk_block_write: what that task, the disk
-- task and the disk's timer do, one after the other, to the list, the disk and memory.
pub mod Begin
pub mod Call
pub mod Blocks
pub mod Turns
pub mod Order
use ping_pong_so.Base.{Option, [], if◌then◌else◌, none, some}
use ping_pong_so.Base.Int.{pos, ℤ}
use ping_pong_so.Device.{Env, idle, is_status}
use ping_pong_so.Device.Posix.{Posix, perform_all}
use ping_pong_so.Manager.{disk_interrupt}
use ping_pong_so.Manager.State.{M, Result, System, done, get, return, ◌>>=◌, ◌>>◌}
use ping_pong_so.Protocol.{
  disk_segment, enqueue, fresh_calls, locked, queued, scheduling, segment, served, signalled,
  waiting,
}
use ping_pong_so.Requests.Memory.{Ptr}

-- The steps of Protocol.antt that make up one call while no other task is inside, in the order in
-- which they end. The caller makes its `sem_down` on `treatedReqSem` right behind its `sem_up`, and
-- blocks in it until the disk task or the timer has raised the semaphore: as in Protocol.antt, the
-- call stands here where it comes to its end. Single/Order.antt is about why the order is this one.
unfoldable pub disk_block_call : Env → Ptr → ℤ → ℤ → Ptr → M ℤ
disk_block_call e fresh action block buffer = do
  enqueue fresh action block buffer
  segment queued
  segment locked
  disk_segment e waiting
  disk_segment e scheduling
  s ← get
  if is_status s.hw.status idle then return tt else disk_interrupt
  segment signalled
  segment served
  return (pos 0)

module _ (os : Posix) where
  open os use {World}

  -- It begins with an empty record of calls. The system calls that the disk has made have changed the file and memory.
  abbrev pub outcome : Result ℤ → World → Option (ℤ × System × World)
  outcome (done r t) w = some (r, t, perform_all os t.io w)
  outcome _ w = none

  unfoldable pub block_call : Env → Ptr → ℤ → ℤ → Ptr → System → World → Option (ℤ × System × World)
  unfolding perform_all
  block_call e fresh action block buffer s w =
      outcome (disk_block_call e fresh action block buffer (record (fresh_calls s) { io = [] })) w
