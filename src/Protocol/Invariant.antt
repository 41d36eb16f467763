-- ===== src/Protocol/Invariant.antt =====
-- What holds in every state that the tasks can reach.
use ping_pong_so.Base.{All, length, some, true, ℕ, ◌+◌, ◌≡◌, ◌≢◌}
use ping_pong_so.Device.{Status, idle}
use ping_pong_so.Device.Valid.{IsReady}
use ping_pong_so.Manager.Takes.{IsTransfer}
use ping_pong_so.Protocol.{DiskPc, Pc, State, ended, locked, queued, scheduling, served, signalled}
use ping_pong_so.Protocol.Sync.{SyncLib, held}
use ping_pong_so.Requests.{RequestList}
use ping_pong_so.Requests.Memory.{Node}
use ping_pong_so.Requests.Queue.{IsQueue}
use ping_pong_so.Requests.Segment.{Entries}
use ping_pong_so.Totals.{total}

-- The tasks that hold the mutex of requests, that wait for their request to be treated, and whose
-- request is in the list without having been announced.
unfoldable pub holds_mutex : Pc → ℕ
holds_mutex locked = 1
holds_mutex signalled = 1
holds_mutex served = 1
holds_mutex _ = 0

unfoldable pub awaits : Pc → ℕ
awaits signalled = 1
awaits _ = 0

unfoldable pub unannounced : Pc → ℕ
unannounced queued = 1
unannounced locked = 1
unannounced _ = 0

-- The request that the disk task is about to serve, and the one at which the disk works.
unfoldable pub at_scheduler : DiskPc → ℕ
at_scheduler scheduling = 1
at_scheduler _ = 0

unfoldable pub in_flight : Status → ℕ
in_flight idle = 0
in_flight _ = 1

module _ (lib : SyncLib) (n : ℕ) where
  pub record Inv (s : State lib n) : Type 0 where
    pub list : RequestList
    pub entries : Entries
    pub there : s.sys.list ≡ some list
    pub queue : IsQueue s.sys.mem list entries
    pub kinds : All (λ y. IsTransfer y.1) entries
    pub ready : IsReady s.sys.hw
    pub keeps : (m : Node) → (s.sys.mem.residue m).request ≡ m.request
    pub init : s.sys.disk.init ≡ true
    pub alive : s.disk_pc ≢ ended
    pub queue_free : held lib s.sems.queue_lock ≡ 0
    -- The mutex of requests is held by one task at most.
    pub holder : total holds_mutex n s.pc ≡ held lib s.sems.request_lock
    -- A task that waits has exactly one thing that will wake it up.
    pub tokens :
        total awaits n s.pc
        ≡ lib.value s.sems.new_count
          + at_scheduler s.disk_pc
          + in_flight s.sys.hw.status
          + lib.value s.sems.treated_count
    -- The list holds the requests that have not been handed to the disk.
    pub pending :
        length entries
        ≡ total unannounced n s.pc + lib.value s.sems.new_count + at_scheduler s.disk_pc
