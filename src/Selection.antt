-- ===== src/Selection.antt =====
-- ppos_disk.c: fcfsSched, sstfSched and cscanSched, which choose the next request. `head` is the
-- block at which the disk stands. The rounds of a loop are counted down from the list's size.
pub mod Walk
pub mod Nearest
pub mod Circular
pub mod Stuck
pub mod Wrap
use ping_pong_so.Base.{Bool, Option, false, if◌then◌else◌, none, some, suc, true, zero, ℕ, ◌==◌}
use ping_pong_so.Base.Int.{abs, leb_ℤ, ltb_ℤ, pos, pos_part, sub_int, ℤ}
use ping_pong_so.Requests.{RequestList}
use ping_pong_so.Requests.Memory.{Cmd, Ptr, Request, crash, load, null, pure, ◌>>=◌, ◌>>◌}

-- The first request; a null list is a fault.
unfoldable pub fcfs_sched : Option RequestList → Cmd Ptr
fcfs_sched none = crash
fcfs_sched (some l) = pure l.first_node

-- The distance that the head has to travel.
abbrev pub seek_distance : ℤ → Request → ℤ
seek_distance head r = abs (sub_int r.block head)

-- The loop of `sstfSched`: the least distance so far, and the node that has it.
unfoldable pub sstf_loop : ℤ → ℕ → Ptr → ℤ → Ptr → Cmd Ptr
sstf_loop head zero iter shortest nearest = pure nearest
sstf_loop head (suc k) iter shortest nearest = if iter == null then pure nearest else do
  n ← load iter
  let distance = seek_distance head n.request
  let closer = ltb_ℤ distance shortest
  sstf_loop head k n.next (if closer then distance else shortest) (if closer then iter else nearest)

-- The first of the requests nearest to the head.
unfoldable pub sstf_sched : ℤ → Option RequestList → Cmd Ptr
sstf_sched head none = crash
sstf_sched head (some l) = do
  n ← load l.first_node
  sstf_loop head (pos_part l.i_size) l.first_node (seek_distance head n.request) l.first_node

-- The variables of the loop of `cscanSched`.
pub record Scan : Type 0 where
  pub shortest_front : ℤ
  pub shortest : ℤ
  pub shortest_req : Ptr
  pub shortest_req2 : Ptr
  pub is_in_front : Bool

-- One round: a request at or after the head competes by its distance, another by its block.
unfoldable pub cscan_round : ℤ → Ptr → Request → Scan → Scan
cscan_round head iter r s =
    let distance = sub_int r.block head in
    if leb_ℤ (pos 0) distance
    then if ltb_ℤ distance s.shortest_front
      then record s { is_in_front = true; shortest_front = distance; shortest_req = iter }
      else record s { is_in_front = true }
    else if ltb_ℤ r.block s.shortest
    then record s { shortest = r.block; shortest_req2 = iter }
    else s

unfoldable pub cscan_loop : ℤ → ℕ → Ptr → Scan → Cmd Scan
cscan_loop head zero iter s = pure s
cscan_loop head (suc k) iter s =
    if iter == null
    then pure s
    else do n ← load iter; cscan_loop head k n.next (cscan_round head iter n.request s)

abbrev pub cscan_choice : Scan → Ptr
cscan_choice s = if s.is_in_front then s.shortest_req else s.shortest_req2

unfoldable pub cscan_sched : ℤ → Option RequestList → Cmd Ptr
cscan_sched head none = crash
cscan_sched head (some l) = do
  n ← load l.first_node
  s ← cscan_loop head (pos_part l.i_size) l.first_node (record {
    shortest_front = sub_int n.request.block head;
    shortest = n.request.block;
    shortest_req = l.first_node;
    shortest_req2 = l.first_node;
    is_in_front = false;
  })
  pure (cscan_choice s)
