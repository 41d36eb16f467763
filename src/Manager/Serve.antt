-- ===== src/Manager/Serve.antt =====
-- diskScheduler on a list with requests: the nearest one leaves the list and goes to the disk.
use ping_pong_so.Base.{
  All, All-middle, Option, [], ap, length, some, subst, true, ◌++◌, ◌+◌, ◌<◌, ◌^◌, ◌∙◌, ◌∷◌, ◌≡◌,
  ◌≢◌,
}
use ping_pong_so.Base.Argmin.{IsFirstMin}
use ping_pong_so.Base.Int.{add_int, pos, ℤ}
use ping_pong_so.Device.{Env, Hardware, disk_cmd, idle, returned, status_code}
use ping_pong_so.Device.Commands.{disk_cmd-query}
use ping_pong_so.Device.Valid.{IsReady}
use ping_pong_so.Manager.{disk_scheduler, dispatch, select}
use ping_pong_so.Manager.Dispatch.{IsBusyWith, IsServable, Serves, dispatch-Serves}
use ping_pong_so.Manager.State.{Finishes, Finishes-map, System, sstf}
use ping_pong_so.Requests.{RequestList, is_empty, remove_node}
use ping_pong_so.Requests.Memory.{Ends-inv, Memory, Node, Ptr, Request, Run, node, null}
use ping_pong_so.Requests.Queue.{IsQueue, ne_null-false, restale}
use ping_pong_so.Requests.Remove.{remove_node-append}
use ping_pong_so.Requests.Remove.Middle.{Removed}
use ping_pong_so.Requests.Segment.{Entries, Seg-split, first_or, last_or}
use ping_pong_so.Selection.{seek_distance, sstf_sched}
use ping_pong_so.Selection.Nearest.{distance_of, sstf_sched-IsFirstMin}

-- The state in which `dispatch` runs.
abbrev pub taken : System → RequestList → Memory → System
taken s l g = record s {
  disk = record s.disk { algorithm = sstf; status = pos 1 };
  list = some l;
  mem = g;
  io = s.io ++ [];
}

-- An idle disk reports its status.
status-idle :
    (e : Env) (d : Hardware)
    → d.status ≡ idle
    → disk_cmd e (pos 3) (pos 0) 0 d ≡ returned (pos 1) d []
status-idle e d is =
    (disk_cmd-query e d (pos 0) 0 (λ no. cc)).1 ∙ ap (λ c. returned (status_code c) d []) is

pub scheduler-run :
    (e : Env) (s : System) (l l' : RequestList) (p : Ptr) (g : Memory)
    → s.list ≡ some l
    → l.first_node ≢ null
    → sstf_sched s.disk.i_curr_block (some l) s.mem ≡ Run.ok p s.mem
    → remove_node (some l) p s.mem ≡ Run.ok (some l') g
    → s.hw.status ≡ idle
    → disk_scheduler e s ≡ dispatch e p (taken s l' g)
unfolding disk_scheduler select is_empty
scheduler-run e s l l' p g el ne chosen removed is =
    simp (el, ne_null-false l.first_node ne, chosen, removed, status-idle e s.hw is)

-- The outcome of serving the nearest of the requests `xs`.
pub record Served (s : System) (xs : Entries) (result : ℤ) (t : System) : Type 0 where
  pub chosen : Ptr × Request
  pub list : RequestList
  pub nearest : IsFirstMin (distance_of s.disk.i_curr_block) xs chosen
  pub accepted : result ≡ pos 0
  pub left : t.list ≡ some list
  pub queue : IsQueue t.mem list (nearest.before ++ nearest.after)
  pub busy : IsBusyWith s.hw chosen.1 t.hw
  pub head : t.disk.i_curr_block ≡ chosen.1.block
  pub travelled :
      t.disk.total_block_access
      ≡ add_int s.disk.total_block_access (distance_of s.disk.i_curr_block chosen)
  pub stale : t.mem.stale ≡ s.mem.stale + 4
  pub calls : t.mem.calls ≡ s.mem.calls

module _ (e : Env) (s : System) (l : RequestList) (whole : Entries) (m : Ptr × Request)
    (near : IsFirstMin (distance_of s.disk.i_curr_block) whole m) (g : Memory)
    (o : Option RequestList) (r : Removed s.mem near.before m.0 m.1 near.after o g) where
  abbrev gone : Node
  gone = node (last_or null near.before) (first_or null near.after) m.1

  Serves-Served :
      (s.mem.residue gone).request ≡ m.1
      → (a : ℤ) (t : System) → Serves (taken s r.list g) (s.mem.residue gone).request a t
      → Served s whole a t
  Serves-Served keeps a t serves = record {
    chosen = m;
    list = r.list;
    nearest = near;
    accepted = serves.accepted;
    left = serves.list;
    queue = rw serves.mem (restale r.queue);
    busy = rw keeps at serves.hw;
    head = ap (λ d. d.i_curr_block) serves.disk ∙ ap (λ q. q.block) keeps;
    travelled =
        ap (λ d. d.total_block_access) serves.disk
        ∙ ap (λ q. add_int s.disk.total_block_access (seek_distance s.disk.i_curr_block q)) keeps;
    stale = ap (λ h. h.stale) serves.mem ∙ ap (λ n. n + 4) r.stale;
    calls = ap (λ h. h.calls) serves.mem ∙ r.calls;
  }

  dispatch-Served :
      m.0 ≢ null
      → (s.mem.residue gone).request ≡ m.1
      → IsReady s.hw
      → s.hw.status ≡ idle
      → e.timer_set ≡ true
      → IsServable s.hw m.1
      → Finishes (Served s whole) (dispatch e m.0 (taken s r.list g))
  dispatch-Served ne keeps ready is set fit =
      Finishes-map _ _ (dispatch e m.0 (taken s r.list g)) (Serves-Served keeps) (
        dispatch-Serves e m.0 (s.mem.residue gone) (taken s r.list g) r.released ne ready is set
          (rw keeps fit))

-- `diskScheduler` serves the nearest request: on an idle ready disk whose timer works, with a list
-- of one to 2^31 - 1 requests that the disk can take, it ends with result 0 and without a fault.
-- The first of the requests nearest to the head has left the list, the disk is busy with it, the
-- head counts as moved to its block and its distance is added to the total. It holds where freeing
-- a node does not change the request in it, since that request is read 4 times after it is freed.
pub disk_scheduler-Served :
    (e : Env) (s : System) (l : RequestList) (x : Ptr × Request) (xs : Entries)
    → s.list ≡ some l
    → IsQueue s.mem l (x ∷ xs)
    → length (x ∷ xs) < 2 ^ 31
    → IsReady s.hw
    → s.hw.status ≡ idle
    → e.timer_set ≡ true
    → All (λ y. IsServable s.hw y.1) (x ∷ xs)
    → ((n : Node) → (s.mem.residue n).request ≡ n.request)
    → Finishes (Served s (x ∷ xs)) (disk_scheduler e s)
disk_scheduler-Served e s l x xs el q small ready is set fit keeps =
    let (m, run, near) = sstf_sched-IsFirstMin s.mem s.disk.i_curr_block l x xs q small in
    let whole : IsQueue s.mem l (near.before ++ (m.0, m.1) ∷ near.after) = rw near.split at q in
    let (front, back) =
      Seg-split s.mem.cell null null near.before ((m.0, m.1) ∷ near.after) whole.chain in
    let (o, g, removed, r) = Ends-inv _ (remove_node (some l) m.0 s.mem) (
      remove_node-append s.mem l near.before m.0 m.1 near.after whole
        (subst (λ ws. length ws < 2 ^ 31) near.split small)) in
    rw
      (scheduler-run e s l r.list m.0 g el (rw q.first q.chain.1) run
        (removed ∙ ap (λ c. Run.ok c g) r.result) is)
      (dispatch-Served e s l (x ∷ xs) m near g o r back.1 (keeps _) ready is set (
        All-middle (λ y. IsServable s.hw y.1) near.before m near.after
          (subst (All (λ y. IsServable s.hw y.1)) near.split fit)))
