-- ===== src/Manager/Takes.antt =====
-- diskScheduler on any list of requests to read or to write: one leaves the list, and is either
-- served or refused.
use ping_pong_so.Base.{
  All, All-middle, Option, [], ap, arith, inl, inr, length, refl, some, subst, sym, true, ◌++◌, ◌<◌,
  ◌^◌, ◌∙◌, ◌∷◌, ◌≡◌, ◌≢◌, ◌⊎◌,
}
use ping_pong_so.Base.Argmin.{IsFirstMin}
use ping_pong_so.Base.Int.{negsuc, pos, ℤ, ◌<ℤ◌, ◌≤ℤ◌}
use ping_pong_so.Device.{Env, Hardware, disk_cmd, idle, returned}
use ping_pong_so.Device.Commands.{disk_cmd-refuses}
use ping_pong_so.Device.Valid.{IsReady}
use ping_pong_so.Manager.{disk_scheduler, dispatch}
use ping_pong_so.Manager.Dispatch.{Serves, busy_with, dispatch-Serves, dispatch-run}
use ping_pong_so.Manager.Serve.{scheduler-run, taken}
use ping_pong_so.Manager.State.{Finishes, Finishes-map, System}
use ping_pong_so.Requests.{RequestList, remove_node}
use ping_pong_so.Requests.Memory.{
  Ends-inv, Memory, Node, Ptr, Request, Run, freed, node, null, sem_up, treated_requests,
}
use ping_pong_so.Requests.Queue.{IsQueue}
use ping_pong_so.Requests.Remove.{remove_node-append}
use ping_pong_so.Requests.Remove.Middle.{Removed}
use ping_pong_so.Requests.Segment.{Entries, Seg, Seg-split, first_or, last_or}
use ping_pong_so.Selection.Circular.{front}
use ping_pong_so.Selection.Nearest.{distance_of, sstf_sched-IsFirstMin}

-- A request of `disk_block_read` or `disk_block_write`.
abbrev pub IsTransfer : Request → Type 0
IsTransfer r = (r.task_action ≡ pos 1) ⊎ (r.task_action ≡ pos 2)

-- What follows a command to the disk: it works on the request, or the manager answers at once.
abbrev pub Answered : System → ℤ → System → Type 0
Answered s a t =
    ((a ≡ pos 0) × (t.hw.status ≢ idle) × (t.mem.calls ≡ s.mem.calls))
    ⊎ ((a ≡ negsuc 0)
        × (t.hw.status ≡ idle)
        × (t.mem.calls ≡ sem_up treated_requests ∷ s.mem.calls))

-- The outcome of handing a request to the idle disk.
pub record Handled (s : System) (a : ℤ) (t : System) : Type 0 where
  pub list : t.list ≡ s.list
  pub cells : t.mem.cell ≡ s.mem.cell
  pub residue : t.mem.residue ≡ s.mem.residue
  pub init : t.disk.init ≡ s.disk.init
  pub ready : IsReady t.hw
  pub answered : Answered s a t

guards :
    (d : Hardware) (r : Request)
    → ((r.buffer ≢ 0) × (pos 0 ≤ℤ r.block) × (r.block <ℤ d.num_blocks))
      ⊎ (d.status ≢ idle)
      ⊎ (r.buffer ≡ 0)
      ⊎ (r.block <ℤ pos 0)
      ⊎ (d.num_blocks ≤ℤ r.block)
guards d r = ground arith

-- A status that stands for an operation.
busy_with-ne : (a : ℤ) → busy_with a ≢ idle
busy_with-ne a = ground arith

Serves-Handled : (s : System) (r : Request) (a : ℤ) (t : System) → Serves s r a t → Handled s a t
Serves-Handled s r a t v = record {
  list = v.list;
  cells = ap (λ h. h.cell) v.mem;
  residue = ap (λ h. h.residue) v.mem;
  init = ap (λ d. d.init) v.disk;
  ready = v.hw.ready;
  answered =
      inl (
        v.accepted,
        λ e. busy_with-ne r.task_action (sym v.hw.status ∙ e),
        ap (λ h. h.calls) v.mem,
      );
}

module _ (e : Env) (p : Ptr) (n : Node) (s : System) (c : s.mem.cell p ≡ freed n) (ne : p ≢ null)
    (ready : IsReady s.hw) (is : s.hw.status ≡ idle) where
  refuses :
      disk_cmd e n.request.task_action n.request.block n.request.buffer s.hw
        ≡ returned (negsuc 0) s.hw []
      → Finishes (Handled s) (dispatch e p s)
  refuses refused =
      rw (dispatch-run e p n s c ne, refused)
        (record {
          list = refl;
          cells = refl;
          residue = refl;
          init = refl;
          ready = ready;
          answered = inr (refl, is, refl);
        })

  pub dispatch-Handled :
      e.timer_set ≡ true → IsTransfer n.request → Finishes (Handled s) (dispatch e p s)
  dispatch-Handled set action = elim (guards s.hw n.request) [
    | inl (buffered, low, high) ↦ Finishes-map _ _ (dispatch e p s) (Serves-Handled s n.request) (
        dispatch-Serves e p n s c ne ready is set
          (record { action = action; buffered = buffered; low = low; high = high }))
    | inr bad ↦
        let no = disk_cmd-refuses e s.hw n.request.block n.request.buffer bad in
        elim action [ inl reads ↦ refuses (rw reads no.0) | inr writes ↦ refuses (rw writes no.1) ]
  ]

-- The outcome of `diskScheduler` with the requests `xs` in the list.
pub record Takes (s : System) (xs : Entries) (a : ℤ) (t : System) : Type 0 where
  pub chosen : Ptr × Request
  pub nearest : IsFirstMin (distance_of s.disk.i_curr_block) xs chosen
  pub list : RequestList
  pub left : t.list ≡ some list
  pub queue : IsQueue t.mem list (nearest.before ++ nearest.after)
  pub residue : t.mem.residue ≡ s.mem.residue
  pub init : t.disk.init ≡ s.disk.init
  pub ready : IsReady t.hw
  pub answered : Answered s a t

-- A list does not depend on what the allocator leaves, the reads counted or the calls made.
pub requeue_cells :
    {g h : Memory} {l : RequestList} {xs : Entries}
    → g.cell ≡ h.cell
    → IsQueue h l xs
    → IsQueue g l xs
requeue_cells {g} {h} {l} {xs} same q = record {
  chain = subst (λ f. Seg f null xs null) (sym same) q.chain;
  first = q.first;
  last = q.last;
  size = q.size;
  distinct = q.distinct;
}

module _ (e : Env) (s : System) (whole : Entries) (m : Ptr × Request)
    (near : IsFirstMin (distance_of s.disk.i_curr_block) whole m) (g : Memory)
    (o : Option RequestList) (r : Removed s.mem near.before m.0 m.1 near.after o g) where
  Handled-Takes : (a : ℤ) (t : System) → Handled (taken s r.list g) a t → Takes s whole a t
  Handled-Takes a t v = record {
    chosen = m;
    nearest = near;
    list = r.list;
    left = v.list;
    queue = requeue_cells v.cells r.queue;
    residue = v.residue ∙ r.residue;
    init = v.init;
    ready = v.ready;
    answered = elim v.answered [
      | inl (x, y, z) ↦ inl (x, y, z ∙ r.calls)
      | inr (x, y, z) ↦ inr (x, y, z ∙ ap (λ cs. sem_up treated_requests ∷ cs) r.calls)
    ];
  }

-- Whatever the requests to read or to write in a list of one to 2^31 - 1 nodes ask for,
-- `diskScheduler` on an idle ready disk whose timer works ends without a fault. The first of the
-- requests nearest to the head leaves the list. Either the result is 0, the disk is at work and no
-- call is made, or the result is -1, the disk is idle and the semaphore of treated requests has
-- been raised once. It holds where freeing a node does not change the request in it.
pub disk_scheduler-Takes :
    (e : Env) (s : System) (l : RequestList) (x : Ptr × Request) (xs : Entries)
    → s.list ≡ some l
    → IsQueue s.mem l (x ∷ xs)
    → length (x ∷ xs) < 2 ^ 31
    → IsReady s.hw
    → s.hw.status ≡ idle
    → e.timer_set ≡ true
    → All (λ y. IsTransfer y.1) (x ∷ xs)
    → ((n : Node) → (s.mem.residue n).request ≡ n.request)
    → Finishes (Takes s (x ∷ xs)) (disk_scheduler e s)
disk_scheduler-Takes e s l x xs el q small ready is set kinds keeps =
    let (m, run, near) = sstf_sched-IsFirstMin s.mem s.disk.i_curr_block l x xs q small in
    let whole : IsQueue s.mem l (near.before ++ (m.0, m.1) ∷ near.after) = rw near.split at q in
    let (front, back) =
      Seg-split s.mem.cell null null near.before ((m.0, m.1) ∷ near.after) whole.chain in
    let (o, g, removed, r) = Ends-inv _ (remove_node (some l) m.0 s.mem) (
      remove_node-append s.mem l near.before m.0 m.1 near.after whole
        (subst (λ ws. length ws < 2 ^ 31) near.split small)) in
    let gone = node (last_or null near.before) (first_or null near.after) m.1 in
    let kind =
      All-middle (λ y. IsTransfer y.1) near.before m near.after
        (subst (All (λ y. IsTransfer y.1)) near.split kinds) in
    rw
      (scheduler-run e s l r.list m.0 g el (rw q.first q.chain.1) run
        (removed ∙ ap (λ c. Run.ok c g) r.result) is)
      (Finishes-map _ _ (dispatch e m.0 (taken s r.list g))
        (Handled-Takes e s (x ∷ xs) m near g o r)
        (dispatch-Handled e m.0 (s.mem.residue gone) (taken s r.list g) r.released back.1 ready is
          set (rw (keeps gone) kind)))
