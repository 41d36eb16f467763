-- ===== src/Single/Begin.antt =====
-- diskScheduler on a list with one request, which the disk accepts.
use ping_pong_so.Base.{
  List, Option, [], ap, arith, false, inl, inr, refl, some, ◌++◌, ◌∙◌, ◌∷◌, ◌≡◌, ◌≢◌, ◌⊎◌,
}
use ping_pong_so.Base.Int.{pos}
use ping_pong_so.Device.{Call, Env, Hardware, Status, disk_cmd, returned}
use ping_pong_so.Manager.{disk_scheduler, dispatch}
use ping_pong_so.Manager.Dispatch.{dispatch-run, handed}
use ping_pong_so.Manager.Serve.{scheduler-run, taken}
use ping_pong_so.Manager.State.{System, done}
use ping_pong_so.Manager.Takes.{requeue_cells}
use ping_pong_so.Requests.{RequestList, remove_node}
use ping_pong_so.Requests.Memory.{
  Ends-inv, Memory, Node, Ptr, Request, Run, freed, is_live, node, null,
}
use ping_pong_so.Requests.Queue.{IsQueue}
use ping_pong_so.Requests.Remove.{remove_node-append}
use ping_pong_so.Requests.Remove.Middle.{Removed}
use ping_pong_so.Requests.Segment.{Entries, has}
use ping_pong_so.Selection.Nearest.{sstf_sched-IsFirstMin}

tail_nil : (x m : Ptr × Request) (ys zs : Entries) → [] ≡ ys ++ m ∷ zs → ⊥
tail_nil x m [] zs e = cc e
tail_nil x m (y ∷ ys) zs e = cc e

sole : (x m : Ptr × Request) (ys zs : Entries) → (x ∷ []) ≡ ys ++ m ∷ zs → m ≡ x
sole x m [] zs e = cc e
sole x m (y ∷ ys) zs e = absurd (tail_nil x m ys zs (cc e))

module _ (e : Env) (p : Ptr) (n : Node) (s : System) (c : s.mem.cell p ≡ freed n) (ne : p ≢ null)
    (d : Hardware) (calls : List Call)
    (begins : disk_cmd e n.request.task_action n.request.block n.request.buffer s.hw
      ≡ returned (pos 0) d calls) where
  abbrev at_work : System
  at_work = record (handed s n.request) { hw = d; io = s.io ++ calls }

  dispatch-done : dispatch e p s ≡ done (pos 0) at_work
  dispatch-done = rw (dispatch-run e p n s c ne, begins) refl

-- The state in which the disk has begun_by the operation.
pub record Begun (e : Env) (s : System) (d : Hardware) (calls : List Call) : Type 0 where
  pub left : RequestList
  pub state : System
  pub runs : disk_scheduler e s ≡ done (pos 0) state
  pub list : state.list ≡ some left
  pub queue : IsQueue state.mem left []
  pub no_nodes : (a : Ptr) → is_live (state.mem.cell a) ≡ false
  pub residue : state.mem.residue ≡ s.mem.residue
  pub calls_ : state.mem.calls ≡ s.mem.calls
  pub hw : state.hw ≡ d
  pub io : state.io ≡ (s.io ++ []) ++ calls

same_or : (p a : Ptr) → (a ≡ p) ⊎ (a ≢ p)
same_or p a = ground arith

not-mem_sole : (a p : Ptr) (r : Request) → a ≢ p → has a ((p, r) ∷ []) ≡ false
not-mem_sole a p r ne = ground arith

-- The disk task takes the only request.
module _ (e : Env) (s : System) (l : RequestList) (p : Ptr) (r : Request) (there : s.list ≡ some l)
    (q : IsQueue s.mem l ((p, r) ∷ [])) (is : s.hw.status ≡ Status.idle)
    (keeps : (m : Node) → (s.mem.residue m).request ≡ m.request)
    (others : (a : Ptr) → a ≢ p → is_live (s.mem.cell a) ≡ false) where
  no_nodes :
      (g : Memory) (o : Option RequestList)
      → Removed s.mem [] p r [] o g
      → (a : Ptr) → is_live (g.cell a) ≡ false
  no_nodes g o gone a = elim (same_or p a) [
    | inl is_p ↦ rw (is_p, gone.released) refl
    | inr ne ↦ ap is_live (gone.same a (not-mem_sole a p r ne)) ∙ others a ne
  ]

  module _ (d : Hardware) (calls : List Call)
      (begins : disk_cmd e r.task_action r.block r.buffer s.hw ≡ returned (pos 0) d calls)
      (g : Memory) (o : Option RequestList) (gone : Removed s.mem [] p r [] o g) where
    abbrev request_of : (s.mem.residue (node null null r)).request ≡ r
    request_of = keeps (node null null r)

    begun_by : disk_scheduler e s ≡ dispatch e p (taken s gone.list g) → Begun e s d calls
    begun_by runs = record {
      left = gone.list;
      state =
          at_work e p (s.mem.residue (node null null r)) (taken s gone.list g) gone.released
            q.chain.1 d calls (rw request_of begins);
      runs =
          runs
          ∙ dispatch-done e p (s.mem.residue (node null null r)) (taken s gone.list g) gone.released
              q.chain.1 d calls (rw request_of begins);
      list = refl;
      queue = requeue_cells refl gone.queue;
      no_nodes = no_nodes g o gone;
      residue = gone.residue;
      calls_ = gone.calls;
      hw = refl;
      io = refl;
    }

    chosen : remove_node (some l) p s.mem ≡ Run.ok o g → Begun e s d calls
    chosen removed =
        let (m, run, near) =
          sstf_sched-IsFirstMin s.mem s.disk.i_curr_block l (p, r) [] q (omega arith) in
        let only = sole (p, r) m near.before near.after near.split in
        begun_by (
          scheduler-run e s l gone.list p g there (rw q.first q.chain.1)
            (run ∙ ap (λ (y : Ptr × Request). Run.ok y.0 s.mem) only)
            (removed ∙ ap (λ c. Run.ok c g) gone.result) is)

  pub begins-Begun :
      (d : Hardware) (calls : List Call)
      → disk_cmd e r.task_action r.block r.buffer s.hw ≡ returned (pos 0) d calls
      → Begun e s d calls
  begins-Begun d calls begins =
      let (o, g, removed, gone) =
        Ends-inv _ (remove_node (some l) p s.mem)
          (remove_node-append s.mem l [] p r [] q (omega arith)) in
      chosen d calls begins g o gone removed
