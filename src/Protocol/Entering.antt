-- ===== src/Protocol/Entering.antt =====
-- The invariant and the entry into disk_block_read and disk_block_write.
use ping_pong_so.Base.{
  All, Option, [], ap, arith, false, length, refl, some, subst, suc, sym, ℕ, ◌++◌, ◌+◌, ◌<◌, ◌^◌,
  ◌∙◌, ◌∷◌, ◌≡◌, ◌≢◌, ◌⊎◌,
}
use ping_pong_so.Base.Int.{pos, ℤ}
use ping_pong_so.Device.Valid.{IsReady}
use ping_pong_so.Manager.State.{System, done}
use ping_pong_so.Manager.Takes.{IsTransfer, requeue_cells}
use ping_pong_so.Protocol.{Pc, Runs, State, as_task, ask, enqueue, outside, queued}
use ping_pong_so.Protocol.Clients.{Finishes-done}
use ping_pong_so.Protocol.Counts.{Made-inv, lock_unlock_queue-Made}
use ping_pong_so.Protocol.Invariant.{Inv, awaits, holds_mutex, in_flight, unannounced}
use ping_pong_so.Protocol.Serving.{exclusive}
use ping_pong_so.Protocol.Sync.{Sems, SyncLib, effects}
use ping_pong_so.Requests.{RequestList, add_node_in_front}
use ping_pong_so.Requests.Append.{add_node_in_front-snoc, entry}
use ping_pong_so.Requests.Memory.{Ends-inv, Memory, Node, Ptr, Request, Run, is_live, null}
use ping_pong_so.Requests.Queue.{IsQueue}
use ping_pong_so.Requests.Segment.{Entries}
use ping_pong_so.Totals.{total, total-le-both, total-with_pc, with_pc}

All-snoc :
    (P : Ptr × Request → Type 0) (xs : Entries) (x : Ptr × Request)
    → All P xs
    → P x
    → All P (xs ++ x ∷ [])
All-snoc P [] x a p = (p, tt)
All-snoc P (y ∷ xs) x a p = (a.0, All-snoc P xs x a.1 p)

length-snoc : (xs : Entries) (x : Ptr × Request) → length (xs ++ x ∷ []) ≡ suc (length xs)
length-snoc [] x = refl
length-snoc (y ∷ xs) x = ap (λ k. suc k) (length-snoc xs x)

-- The request that is added.
module _ (s : System) (l : RequestList) (fresh : Ptr) (action block : ℤ) (buffer : Ptr) where
  pub enqueue-run :
      (l' : RequestList) (o : Option RequestList) (g : Memory)
      → s.list ≡ some l
      → add_node_in_front fresh (some l) (ask action block buffer s) s.mem ≡ Run.ok o g
      → o ≡ some l'
      → enqueue fresh action block buffer s ≡ done tt (record s { list = some l'; mem = g })
  unfolding enqueue
  enqueue-run l' o g there run is = simp (there, run, is)

module _ (lib : SyncLib) (n : ℕ) (s : State lib n) (v : Inv lib n s) (i : ℕ) (inside : i < n)
    (away : s.pc i ≡ outside) where
  entered : (f : Pc → ℕ) → total f n (with_pc s.pc i queued) + f outside ≡ total f n s.pc + f queued
  entered f = rw (← away) (total-with_pc f n s.pc i queued inside)

  -- There is room for one more.
  room : n < 2 ^ 31 → suc (length v.entries) < 2 ^ 31
  unfolding unannounced awaits
  room few = omega (
    arith,
    v.pending,
    v.tokens,
    entered unannounced,
    entered awaits,
    total-le-both unannounced awaits exclusive n (with_pc s.pc i queued),
  )

  module _ (fresh : Ptr) (action block : ℤ) (buffer : Ptr) (t : System) (w : Sems lib) where
    pub enter-Inv :
        n < 2 ^ 31
        → (action ≡ pos 1) ⊎ (action ≡ pos 2)
        → fresh ≢ null
        → is_live (s.sys.mem.cell fresh) ≡ false
        → Runs lib n (enqueue fresh action block buffer) (as_task i s.sys) s.sems t w
        → Inv lib n (record s { sys = t; sems = w; pc = with_pc s.pc i queued })
    unfolding holds_mutex unannounced awaits
    enter-Inv few kind ne dead r =
        let s0 = as_task i s.sys in
        let req = ask action block buffer s0 in
        let (o, g, run, (l', is, queue, cells, stale, residue, calls)) =
          Ends-inv _ (add_node_in_front fresh (some v.list) req s0.mem) (
            add_node_in_front-snoc s0.mem fresh v.list req v.entries (requeue_cells refl v.queue) ne
              dead (room few)) in
        let t' : System = record s0 { list = some l'; mem = g } in
        let same : t ≡ t' =
          Finishes-done (λ _ u. u ≡ t') (done tt t') r.result t refl
            (sym (enqueue-run s0 v.list fresh action block buffer l' o g v.there run is)
              ∙ r.ends) in
        let made =
          sym (ap (λ cs. effects lib cs s.sems) (ap (λ (u : System). u.mem.calls) same ∙ calls))
          ∙ r.calls in
        let k =
          Made-inv lib s.sems w _ _ _ _ _ (lock_unlock_queue-Made lib s.sems v.queue_free) made in
        record {
          list = l';
          entries = v.entries ++ entry fresh req;
          there = ap (λ (u : System). u.list) same;
          queue =
              subst (λ (u : System). IsQueue u.mem l' (v.entries ++ entry fresh req)) (sym same)
                queue;
          kinds = All-snoc (λ y. IsTransfer y.1) v.entries (fresh, req) v.kinds kind;
          ready = subst (λ (u : System). IsReady u.hw) (sym same) v.ready;
          keeps = λ m.
              ap (λ (f : Node → Node). (f m).request)
                (ap (λ (u : System). u.mem.residue) same ∙ residue)
              ∙ v.keeps m;
          init = ap (λ (u : System). u.disk.init) same ∙ v.init;
          alive = v.alive;
          queue_free = k.queue_;
          holder = omega (arith, k.requests_, v.holder, entered holds_mutex);
          tokens = omega (
            arith,
            k.new_,
            k.treated_,
            v.tokens,
            entered awaits,
            ap (λ (u : System). in_flight u.hw.status) same,
          );
          pending =
              omega
                (arith, k.new_, v.pending, entered unannounced, length-snoc v.entries (fresh, req));
        }
