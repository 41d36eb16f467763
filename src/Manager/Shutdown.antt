-- ===== src/Manager/Shutdown.antt =====
-- finishDiskTask: every node of the list is freed, once.
use ping_pong_so.Base.{
  Bool, [], ap, arith, false, inl, inr, length, refl, some, suc, true, zero, ℕ, ◌<◌, ◌^◌, ◌∙◌, ◌∷◌,
  ◌≡◌,
}
use ping_pong_so.Base.Int.{eq_ℤ, pos}
use ping_pong_so.Manager.{finish_disk_task, finish_list, finish_task}
use ping_pong_so.Manager.State.{Finishes, System, done}
use ping_pong_so.Requests.{RequestList, empty_list, free_nodes}
use ping_pong_so.Requests.Memory.{
  Cell, Memory, Node, Ptr, Request, freed, new_requests, node, null, ok, sem_up, update-other,
  update-same,
}
use ping_pong_so.Requests.Queue.{IsQueue, free-live, load-live, ne_null-false, with_cell}
use ping_pong_so.Requests.Segment.{
  Distinct, Entries, Seg, Seg-update, first_or, has, mem_cons, not-mem_cons,
}

abbrev pub is_freed : Cell → Bool
is_freed (freed _) = true
is_freed _ = false

-- The nodes of `xs` have been freed, and nothing else has changed.
pub record Freed (xs : Entries) (h g : Memory) : Type 0 where
  pub gone : (a : Ptr) → has a xs ≡ true → is_freed (g.cell a) ≡ true
  pub same : (a : Ptr) → has a xs ≡ false → g.cell a ≡ h.cell a
  pub stale : g.stale ≡ h.stale
  pub calls : g.calls ≡ h.calls

freed_after :
    (h g : Memory) (p : Ptr) (n : Node) (r : Request) (xs : Entries)
    → has p xs ≡ false
    → Freed xs (with_cell h p (freed n)) g
    → Freed ((p, r) ∷ xs) h g
freed_after h g p n r xs out f = record {
  gone = λ a i. elim (mem_cons a p r xs i) [
    | inl e ↦ rw (e, f.same p out, update-same h.cell p (freed n)) refl
    | inr later ↦ f.gone a later
  ];
  same = λ a o.
      let (ne, later) = not-mem_cons a p r xs o in
      f.same a later ∙ update-other h.cell p (freed n) a ne;
  stale = f.stale;
  calls = f.calls;
}

free_nodes-Freed :
    (k : ℕ) (h : Memory) (before : Ptr) (xs : Entries)
    → Seg h.cell before xs null
    → Distinct xs
    → length xs < k
    → (g : Memory) × (free_nodes k (first_or null xs) h ≡ ok tt g) × Freed xs h g
unfolding free_nodes
free_nodes-Freed zero h before xs s d enough = absurd (omega arith)
free_nodes-Freed (suc k) h before [] s d enough =
    (h, refl, record { gone = λ a i. absurd cc; same = λ a o. refl; stale = refl; calls = refl })
free_nodes-Freed (suc k) h before ((p, r) ∷ xs) s d enough =
    let n = h.residue (node before (first_or null xs) r) in
    let (g, run, f) =
      free_nodes-Freed k (with_cell h p (freed n)) p xs
        (Seg-update h.cell p null p (freed n) xs d.0 s.2) d.1 (omega arith) in
    (
      g,
      simp (ne_null-false p s.1, load-live h p _ s.0 s.1, free-live h p _ s.0 s.1) run,
      freed_after h g p n r xs d.0 f,
    )

-- The outcome of the shutdown with the requests `xs` pending.
pub record Stopped (s : System) (xs : Entries) (result : Bool) (t : System) : Type 0 where
  pub stopped : result ≡ true
  pub list : t.list ≡ some empty_list
  pub init : t.disk ≡ record s.disk { init = false }
  pub gone : (a : Ptr) → has a xs ≡ true → is_freed (t.mem.cell a) ≡ true
  pub same : (a : Ptr) → has a xs ≡ false → t.mem.cell a ≡ s.mem.cell a
  pub stale : t.mem.stale ≡ s.mem.stale
  pub calls : t.mem.calls ≡ sem_up new_requests ∷ s.mem.calls
  pub hw : t.hw ≡ s.hw

-- The state after the shutdown, with the memory that freeing leaves.
abbrev shut : System → Memory → System
shut s g = record s {
  disk = record s.disk { init = false };
  list = some empty_list;
  mem = record g { calls = sem_up new_requests ∷ g.calls };
}

finish_list-run :
    (s : System) (l : RequestList) (g : Memory) (n : ℕ)
    → l.i_size ≡ pos n
    → free_nodes (suc n) l.first_node s.mem ≡ ok tt g
    → finish_list l s ≡ done true (shut s g)
unfolding finish_list
finish_list-run s l g n size run = simp (size, run)

finish_task-run :
    (s : System) (l : RequestList) (n : ℕ)
    → l.i_size ≡ pos (suc n)
    → finish_task (some l) s ≡ finish_list l s
unfolding finish_task
finish_task-run s l n size =
    let more : eq_ℤ (pos (suc n)) (pos 0) ≡ false = ground arith in rw (size, more) refl

-- `finishDiskTask` on a list of one to 2^31 - 1 nodes ends with true and without a fault. Every node
-- of the list is freed, no freed node is read, memory outside the list is as before, the list is
-- empty, the manager's flag is down, the semaphore of new requests has been raised once, and the
-- disk has not been touched.
pub finish_disk_task-Stopped :
    (s : System) (l : RequestList) (x : Ptr × Request) (xs : Entries)
    → s.list ≡ some l
    → IsQueue s.mem l (x ∷ xs)
    → length (x ∷ xs) < 2 ^ 31
    → Finishes (Stopped s (x ∷ xs)) (finish_disk_task s)
unfolding finish_disk_task
finish_disk_task-Stopped s l x xs el q small =
    let (g, run, f) =
      free_nodes-Freed (suc (length (x ∷ xs))) s.mem null (x ∷ xs) q.chain q.distinct
        (omega arith) in
    let first_run = ap (λ p. free_nodes (suc (length (x ∷ xs))) p s.mem) q.first ∙ run in
    rw
      (ap (λ o. finish_task o s) el
        ∙ finish_task-run s l (length xs) q.size
        ∙ finish_list-run s l g (length (x ∷ xs)) q.size first_run)
      (record {
        stopped = refl;
        list = refl;
        init = refl;
        gone = f.gone;
        same = f.same;
        stale = f.stale;
        calls = ap (λ cs. sem_up new_requests ∷ cs) f.calls;
        hw = refl;
      })
