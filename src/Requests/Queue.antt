-- ===== src/Requests/Queue.antt =====
-- When the memory holds a request list, and the commands at its nodes.
use ping_pong_so.Base.{List, arith, false, length, ℕ, ◌==◌, ◌≡◌, ◌≢◌}
use ping_pong_so.Base.Int.{pos}
use ping_pong_so.Requests.{RequestList, create_node}
use ping_pong_so.Requests.Memory.{
  Cell, Memory, Node, Ptr, Request, SyncCall, free, freed, live, load, node, null, ok, own,
  set_next, set_prev, update,
}
use ping_pong_so.Requests.Segment.{Distinct, Entries, Seg, first_or, has, last_or}

pub record IsQueue (h : Memory) (l : RequestList) (xs : Entries) : Type 0 where
  pub chain : Seg h.cell null xs null
  pub first : l.first_node ≡ first_or null xs
  pub last : l.last_node ≡ last_or null xs
  pub size : l.i_size ≡ pos (length xs)
  pub distinct : Distinct xs

-- `g` differs from `h` in no node outside `xs`, and reads no freed node that `h` did not read.
pub record SameOutside (xs : Entries) (h g : Memory) : Type 0 where
  pub cells : (a : Ptr) → has a xs ≡ false → g.cell a ≡ h.cell a
  pub stale : g.stale ≡ h.stale
  pub residue : g.residue ≡ h.residue

abbrev pub with_cell : Memory → Ptr → Cell → Memory
with_cell h p c = record h { cell = update h.cell p c }

pub ne_null-false : (p : Ptr) → p ≢ null → (p == null) ≡ false
ne_null-false p ne = ground arith

module _ (h : Memory) (p : Ptr) (n : Node) (e : h.cell p ≡ live n) (ne : p ≢ null) where
  not_null : (p == null) ≡ false
  not_null = ground arith

  pub load-live : load p h ≡ ok n h
  unfolding load
  load-live = rw (not_null, e)

  pub own-live : own p h ≡ ok n h
  unfolding own
  own-live = rw (not_null, e)

  pub set_next-live :
      (q : Ptr) → set_next p q h ≡ ok tt (with_cell h p (live (record n { next = q })))
  unfolding set_next
  set_next-live q = rw own-live

  pub set_prev-live :
      (q : Ptr) → set_prev p q h ≡ ok tt (with_cell h p (live (record n { prev = q })))
  unfolding set_prev
  set_prev-live q = rw own-live

  pub free-live : free p h ≡ ok tt (with_cell h p (freed (h.residue n)))
  unfolding free
  free-live = rw own-live

pub create_node-fresh :
    (h : Memory) (fresh p q : Ptr) (r : Request)
    → fresh ≢ null
    → create_node fresh p q r h ≡ ok fresh (with_cell h fresh (live (node p q r)))
unfolding create_node
create_node-fresh h fresh p q r ne = ground arith

-- A list does not depend on the calls made.
pub requeue :
    {g : Memory} {l : RequestList} {xs : Entries} {cs : List SyncCall}
    → IsQueue g l xs
    → IsQueue (record g { calls = cs }) l xs
requeue q = record {
  chain = q.chain;
  first = q.first;
  last = q.last;
  size = q.size;
  distinct = q.distinct;
}

-- A list does not depend on the reads counted.
pub restale :
    {g : Memory} {l : RequestList} {xs : Entries} {n : ℕ}
    → IsQueue g l xs
    → IsQueue (record g { stale = n }) l xs
restale q = record {
  chain = q.chain;
  first = q.first;
  last = q.last;
  size = q.size;
  distinct = q.distinct;
}
