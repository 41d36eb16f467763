-- ===== src/Requests/Remove.antt =====
-- removeNode: a node leaves the list, and is freed.
pub mod Middle
mod Edges
mod Between
use ping_pong_so.Base.{[], length, some, ◌++◌, ◌<◌, ◌^◌, ◌∷◌}
use ping_pong_so.Requests.{RequestList, remove_node}
use ping_pong_so.Requests.Append.{entry}
use ping_pong_so.Requests.Memory.{Ends, Memory, Ptr, Request, null}
use ping_pong_so.Requests.Queue.{IsQueue}
use ping_pong_so.Requests.Remove.Between.{remove-between}
use ping_pong_so.Requests.Remove.Edges.{remove-first, remove-last, remove-only}
use ping_pong_so.Requests.Remove.Middle.{Removed, middle}
use ping_pong_so.Requests.Segment.{Entries, Seg-split}

-- Removing a node of a list of fewer than 2^31 nodes leaves the other nodes in their order, linked
-- both ways, with the first, the last and the size to match, wherever the node stands. The node is
-- freed, memory outside the list is unchanged, no freed node is read, and no mutex is taken.
pub remove_node-append :
    (h : Memory) (l : RequestList) (xs : Entries) (p : Ptr) (r : Request) (ys : Entries)
    → IsQueue h l (xs ++ (p, r) ∷ ys)
    → length (xs ++ (p, r) ∷ ys) < 2 ^ 31
    → Ends (Removed h xs p r ys) (remove_node (some l) p h)
remove_node-append h l [] p r [] q small = remove-only h p r q.chain.1 l q
remove_node-append h l [] p r ((y, s) ∷ ys) q small = remove-first h p r q.chain.1 l y s ys q small
remove_node-append h l (x ∷ xs) p r [] q small =
    let (front, back) = Seg-split h.cell null null (x ∷ xs) (entry p r) q.chain in
    remove-last h p r back.1 x xs l q small
remove_node-append h l (x ∷ xs) p r ((y, s) ∷ ys) q small =
    let (front, back) = Seg-split h.cell null null (x ∷ xs) ((p, r) ∷ (y, s) ∷ ys) q.chain in
    remove-between h p r back.1 x xs y s ys (middle (x ∷ xs) p r ((y, s) ∷ ys) q.distinct) front
      back l q small
