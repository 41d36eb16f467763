-- ===== src/Requests.antt =====
-- ppos_disk.c: the doubly linked list of disk requests (createNode, createList, addNode,
-- addNodeInFront, addNodeInBack, removeNode, isEmpty and the loop of finishDiskTask), over the
-- memory of Requests/Memory.antt. The address that `malloc` returns is the argument `fresh`.
pub mod Memory
pub mod Segment
pub mod Queue
pub mod Append
pub mod Prepend
pub mod Dangling
pub mod Remove
use ping_pong_so.Base.{Bool, Option, if◌then◌else◌, none, some, suc, true, zero, ℕ, ◌&&◌, ◌==◌}
use ping_pong_so.Base.Int.{add_int, pos, sub_int, ℤ}
use ping_pong_so.Requests.Memory.{
  Cmd, Node, Ptr, Request, call, crash, free, live, load, mutex_lock, mutex_unlock, node, null,
  out_of_fuel, pure, queue_mutex, set_next, set_prev, store, ◌>>=◌, ◌>>◌,
}

-- `ST_RequestList`. The list's own structure is a value, so a function that changes it returns it.
pub record RequestList : Type 0 where
  pub first_node : Ptr
  pub last_node : Ptr
  pub i_size : ℤ

-- Writes the fields of a new node; a null address is a fault.
unfoldable pub create_node : Ptr → Ptr → Ptr → Request → Cmd Ptr
create_node fresh previous next r =
    if fresh == null then crash else do store fresh (live (node previous next r)); pure fresh

abbrev pub empty_list : RequestList
empty_list = record { first_node = null; last_node = null; i_size = pos 0 }

-- `allocated` says whether `malloc` has room for the list's structure.
unfoldable pub create_list : Bool → Cmd RequestList
create_list allocated = if allocated then pure empty_list else crash

-- `isEmpty`: a null list counts as empty.
unfoldable pub is_empty : Option RequestList → Bool
is_empty none = true
is_empty (some l) = l.first_node == null

abbrev pub grow : RequestList → RequestList
grow l = record l { i_size = add_int l.i_size (pos 1) }

abbrev pub shrink : RequestList → RequestList
shrink l = record l { i_size = sub_int l.i_size (pos 1) }

unfoldable pub add_node : Ptr → RequestList → Ptr → Request → Cmd RequestList
add_node fresh l previous r =
    if previous == null
    then (do
      n ← create_node fresh null null r
      pure (grow (record l { first_node = n; last_node = n })))
    else do
      p ← load previous
      n ← create_node fresh previous p.next r
      pure (grow (if previous == l.last_node then record l { last_node = n } else l))

-- The body of `addNodeInFront`, between the two calls on the mutex.
unfoldable pub append_node : Ptr → RequestList → Request → Cmd RequestList
append_node fresh l r =
    if l.first_node == null
    then (do
      n ← create_node fresh null null r
      pure (grow (record l { first_node = n; last_node = n })))
    else do
      n ← create_node fresh l.last_node null r
      set_next l.last_node n
      pure (grow (record l { last_node = n }))

unfoldable pub add_node_in_front : Ptr → Option RequestList → Request → Cmd (Option RequestList)
add_node_in_front fresh none r = pure none
add_node_in_front fresh (some l) r = do
  call (mutex_lock queue_mutex)
  l' ← append_node fresh l r
  call (mutex_unlock queue_mutex)
  pure (some l')

unfoldable pub add_node_in_back : Ptr → Option RequestList → Request → Cmd (Option RequestList)
add_node_in_back fresh none r = pure none
add_node_in_back fresh (some l) r =
    if l.first_node == null
    then (do
      n ← create_node fresh null null r
      pure (some (grow (record l { first_node = n; last_node = n }))))
    else do
      n ← create_node fresh null l.first_node r
      set_prev l.first_node n
      pure (some (grow (record l { first_node = n })))

-- The four cases of `removeNode`, by the neighbours of the node.
unfoldable pub unlink : RequestList → Node → Cmd RequestList
unlink l n =
    if (n.next == null) && (n.prev == null)
    then pure (record l { first_node = null; last_node = null })
    else if n.next == null
    then (do set_next n.prev null; pure (record l { last_node = n.prev }))
    else if n.prev == null
    then (do set_prev n.next null; pure (record l { first_node = n.next }))
    else do set_next n.prev n.next; set_prev n.next n.prev; pure l

unfoldable pub remove_node : Option RequestList → Ptr → Cmd (Option RequestList)
remove_node none p = pure none
remove_node (some l) p =
    if p == null
    then pure (some l)
    else do n ← load p; l' ← unlink l n; free p; pure (some (shrink l'))

-- The loop of `finishDiskTask` that frees every node, on fuel.
unfoldable pub free_nodes : ℕ → Ptr → Cmd (Unit {0})
free_nodes zero aux = λ _. out_of_fuel
free_nodes (suc k) aux =
    if aux == null then pure tt else do n ← load aux; free aux; free_nodes k n.next
