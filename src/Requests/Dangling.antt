-- ===== src/Requests/Dangling.antt =====
-- addNode: a new node behind a node of the list, to which no other node links.
use ping_pong_so.Base.{
  Bool, ap, false, if◌then◌else◌, length, refl, suc, true, ◌++◌, ◌<◌, ◌==◌, ◌^◌, ◌∙◌, ◌∷◌, ◌≡◌, ◌≢◌,
}
use ping_pong_so.Base.Int.{add_int, pos}
use ping_pong_so.Requests.{RequestList, add_node, grow}
use ping_pong_so.Requests.Append.{size-grow}
use ping_pong_so.Requests.Memory.{
  Ends, Memory, Ptr, Request, is_live, live, node, null, ok, update-same,
}
use ping_pong_so.Requests.Queue.{IsQueue, create_node-fresh, load-live, ne_null-false, with_cell}
use ping_pong_so.Requests.Segment.{
  Entries, Seg, Seg-split, Seg-update, first_or, last_or, not-mem_of_dead,
}
use ping_pong_so.Selection.Circular.{front}

-- The outcome of adding the request `r` at `fresh` behind the node at `p`, before `ys`.
pub record Dangles (l : RequestList) (whole : Entries) (fresh p : Ptr) (r : Request) (ys : Entries)
    (o : RequestList) (g : Memory) : Type 0 where
  pub chain : Seg g.cell null whole null
  pub first : o.first_node ≡ first_or null whole
  pub last : o.last_node ≡ (if p == last_or null whole then fresh else last_or null whole)
  pub size : o.i_size ≡ pos (suc (length whole))
  pub made : g.cell fresh ≡ live (node p (first_or null ys) r)

module _ (l : RequestList) (fresh : Ptr) where
  abbrev relinked : Bool → RequestList
  relinked b = if b then record l { last_node = fresh } else l

  relinked-first : (b : Bool) → (relinked b).first_node ≡ l.first_node
  relinked-first true = refl
  relinked-first false = refl

  relinked-last : (b : Bool) → (relinked b).last_node ≡ (if b then fresh else l.last_node)
  relinked-last true = refl
  relinked-last false = refl

  relinked-size : (b : Bool) → (relinked b).i_size ≡ l.i_size
  relinked-size true = refl
  relinked-size false = refl

module _ (h : Memory) (l : RequestList) (fresh : Ptr) (xs : Entries) (p : Ptr) (r0 r : Request)
    (ys : Entries) where
  abbrev whole : Entries
  whole = xs ++ (p, r0) ∷ ys

  abbrev grown : RequestList
  grown = grow (if p == l.last_node then record l { last_node = fresh } else l)

  add_node-run :
      (before : Ptr)
      → h.cell p ≡ live (node before (first_or null ys) r0)
      → p ≢ null
      → fresh ≢ null
      → add_node fresh l p r h ≡ ok grown (with_cell h fresh (live (node p (first_or null ys) r)))
  unfolding add_node
  add_node-run before c pn ne =
      simp (ne_null-false p pn, load-live h p _ c pn, create_node-fresh h fresh p _ r ne)

  -- `addNode` behind any node of a list of fewer than 2^31 - 1 nodes ends, and the size grows by
  -- one. But the nodes of the list are linked as before: none leads to the new node, though it
  -- links to the node before it and the one behind it. Where it comes last, it is the last node.
  pub add_node-Dangles :
      IsQueue h l whole
      → fresh ≢ null
      → is_live (h.cell fresh) ≡ false
      → suc (length whole) < 2 ^ 31
      → Ends (Dangles l whole fresh p r ys) (add_node fresh l p r h)
  add_node-Dangles q ne dead small =
      let (front, back) = Seg-split h.cell null null xs ((p, r0) ∷ ys) q.chain in
      let apart = not-mem_of_dead h.cell null null fresh whole dead q.chain in
      rw (add_node-run _ back.0 back.1 ne) (record {
        chain = Seg-update h.cell null null fresh _ whole apart q.chain;
        first = relinked-first l fresh (p == l.last_node) ∙ q.first;
        last =
            relinked-last l fresh (p == l.last_node) ∙ ap (λ a. if p == a then fresh else a) q.last;
        size =
            ap (λ n. add_int n (pos 1)) (relinked-size l fresh (p == l.last_node) ∙ q.size)
            ∙ size-grow (length whole) small;
        made = update-same h.cell fresh _;
      })
