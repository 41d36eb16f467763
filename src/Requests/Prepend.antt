-- ===== src/Requests/Prepend.antt =====
-- addNodeInBack: a new request goes to the start of the list.
use ping_pong_so.Base.{
  [], ap, arith, false, length, refl, some, suc, sym, ◌<◌, ◌==◌, ◌^◌, ◌∙◌, ◌∷◌, ◌≡◌, ◌≢◌,
}
use ping_pong_so.Base.Int.{add_int, pos}
use ping_pong_so.Requests.{RequestList, add_node_in_back, grow}
use ping_pong_so.Requests.Append.{Added, Added-empty, entry, size-grow}
use ping_pong_so.Requests.Memory.{
  Ends, Memory, Ptr, Request, is_live, live, node, null, ok, update-other, update-same,
}
use ping_pong_so.Requests.Queue.{IsQueue, create_node-fresh, set_prev-live, with_cell}
use ping_pong_so.Requests.Segment.{
  Distinct, Entries, Seg, Seg-update, first_or, has, last_or, not-mem_cons, not-mem_of_dead,
}

module _ (h : Memory) (fresh : Ptr) (r : Request) (ne : fresh ≢ null)
    (dead : is_live (h.cell fresh) ≡ false) where
  prepend-empty :
      (l : RequestList)
      → IsQueue h l []
      → Ends
          (λ o g. (l' : RequestList) × (o ≡ some l') × Added h fresh [] (entry fresh r) l' g)
          (add_node_in_back fresh (some l) r h)
  unfolding add_node_in_back
  prepend-empty l q =
      simp (q.first, create_node-fresh h fresh null null r ne)
        (_, refl, Added-empty h fresh r ne dead l q.size)

  module _ (y : Ptr) (s : Request) (xs : Entries) (d : Distinct ((y, s) ∷ xs))
      (chain : Seg h.cell null ((y, s) ∷ xs) null) where
    abbrev g1 : Memory
    g1 = with_cell h fresh (live (node null y r))

    abbrev g2 : Memory
    g2 = with_cell g1 y (live (node fresh (first_or null xs) s))

    apart : has fresh ((y, s) ∷ xs) ≡ false
    apart = not-mem_of_dead h.cell null null fresh ((y, s) ∷ xs) dead chain

    head1 : g1.cell y ≡ live (node null (first_or null xs) s)
    head1 =
        update-other h.cell fresh _ y (λ e. (not-mem_cons fresh y s xs apart).0 (sym e)) ∙ chain.0

    run-prepend :
        (l : RequestList)
        → l.first_node ≡ y
        → add_node_in_back fresh (some l) r h
          ≡ ok (some (grow (record l { first_node = fresh }))) g2
    unfolding add_node_in_back
    run-prepend l first =
        let nonempty : (y == null) ≡ false = ground (arith, chain.1) in
        simp (
          first,
          nonempty,
          create_node-fresh h fresh null y r ne,
          set_prev-live g1 y _ head1 chain.1 fresh,
        )

    tail2 : Seg g2.cell y xs null
    tail2 =
        Seg-update g1.cell y null y _ xs d.0
          (Seg-update h.cell y null fresh _ xs (not-mem_cons fresh y s xs apart).1 chain.2)

    Added-prepend :
        (l : RequestList)
        → l.i_size ≡ pos (length ((y, s) ∷ xs))
        → l.last_node ≡ last_or null ((y, s) ∷ xs)
        → suc (length ((y, s) ∷ xs)) < 2 ^ 31
        → Added h fresh
            ((y, s) ∷ xs)
            ((fresh, r) ∷ (y, s) ∷ xs)
            (grow (record l { first_node = fresh }))
            g2
    Added-prepend l size last small = record {
      queue = record {
        chain = (
          update-other g1.cell y _ fresh (not-mem_cons fresh y s xs apart).0
              ∙ update-same h.cell fresh _,
          ne,
          (update-same g1.cell y _, chain.1, tail2),
        );
        first = refl;
        last = last;
        size = ap (λ n. add_int n (pos 1)) size ∙ size-grow _ small;
        distinct = (apart, d);
      };
      same = λ a out away.
          update-other g1.cell y _ a (not-mem_cons a y s xs away).0
          ∙ update-other h.cell fresh _ a out;
      stale = refl;
      residue = refl;
      calls = refl;
    }

-- Adding a request at the other end of a list of fewer than 2^31 - 1 nodes puts it before all
-- others, in a node that was not in use. The other nodes stay as they are but for the link of the
-- first one, no freed node is read, and no mutex is taken.
pub add_node_in_back-cons :
    (h : Memory) (fresh : Ptr) (l : RequestList) (r : Request) (xs : Entries)
    → IsQueue h l xs
    → fresh ≢ null
    → is_live (h.cell fresh) ≡ false
    → suc (length xs) < 2 ^ 31
    → Ends
        (λ o g. (l' : RequestList) × (o ≡ some l') × Added h fresh xs ((fresh, r) ∷ xs) l' g)
        (add_node_in_back fresh (some l) r h)
add_node_in_back-cons h fresh l r [] q ne dead small = prepend-empty h fresh r ne dead l q
add_node_in_back-cons h fresh l r ((y, s) ∷ xs) q ne dead small =
    rw (run-prepend h fresh r ne dead y s xs q.distinct q.chain l q.first)
      (_, refl, Added-prepend h fresh r ne dead y s xs q.distinct q.chain l q.size q.last small)
