-- ===== src/Requests/Remove/Edges.antt =====
-- removeNode at the edges of the list: the only node, the last and the first.
use ping_pong_so.Base.{
  [], append-nil, arith, false, length, refl, some, sym, ◌++◌, ◌<◌, ◌==◌, ◌^◌, ◌∙◌, ◌∷◌, ◌≡◌, ◌≢◌,
}
use ping_pong_so.Requests.{RequestList, remove_node, unlink}
use ping_pong_so.Requests.Append.{entry}
use ping_pong_so.Requests.Memory.{
  Ends, Memory, Ptr, Request, freed, live, node, null, update, update-other, update-same,
}
use ping_pong_so.Requests.Queue.{
  IsQueue, free-live, load-live, ne_null-false, set_next-live, set_prev-live, with_cell,
}
use ping_pong_so.Requests.Remove.Middle.{Removed, middle, outside, size-shrink}
use ping_pong_so.Requests.Segment.{
  Entries, Seg, Seg-split, Seg-update, first_or, has-ne, last_of, last_or, not-mem_cons,
}

module _ (h : Memory) (p : Ptr) (r : Request) (ne : p ≢ null) where
  not_here : (p == null) ≡ false
  not_here = ne_null-false p ne

  -- The only node.
  pub remove-only :
      (l : RequestList)
      → IsQueue h l (entry p r)
      → Ends (Removed h [] p r []) (remove_node (some l) p h)
  unfolding remove_node unlink
  remove-only l q =
      simp (not_here, load-live h p _ q.chain.0 ne, free-live h p _ q.chain.0 ne)
        (record {
          list = _;
          result = refl;
          queue = record {
            chain = tt;
            first = refl;
            last = refl;
            size = rw q.size (size-shrink [] p r [] (omega arith));
            distinct = tt;
          };
          released = update-same h.cell p _;
          same = λ a out. update-other h.cell p _ a (not-mem_cons a p r [] out).0;
          stale = refl;
          residue = refl;
          calls = refl;
        })

  -- The last of several nodes.
  module _ (x : Ptr × Request) (xs : Entries) where
    abbrev z : Ptr
    z = last_or null (x ∷ xs)

    pub remove-last :
        (l : RequestList)
        → IsQueue h l (x ∷ xs ++ entry p r)
        → length (x ∷ xs ++ entry p r) < 2 ^ 31
        → Ends (Removed h (x ∷ xs) p r []) (remove_node (some l) p h)
    unfolding remove_node unlink
    remove-last l q small =
        let m = middle (x ∷ xs) p r [] q.distinct in
        let (front, back) = Seg-split h.cell null null (x ∷ xs) (entry p r) q.chain in
        let old = last_of h.cell null p x xs m.front front in
        let previous : (z == null) ≡ false = ne_null-false z old.ne_null in
        let h1 : Memory = with_cell h z (live (node old.previous null old.request)) in
        let here : h1.cell p ≡ live (node z null r) =
          update-other h.cell z _ p (has-ne p z (x ∷ xs) m.not_before old.inside) ∙ back.0 in
        simp
          (
            not_here,
            load-live h p _ back.0 ne,
            previous,
            set_next-live h z _ old.holds old.ne_null null,
            free-live h1 p _ here ne,
          )
          (record {
            list = _;
            result = refl;
            queue = record {
              chain =
                  rw append-nil
                    (Seg-update h1.cell null null p _ (x ∷ xs) m.not_before (old.relink null));
              first = q.first;
              last = rw append-nil;
              size = rw q.size (size-shrink (x ∷ xs) p r [] small);
              distinct = m.both;
            };
            released = update-same h1.cell p _;
            same = λ a out.
                let o = outside a (x ∷ xs) p r [] out in
                update-other h1.cell p _ a o.1
                ∙ update-other h.cell z _ a (has-ne a z (x ∷ xs) o.0 old.inside);
            stale = refl;
            residue = refl;
            calls = refl;
          })

  -- The first of several nodes.
  pub remove-first :
      (l : RequestList) (y : Ptr) (s : Request) (ys : Entries)
      → IsQueue h l ((p, r) ∷ (y, s) ∷ ys)
      → length ((p, r) ∷ (y, s) ∷ ys) < 2 ^ 31
      → Ends (Removed h [] p r ((y, s) ∷ ys)) (remove_node (some l) p h)
  unfolding remove_node unlink
  remove-first l y s ys q small =
      let m = middle [] p r ((y, s) ∷ ys) q.distinct in
      let (here, _, back) = q.chain in
      let apart = not-mem_cons p y s ys m.not_after in
      let successor : (y == null) ≡ false = ne_null-false y back.1 in
      let h1 : Memory = with_cell h y (live (node null (first_or null ys) s)) in
      let here1 : h1.cell p ≡ live (node null y r) = update-other h.cell y _ p apart.0 ∙ here in
      let head : (update h1.cell p (freed (h.residue (node null y r)))) y
          ≡ live (node null (first_or null ys) s) =
        update-other h1.cell p _ y (λ e. apart.0 (sym e)) ∙ update-same h.cell y _ in
      let tail : Seg (update h1.cell p (freed (h.residue (node null y r)))) y ys null =
        Seg-update h1.cell y null p _ ys apart.1
          (Seg-update h.cell y null y _ ys m.back.0 back.2) in
      simp
        (
          not_here,
          load-live h p _ here ne,
          successor,
          set_prev-live h y _ back.0 back.1 null,
          free-live h1 p _ here1 ne,
        )
        (record {
          list = _;
          result = refl;
          queue = record {
            chain = (head, back.1, tail);
            first = refl;
            last = q.last;
            size = rw q.size (size-shrink [] p r ((y, s) ∷ ys) small);
            distinct = m.both;
          };
          released = update-same h1.cell p _;
          same = λ a out.
              let o = outside a [] p r ((y, s) ∷ ys) out in
              update-other h1.cell p _ a o.1
              ∙ update-other h.cell y _ a (not-mem_cons a y s ys o.2).0;
          stale = refl;
          residue = refl;
          calls = refl;
        })
