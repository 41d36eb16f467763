-- ===== src/Requests/Remove/Between.antt =====
-- removeNode between two nodes.
use ping_pong_so.Base.{
  Bool-cases, false, inl, inr, length, refl, some, sym, ◌++◌, ◌<◌, ◌==◌, ◌^◌, ◌∙◌, ◌∷◌, ◌≡◌, ◌≢◌,
}
use ping_pong_so.Requests.{RequestList, remove_node, unlink}
use ping_pong_so.Requests.Memory.{
  Ends, Memory, Ptr, Request, freed, live, node, null, update-other, update-same,
}
use ping_pong_so.Requests.Queue.{
  IsQueue, free-live, load-live, ne_null-false, set_next-live, set_prev-live, with_cell,
}
use ping_pong_so.Requests.Remove.Middle.{Middle, Removed, outside, size-shrink}
use ping_pong_so.Requests.Segment.{
  Entries, Last, Seg, Seg-join, Seg-update, first_or, has, has-ne, last_of, last_or, last_or-append,
  not-mem_cons,
}

module _ (h : Memory) (p : Ptr) (r : Request) (ne : p ≢ null) where
  not_here : (p == null) ≡ false
  not_here = ne_null-false p ne

  -- A node between two others.
  module _ (x : Ptr × Request) (xs : Entries) (y : Ptr) (s : Request) (ys : Entries)
      (m : Middle (x ∷ xs) p ((y, s) ∷ ys)) (front : Seg h.cell null (x ∷ xs) p)
      (back : Seg h.cell (last_or null (x ∷ xs)) ((p, r) ∷ (y, s) ∷ ys) null) where
    abbrev w : Ptr
    w = last_or null (x ∷ xs)

    old : Last h.cell null p (x ∷ xs)
    old = last_of h.cell null p x xs m.front front

    abbrev m1 : Memory
    m1 = with_cell h w (live (node old.previous y old.request))

    y-not-mem : has y (x ∷ xs) ≡ false
    y-not-mem = elim (Bool-cases (has y (x ∷ xs))) [
      | inl inside ↦ absurd ((not-mem_cons y y s ys (m.apart y inside)).0 refl)
      | inr out ↦ out
    ]

    y-ne-w : y ≢ w
    y-ne-w = has-ne y w (x ∷ xs) y-not-mem old.inside

    w-not-mem : has w ((y, s) ∷ ys) ≡ false
    w-not-mem = m.apart w old.inside

    next1 : m1.cell y ≡ live (node p (first_or null ys) s)
    next1 = update-other h.cell w _ y y-ne-w ∙ back.2.0

    abbrev m2 : Memory
    m2 = with_cell m1 y (live (node w (first_or null ys) s))

    here2 : m2.cell p ≡ live (node w y r)
    here2 =
        update-other m1.cell y _ p (not-mem_cons p y s ys m.not_after).0
        ∙ update-other h.cell w _ p (has-ne p w (x ∷ xs) m.not_before old.inside)
        ∙ back.0

    abbrev m3 : Memory
    m3 = with_cell m2 p (freed (h.residue (node w y r)))

    front3 : Seg m3.cell null (x ∷ xs) y
    front3 =
        Seg-update m2.cell null y p _ (x ∷ xs) m.not_before
          (Seg-update m1.cell null y y _ (x ∷ xs) y-not-mem (old.relink y))

    back3 : Seg m3.cell w ((y, s) ∷ ys) null
    back3 = (
      update-other m2.cell p _ y (λ e. (not-mem_cons p y s ys m.not_after).0 (sym e))
          ∙ update-same m1.cell y _,
      back.2.1,
      Seg-update m2.cell y null p _ ys (not-mem_cons p y s ys m.not_after).1 (
          Seg-update m1.cell y null y _ ys m.back.0
            (Seg-update h.cell y null w _ ys (not-mem_cons w y s ys w-not-mem).1 back.2.2)),
    )

    pub remove-between :
        (l : RequestList)
        → IsQueue h l (x ∷ xs ++ (p, r) ∷ (y, s) ∷ ys)
        → length (x ∷ xs ++ (p, r) ∷ (y, s) ∷ ys) < 2 ^ 31
        → Ends (Removed h (x ∷ xs) p r ((y, s) ∷ ys)) (remove_node (some l) p h)
    unfolding remove_node unlink
    remove-between l q small =
        simp
          (
            not_here,
            load-live h p _ back.0 ne,
            ne_null-false w old.ne_null,
            ne_null-false y back.2.1,
            set_next-live h w _ old.holds old.ne_null y,
            set_prev-live m1 y _ next1 back.2.1 w,
            free-live m2 p _ here2 ne,
          )
          (record {
            list = _;
            result = refl;
            queue = record {
              chain = Seg-join m3.cell null null (x ∷ xs) ((y, s) ∷ ys) front3 back3;
              first = q.first;
              last =
                  q.last
                  ∙ last_or-append null (x ∷ xs) ((p, r) ∷ (y, s) ∷ ys)
                  ∙ sym (last_or-append null (x ∷ xs) ((y, s) ∷ ys));
              size = rw q.size (size-shrink (x ∷ xs) p r ((y, s) ∷ ys) small);
              distinct = m.both;
            };
            released = update-same m2.cell p _;
            same = λ a out.
                let o = outside a (x ∷ xs) p r ((y, s) ∷ ys) out in
                update-other m2.cell p _ a o.1
                ∙ update-other m1.cell y _ a (not-mem_cons a y s ys o.2).0
                ∙ update-other h.cell w _ a (has-ne a w (x ∷ xs) o.0 old.inside);
            stale = refl;
            residue = refl;
            calls = refl;
          })
