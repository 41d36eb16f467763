-- ===== src/Requests/Append.antt =====
-- addNodeInFront: a new request goes to the end of the list.
use ping_pong_so.Base.{
  [], ap, arith, false, length, length-append, refl, some, suc, sym, ℕ, ◌++◌, ◌<◌, ◌==◌, ◌^◌, ◌∙◌,
  ◌∷◌, ◌≡◌, ◌≢◌,
}
use ping_pong_so.Base.Int.{add_int, add_int-pos, pos}
use ping_pong_so.Requests.{RequestList, add_node_in_front, append_node, grow}
use ping_pong_so.Requests.Memory.{
  Ends, Ends-bind, Memory, Ptr, Request, is_live, live, mutex_lock, mutex_unlock, node, null, ok,
  queue_mutex, update-other, update-same,
}
use ping_pong_so.Requests.Queue.{IsQueue, create_node-fresh, requeue, set_next-live, with_cell}
use ping_pong_so.Requests.Segment.{
  Distinct, Entries, Last, Seg, Seg-join, Seg-update, has, has-append, has-ne, last_of, last_or,
  last_or-append, not-mem_of_dead,
}

abbrev pub entry : Ptr → Request → Entries
entry p r = (p, r) ∷ []

-- The new list, in the memory after a node has been added at `fresh`.
pub record Added (h : Memory) (fresh : Ptr) (old new : Entries) (l : RequestList) (g : Memory)
    : Type 0 where
  pub queue : IsQueue g l new
  pub same : (a : Ptr) → a ≢ fresh → has a old ≡ false → g.cell a ≡ h.cell a
  pub stale : g.stale ≡ h.stale
  pub residue : g.residue ≡ h.residue
  pub calls : g.calls ≡ h.calls

Distinct-snoc :
    (xs : Entries) (p : Ptr) (r : Request)
    → Distinct xs
    → has p xs ≡ false
    → Distinct (xs ++ entry p r)
Distinct-snoc [] p r d out = (refl, tt)
Distinct-snoc ((q, s) ∷ xs) p r d out =
    (rw (has-append q xs (entry p r)) ground (arith, d.0), Distinct-snoc xs p r d.1 (ground arith))

pub size-grow : (n : ℕ) → suc n < 2 ^ 31 → add_int (pos n) (pos 1) ≡ pos (suc n)
size-grow n small = add_int-pos n 1 (omega arith) ∙ ap pos (omega arith)

module _ (h : Memory) (fresh : Ptr) (r : Request) (ne : fresh ≢ null)
    (dead : is_live (h.cell fresh) ≡ false) where
  pub Added-empty :
      (l : RequestList)
      → l.i_size ≡ pos 0
      → Added h fresh []
          (entry fresh r)
          (grow (record l { first_node = fresh; last_node = fresh }))
          (with_cell h fresh (live (node null null r)))
  Added-empty l size = record {
    queue = record {
      chain = (update-same h.cell fresh _, ne, tt);
      first = refl;
      last = refl;
      size = rw size (size-grow 0 (omega arith));
      distinct = (refl, tt);
    };
    same = λ a out _. update-other h.cell fresh _ a out;
    stale = refl;
    residue = refl;
    calls = refl;
  }

  append-empty :
      (l : RequestList)
      → IsQueue h l []
      → Ends (Added h fresh [] (entry fresh r)) (append_node fresh l r h)
  unfolding append_node
  append-empty l q = simp (q.first, create_node-fresh h fresh null null r ne) (Added-empty l q.size)

  module _ (x : Ptr × Request) (xs : Entries) (d : Distinct (x ∷ xs))
      (chain : Seg h.cell null (x ∷ xs) null) where
    abbrev z : Ptr
    z = last_or null (x ∷ xs)

    abbrev h1 : Memory
    h1 = with_cell h fresh (live (node z null r))

    outside : has fresh (x ∷ xs) ≡ false
    outside = not-mem_of_dead h.cell null null fresh (x ∷ xs) dead chain

    chain1 : Seg h1.cell null (x ∷ xs) null
    chain1 = Seg-update h.cell null null fresh _ (x ∷ xs) outside chain

    old : Last h1.cell null null (x ∷ xs)
    old = last_of h1.cell null null x xs d chain1

    abbrev h2 : Memory
    h2 = with_cell h1 z (live (node old.previous fresh old.request))

    run-nonempty :
        (l : RequestList)
        → l.first_node ≡ x.0
        → l.last_node ≡ z
        → append_node fresh l r h ≡ ok (grow (record l { last_node = fresh })) h2
    unfolding append_node
    run-nonempty l first last =
        let nonempty : (x.0 == null) ≡ false = ground (arith, chain.1) in
        simp (
          first,
          last,
          nonempty,
          create_node-fresh h fresh z null r ne,
          set_next-live h1 z _ old.holds old.ne_null fresh,
        )

    Added-nonempty :
        (l : RequestList)
        → l.i_size ≡ pos (length (x ∷ xs))
        → l.first_node ≡ x.0
        → suc (length (x ∷ xs)) < 2 ^ 31
        → Added h fresh
            (x ∷ xs)
            (x ∷ xs ++ entry fresh r)
            (grow (record l { last_node = fresh }))
            h2
    Added-nonempty l size first small = record {
      queue = record {
        chain = Seg-join h2.cell null null (x ∷ xs) (entry fresh r) (old.relink fresh) (
          update-other h1.cell z _ fresh (has-ne fresh z (x ∷ xs) outside old.inside)
              ∙ update-same h.cell fresh _,
          ne,
          tt,
        );
        first = first;
        last = sym (last_or-append null (x ∷ xs) (entry fresh r));
        size =
            ap (λ n. add_int n (pos 1)) size
            ∙ size-grow _ small
            ∙ ap pos (omega (arith, length-append xs (entry fresh r)));
        distinct = Distinct-snoc (x ∷ xs) fresh r d outside;
      };
      same = λ a out away.
          update-other h1.cell z _ a (has-ne a z (x ∷ xs) away old.inside)
          ∙ update-other h.cell fresh _ a out;
      stale = refl;
      residue = refl;
      calls = refl;
    }

  append-queue :
      (l : RequestList) (xs : Entries)
      → IsQueue h l xs
      → suc (length xs) < 2 ^ 31
      → Ends (Added h fresh xs (xs ++ entry fresh r)) (append_node fresh l r h)
  append-queue l [] q small = append-empty l q
  append-queue l (x ∷ xs) q small =
      rw (run-nonempty x xs q.distinct q.chain l q.first q.last)
        (Added-nonempty x xs q.distinct q.chain l q.size q.first small)

-- Adding a request to a list of fewer than 2^31 - 1 nodes puts it behind all others, in a node that
-- was not in use. The other nodes stay as they are but for the link of the last one, no freed node
-- is read, and the list's mutex is locked before and unlocked after.
pub add_node_in_front-snoc :
    (h : Memory) (fresh : Ptr) (l : RequestList) (r : Request) (xs : Entries)
    → IsQueue h l xs
    → fresh ≢ null
    → is_live (h.cell fresh) ≡ false
    → suc (length xs) < 2 ^ 31
    → Ends
        (λ o g.
          (l' : RequestList) × (o ≡ some l')
          × IsQueue g l' (xs ++ entry fresh r)
          × ((a : Ptr) → a ≢ fresh → has a xs ≡ false → g.cell a ≡ h.cell a)
          × (g.stale ≡ h.stale)
          × (g.residue ≡ h.residue)
          × (g.calls ≡ mutex_unlock queue_mutex ∷ mutex_lock queue_mutex ∷ h.calls))
        (add_node_in_front fresh (some l) r h)
unfolding add_node_in_front
add_node_in_front-snoc h fresh l r xs q ne dead small =
    let h' : Memory = record h { calls = mutex_lock queue_mutex ∷ h.calls } in
    Ends-bind (Added h' fresh xs (xs ++ entry fresh r)) _ (append_node fresh l r h') _
      (append-queue h' fresh r ne dead l xs
        (record {
          chain = q.chain;
          first = q.first;
          last = q.last;
          size = q.size;
          distinct = q.distinct;
        })
        small)
      (λ l' g a. (
        l',
        refl,
        requeue a.queue,
        a.same,
        a.stale,
        a.residue,
        ap (λ c. mutex_unlock queue_mutex ∷ c) a.calls,
      ))
