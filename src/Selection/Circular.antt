-- ===== src/Selection/Circular.antt =====
-- cscanSched: the choice by its cases.
use ping_pong_so.Base.{
  All, Bool, Bool-cases, [], ap, arith, false, if◌then◌else◌, inl, inr, length, refl, some, suc,
  true, zero, ℕ, ◌∙◌, ◌∷◌, ◌≡◌, ◌≤◌,
}
use ping_pong_so.Base.Argmin.{argmin}
use ping_pong_so.Base.Int.{leb_ℤ, ltb_ℤ, pos, sub_int, ℤ}
use ping_pong_so.Requests.{RequestList}
use ping_pong_so.Requests.Memory.{Memory, Ptr, Request, null, ok}
use ping_pong_so.Requests.Queue.{IsQueue, load-live, ne_null-false}
use ping_pong_so.Requests.Segment.{Entries, Seg, first_or}
use ping_pong_so.Selection.{Scan, cscan_choice, cscan_loop, cscan_round, cscan_sched}

abbrev pub scan : ℤ → ℤ → Ptr → Ptr → Bool → Scan
scan front least req req2 flag = record {
  shortest_front = front;
  shortest = least;
  shortest_req = req;
  shortest_req2 = req2;
  is_in_front = flag;
}

-- How far a request stands in front of the head, which is negative behind it.
abbrev pub ahead : ℤ → Ptr × Request → ℤ
ahead head (p, r) = sub_int r.block head

abbrev pub block_of : Ptr × Request → ℤ
block_of (p, r) = r.block

abbrev pub is_front : ℤ → Ptr × Request → Bool
is_front head y = leb_ℤ (pos 0) (ahead head y)

-- The requests at the head or in front of it, in order.
unfoldable pub front : ℤ → Entries → Entries
front head [] = []
front head (y ∷ ys) = let rest = front head ys in if is_front head y then y ∷ rest else rest

unfoldable pub cscan_fold : ℤ → Entries → Scan → Scan
cscan_fold head [] s = s
cscan_fold head ((p, r) ∷ xs) s = cscan_fold head xs (cscan_round head p r s)

module _ (h : Memory) (head : ℤ) where
  cscan_loop-fold :
      (before : Ptr) (xs : Entries) (k : ℕ) (s : Scan)
      → Seg h.cell before xs null
      → length xs ≤ k
      → cscan_loop head k (first_or null xs) s h ≡ ok (cscan_fold head xs s) h
  unfolding cscan_loop cscan_fold
  cscan_loop-fold before [] zero s c enough = refl
  cscan_loop-fold before [] (suc k) s c enough = refl
  cscan_loop-fold before ((p, r) ∷ xs) zero s c enough = absurd (omega arith)
  cscan_loop-fold before ((p, r) ∷ xs) (suc k) s c enough =
      simp (ne_null-false p c.1, load-live h p _ c.0 c.1)
        (cscan_loop-fold p xs k _ c.2 (omega arith))

  -- The choice of `cscanSched` on a list that memory holds.
  pub cscan_sched-fold :
      (l : RequestList) (x : Ptr × Request) (xs : Entries)
      → IsQueue h l (x ∷ xs)
      → cscan_sched head (some l) h
        ≡ ok
            (cscan_choice
              (cscan_fold head (x ∷ xs) (scan (ahead head x) (block_of x) x.0 x.0 false)))
            h
  unfolding cscan_sched
  cscan_sched-fold l x xs q = simp (
    q.first,
    q.size,
    load-live h x.0 _ q.chain.0 q.chain.1,
    cscan_loop-fold null (x ∷ xs) (length (x ∷ xs)) (scan (ahead head x) (block_of x) x.0 x.0 false)
        q.chain (omega arith),
  )

module _ (head : ℤ) (y : Ptr × Request) (s : Scan) where
  -- One round, by the place of the request.
  round-nearer :
      is_front head y ≡ true
      → ltb_ℤ (ahead head y) s.shortest_front ≡ true
      → cscan_round head y.0 y.1 s
        ≡ record s { is_in_front = true; shortest_front = ahead head y; shortest_req = y.0 }
  unfolding cscan_round
  round-nearer is nearer = rw (is, nearer) refl

  pub round-farther :
      is_front head y ≡ true
      → ltb_ℤ (ahead head y) s.shortest_front ≡ false
      → cscan_round head y.0 y.1 s ≡ record s { is_in_front = true }
  unfolding cscan_round
  round-farther is farther = rw (is, farther) refl

  pub round-lower :
      is_front head y ≡ false
      → ltb_ℤ (block_of y) s.shortest ≡ true
      → cscan_round head y.0 y.1 s ≡ record s { shortest = block_of y; shortest_req2 = y.0 }
  unfolding cscan_round
  round-lower behind lower = rw (behind, lower) refl

  pub round-higher :
      is_front head y ≡ false
      → ltb_ℤ (block_of y) s.shortest ≡ false
      → cscan_round head y.0 y.1 s ≡ s
  unfolding cscan_round
  round-higher behind higher = rw (behind, higher) refl

module _ (head : ℤ) where
  pub front-in :
      (y : Ptr × Request) (ys : Entries)
      → is_front head y ≡ true
      → front head (y ∷ ys) ≡ y ∷ front head ys
  unfolding front
  front-in y ys is = rw is refl

  pub front-out :
      (y : Ptr × Request) (ys : Entries)
      → is_front head y ≡ false
      → front head (y ∷ ys) ≡ front head ys
  unfolding front
  front-out y ys behind = rw behind refl

  -- The rounds after the first one.
  abbrev pub then_fold : Entries → Scan → Ptr
  then_fold ys s = cscan_choice (cscan_fold head ys s)

  -- Once a request in front has been seen, the nearest of those in front is kept.
  pub front-fold :
      (xs : Entries) (b : Ptr × Request) (least : ℤ) (req2 : Ptr)
      → cscan_choice (cscan_fold head xs (scan (ahead head b) least b.0 req2 true))
        ≡ (argmin (ahead head) b (front head xs)).0
  unfolding cscan_fold front argmin
  front-fold [] b least req2 = refl
  front-fold (y ∷ ys) b least req2 =
      let s = scan (ahead head b) least b.0 req2 true in
      elim (Bool-cases (is_front head y)) [
        | inl is ↦ elim (Bool-cases (ltb_ℤ (ahead head y) (ahead head b))) [
          | inl nearer ↦
              ap (then_fold ys) (round-nearer head y s is nearer)
              ∙ (rw (is, nearer, argmin) (front-fold ys y least req2))
          | inr farther ↦
              ap (then_fold ys) (round-farther head y s is farther)
              ∙ (rw (is, farther, argmin) (front-fold ys b least req2))
        ]
        | inr behind ↦ elim (Bool-cases (ltb_ℤ (block_of y) least)) [
          | inl lower ↦
              ap (then_fold ys) (round-lower head y s behind lower)
              ∙ (rw behind (front-fold ys b (block_of y) y.0))
          | inr higher ↦
              ap (then_fold ys) (round-higher head y s behind higher)
              ∙ (rw behind (front-fold ys b least req2))
        ]
      ]

  -- While no request in front has been seen, the one with the least block is kept.
  pub behind-fold :
      (xs : Entries) (b : Ptr × Request) (shortest : ℤ) (req : Ptr)
      → All (λ y. is_front head y ≡ false) xs
      → cscan_choice (cscan_fold head xs (scan shortest (block_of b) req b.0 false))
        ≡ (argmin block_of b xs).0
  unfolding cscan_fold argmin
  behind-fold [] b shortest req a = refl
  behind-fold (y ∷ ys) b shortest req a =
      let s = scan shortest (block_of b) req b.0 false in
      elim (Bool-cases (ltb_ℤ (block_of y) (block_of b))) [
        | inl lower ↦
            ap (then_fold ys) (round-lower head y s a.0 lower)
            ∙ (rw (lower, argmin) (behind-fold ys y shortest req a.1))
        | inr higher ↦
            ap (then_fold ys) (round-higher head y s a.0 higher)
            ∙ (rw (higher, argmin) (behind-fold ys b shortest req a.1))
      ]
