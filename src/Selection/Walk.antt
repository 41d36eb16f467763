-- ===== src/Selection/Walk.antt =====
-- What a loop over the nodes of the list computes: a fold over its requests.
use ping_pong_so.Base.{[], arith, if◌then◌else◌, length, refl, suc, zero, ℕ, ◌∷◌, ◌≡◌, ◌≤◌}
use ping_pong_so.Base.Int.{ltb_ℤ, ℤ}
use ping_pong_so.Requests.Memory.{Memory, Ptr, null, ok}
use ping_pong_so.Requests.Queue.{load-live, ne_null-false}
use ping_pong_so.Requests.Segment.{Entries, Seg, first_or}
use ping_pong_so.Selection.{seek_distance, sstf_loop}

-- The loop of `sstfSched` as a fold over the entries.
unfoldable pub sstf_fold : ℤ → Entries → ℤ → Ptr → Ptr
sstf_fold head [] shortest nearest = nearest
sstf_fold head ((p, r) ∷ xs) shortest nearest =
    let distance = seek_distance head r in
    let closer = ltb_ℤ distance shortest in
    sstf_fold head xs (if closer then distance else shortest) (if closer then p else nearest)

module _ (h : Memory) (head : ℤ) where
  -- Over a segment that ends the list, with a round for each node, the loop is the fold.
  pub sstf_loop-fold :
      (before : Ptr) (xs : Entries) (k : ℕ) (shortest : ℤ) (nearest : Ptr)
      → Seg h.cell before xs null
      → length xs ≤ k
      → sstf_loop head k (first_or null xs) shortest nearest h
        ≡ ok (sstf_fold head xs shortest nearest) h
  unfolding sstf_loop sstf_fold
  sstf_loop-fold before [] zero shortest nearest s enough = refl
  sstf_loop-fold before [] (suc k) shortest nearest s enough = refl
  sstf_loop-fold before ((p, r) ∷ xs) zero shortest nearest s enough = absurd (omega arith)
  sstf_loop-fold before ((p, r) ∷ xs) (suc k) shortest nearest s enough =
      simp (ne_null-false p s.1, load-live h p _ s.0 s.1)
        (sstf_loop-fold p xs k _ _ s.2 (omega arith))
