-- ===== src/Selection/Nearest.antt =====
-- sstfSched chooses the first of the requests nearest to the head.
use ping_pong_so.Base.{
  Bool-cases, [], ap, arith, inl, inr, length, refl, some, ◌<◌, ◌^◌, ◌∙◌, ◌∷◌, ◌≡◌,
}
use ping_pong_so.Base.Argmin.{IsFirstMin, argmin, argmin-IsFirstMin}
use ping_pong_so.Base.Int.{ltb_ℤ, ltb_ℤ-irrefl, ℤ}
use ping_pong_so.Requests.{RequestList}
use ping_pong_so.Requests.Memory.{Memory, Ptr, Request, null, ok}
use ping_pong_so.Requests.Queue.{IsQueue, load-live}
use ping_pong_so.Requests.Segment.{Entries}
use ping_pong_so.Selection.{seek_distance, sstf_sched}
use ping_pong_so.Selection.Walk.{sstf_fold, sstf_loop-fold}

abbrev pub distance_of : ℤ → Ptr × Request → ℤ
distance_of head (p, r) = seek_distance head r

-- The fold that keeps a distance and a node is the one that keeps the entry.
sstf_fold-argmin :
    (head : ℤ) (b : Ptr × Request) (xs : Entries)
    → sstf_fold head xs (distance_of head b) b.0 ≡ (argmin (distance_of head) b xs).0
unfolding sstf_fold argmin
sstf_fold-argmin head b [] = refl
sstf_fold-argmin head b (x ∷ xs) =
    elim (Bool-cases (ltb_ℤ (distance_of head x) (distance_of head b))) [
      | inl closer ↦ rw (closer, argmin) (sstf_fold-argmin head x xs)
      | inr not_closer ↦ rw (not_closer, argmin) (sstf_fold-argmin head b xs)
    ]

-- The first request is compared with itself, to no effect.
sstf_fold-first :
    (head : ℤ) (x : Ptr × Request) (xs : Entries)
    → sstf_fold head (x ∷ xs) (distance_of head x) x.0 ≡ sstf_fold head xs (distance_of head x) x.0
unfolding sstf_fold
sstf_fold-first head x xs = rw (ltb_ℤ-irrefl (distance_of head x))

-- On a non-empty list of fewer than 2^31 nodes the search ends, without a change of memory and
-- without a read of a freed node, at the first of the requests whose distance from the head is
-- least: it is nearer than all requests before it, and no request behind it is nearer.
pub sstf_sched-IsFirstMin :
    (h : Memory) (head : ℤ) (l : RequestList) (x : Ptr × Request) (xs : Entries)
    → IsQueue h l (x ∷ xs)
    → length (x ∷ xs) < 2 ^ 31
    → (m : Ptr × Request) × (sstf_sched head (some l) h ≡ ok m.0 h)
      × IsFirstMin (distance_of head) (x ∷ xs) m
unfolding sstf_sched
sstf_sched-IsFirstMin h head l x xs q small = (
  argmin (distance_of head) x xs,
  simp (q.first, q.size, load-live h x.0 _ q.chain.0 q.chain.1)
      (sstf_loop-fold h head null (x ∷ xs) (length (x ∷ xs)) _ x.0 q.chain (omega arith)
        ∙ ap (λ p. ok p h) (sstf_fold-first head x xs ∙ sstf_fold-argmin head x xs)),
  argmin-IsFirstMin (distance_of head) x xs,
)
