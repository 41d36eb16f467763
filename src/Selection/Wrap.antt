-- ===== src/Selection/Wrap.antt =====
-- cscanSched: what it chooses, by where its first request stands.
use ping_pong_so.Base.{
  All, Bool-cases, [], ap, false, inl, inr, length, refl, some, true, ◌<◌, ◌^◌, ◌∙◌, ◌∷◌, ◌≡◌, ◌≢◌,
  ◌⊎◌,
}
use ping_pong_so.Base.Argmin.{IsFirstMin, argmin, argmin-IsFirstMin}
use ping_pong_so.Base.Int.{ltb_ℤ-irrefl, ℤ}
use ping_pong_so.Requests.{RequestList}
use ping_pong_so.Requests.Memory.{Memory, Ptr, Request, ok}
use ping_pong_so.Requests.Queue.{IsQueue}
use ping_pong_so.Requests.Segment.{Entries}
use ping_pong_so.Selection.{cscan_sched}
use ping_pong_so.Selection.Circular.{
  ahead, behind-fold, block_of, cscan_fold, cscan_sched-fold, front, front-fold, front-in,
  front-out, is_front, round-farther, round-higher, scan, then_fold,
}
use ping_pong_so.Selection.Stuck.{first_fold, front-cases, none_front}

-- The first request stands in front.
cscan_sched-front :
    (h : Memory) (head : ℤ) (l : RequestList) (x : Ptr × Request) (xs : Entries)
    → IsQueue h l (x ∷ xs)
    → length (x ∷ xs) < 2 ^ 31
    → is_front head x ≡ true
    → (m : Ptr × Request) × (cscan_sched head (some l) h ≡ ok m.0 h)
      × IsFirstMin (ahead head) (front head (x ∷ xs)) m
unfolding cscan_fold
cscan_sched-front h head l x xs q small is =
    let s = scan (ahead head x) (block_of x) x.0 x.0 false in
    (
      argmin (ahead head) x (front head xs),
      cscan_sched-fold h head l x xs q
          ∙ ap (λ p. ok p h)
              (ap (then_fold head xs) (round-farther head x s is (ltb_ℤ-irrefl (ahead head x)))
                ∙ front-fold head xs x (block_of x) x.0),
      rw (front-in head x xs is) (argmin-IsFirstMin (ahead head) x (front head xs)),
    )

-- All requests stand behind.
cscan_sched-behind :
    (h : Memory) (head : ℤ) (l : RequestList) (x : Ptr × Request) (xs : Entries)
    → IsQueue h l (x ∷ xs)
    → length (x ∷ xs) < 2 ^ 31
    → All (λ y. is_front head y ≡ false) (x ∷ xs)
    → (m : Ptr × Request) × (cscan_sched head (some l) h ≡ ok m.0 h)
      × IsFirstMin block_of (x ∷ xs) m
unfolding cscan_fold
cscan_sched-behind h head l x xs q small a =
    let s = scan (ahead head x) (block_of x) x.0 x.0 false in
    (
      argmin block_of x xs,
      cscan_sched-fold h head l x xs q
          ∙ ap (λ p. ok p h)
              (ap (then_fold head xs) (round-higher head x s a.0 (ltb_ℤ-irrefl (block_of x)))
                ∙ behind-fold head xs x (ahead head x) x.0 a.1),
      argmin-IsFirstMin block_of x xs,
    )

-- The first request stands behind, and another one in front.
cscan_sched-first :
    (h : Memory) (head : ℤ) (l : RequestList) (x : Ptr × Request) (xs : Entries)
    → IsQueue h l (x ∷ xs)
    → is_front head x ≡ false
    → front head xs ≢ []
    → cscan_sched head (some l) h ≡ ok x.0 h
unfolding cscan_fold
cscan_sched-first h head l x xs q behind some_ =
    let s = scan (ahead head x) (block_of x) x.0 x.0 false in
    cscan_sched-fold h head l x xs q
    ∙ ap (λ p. ok p h)
        (ap (then_fold head xs) (round-higher head x s behind (ltb_ℤ-irrefl (block_of x)))
          ∙ first_fold head (ahead head x) behind xs (block_of x) x.0 x.0 some_)

-- What `cscanSched` chooses of the requests `x ∷ xs`.
abbrev pub Circled : ℤ → Ptr × Request → Entries → Ptr × Request → Type 0
Circled head x xs m =
    ((is_front head x ≡ true) × IsFirstMin (ahead head) (front head (x ∷ xs)) m)
    ⊎ ((is_front head x ≡ false) × (front head xs ≢ []) × (m ≡ x))
    ⊎ ((front head (x ∷ xs) ≡ []) × IsFirstMin block_of (x ∷ xs) m)

-- On a non-empty list of fewer than 2^31 nodes the search ends, without a change of memory. Where
-- the first request stands at the head or in front of it, it ends at the first of the nearest of
-- the requests there; where all stand behind the head, at the first of those with the least block;
-- but where the first one stands behind and another does not, at the first one.
pub cscan_sched-Circled :
    (h : Memory) (head : ℤ) (l : RequestList) (x : Ptr × Request) (xs : Entries)
    → IsQueue h l (x ∷ xs)
    → length (x ∷ xs) < 2 ^ 31
    → (m : Ptr × Request) × (cscan_sched head (some l) h ≡ ok m.0 h) × Circled head x xs m
cscan_sched-Circled h head l x xs q small = elim (Bool-cases (is_front head x)) [
  | inl is ↦
      let (m, run, near) = cscan_sched-front h head l x xs q small is in (m, run, inl (is, near))
  | inr behind ↦ elim (front-cases head xs) [
    | inl none_in ↦
        let (m, run, least) =
          cscan_sched-behind h head l x xs q small (behind, none_front head xs none_in) in
        (m, run, inr (inr (front-out head x xs behind ∙ none_in, least)))
    | inr some_ ↦
        (x, cscan_sched-first h head l x xs q behind some_, inr (inl (behind, some_, refl)))
  ]
]
