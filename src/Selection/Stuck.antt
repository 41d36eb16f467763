-- ===== src/Selection/Stuck.antt =====
-- cscanSched where the first request stands behind the head: no later one in front replaces it.
use ping_pong_so.Base.{
  All, Bool-cases, [], ap, arith, false, inl, inr, refl, sym, true, ◌∙◌, ◌∷◌, ◌≡◌, ◌≢◌, ◌⊎◌,
}
use ping_pong_so.Base.Int.{leb_ℤ, ltb_ℤ, pos, ℤ}
use ping_pong_so.Requests.Memory.{Ptr, Request}
use ping_pong_so.Requests.Segment.{Entries}
use ping_pong_so.Selection.{cscan_choice}
use ping_pong_so.Selection.Circular.{
  ahead, block_of, cscan_fold, front, front-in, front-out, is_front, round-farther, round-higher,
  round-lower, scan, then_fold,
}

module _ (head : ℤ) (short : ℤ) (behind : leb_ℤ (pos 0) short ≡ false) where
  not_nearer : (y : Ptr × Request) → is_front head y ≡ true → ltb_ℤ (ahead head y) short ≡ false
  not_nearer y is = ground (arith, is, behind)

  -- Once a request in front has been seen.
  stuck_fold :
      (xs : Entries) (least : ℤ) (req req2 : Ptr)
      → cscan_choice (cscan_fold head xs (scan short least req req2 true)) ≡ req
  unfolding cscan_fold
  stuck_fold [] least req req2 = refl
  stuck_fold (y ∷ ys) least req req2 =
      let s = scan short least req req2 true in
      elim (Bool-cases (is_front head y)) [
        | inl is ↦
            ap (then_fold head ys) (round-farther head y s is (not_nearer y is))
            ∙ stuck_fold ys least req req2
        | inr away ↦ elim (Bool-cases (ltb_ℤ (block_of y) least)) [
          | inl lower ↦
              ap (then_fold head ys) (round-lower head y s away lower)
              ∙ stuck_fold ys (block_of y) req y.0
          | inr higher ↦
              ap (then_fold head ys) (round-higher head y s away higher)
              ∙ stuck_fold ys least req req2
        ]
      ]

  -- While none has been seen, but there is one.
  pub first_fold :
      (xs : Entries) (least : ℤ) (req req2 : Ptr)
      → front head xs ≢ []
      → cscan_choice (cscan_fold head xs (scan short least req req2 false)) ≡ req
  unfolding cscan_fold front
  first_fold [] least req req2 some_ = absurd (some_ refl)
  first_fold (y ∷ ys) least req req2 some_ =
      let s = scan short least req req2 false in
      elim (Bool-cases (is_front head y)) [
        | inl is ↦
            ap (then_fold head ys) (round-farther head y s is (not_nearer y is))
            ∙ stuck_fold ys least req req2
        | inr away ↦
            let more : front head ys ≢ [] = λ e. some_ (front-out head y ys away ∙ e) in
            elim (Bool-cases (ltb_ℤ (block_of y) least)) [
              | inl lower ↦
                  ap (then_fold head ys) (round-lower head y s away lower)
                  ∙ first_fold ys (block_of y) req y.0 more
              | inr higher ↦
                  ap (then_fold head ys) (round-higher head y s away higher)
                  ∙ first_fold ys least req req2 more
            ]
      ]

-- Requests of which none stands in front stand behind.
pub none_front :
    (head : ℤ) (xs : Entries) → front head xs ≡ [] → All (λ y. is_front head y ≡ false) xs
unfolding front
none_front head [] e = tt
none_front head (y ∷ ys) e = elim (Bool-cases (is_front head y)) [
  | inl is ↦ absurd (cc (sym (front-in head y ys is) ∙ e))
  | inr away ↦ (away, none_front head ys (sym (front-out head y ys away) ∙ e))
]

pub front-cases : (head : ℤ) (xs : Entries) → (front head xs ≡ []) ⊎ (front head xs ≢ [])
front-cases head xs = list_cases (front head xs)
  where
    list_cases : (ys : Entries) → (ys ≡ []) ⊎ (ys ≢ [])
    list_cases [] = inl refl
    list_cases (y ∷ ys) = inr (λ e. cc e)
