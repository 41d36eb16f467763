-- ===== src/Requests/Segment.antt =====
-- Segments of the request list: nodes at distinct addresses, linked both ways.
use ping_pong_so.Base.{
  Bool, List, [], ap, arith, false, refl, true, ◌++◌, ◌==◌, ◌||◌, ◌∙◌, ◌∷◌, ◌≡◌, ◌≢◌, ◌⊎◌,
}
use ping_pong_so.Requests.Memory.{
  Cell, Ptr, Request, is_live, live, node, null, update, update-other,
}

-- What a list stands for: the address and the request of each node, in order.
abbrev pub Entries : Type 0
Entries = List (Ptr × Request)

abbrev pub has : Ptr → Entries → Bool
has a [] = false
has a ((p, _) ∷ xs) = (a == p) || has a xs

abbrev pub Distinct : Entries → Type 0
Distinct [] = Unit
Distinct ((p, _) ∷ xs) = (has p xs ≡ false) × Distinct xs

-- The address of the first entry, or `after` if there is none; likewise the last.
abbrev pub first_or : Ptr → Entries → Ptr
first_or after [] = after
first_or after ((p, _) ∷ xs) = p

abbrev pub last_or : Ptr → Entries → Ptr
last_or before [] = before
last_or before ((p, _) ∷ xs) = last_or p xs

-- The nodes of `xs` stand in `h`, linked to one another, to `before` and to `after`.
abbrev pub Seg : (Ptr → Cell) → Ptr → Entries → Ptr → Type 0
Seg h before [] after = Unit
Seg h before ((p, r) ∷ xs) after =
    (h p ≡ live (node before (first_or after xs) r)) × (p ≢ null) × Seg h p xs after

pub has-append : (a : Ptr) (xs ys : Entries) → has a (xs ++ ys) ≡ (has a xs || has a ys)
has-append a [] ys = refl
has-append a ((p, r) ∷ xs) ys = ground (arith, has-append a xs ys)

pub has-ne : (a b : Ptr) (xs : Entries) → has a xs ≡ false → has b xs ≡ true → a ≢ b
has-ne a b xs out inside = λ e. cc (ap (λ c. has c xs) e)

pub not-mem_cons :
    (a p : Ptr) (r : Request) (xs : Entries)
    → has a ((p, r) ∷ xs) ≡ false
    → (a ≢ p) × (has a xs ≡ false)
not-mem_cons a p r xs out = ground arith

pub mem_cons :
    (a p : Ptr) (r : Request) (xs : Entries)
    → has a ((p, r) ∷ xs) ≡ true
    → (a ≡ p) ⊎ (has a xs ≡ true)
mem_cons a p r xs i = ground arith

pub first_or-append :
    (after : Ptr) (xs ys : Entries) → first_or after (xs ++ ys) ≡ first_or (first_or after ys) xs
first_or-append after [] ys = refl
first_or-append after ((p, r) ∷ xs) ys = refl

pub last_or-append :
    (before : Ptr) (xs ys : Entries) → last_or before (xs ++ ys) ≡ last_or (last_or before xs) ys
last_or-append before [] ys = refl
last_or-append before ((p, r) ∷ xs) ys = last_or-append p xs ys

pub Seg-frame :
    (g h : Ptr → Cell) (before after : Ptr) (xs : Entries)
    → ((a : Ptr) → has a xs ≡ true → g a ≡ h a)
    → Seg h before xs after
    → Seg g before xs after
Seg-frame g h before after [] same s = tt
Seg-frame g h before after ((p, r) ∷ xs) same s =
    (same p (ground arith) ∙ s.0, s.1, Seg-frame g h p after xs (λ a i. same a (ground arith)) s.2)

pub Seg-update :
    (h : Ptr → Cell) (before after a : Ptr) (c : Cell) (xs : Entries)
    → has a xs ≡ false
    → Seg h before xs after
    → Seg (update h a c) before xs after
unfolding update
Seg-update h before after a c xs out s =
    Seg-frame (update h a c) h before after xs (λ b i. ground arith) s

pub Seg-split :
    (h : Ptr → Cell) (before after : Ptr) (xs ys : Entries)
    → Seg h before (xs ++ ys) after
    → Seg h before xs (first_or after ys) × Seg h (last_or before xs) ys after
Seg-split h before after [] ys s = (tt, s)
Seg-split h before after ((p, r) ∷ xs) ys s =
    let (front, back) = Seg-split h p after xs ys s.2 in
    ((rw (first_or-append after xs ys) at s.0, s.1, front), back)

pub Seg-join :
    (h : Ptr → Cell) (before after : Ptr) (xs ys : Entries)
    → Seg h before xs (first_or after ys)
    → Seg h (last_or before xs) ys after
    → Seg h before (xs ++ ys) after
Seg-join h before after [] ys s t = t
Seg-join h before after ((p, r) ∷ xs) ys s t =
    (rw (first_or-append after xs ys) s.0, s.1, Seg-join h p after xs ys s.2 t)

-- The last node of a segment, and the segment with that node's link turned elsewhere.
pub record Last (h : Ptr → Cell) (before after : Ptr) (xs : Entries) : Type 0 where
  pub previous : Ptr
  pub request : Request
  pub holds : h (last_or before xs) ≡ live (node previous after request)
  pub ne_null : last_or before xs ≢ null
  pub inside : has (last_or before xs) xs ≡ true
  pub relink :
      (q : Ptr) → Seg (update h (last_or before xs) (live (node previous q request))) before xs q

pub last_of :
    (h : Ptr → Cell) (before after : Ptr) (x : Ptr × Request) (xs : Entries)
    → Distinct (x ∷ xs)
    → Seg h before (x ∷ xs) after
    → Last h before after (x ∷ xs)
unfolding update
last_of h before after (p, r) [] d s = record {
  previous = before;
  request = r;
  holds = s.0;
  ne_null = s.1;
  inside = ground arith;
  relink = λ q. (ground arith, s.1, tt);
}
last_of h before after (p, r) (y ∷ xs) d s =
    let l = last_of h p after y xs d.1 s.2 in
    record {
      previous = l.previous;
      request = l.request;
      holds = l.holds;
      ne_null = l.ne_null;
      inside = ground (arith, l.inside);
      relink =
          λ q. (update-other h _ _ p (has-ne p _ (y ∷ xs) d.0 l.inside) ∙ s.0, s.1, l.relink q);
    }

-- A node that is not live is in no segment.
pub not-mem_of_dead :
    (h : Ptr → Cell) (before after a : Ptr) (xs : Entries)
    → is_live (h a) ≡ false
    → Seg h before xs after
    → has a xs ≡ false
not-mem_of_dead h before after a [] dead s = refl
not-mem_of_dead h before after a ((p, r) ∷ xs) dead s =
    ground (arith, not-mem_of_dead h p after a xs dead s.2)
