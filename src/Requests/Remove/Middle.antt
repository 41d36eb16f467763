-- ===== src/Requests/Remove/Middle.antt =====
-- A list with an entry in the middle, and the outcome of removing that entry.
use ping_pong_so.Base.{
  Option, [], ap, arith, false, inl, inr, length, length-append, refl, some, true, ◌++◌, ◌<◌, ◌^◌,
  ◌||◌, ◌∙◌, ◌∷◌, ◌≡◌, ◌≢◌,
}
use ping_pong_so.Base.Int.{pos, sub_int, sub_int-pos}
use ping_pong_so.Requests.{RequestList}
use ping_pong_so.Requests.Memory.{Memory, Ptr, Request, freed, node, null}
use ping_pong_so.Requests.Queue.{IsQueue}
use ping_pong_so.Requests.Segment.{Distinct, Entries, first_or, has, has-append, last_or, mem_cons}

-- The outcome of removing the node at `p`, between `xs` and `ys`.
pub record Removed (h : Memory) (xs : Entries) (p : Ptr) (r : Request) (ys : Entries)
    (o : Option RequestList) (g : Memory) : Type 0 where
  pub list : RequestList
  pub result : o ≡ some list
  pub queue : IsQueue g list (xs ++ ys)
  pub released : g.cell p ≡ freed (h.residue (node (last_or null xs) (first_or null ys) r))
  pub same : (a : Ptr) → has a (xs ++ (p, r) ∷ ys) ≡ false → g.cell a ≡ h.cell a
  pub stale : g.stale ≡ h.stale
  pub residue : g.residue ≡ h.residue
  pub calls : g.calls ≡ h.calls

-- What the addresses of a list with an entry in the middle say of its parts.
pub record Middle (xs : Entries) (p : Ptr) (ys : Entries) : Type 0 where
  pub front : Distinct xs
  pub back : Distinct ys
  pub both : Distinct (xs ++ ys)
  pub not_before : has p xs ≡ false
  pub not_after : has p ys ≡ false
  pub apart : (a : Ptr) → has a xs ≡ true → has a ys ≡ false

pub middle :
    (xs : Entries) (p : Ptr) (r : Request) (ys : Entries)
    → Distinct (xs ++ (p, r) ∷ ys)
    → Middle xs p ys
middle [] p r ys d = record {
  front = tt;
  back = d.1;
  both = d.1;
  not_before = refl;
  not_after = d.0;
  apart = λ a i. cc;
}
middle ((q, s) ∷ xs) p r ys d =
    let m = middle xs p r ys d.1 in
    let out : (has q xs || has q ((p, r) ∷ ys)) ≡ false =
      rw (has-append q xs ((p, r) ∷ ys)) at d.0 in
    record {
      front = (ground (arith, out), m.front);
      back = m.back;
      both = (rw (has-append q xs ys) (ground (arith, out)), m.both);
      not_before = ground (arith, out, m.not_before);
      not_after = m.not_after;
      apart = λ a i. elim (mem_cons a q s xs i) [
        | inl e ↦ rw e (ground (arith, out))
        | inr rest ↦ m.apart a rest
      ];
    }

pub outside :
    (a : Ptr) (xs : Entries) (p : Ptr) (r : Request) (ys : Entries)
    → has a (xs ++ (p, r) ∷ ys) ≡ false
    → (has a xs ≡ false) × (a ≢ p) × (has a ys ≡ false)
outside a xs p r ys out =
    let parts : (has a xs || has a ((p, r) ∷ ys)) ≡ false =
      rw (has-append a xs ((p, r) ∷ ys)) at out in
    ground (arith, parts)

pub size-shrink :
    (xs : Entries) (p : Ptr) (r : Request) (ys : Entries)
    → length (xs ++ (p, r) ∷ ys) < 2 ^ 31
    → sub_int (pos (length (xs ++ (p, r) ∷ ys))) (pos 1) ≡ pos (length (xs ++ ys))
size-shrink xs p r ys small =
    let whole = length-append xs ((p, r) ∷ ys) in
    let rest = length-append xs ys in sub_int-pos _ 1 (omega arith) small ∙ ap pos (omega arith)
