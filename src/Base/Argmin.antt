-- ===== src/Base/Argmin.antt =====
-- The running minimum of a loop that keeps the first of the least elements, as the loops of
-- `sstfSched`, `cscanSched` and `getHighestPrioTaks` do.
use mathlib.Core.Path.{◌≡◌, refl, ap, ◌∙◌}
use mathlib.Core.List.{List, [], ◌∷◌, ◌++◌, append_assoc, append-nil}
use mathlib.Core.Bool.{true, false}
use mathlib.Core.Logic.{inl, inr}
use native.Mathlib.Omega.{arith}
use package.ping_pong_so.Base.Tests.{Bool-cases, if◌then◌else◌}
use package.ping_pong_so.Base.Lists.{All, All-append, All-map}
use package.ping_pong_so.Base.Int.{ℤ, ltb_ℤ, ◌≤ℤ◌, ◌<ℤ◌}

module _ {A : Type 0} (key : A → ℤ) where
  unfoldable pub argmin : A → List A → A
  argmin best [] = best
  argmin best (x ∷ xs) = argmin (if ltb_ℤ (key x) (key best) then x else best) xs

  -- `m` stands in `xs`, behind greater elements only, and before no lesser one.
  pub record IsFirstMin (xs : List A) (m : A) : Type 0 where
    pub before : List A
    pub after : List A
    pub split : xs ≡ before ++ m ∷ after
    pub greater : All (λ a. key m <ℤ key a) before
    pub not_less : All (λ a. key m ≤ℤ key a) after

  replaced :
      (ps : List A) (best x : A)
      → IsFirstMin ps best
      → ltb_ℤ (key x) (key best) ≡ true
      → IsFirstMin (ps ++ x ∷ []) x
  replaced ps best x f less = record {
    before = ps;
    after = [];
    split = refl;
    greater = rw f.split (
        All-append (λ a. key x <ℤ key a) f.before (best ∷ f.after)
          (All-map (λ a. key best <ℤ key a) _ f.before (λ a h. ground arith) f.greater)
          (
            ground arith,
            All-map (λ a. key best ≤ℤ key a) _ f.after (λ a h. ground arith) f.not_less,
          ));
    not_less = tt;
  }

  kept :
      (ps : List A) (best x : A)
      → IsFirstMin ps best
      → ltb_ℤ (key x) (key best) ≡ false
      → IsFirstMin (ps ++ x ∷ []) best
  kept ps best x f more = record {
    before = f.before;
    after = f.after ++ x ∷ [];
    split = ap (λ l. l ++ x ∷ []) f.split ∙ append_assoc f.before (best ∷ f.after) (x ∷ []);
    greater = f.greater;
    not_less = All-append _ f.after (x ∷ []) f.not_less (ground arith, tt);
  }

  step-IsFirstMin :
      (ps : List A) (best x : A)
      → IsFirstMin ps best
      → IsFirstMin (ps ++ x ∷ []) (if ltb_ℤ (key x) (key best) then x else best)
  step-IsFirstMin ps best x f = elim (Bool-cases (ltb_ℤ (key x) (key best))) [
    | inl less ↦ rw less (replaced ps best x f less)
    | inr more ↦ rw more (kept ps best x f more)
  ]

  argmin_loop :
      (ps : List A) (best : A) (xs : List A)
      → IsFirstMin ps best
      → IsFirstMin (ps ++ xs) (argmin best xs)
  unfolding argmin
  argmin_loop ps best [] f = rw append-nil f
  argmin_loop ps best (x ∷ xs) f = rw (append_assoc ps (x ∷ []) xs) at (
      argmin_loop (ps ++ x ∷ []) (if ltb_ℤ (key x) (key best) then x else best) xs
        (step-IsFirstMin ps best x f))

  -- The loop, started at the head of a list, finds the first of its least elements.
  pub argmin-IsFirstMin : (x : A) (xs : List A) → IsFirstMin (x ∷ xs) (argmin x xs)
  argmin-IsFirstMin x xs =
      argmin_loop (x ∷ []) x xs
        (record { before = []; after = []; split = refl; greater = tt; not_less = tt })
