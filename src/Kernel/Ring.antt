-- ===== src/Kernel/Ring.antt =====
-- The circular ready queue: distinct tasks, each linked to the next and the last to the first.
use ping_pong_so.Base.{
  Bool, Bool-cases, List, Option, [], ap, arith, eq_self, eq_of_test, false, if◌then◌else◌, inl,
  inr, none, refl, some, sym, true, ◌++◌, ◌==◌, ◌||◌, ◌∙◌, ◌∷◌, ◌≡◌, ◌≢◌,
}
use ping_pong_so.Kernel.State.{Kernel, Ptr, Task, null, with_task, with_task-other}

-- The tasks of the queue with their addresses, in order.
abbrev pub Queue : Type 0
Queue = List (Ptr × Task)

abbrev pub holds : Ptr → Queue → Bool
holds a [] = false
holds a ((p, _) ∷ xs) = (a == p) || holds a xs

abbrev pub Apart : Queue → Type 0
Apart [] = Unit
Apart ((p, _) ∷ xs) = (holds p xs ≡ false) × Apart xs

abbrev pub start_or : Ptr → Queue → Ptr
start_or stop [] = stop
start_or stop ((p, _) ∷ xs) = p

-- The tasks `xs` stand in the store, linked one to the next and the last to `stop`.
abbrev pub Chain : (Ptr → Option Task) → Queue → Ptr → Type 0
Chain f [] stop = Unit
Chain f ((p, t) ∷ xs) stop =
    (f p ≡ some t) × (p ≢ null) × (t.next ≡ start_or stop xs) × Chain f xs stop

pub Chain-frame :
    (f g : Ptr → Option Task) (xs : Queue) (stop : Ptr)
    → ((a : Ptr) → holds a xs ≡ true → g a ≡ f a)
    → Chain f xs stop
    → Chain g xs stop
Chain-frame f g [] stop same c = tt
Chain-frame f g ((p, t) ∷ xs) stop same c = (
  same p (ground arith) ∙ c.0,
  c.1,
  c.2,
  Chain-frame f g xs stop (λ a i. same a (ground arith)) c.3,
)

pub holds-ne : (a b : Ptr) (xs : Queue) → holds a xs ≡ false → holds b xs ≡ true → a ≢ b
holds-ne a b xs out inside = λ e. cc (ap (λ c. holds c xs) e)

pub Chain-with_task :
    (f : Ptr → Option Task) (xs : Queue) (stop p : Ptr) (t : Task)
    → holds p xs ≡ false
    → Chain f xs stop
    → Chain (with_task f p t) xs stop
Chain-with_task f xs stop p t out c =
    Chain-frame f (with_task f p t) xs stop
      (λ a i. with_task-other f p t a (λ e. holds-ne p a xs out i (sym e))) c

-- The store holds the non-empty ring of tasks that starts at `first`.
pub record IsRing (s : Kernel) (x : Ptr × Task) (xs : Queue) : Type 0 where
  pub chain : Chain s.tasks (x ∷ xs) x.0
  pub apart : Apart (x ∷ xs)
  pub first : s.ready_queue ≡ x.0

-- The links and addresses of a queue without the rest of the tasks.
pub holds-append : (a : Ptr) (xs ys : Queue) → holds a (xs ++ ys) ≡ (holds a xs || holds a ys)
holds-append a [] ys = refl
holds-append a (x ∷ xs) ys = ground (arith, holds-append a xs ys)

pub holds-head :
    (p a : Ptr) (t : Task) (xs : Queue)
    → holds a ((p, t) ∷ xs) ≡ false
    → (p ≢ a) × (holds a xs ≡ false)
holds-head p a t xs out = ground arith

-- The task of the queue at an address.
unfoldable pub find : Ptr → Queue → Option Task
find a [] = none
find a ((p, t) ∷ xs) = if a == p then some t else find a xs

pub find-out : (a : Ptr) (xs : Queue) → holds a xs ≡ false → find a xs ≡ none
unfolding find
find-out a [] out = refl
find-out a ((p, t) ∷ xs) out = ground (arith, find-out a xs)

pub find-ne :
    (a p : Ptr) (u : Task) (xs : Queue) → find a xs ≡ some u → holds p xs ≡ false → (a == p) ≡ false
find-ne a p u xs e out = elim (Bool-cases (a == p)) [
  | inl here ↦ cc (ap (λ b. find b xs) (eq_of_test a p here), find-out p xs out)
  | inr away ↦ away
]

-- A change of each task that keeps its link.
unfoldable pub remap : (Ptr → Task → Task) → Queue → Queue
remap g [] = []
remap g ((p, t) ∷ xs) = (p, g p t) ∷ remap g xs

pub start_or-remap :
    (g : Ptr → Task → Task) (stop : Ptr) (xs : Queue)
    → start_or stop (remap g xs) ≡ start_or stop xs
unfolding remap
start_or-remap g stop [] = refl
start_or-remap g stop (x ∷ xs) = refl

pub holds-remap : (g : Ptr → Task → Task) (a : Ptr) (xs : Queue) → holds a (remap g xs) ≡ holds a xs
unfolding remap
holds-remap g a [] = refl
holds-remap g a ((p, t) ∷ xs) = ap (λ b. (a == p) || b) (holds-remap g a xs)

pub Apart-remap : (g : Ptr → Task → Task) (xs : Queue) → Apart xs → Apart (remap g xs)
unfolding remap
Apart-remap g [] d = tt
Apart-remap g ((p, t) ∷ xs) d = (holds-remap g p xs ∙ d.0, Apart-remap g xs d.1)

-- A store that holds the changed tasks holds the changed queue.
pub Chain-remap :
    (f h : Ptr → Option Task) (g : Ptr → Task → Task) (xs : Queue) (stop : Ptr)
    → ((p : Ptr) (t : Task) → (g p t).next ≡ t.next)
    → ((a : Ptr) (t : Task) → find a xs ≡ some t → h a ≡ some (g a t))
    → Apart xs
    → Chain f xs stop
    → Chain h (remap g xs) stop
unfolding remap find
Chain-remap f h g [] stop keep new d c = tt
Chain-remap f h g ((p, t) ∷ xs) stop keep new d c = (
  new p t (rw (eq_self p)),
  c.1,
  keep p t ∙ c.2 ∙ sym (start_or-remap g stop xs),
  Chain-remap f h g xs stop keep (λ a u e. new a u (rw (find-ne a p u xs e d.0) e)) d.1 c.3,
)

pub Chain-find :
    (f : Ptr → Option Task) (xs : Queue) (stop a : Ptr) (t : Task)
    → Chain f xs stop
    → find a xs ≡ some t
    → f a ≡ some t
unfolding find
Chain-find f [] stop a t c e = cc
Chain-find f ((p, u) ∷ xs) stop a t c e = elim (Bool-cases (a == p)) [
  | inl here ↦ ap f (eq_of_test a p here) ∙ c.0 ∙ (rw here at e)
  | inr away ↦ Chain-find f xs stop a t c.3 (rw away at e)
]

pub find-ne_null :
    (f : Ptr → Option Task) (xs : Queue) (stop a : Ptr) (t : Task)
    → Chain f xs stop
    → find a xs ≡ some t
    → a ≢ null
unfolding find
find-ne_null f [] stop a t c e = cc
find-ne_null f ((p, u) ∷ xs) stop a t c e = elim (Bool-cases (a == p)) [
  | inl here ↦ λ zero_. c.1 (sym (eq_of_test a p here) ∙ zero_)
  | inr away ↦ find-ne_null f xs stop a t c.3 (rw away at e)
]
