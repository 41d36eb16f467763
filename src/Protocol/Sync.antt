-- ===== src/Protocol/Sync.antt =====
-- The mutexes and semaphores of the binary library, as ppos.h describes them, and what the recorded
-- calls do to them. A call that would block has no outcome.
use ping_pong_so.Base.{
  Bool, List, Option, [], ap, false, if◌then◌else◌, none, some, suc, sym, true, zero, ℕ, ◌∙◌, ◌∷◌,
  ◌≡◌,
}
use ping_pong_so.Base.Int.{pos, ℤ}
use ping_pong_so.Requests.Memory.{
  SyncCall, mutex_create, mutex_lock, mutex_unlock, new_requests, queue_mutex, request_mutex,
  sem_create, sem_down, sem_up, task_create, task_exit, task_setprio, treated_requests,
}

pub record SyncLib : Type 1 where
  pub Lock : Type 0
  pub Sem : Type 0
  pub is_held : Lock → Bool
  pub unlocked : Lock
  pub lock : Lock → Option Lock
  pub unlock : Lock → Lock
  pub value : Sem → ℕ
  pub counter : ℤ → Sem
  pub up : Sem → Sem
  pub down : Sem → Option Sem
  pub is_held-unlocked : is_held unlocked ≡ false
  pub lock-free :
      (m : Lock) → is_held m ≡ false → (m' : Lock) × (lock m ≡ some m') × (is_held m' ≡ true)
  pub lock-held : (m : Lock) → is_held m ≡ true → lock m ≡ none
  pub is_held-unlock : (m : Lock) → is_held (unlock m) ≡ false
  pub value-counter : (k : ℕ) → value (counter (pos k)) ≡ k
  pub value-up : (s : Sem) → value (up s) ≡ suc (value s)
  pub down-pos :
      (s : Sem) (k : ℕ) → value s ≡ suc k → (s' : Sem) × (down s ≡ some s') × (value s' ≡ k)
  pub down-zero : (s : Sem) → value s ≡ 0 → down s ≡ none

module _ (lib : SyncLib) where
  open lib use {Lock, Sem}

  pub record Sems : Type 0 where
    pub request_lock : Lock
    pub queue_lock : Lock
    pub new_count : Sem
    pub treated_count : Sem

  unfoldable pub effect : SyncCall → Sems → Option Sems
  effect (mutex_create request_mutex) s = some (record s { request_lock = lib.unlocked })
  effect (mutex_create queue_mutex) s = some (record s { queue_lock = lib.unlocked })
  effect (sem_create new_requests v) s = some (record s { new_count = lib.counter v })
  effect (sem_create treated_requests v) s = some (record s { treated_count = lib.counter v })
  effect (mutex_lock request_mutex) s = elim (lib.lock s.request_lock) [
    | none ↦ none
    | some m ↦ some (record s { request_lock = m })
  ]
  effect (mutex_lock queue_mutex) s = elim (lib.lock s.queue_lock) [
    | none ↦ none
    | some m ↦ some (record s { queue_lock = m })
  ]
  effect (mutex_unlock request_mutex) s =
      some (record s { request_lock = lib.unlock s.request_lock })
  effect (mutex_unlock queue_mutex) s = some (record s { queue_lock = lib.unlock s.queue_lock })
  effect (sem_up new_requests) s = some (record s { new_count = lib.up s.new_count })
  effect (sem_up treated_requests) s = some (record s { treated_count = lib.up s.treated_count })
  effect (sem_down new_requests) s = elim (lib.down s.new_count) [
    | none ↦ none
    | some c ↦ some (record s { new_count = c })
  ]
  effect (sem_down treated_requests) s = elim (lib.down s.treated_count) [
    | none ↦ none
    | some c ↦ some (record s { treated_count = c })
  ]
  effect task_create s = some s
  effect (task_setprio p) s = some s
  effect task_exit s = some s

  -- The calls of a list, the last one of which stands first.
  unfoldable pub effects : List SyncCall → Sems → Option Sems
  unfolding effect
  effects [] s = some s
  effects (c ∷ cs) s = elim (effects cs s) [ none ↦ none | some t ↦ effect c t ]

  -- What the calls leave of the counts.
  abbrev pub held : Lock → ℕ
  held m = if lib.is_held m then 1 else 0

  pub record Counts (s : Sems) (requests queue new treated : ℕ) : Type 0 where
    pub requests_ : held s.request_lock ≡ requests
    pub queue_ : held s.queue_lock ≡ queue
    pub new_ : lib.value s.new_count ≡ new
    pub treated_ : lib.value s.treated_count ≡ treated

module _ (lib : SyncLib) where
  -- What a call of `sem_down` that does not block does to the value.
  pub down-value :
      (c d : lib.Sem) (k : ℕ)
      → lib.value c ≡ k
      → lib.down c ≡ some d
      → lib.value c ≡ suc (lib.value d)
  down-value c d zero is e = cc (lib.down-zero c is, e)
  down-value c d (suc k) is e =
      let (d', e', less) = lib.down-pos c k is in
      let same : ◌≡◌ {A = Option lib.Sem} (some d') (some d) = sym e' ∙ e in
      is ∙ ap (λ j. suc j) (sym less ∙ ap (λ (x : lib.Sem). lib.value x) (cc same))
