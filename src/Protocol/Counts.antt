-- ===== src/Protocol/Counts.antt =====
-- What the calls of the protocol do to the counts, and when they do not block.
use ping_pong_so.Base.{
  Bool-cases, Option, [], arith, inl, inr, none, refl, some, subst, suc, sym, zero, ℕ, ◌∙◌, ◌∷◌,
  ◌≡◌, ◌≤◌, ◌⊎◌,
}
use ping_pong_so.Manager.Serve.{taken}
use ping_pong_so.Manager.Startup.{startup_calls}
use ping_pong_so.Protocol.Sync.{Counts, Sems, SyncLib, effect, effects, held}
use ping_pong_so.Requests.Memory.{
  SyncCall, free, mutex_lock, mutex_unlock, new_requests, queue_mutex, request_mutex, sem_down,
  sem_up, treated_requests,
}

module _ (lib : SyncLib) where
  -- The counts of `s` after a call that may be made.
  pub record Made (s : Sems lib) (o : Option (Sems lib)) (requests queue new treated : ℕ)
      : Type 0 where
    pub left : Sems lib
    pub made : o ≡ some left
    pub counts : Counts lib left requests queue new treated

  pub Made-inv :
      (s w : Sems lib) (o : Option (Sems lib)) (a b c d : ℕ)
      → Made s o a b c d
      → o ≡ some w
      → Counts lib w a b c d
  Made-inv s w o a b c d m e =
      let same : ◌≡◌ {A = Option (Sems lib)} (some m.left) (some w) = sym m.made ∙ e in
      subst (λ (u : Sems lib). Counts lib u a b c d) (cc same) m.counts

  lock-cases :
      (m : lib.Lock)
      → ((held lib m ≡ 1) × (lib.lock m ≡ none))
        ⊎ ((held lib m ≡ 0) × ((m' : lib.Lock) × (lib.lock m ≡ some m') × (held lib m' ≡ 1)))
  lock-cases m = elim (Bool-cases (lib.is_held m)) [
    | inl taken ↦ inl (rw taken refl, lib.lock-held m taken)
    | inr free ↦ let (m', e, h) = lib.lock-free m free in inr (rw free refl, (m', e, rw h refl))
  ]

  down-cases :
      (c : lib.Sem) (k : ℕ)
      → lib.value c ≡ k
      → ((k ≡ 0) × (lib.down c ≡ none))
        ⊎ ((j : ℕ) × (k ≡ suc j) × ((c' : lib.Sem) × (lib.down c ≡ some c') × (lib.value c' ≡ j)))
  down-cases c zero e = inl (refl, lib.down-zero c e)
  down-cases c (suc k) e = inr (k, refl, lib.down-pos c k e)

  pub held-le : (m : lib.Lock) → held lib m ≤ 1
  held-le m = elim (lock-cases m) [ inl (h, _) ↦ omega arith | inr (h, _) ↦ omega arith ]

  held-unlock : (m : lib.Lock) → held lib (lib.unlock m) ≡ 0
  held-unlock m = rw (lib.is_held-unlock m) refl

  module _ (s : Sems lib) where
    abbrev q : ℕ
    q = held lib s.queue_lock

    abbrev new : ℕ
    new = lib.value s.new_count

    abbrev treated : ℕ
    treated = lib.value s.treated_count

    -- Each call, by whether it blocks.
    pub lock-Made :
        ((held lib s.request_lock ≡ 1) × (effect lib (mutex_lock request_mutex) s ≡ none))
        ⊎ ((held lib s.request_lock ≡ 0)
            × Made s (effect lib (mutex_lock request_mutex) s) 1 q new treated)
    unfolding effect
    lock-Made = elim (lock-cases s.request_lock) [
      | inl (h, stuck) ↦ inl (h, rw (stuck, effect) refl)
      | inr (h, (m, go, h')) ↦ inr (
        h,
        record {
          left = record s { request_lock = m };
          made = rw (go, effect) refl;
          counts = record { requests_ = h'; queue_ = refl; new_ = refl; treated_ = refl };
        },
      )
    ]

    pub unlock-Made : Made s (effect lib (mutex_unlock request_mutex) s) 0 q new treated
    unfolding effect
    unlock-Made = record {
      left = _;
      made = refl;
      counts = record {
        requests_ = held-unlock s.request_lock;
        queue_ = refl;
        new_ = refl;
        treated_ = refl;
      };
    }

    pub up_new-Made :
        Made s (effect lib (sem_up new_requests) s) (held lib s.request_lock) q (suc new) treated
    unfolding effect
    up_new-Made = record {
      left = _;
      made = refl;
      counts = record {
        requests_ = refl;
        queue_ = refl;
        new_ = lib.value-up s.new_count;
        treated_ = refl;
      };
    }

    pub up_treated-Made :
        Made s
          (effect lib (sem_up treated_requests) s)
          (held lib s.request_lock)
          q
          new
          (suc treated)
    unfolding effect
    up_treated-Made = record {
      left = _;
      made = refl;
      counts = record {
        requests_ = refl;
        queue_ = refl;
        new_ = refl;
        treated_ = lib.value-up s.treated_count;
      };
    }

    pub down_new-Made :
        ((new ≡ 0) × (effect lib (sem_down new_requests) s ≡ none))
        ⊎ ((j : ℕ) × (new ≡ suc j)
            × Made s (effect lib (sem_down new_requests) s) (held lib s.request_lock) q j treated)
    unfolding effect
    down_new-Made = elim (down-cases s.new_count new refl) [
      | inl (h, stuck) ↦ inl (h, rw (stuck, effect) refl)
      | inr (j, h, (c, go, h')) ↦ inr (
        j,
        h,
        record {
          left = record s { new_count = c };
          made = rw (go, effect) refl;
          counts = record { requests_ = refl; queue_ = refl; new_ = h'; treated_ = refl };
        },
      )
    ]

    pub down_treated-Made :
        ((treated ≡ 0) × (effect lib (sem_down treated_requests) s ≡ none))
        ⊎ ((j : ℕ) × (treated ≡ suc j)
            × Made s (effect lib (sem_down treated_requests) s) (held lib s.request_lock) q new j)
    unfolding effect
    down_treated-Made = elim (down-cases s.treated_count treated refl) [
      | inl (h, stuck) ↦ inl (h, rw (stuck, effect) refl)
      | inr (j, h, (c, go, h')) ↦ inr (
        j,
        h,
        record {
          left = record s { treated_count = c };
          made = rw (go, effect) refl;
          counts = record { requests_ = refl; queue_ = refl; new_ = refl; treated_ = h' };
        },
      )
    ]

    -- The queue mutex is taken and released within a step.
    pub lock_unlock_queue-Made :
        held lib s.queue_lock ≡ 0
        → Made s
            (effects lib (mutex_unlock queue_mutex ∷ mutex_lock queue_mutex ∷ []) s)
            (held lib s.request_lock)
            0
            new
            treated
    unfolding effects
    lock_unlock_queue-Made idle_ = elim (lock-cases s.queue_lock) [
      | inl (h, stuck) ↦ absurd (omega arith)
      | inr (h, (m, go, h')) ↦ record {
        left = record s { queue_lock = lib.unlock m };
        made = rw (go, effects, effect) refl;
        counts = record { requests_ = refl; queue_ = held-unlock m; new_ = refl; treated_ = refl };
      }
    ]

  -- The calls of `disk_mgr_init`.
  pub startup-Made : (s : Sems lib) → Made s (effects lib startup_calls s) 0 0 0 0
  unfolding effects
  startup-Made s = record {
    left = _;
    made = refl;
    counts = record {
      requests_ = rw lib.is_held-unlocked refl;
      queue_ = rw lib.is_held-unlocked refl;
      new_ = lib.value-counter 0;
      treated_ = lib.value-counter 0;
    };
  }

  pub effects-one : (s : Sems lib) (c : SyncCall) → effects lib (c ∷ []) s ≡ effect lib c s
  unfolding effects
  effects-one s c = refl

  pub effects-none : (s : Sems lib) → effects lib [] s ≡ some s
  unfolding effects
  effects-none s = refl
