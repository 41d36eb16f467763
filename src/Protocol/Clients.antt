-- ===== src/Protocol/Clients.antt =====
-- The invariant and the steps of the tasks inside disk_block_read and disk_block_write.
use ping_pong_so.Base.{
  [], ap, arith, inl, inr, length, refl, some, subst, sym, ℕ, ◌+◌, ◌<◌, ◌∙◌, ◌∷◌, ◌≡◌, ◌≢◌,
}
use ping_pong_so.Manager.State.{Finishes, Result, System, done, sync}
use ping_pong_so.Manager.Takes.{requeue_cells}
use ping_pong_so.Protocol.{
  Pc, Runs, State, after, as_task, ended, locked, outside, queued, segment, served, signalled,
}
use ping_pong_so.Protocol.Counts.{
  Made-inv, down_treated-Made, effects-one, held-le, lock-Made, unlock-Made, up_new-Made,
}
use ping_pong_so.Protocol.Invariant.{Inv, at_scheduler, awaits, holds_mutex, in_flight, unannounced}
use ping_pong_so.Protocol.Sync.{Sems, SyncLib, effect, effects, held}
use ping_pong_so.Requests.Memory.{
  SyncCall, mutex_lock, mutex_unlock, new_requests, request_mutex, sem_down, sem_up,
  treated_requests,
}
use ping_pong_so.Totals.{total, total-with_pc, with_pc}

-- The parts of the system that a call of the task library leaves alone.
pub record SameData (s t : System) : Type 0 where
  pub list : t.list ≡ s.list
  pub cells : t.mem.cell ≡ s.mem.cell
  pub residue : t.mem.residue ≡ s.mem.residue
  pub hw : t.hw ≡ s.hw
  pub init : t.disk.init ≡ s.disk.init

pub Finishes-done :
    {A : Type 0} (P : A → System → Type 0) (m : Result A) (a : A) (t : System)
    → Finishes P m
    → m ≡ done a t
    → P a t
Finishes-done P m a t h e = subst (Finishes P) e h

module _ (lib : SyncLib) (n : ℕ) where
  -- A step that changes only counts and places.
  pub Inv-counts :
      (s t : State lib n) (v : Inv lib n s)
      → SameData s.sys t.sys
      → t.disk_pc ≢ ended
      → held lib t.sems.queue_lock ≡ 0
      → total holds_mutex n t.pc ≡ held lib t.sems.request_lock
      → total awaits n t.pc
        ≡ lib.value t.sems.new_count
          + at_scheduler t.disk_pc
          + in_flight s.sys.hw.status
          + lib.value t.sems.treated_count
      → length v.entries
        ≡ total unannounced n t.pc + lib.value t.sems.new_count + at_scheduler t.disk_pc
      → Inv lib n t
  Inv-counts s t v d alive queue_free holder tokens pending = record {
    list = v.list;
    entries = v.entries;
    there = d.list ∙ v.there;
    queue = requeue_cells d.cells v.queue;
    kinds = v.kinds;
    ready = rw d.hw v.ready;
    keeps = rw d.residue v.keeps;
    init = d.init ∙ v.init;
    alive = alive;
    queue_free = queue_free;
    holder = holder;
    tokens = rw d.hw tokens;
    pending = pending;
  }

  -- A step that is one call of the task library.
  pub record Called (c : SyncCall) (s : System) (v : Sems lib) (t : System) (w : Sems lib)
      : Type 0 where
    pub same : SameData s t
    pub effect_ : effect lib c v ≡ some w

  pub sync-Called :
      (c : SyncCall) (i : ℕ) (s0 : System) (v : Sems lib) (t : System) (w : Sems lib)
      → Runs lib n (sync c) (as_task i s0) v t w
      → Called c s0 v t w
  sync-Called c i s0 v t w r =
      let after_call : System = record s0 {
        task_exec = i;
        mem = record s0.mem { calls = c ∷ [] };
      } in
      let same : t ≡ after_call =
        Finishes-done (λ _ u. u ≡ after_call) (sync c (as_task i s0)) r.result t refl r.ends in
      record {
        same =
            rw same (record { list = refl; cells = refl; residue = refl; hw = refl; init = refl });
        effect_ =
            sym (effects-one lib v c)
            ∙ ap (λ (u : System). effects lib u.mem.calls v) (sym same)
            ∙ r.calls;
      }

  module _ (s : State lib n) (v : Inv lib n s) (i : ℕ) (inside : i < n) (t : System)
      (w : Sems lib) where
    abbrev moved_to : Pc → State lib n
    moved_to p = record s { sys = t; sems = w; pc = with_pc s.pc i p }

    -- Moving task `i` from where it stands.
    moving :
        (f : Pc → ℕ) (p p' : Pc)
        → s.pc i ≡ p
        → total f n (with_pc s.pc i p') + f p ≡ total f n s.pc + f p'
    moving f p p' at_ = rw (← at_) (total-with_pc f n s.pc i p' inside)

    lock-Inv :
        s.pc i ≡ queued
        → Called (mutex_lock request_mutex) s.sys s.sems t w
        → Inv lib n (moved_to locked)
    unfolding holds_mutex awaits unannounced
    lock-Inv at_ c = elim (lock-Made lib s.sems) [
      | inl (h, stuck) ↦ cc (stuck, c.effect_)
      | inr (h, m) ↦
          let k = Made-inv lib s.sems w _ _ _ _ _ m c.effect_ in
          Inv-counts s (moved_to locked) v c.same v.alive (omega (arith, k.queue_, v.queue_free))
            (omega (arith, k.requests_, v.holder, h, moving holds_mutex queued locked at_))
            (omega (arith, k.new_, k.treated_, v.tokens, moving awaits queued locked at_))
            (omega (arith, k.new_, v.pending, moving unannounced queued locked at_))
    ]

    signal-Inv :
        s.pc i ≡ locked
        → Called (sem_up new_requests) s.sys s.sems t w
        → Inv lib n (moved_to signalled)
    unfolding holds_mutex awaits unannounced
    signal-Inv at_ c =
        let k = Made-inv lib s.sems w _ _ _ _ _ (up_new-Made lib s.sems) c.effect_ in
        Inv-counts s (moved_to signalled) v c.same v.alive (omega (arith, k.queue_, v.queue_free))
          (omega (arith, k.requests_, v.holder, moving holds_mutex locked signalled at_))
          (omega (arith, k.new_, k.treated_, v.tokens, moving awaits locked signalled at_))
          (omega (arith, k.new_, v.pending, moving unannounced locked signalled at_))

    wake-Inv :
        s.pc i ≡ signalled
        → Called (sem_down treated_requests) s.sys s.sems t w
        → Inv lib n (moved_to served)
    unfolding holds_mutex awaits unannounced
    wake-Inv at_ c = elim (down_treated-Made lib s.sems) [
      | inl (h, stuck) ↦ cc (stuck, c.effect_)
      | inr (j, h, m) ↦
          let k = Made-inv lib s.sems w _ _ _ _ _ m c.effect_ in
          Inv-counts s (moved_to served) v c.same v.alive (omega (arith, k.queue_, v.queue_free))
            (omega (arith, k.requests_, v.holder, moving holds_mutex signalled served at_))
            (omega (arith, k.new_, k.treated_, h, v.tokens, moving awaits signalled served at_))
            (omega (arith, k.new_, v.pending, moving unannounced signalled served at_))
    ]

    unlock-Inv :
        s.pc i ≡ served
        → Called (mutex_unlock request_mutex) s.sys s.sems t w
        → Inv lib n (moved_to outside)
    unfolding holds_mutex awaits unannounced
    unlock-Inv at_ c =
        let k = Made-inv lib s.sems w _ _ _ _ _ (unlock-Made lib s.sems) c.effect_ in
        Inv-counts s (moved_to outside) v c.same v.alive (omega (arith, k.queue_, v.queue_free))
          (omega (
            arith,
            k.requests_,
            v.holder,
            held-le lib s.sems.request_lock,
            moving holds_mutex served outside at_,
          ))
          (omega (arith, k.new_, k.treated_, v.tokens, moving awaits served outside at_))
          (omega (arith, k.new_, v.pending, moving unannounced served outside at_))

    client-at :
        (p : Pc)
        → s.pc i ≡ p
        → p ≢ outside
        → Runs lib n (segment p) (as_task i s.sys) s.sems t w
        → Inv lib n (moved_to (after p))
    unfolding segment after
    client-at outside at_ away r = absurd (away refl)
    client-at queued at_ away r = lock-Inv at_ (sync-Called _ i s.sys s.sems t w r)
    client-at locked at_ away r = signal-Inv at_ (sync-Called _ i s.sys s.sems t w r)
    client-at signalled at_ away r = wake-Inv at_ (sync-Called _ i s.sys s.sems t w r)
    client-at served at_ away r = unlock-Inv at_ (sync-Called _ i s.sys s.sems t w r)

    pub client-Inv :
        s.pc i ≢ outside
        → Runs lib n (segment (s.pc i)) (as_task i s.sys) s.sems t w
        → Inv lib n (moved_to (after (s.pc i)))
    client-Inv away r = client-at (s.pc i) refl away r
