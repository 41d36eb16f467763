-- ===== src/Producers/Safety.antt =====
-- The turns that leave the array of the buffer, and the turns that can be taken.
use ping_pong_so.Base.{
  Bool, Option, arith, false, if◌then◌else◌, inl, inr, none, refl, some, subst, sym, true, ℕ, ◌+◌,
  ◌-◌, ◌<◌, ◌≡◌, ◌≢◌, ◌⊎◌,
}
use ping_pong_so.Base.Int.{ℤ}
use ping_pong_so.Kernel.Ring.{holds}
use ping_pong_so.Producers.{
  Place, Reaches, Shop, Turn, blocked, consuming, fault, has_item, has_placed, has_retrieved,
  has_slot, placing, producing, retrieving, task_turn, turn_at, went,
}
use ping_pong_so.Producers.Flow.{Flows, critical, uses_item, uses_slot}
use ping_pong_so.Producers.Turns.{Reaches-Flows, places, retrieves}
use ping_pong_so.Protocol.Sync.{SyncLib}
use ping_pong_so.Totals.{le-total, total, total-pos}
use native.Mathlib.Decide.{dec_lt}

-- Whether a task runs `taskProdutor`.
unfoldable pub is_producer : Place → Bool
is_producer producing = true
is_producer has_slot = true
is_producer placing = true
is_producer has_placed = true
is_producer _ = false

module _ (lib : SyncLib) where
  wait-ne-fault :
      (c : lib.Sem) (k : lib.Sem → Shop lib) (o : Option lib.Sem)
      → (elim o as (λ _. Turn (Shop lib)) [ none ↦ blocked | some d ↦ went (k d) ]) ≢ fault
  wait-ne-fault c k none e = cc e
  wait-ne-fault c k (some d) e = cc e

  turn_at-ne-fault :
      (n : ℕ) (s : Shop lib) (v : Flows lib n s) (i : ℕ) (item : ℤ)
      → i < n
      → (p : Place) → s.pc i ≡ p
      → turn_at lib p i item s ≢ fault
  unfolding turn_at
  turn_at-ne-fault n s v i item within producing at_ = wait-ne-fault s.slots _ (lib.down s.slots)
  turn_at-ne-fault n s v i item within has_slot at_ = wait-ne-fault s.mutex _ (lib.down s.mutex)
  turn_at-ne-fault n s v i item within placing at_ =
      let (c, run, h) = places lib n s v i item within at_ in λ bad. cc (run, bad)
  turn_at-ne-fault n s v i item within has_placed at_ = λ bad. cc bad
  turn_at-ne-fault n s v i item within consuming at_ = wait-ne-fault s.items _ (lib.down s.items)
  turn_at-ne-fault n s v i item within has_item at_ = wait-ne-fault s.mutex _ (lib.down s.mutex)
  turn_at-ne-fault n s v i item within retrieving at_ =
      let (x, xs, c, is, run, h) = retrieves lib n s v i item within at_ in λ bad. cc (run, bad)
  turn_at-ne-fault n s v i item within has_retrieved at_ = λ bad. cc bad

  -- In every state that `n` producers and consumers can reach, the turn of no task reads or writes
  -- beyond the buffer's array.
  pub no_fault :
      (n : ℕ) (s : Shop lib) (i : ℕ) (item : ℤ)
      → Reaches lib n s
      → i < n
      → task_turn lib i item s ≢ fault
  unfolding task_turn
  no_fault n s i item r within =
      turn_at-ne-fault n s (Reaches-Flows lib n s r) i item within (s.pc i) refl

module _ (lib : SyncLib) (n : ℕ) (s : Shop lib) (v : Flows lib n s) (item : ℤ) where
  -- Some task can go on.
  abbrev Goes : Type 0
  Goes = (i : ℕ) × (t : Shop lib) × (i < n) × (task_turn lib i item s ≡ went t)

  goes_at :
      (i : ℕ) (p : Place) (t : Shop lib)
      → i < n
      → s.pc i ≡ p
      → turn_at lib p i item s ≡ went t
      → Goes
  unfolding task_turn
  goes_at i p t within at_ run =
      (i, t, within, subst (λ (q : Place). turn_at lib q i item s ≡ went t) (sym at_) run)

  wait-goes :
      (c : lib.Sem) (k : lib.Sem → Shop lib)
      → lib.value c ≢ 0
      → (t : Shop lib) × ((elim (lib.down c) as (λ _. Turn (Shop lib)) [
        | none ↦ blocked
        | some d ↦ went (k d)
      ])
          ≡ went t)
  wait-goes c k ne =
      let (d, e, less) = lib.down-pos c (lib.value c - 1) (omega (arith, ne)) in (k d, rw e refl)

  -- A task past its first call goes on, where it holds sBuffer or that is free.
  claimed-goes :
      (i : ℕ) (p : Place)
      → i < n
      → s.pc i ≡ p
      → uses_slot p + uses_item p ≢ 0
      → (critical p ≢ 0) ⊎ (lib.value s.mutex ≢ 0)
      → Goes
  unfolding uses_slot uses_item critical turn_at
  claimed-goes i producing within at_ used can = absurd (used refl)
  claimed-goes i consuming within at_ used can = absurd (used refl)
  claimed-goes i has_slot within at_ used (inl holds) = absurd (holds refl)
  claimed-goes i has_slot within at_ used (inr free_) =
      let (t, run) = wait-goes s.mutex _ free_ in goes_at i has_slot t within at_ run
  claimed-goes i has_item within at_ used (inl holds) = absurd (holds refl)
  claimed-goes i has_item within at_ used (inr free_) =
      let (t, run) = wait-goes s.mutex _ free_ in goes_at i has_item t within at_ run
  claimed-goes i placing within at_ used can =
      let (c, run, h) = places lib n s v i item within at_ in goes_at i placing _ within at_ run
  claimed-goes i retrieving within at_ used can =
      let (x, xs, c, is, run, h) = retrieves lib n s v i item within at_ in
      goes_at i retrieving _ within at_ run
  claimed-goes i has_placed within at_ used can = goes_at i has_placed _ within at_ refl
  claimed-goes i has_retrieved within at_ used can = goes_at i has_retrieved _ within at_ refl

  critical-used : (p : Place) → critical p ≢ 0 → uses_slot p + uses_item p ≢ 0
  unfolding critical uses_slot uses_item
  critical-used producing ne = absurd (ne refl)
  critical-used has_slot ne = absurd (ne refl)
  critical-used placing ne = λ z. omega arith
  critical-used has_placed ne = absurd (ne refl)
  critical-used consuming ne = absurd (ne refl)
  critical-used has_item ne = absurd (ne refl)
  critical-used retrieving ne = λ z. omega arith
  critical-used has_retrieved ne = absurd (ne refl)

  -- Tasks that have claimed nothing stand at the start of their loops.
  idle_goes :
      (i : ℕ) (p : Place)
      → i < n
      → s.pc i ≡ p
      → uses_slot p + uses_item p ≡ 0
      → (if is_producer p then lib.value s.slots else lib.value s.items) ≢ 0
      → Goes
  unfolding uses_slot uses_item turn_at is_producer
  idle_goes i producing within at_ idle_ ne =
      let (t, run) = wait-goes s.slots _ ne in goes_at i producing t within at_ run
  idle_goes i consuming within at_ idle_ ne =
      let (t, run) = wait-goes s.items _ ne in goes_at i consuming t within at_ run
  idle_goes i has_slot within at_ idle_ ne = absurd (omega arith)
  idle_goes i placing within at_ idle_ ne = absurd (omega arith)
  idle_goes i has_placed within at_ idle_ ne = absurd (omega arith)
  idle_goes i has_item within at_ idle_ ne = absurd (omega arith)
  idle_goes i retrieving within at_ idle_ ne = absurd (omega arith)
  idle_goes i has_retrieved within at_ idle_ ne = absurd (omega arith)

  any_claimed-goes :
      total uses_slot n s.pc + total uses_item n s.pc ≢ 0 → total critical n s.pc ≡ 0 → Goes
  any_claimed-goes some_ free_ =
      let open_ : lib.value s.mutex ≢ 0 = λ z. omega (arith, v.mutex_) in
      elim (dec_lt 0 (total uses_slot n s.pc)) [
        | yes slot ↦
            let (j, within, ne) = total-pos uses_slot n s.pc (λ z. omega arith) in
            claimed-goes j (s.pc j) within refl (λ z. omega (arith, ne)) (inr open_)
        | no rest ↦
            let (j, within, ne) = total-pos uses_item n s.pc (λ z. omega arith) in
            claimed-goes j (s.pc j) within refl (λ z. omega (arith, ne)) (inr open_)
      ]

  idle_at :
      (a : ℕ)
      → a < n
      → total uses_slot n s.pc + total uses_item n s.pc ≡ 0
      → uses_slot (s.pc a) + uses_item (s.pc a) ≡ 0
  idle_at a within nobody =
      omega (arith, le-total uses_slot n s.pc a within, le-total uses_item n s.pc a within)

  either_goes :
      (a b : ℕ) → a < n → b < n → is_producer (s.pc a) ≡ true → is_producer (s.pc b) ≡ false → Goes
  either_goes a b ha hb producer consumer = elim (dec_lt 0 (total critical n s.pc)) [
    | yes busy ↦
        let (j, within, ne) = total-pos critical n s.pc (λ z. omega arith) in
        claimed-goes j (s.pc j) within refl (critical-used (s.pc j) ne) (inl ne)
    | no free_ ↦ elim (dec_lt 0 (total uses_slot n s.pc + total uses_item n s.pc)) [
      | yes some_ ↦ any_claimed-goes (λ z. omega arith) (omega arith)
      | no rest ↦ elim (dec_lt 0 (lib.value s.slots)) [
        | yes room ↦
            idle_goes a (s.pc a) ha refl (idle_at a ha (omega arith))
              (rw producer (λ z. omega arith))
        | no full ↦
            idle_goes b (s.pc b) hb refl (idle_at b hb (omega arith))
              (rw consumer (λ z. omega (arith, v.slots_, v.items_)))
      ]
    ]
  ]

module _ (lib : SyncLib) (n : ℕ) where
  -- In every state that `n` tasks can reach, with a producer and a consumer among them, some task
  -- can go on.
  pub some_goes :
      (s : Shop lib) (item : ℤ) (a b : ℕ)
      → Reaches lib n s
      → a < n
      → b < n
      → is_producer (s.pc a) ≡ true
      → is_producer (s.pc b) ≡ false
      → (i : ℕ) × (t : Shop lib) × (i < n) × (task_turn lib i item s ≡ went t)
  some_goes s item a b r ha hb producer consumer =
      either_goes lib n s (Reaches-Flows lib n s r) item a b ha hb producer consumer
