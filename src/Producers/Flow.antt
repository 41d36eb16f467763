-- ===== src/Producers/Flow.antt =====
-- What holds in every state that producers and consumers can reach.
use ping_pong_so.Base.{
  List, Option, [], ap, arith, inl, inr, length, none, refl, some, subst, suc, sym, ℕ, ◌++◌, ◌+◌,
  ◌<◌, ◌∙◌, ◌≡◌, ◌⊎◌,
}
use ping_pong_so.Base.Int.{ℤ}
use ping_pong_so.Producers.{
  Buffer, Place, Shop, Turn, blocked, buffer_size, consuming, has_item, has_placed, has_retrieved,
  has_slot, open_shop, placing, producing, retrieving, turn_at, went,
}
use ping_pong_so.Producers.Fifo.{IsHolding}
use ping_pong_so.Protocol.Sync.{SyncLib, down-value}
use ping_pong_so.Totals.{total, total-with_pc, total-zero, with_pc}

-- The tasks that hold sBuffer, those with a slot of sVaga, and those with an item of sItem.
unfoldable pub critical : Place → ℕ
critical placing = 1
critical retrieving = 1
critical _ = 0

unfoldable pub uses_slot : Place → ℕ
uses_slot has_slot = 1
uses_slot placing = 1
uses_slot has_retrieved = 1
uses_slot _ = 0

unfoldable pub uses_item : Place → ℕ
uses_item has_placed = 1
uses_item has_item = 1
uses_item retrieving = 1
uses_item _ = 0

module _ (lib : SyncLib) (n : ℕ) where
  pub record Flows (s : Shop lib) : Type 0 where
    pub inside : List ℤ
    pub holding : IsHolding s.buffer inside
    -- What has been retrieved is what was placed first.
    pub fifo : s.placed ≡ s.taken ++ inside
    pub mutex_ : lib.value s.mutex + total critical n s.pc ≡ 1
    pub slots_ : lib.value s.slots + total uses_slot n s.pc + length inside ≡ buffer_size
    pub items_ : length inside ≡ lib.value s.items + total uses_item n s.pc

  pub opened-Flows :
      (b : Buffer) (pc : ℕ → Place)
      → length b.array ≡ buffer_size
      → ((i : ℕ) → (pc i ≡ producing) ⊎ (pc i ≡ consuming))
      → Flows (open_shop lib b pc)
  unfolding critical uses_slot uses_item
  opened-Flows b pc size begins =
      let none_yet = λ (f : Place → ℕ) (e : f producing ≡ 0) (e' : f consuming ≡ 0).
        total-zero f n pc (λ i. elim (begins i) [ inl at_ ↦ rw at_ e | inr at_ ↦ rw at_ e' ]) in
      record {
        inside = [];
        holding = record { size = size; count = refl; rest = b.array; split = refl };
        fifo = refl;
        mutex_ = omega (arith, lib.value-counter 1, none_yet critical refl refl);
        slots_ = omega (arith, lib.value-counter 5, none_yet uses_slot refl refl);
        items_ = omega (arith, lib.value-counter 0, none_yet uses_item refl refl);
      }

  pub wait-went :
      (c : lib.Sem) (k : lib.Sem → Shop lib) (t : Shop lib) (o : Option lib.Sem)
      → lib.down c ≡ o
      → (elim o as (λ _. Turn (Shop lib)) [ none ↦ blocked | some d ↦ went (k d) ]) ≡ went t
      → (d : lib.Sem) × (lib.value c ≡ suc (lib.value d)) × (k d ≡ t)
  wait-went c k t none e run = cc run
  wait-went c k t (some d) e run = (d, down-value lib c d (lib.value c) refl e, cc run)

  module _ (s : Shop lib) (v : Flows s) (i : ℕ) (item : ℤ) (within : i < n) where
    -- A turn that moves from one place to another.
    pub moving :
        (f : Place → ℕ) (p q : Place)
        → s.pc i ≡ p
        → total f n (with_pc s.pc i q) + f p ≡ total f n s.pc + f q
    moving f p q at_ = rw (← at_) (total-with_pc f n s.pc i q within)

    -- A turn that leaves the buffer alone.
    keeps :
        (t : Shop lib)
        → t.buffer ≡ s.buffer
        → t.placed ≡ s.placed
        → t.taken ≡ s.taken
        → lib.value t.mutex + total critical n t.pc ≡ 1
        → lib.value t.slots + total uses_slot n t.pc + length v.inside ≡ buffer_size
        → length v.inside ≡ lib.value t.items + total uses_item n t.pc
        → Flows t
    keeps t b p k mutex slots items = record {
      inside = v.inside;
      holding = rw b v.holding;
      fifo = p ∙ v.fifo ∙ ap (λ (xs : List ℤ). xs ++ v.inside) (sym k);
      mutex_ = mutex;
      slots_ = slots;
      items_ = items;
    }

    module _ (t : Shop lib) where
      pub at_producing : s.pc i ≡ producing → turn_at lib producing i item s ≡ went t → Flows t
      unfolding turn_at critical uses_slot uses_item
      at_producing at_ run =
          let (d, less, is) = wait-went s.slots _ t (lib.down s.slots) refl run in
          subst Flows is (
            keeps (record s { slots = d; pc = with_pc s.pc i has_slot }) refl refl refl
              (omega (arith, v.mutex_, moving critical producing has_slot at_))
              (omega (arith, v.slots_, less, moving uses_slot producing has_slot at_))
              (omega (arith, v.items_, moving uses_item producing has_slot at_)))

      pub at_consuming : s.pc i ≡ consuming → turn_at lib consuming i item s ≡ went t → Flows t
      unfolding turn_at critical uses_slot uses_item
      at_consuming at_ run =
          let (d, less, is) = wait-went s.items _ t (lib.down s.items) refl run in
          subst Flows is (
            keeps (record s { items = d; pc = with_pc s.pc i has_item }) refl refl refl
              (omega (arith, v.mutex_, moving critical consuming has_item at_))
              (omega (arith, v.slots_, moving uses_slot consuming has_item at_))
              (omega (arith, v.items_, less, moving uses_item consuming has_item at_)))

      pub at_has_slot : s.pc i ≡ has_slot → turn_at lib has_slot i item s ≡ went t → Flows t
      unfolding turn_at critical uses_slot uses_item
      at_has_slot at_ run =
          let (d, less, is) = wait-went s.mutex _ t (lib.down s.mutex) refl run in
          subst Flows is (
            keeps (record s { mutex = d; pc = with_pc s.pc i placing }) refl refl refl
              (omega (arith, v.mutex_, less, moving critical has_slot placing at_))
              (omega (arith, v.slots_, moving uses_slot has_slot placing at_))
              (omega (arith, v.items_, moving uses_item has_slot placing at_)))

      pub at_has_item : s.pc i ≡ has_item → turn_at lib has_item i item s ≡ went t → Flows t
      unfolding turn_at critical uses_slot uses_item
      at_has_item at_ run =
          let (d, less, is) = wait-went s.mutex _ t (lib.down s.mutex) refl run in
          subst Flows is (
            keeps (record s { mutex = d; pc = with_pc s.pc i retrieving }) refl refl refl
              (omega (arith, v.mutex_, less, moving critical has_item retrieving at_))
              (omega (arith, v.slots_, moving uses_slot has_item retrieving at_))
              (omega (arith, v.items_, moving uses_item has_item retrieving at_)))

      pub at_has_placed : s.pc i ≡ has_placed → turn_at lib has_placed i item s ≡ went t → Flows t
      unfolding turn_at critical uses_slot uses_item
      at_has_placed at_ run = subst Flows (cc run) (
          keeps (record s { items = lib.up s.items; pc = with_pc s.pc i producing }) refl refl refl
            (omega (arith, v.mutex_, moving critical has_placed producing at_))
            (omega (arith, v.slots_, moving uses_slot has_placed producing at_))
            (omega
              (arith, v.items_, lib.value-up s.items, moving uses_item has_placed producing at_)))

      pub at_has_retrieved :
          s.pc i ≡ has_retrieved → turn_at lib has_retrieved i item s ≡ went t → Flows t
      unfolding turn_at critical uses_slot uses_item
      at_has_retrieved at_ run = subst Flows (cc run) (
          keeps (record s { slots = lib.up s.slots; pc = with_pc s.pc i consuming }) refl refl refl
            (omega (arith, v.mutex_, moving critical has_retrieved consuming at_))
            (omega
              (arith, v.slots_, lib.value-up s.slots, moving uses_slot has_retrieved consuming at_))
            (omega (arith, v.items_, moving uses_item has_retrieved consuming at_)))
