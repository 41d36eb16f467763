-- ===== src/Producers/Turns.antt =====
-- The turns that use the buffer, and what every turn keeps.
use ping_pong_so.Base.{
  List, [], ap, append_assoc, arith, length, refl, subst, sym, ℕ, ◌++◌, ◌<◌, ◌∙◌, ◌∷◌, ◌≡◌, ◌≢◌,
}
use ping_pong_so.Base.Int.{ℤ}
use ping_pong_so.Producers.{
  Buffer, Place, Reaches, Shop, Turn, buffer_size, consuming, has_item, has_placed, has_retrieved,
  has_slot, opened, placing, producing, retrieving, task_turn, turn_at, turned, went,
}
use ping_pong_so.Producers.Fifo.{IsHolding, buffer_place-snoc, buffer_retrieve-head, length-snoc}
use ping_pong_so.Producers.Flow.{
  Flows, at_consuming, at_has_item, at_has_placed, at_has_retrieved, at_has_slot, at_producing,
  critical, moving, opened-Flows, uses_item, uses_slot,
}
use ping_pong_so.Protocol.Sync.{SyncLib}
use ping_pong_so.Totals.{le-total, with_pc}

module _ (lib : SyncLib) (n : ℕ) (s : Shop lib) (v : Flows lib n s) (i : ℕ) (item : ℤ)
    (within : i < n) where
  abbrev after_place : Buffer → Shop lib
  after_place c = record s {
    buffer = c;
    mutex = lib.up s.mutex;
    pc = with_pc s.pc i has_placed;
    placed = s.placed ++ item ∷ [];
  }

  abbrev after_retrieve : ℤ → Buffer → Shop lib
  after_retrieve x c = record s {
    buffer = c;
    mutex = lib.up s.mutex;
    pc = with_pc s.pc i has_retrieved;
    taken = s.taken ++ x ∷ [];
  }

  -- A task that places finds room.
  pub places :
      s.pc i ≡ placing
      → (c : Buffer) × (turn_at lib placing i item s ≡ went (after_place c))
        × IsHolding c (v.inside ++ item ∷ [])
  unfolding turn_at uses_slot
  places at_ =
      let room : length v.inside < buffer_size =
        omega (arith, v.slots_, le-total uses_slot n s.pc i within, ap uses_slot at_) in
      let (c, run, h) = buffer_place-snoc s.buffer v.inside item v.holding room in
      (c, rw (turn_at, run) refl, h)

  some_inside : s.pc i ≡ retrieving → (x : ℤ) × (xs : List ℤ) × (v.inside ≡ x ∷ xs)
  unfolding uses_item
  some_inside at_ =
      head_of v.inside
        (omega (arith, v.items_, le-total uses_item n s.pc i within, ap uses_item at_))
    where
      head_of : (xs : List ℤ) → length xs ≢ 0 → (x : ℤ) × (ys : List ℤ) × (xs ≡ x ∷ ys)
      head_of [] ne = absurd (ne refl)
      head_of (x ∷ xs) ne = (x, xs, refl)

  -- A task that retrieves finds an item.
  pub retrieves :
      s.pc i ≡ retrieving
      → (x : ℤ) × (xs : List ℤ) × (c : Buffer) × (v.inside ≡ x ∷ xs)
        × (turn_at lib retrieving i item s ≡ went (after_retrieve x c))
        × IsHolding c xs
  unfolding turn_at
  retrieves at_ =
      let (x, xs, is) = some_inside at_ in
      let (c, run, h) =
        buffer_retrieve-head s.buffer x xs
          (subst (λ (ys : List ℤ). IsHolding s.buffer ys) is v.holding) in
      (x, xs, c, is, rw (turn_at, run) refl, h)

  module _ (t : Shop lib) where
    at_placing : s.pc i ≡ placing → turn_at lib placing i item s ≡ went t → Flows lib n t
    unfolding critical uses_slot uses_item
    at_placing at_ run =
        let (c, run', h) = places at_ in
        let same : ◌≡◌ {A = Turn (Shop lib)} (went (after_place c)) (went t) = sym run' ∙ run in
        let there : after_place c ≡ t = cc same in
        let size = length-snoc v.inside item in
        subst (Flows lib n) there (record {
          inside = v.inside ++ item ∷ [];
          holding = h;
          fifo =
              ap (λ (xs : List ℤ). xs ++ item ∷ []) v.fifo
              ∙ append_assoc s.taken v.inside (item ∷ []);
          mutex_ = omega (
            arith,
            v.mutex_,
            lib.value-up s.mutex,
            moving lib n s v i item within critical placing has_placed at_,
          );
          slots_ = omega (
            arith,
            v.slots_,
            size,
            moving lib n s v i item within uses_slot placing has_placed at_,
          );
          items_ = omega (
            arith,
            v.items_,
            size,
            moving lib n s v i item within uses_item placing has_placed at_,
          );
        })

    at_retrieving : s.pc i ≡ retrieving → turn_at lib retrieving i item s ≡ went t → Flows lib n t
    unfolding critical uses_slot uses_item
    at_retrieving at_ run =
        let (x, xs, c, is, run', h) = retrieves at_ in
        let same : ◌≡◌ {A = Turn (Shop lib)} (went (after_retrieve x c)) (went t) =
          sym run' ∙ run in
        let there : after_retrieve x c ≡ t = cc same in
        let size = ap (λ (ys : List ℤ). length ys) is in
        subst (Flows lib n) there (record {
          inside = xs;
          holding = h;
          fifo =
              v.fifo
              ∙ ap (λ (ys : List ℤ). s.taken ++ ys) is
              ∙ sym (append_assoc s.taken (x ∷ []) xs);
          mutex_ = omega (
            arith,
            v.mutex_,
            lib.value-up s.mutex,
            moving lib n s v i item within critical retrieving has_retrieved at_,
          );
          slots_ = omega (
            arith,
            v.slots_,
            size,
            moving lib n s v i item within uses_slot retrieving has_retrieved at_,
          );
          items_ = omega (
            arith,
            v.items_,
            size,
            moving lib n s v i item within uses_item retrieving has_retrieved at_,
          );
        })

    turn_at-Flows : (p : Place) → s.pc i ≡ p → turn_at lib p i item s ≡ went t → Flows lib n t
    turn_at-Flows producing at_ run = at_producing lib n s v i item within t at_ run
    turn_at-Flows has_slot at_ run = at_has_slot lib n s v i item within t at_ run
    turn_at-Flows placing at_ run = at_placing at_ run
    turn_at-Flows has_placed at_ run = at_has_placed lib n s v i item within t at_ run
    turn_at-Flows consuming at_ run = at_consuming lib n s v i item within t at_ run
    turn_at-Flows has_item at_ run = at_has_item lib n s v i item within t at_ run
    turn_at-Flows retrieving at_ run = at_retrieving at_ run
    turn_at-Flows has_retrieved at_ run = at_has_retrieved lib n s v i item within t at_ run

    pub task_turn-Flows : task_turn lib i item s ≡ went t → Flows lib n t
    unfolding task_turn
    task_turn-Flows run = turn_at-Flows (s.pc i) refl run

module _ (lib : SyncLib) (n : ℕ) where
  -- In every state that `n` producers and consumers can reach, the buffer holds what has been
  -- placed and not yet retrieved, in the order in which it was placed; sBuffer is at 1 less the
  -- tasks that use the buffer, so that one does at most; sVaga counts the free places of the buffer
  -- that no task has claimed, and sItem the items that no task has claimed.
  pub Reaches-Flows : (s : Shop lib) → Reaches lib n s → Flows lib n s
  Reaches-Flows s (opened b pc size begins) = opened-Flows lib n b pc size begins
  Reaches-Flows s (turned {s = u} i item r within run) =
      task_turn-Flows lib n u (Reaches-Flows u r) i item within s run
