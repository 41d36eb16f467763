-- ===== src/Tests/Shops.antt =====
-- Three producers and two consumers, the first of whom places an item.
use ping_pong_so.Base.{
  Bool-cases, [], arith, false, if◌then◌else◌, inl, inr, ltb, refl, true, ℕ, ◌<◌, ◌∷◌, ◌≡◌, ◌≢◌,
  ◌⊎◌,
}
use ping_pong_so.Base.Int.{add_int, pos, to_int}
use ping_pong_so.Producers.{
  Buffer, Place, Reaches, Shop, buffer_place, consuming, fault, has_placed, has_slot, open_shop,
  opened, placing, producing, task_turn, turn_at, turned, went,
}
use ping_pong_so.Producers.Flow.{Flows}
use ping_pong_so.Producers.Safety.{is_producer, no_fault, some_goes}
use ping_pong_so.Producers.Turns.{Reaches-Flows}
use ping_pong_so.Tests.Numbers.{numbers, take_one}
use ping_pong_so.Totals.{with_pc}

abbrev at_start : ℕ → Place
at_start i = if ltb i 3 then producing else consuming

at_start-cases : (i : ℕ) → (at_start i ≡ producing) ⊎ (at_start i ≡ consuming)
at_start-cases i = elim (Bool-cases (ltb i 3)) [ inl e ↦ inl (rw e refl) | inr e ↦ inr (rw e refl) ]

abbrev zeros : Buffer
zeros = record { array = pos 0 ∷ pos 0 ∷ pos 0 ∷ pos 0 ∷ pos 0 ∷ []; i = pos 7 }

abbrev fresh : Shop numbers
fresh = open_shop numbers zeros at_start

abbrev claimed : Shop numbers
claimed = record fresh { slots = 4; pc = with_pc fresh.pc 0 has_slot }

abbrev locked_ : Shop numbers
locked_ = record claimed { mutex = 0; pc = with_pc claimed.pc 0 placing }

abbrev with_item : Buffer
with_item = record { array = pos 42 ∷ pos 0 ∷ pos 0 ∷ pos 0 ∷ pos 0 ∷ []; i = pos 1 }

abbrev stocked : Shop numbers
stocked = record locked_ {
  buffer = with_item;
  mutex = 1;
  pc = with_pc locked_.pc 0 has_placed;
  placed = pos 42 ∷ [];
}

to_claimed : task_turn numbers 0 (pos 42) fresh ≡ went claimed
unfolding task_turn turn_at take_one
to_claimed = refl

to_locked : task_turn numbers 0 (pos 42) claimed ≡ went locked_
unfolding task_turn turn_at take_one with_pc
to_locked = refl

to_stocked : task_turn numbers 0 (pos 42) locked_ ≡ went stocked
unfolding task_turn turn_at with_pc buffer_place add_int to_int
to_stocked = refl

locked-Reaches : Reaches numbers 5 locked_
locked-Reaches =
    turned 0 (pos 42)
      (turned 0 (pos 42) (opened zeros at_start refl at_start-cases) (omega arith) to_claimed)
      (omega arith) to_locked

stocked-Reaches : Reaches numbers 5 stocked
stocked-Reaches = turned 0 (pos 42) locked-Reaches (omega arith) to_stocked

Reaches-Flows_example : Flows numbers 5 stocked
Reaches-Flows_example = Reaches-Flows numbers 5 stocked stocked-Reaches

no_fault_example : task_turn numbers 0 (pos 42) locked_ ≢ fault
no_fault_example = no_fault numbers 5 locked_ 0 (pos 42) locked-Reaches (omega arith)

zero-is_producer : is_producer (locked_.pc 0) ≡ true
unfolding is_producer with_pc
zero-is_producer = refl

four-is_producer : is_producer (locked_.pc 4) ≡ false
unfolding is_producer with_pc
four-is_producer = refl

some_goes_example :
    (i : ℕ) × (t : Shop numbers) × (i < 5) × (task_turn numbers i (pos 7) locked_ ≡ went t)
some_goes_example =
    some_goes numbers 5 locked_ (pos 7) 0 4 locked-Reaches (omega arith) (omega arith)
      zero-is_producer four-is_producer
