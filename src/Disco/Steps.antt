-- ===== src/Disco/Steps.antt =====
-- One call of the disk by pingpong-disco1.c.
use ping_pong_so.Base.{
  List, Option, [], ap, append-nil, append_assoc, some, sym, true, ℕ, ◌++◌, ◌<◌, ◌∙◌, ◌∷◌, ◌≡◌, ◌≢◌,
}
use ping_pong_so.Base.Int.{pos, pos_part, ℤ}
use ping_pong_so.Device.Posix.{Loaded, Posix, Wrote}
use ping_pong_so.Disco.{Answers, Line, Machine, Stores, called, transfer_block}
use ping_pong_so.Manager.State.{System}
use ping_pong_so.Requests.Memory.{Memory, null}
use ping_pong_so.Single.Blocks.{IsSettled, Returned, block_call-Loaded, block_call-Wrote}

-- `malloc` finds room, and every timer can be set.
pub record IsFit (ans : Answers) : Type 0 where
  pub buffered : ans.buffer ≢ null
  pub allocates : (h : Memory) → ans.fresh h ≢ null
  pub read_timers : (i : ℕ) → (ans.reads i).timer_set ≡ true
  pub write_timers : (i : ℕ) → (ans.writes i).timer_set ≡ true

pub append_two :
    (xs : List Line) (a b : Line) (ys : List Line)
    → ((xs ++ a ∷ []) ++ b ∷ []) ++ ys ≡ xs ++ a ∷ b ∷ ys
append_two xs a b ys = append_assoc (xs ++ a ∷ []) (b ∷ []) ys ∙ append_assoc xs (a ∷ []) (b ∷ ys)

module _ (os : Posix) where
  open os use {World, file}

  -- A part of the program that gives `a` and prints `lines`, on a disk that is free again.
  pub record Ran {A : Type 0} (a : A) (m : Machine World) (lines : List Line) (P : World → Type 0)
      (o : Option (A × Machine World)) : Type 0 where
    pub after : Machine World
    pub result : o ≡ some (a, after)
    pub settled : IsSettled os after.sys after.world
    pub blocks : after.sys.hw.num_blocks ≡ m.sys.hw.num_blocks
    pub out : after.out ≡ m.out ++ lines
    pub moved : P after.world

  called-Ran :
      (m : Machine World) (P : World → Type 0) (o : Option (ℤ × System × World))
      → Returned os m.sys P o
      → Ran (pos 0) m [] P (called m o)
  called-Ran m P o r = record {
    after = record m { sys = r.next; world = r.world };
    result = ap (called m) r.result;
    settled = r.settled;
    blocks = r.blocks;
    out = sym (append-nil m.out);
    moved = r.moved;
  }

  module _ (cpu : Stores os) (ans : Answers) (fit : IsFit ans) (i : ℕ) (m : Machine World)
      (calm : IsSettled os m.sys m.world) (inside : i < pos_part m.sys.hw.num_blocks) where
    pub transfer_block-Loaded :
        Ran
          (pos 0)
          m
          []
          (Loaded os m.world i ans.buffer)
          (transfer_block os cpu ans (ans.reads i) (pos 1) i m)
    unfolding transfer_block
    transfer_block-Loaded = called-Ran m (Loaded os m.world i ans.buffer) _ (
        block_call-Loaded os (ans.reads i) m.sys m.world calm (ans.fresh m.sys.mem) i ans.buffer
          (fit.allocates m.sys.mem) (fit.read_timers i) fit.buffered inside)

    pub transfer_block-Wrote :
        Ran
          (pos 0)
          m
          []
          (Wrote os m.world i ans.buffer)
          (transfer_block os cpu ans (ans.writes i) (pos 2) i m)
    unfolding transfer_block
    transfer_block-Wrote = called-Ran m (Wrote os m.world i ans.buffer) _ (
        block_call-Wrote os (ans.writes i) m.sys m.world calm (ans.fresh m.sys.mem) i ans.buffer
          (fit.allocates m.sys.mem) (fit.write_timers i) fit.buffered inside)
