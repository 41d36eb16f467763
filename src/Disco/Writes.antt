-- ===== src/Disco/Writes.antt =====
-- The second loop of pingpong-disco1.c.
use ping_pong_so.Base.{
  List, [], ap, append-nil, append_assoc, arith, if◌then◌else◌, leb, ltb, refl, suc, sym, zero, ℕ,
  ◌&&◌, ◌*◌, ◌++◌, ◌+◌, ◌-◌, ◌/◌, ◌<◌, ◌∙◌, ◌∷◌, ◌≡◌, ◌≤◌,
}
use ping_pong_so.Base.Int.{pos_part}
use ping_pong_so.Device.Posix.{Posix, Wrote}
use ping_pong_so.Disco.{Answers, Line, Machine, Stores, char_of, fill, write_blocks, writing_block}
use ping_pong_so.Disco.Buffer.{fill-file, fill-memory, fill-size}
use ping_pong_so.Disco.Steps.{IsFit, Ran, transfer_block-Wrote}
use ping_pong_so.Single.Blocks.{IsSettled}

block_of : (i j : ℕ) → i * 64 ≤ j → j < i * 64 + 64 → j / 64 ≡ i
block_of i j low high = omega arith

-- The file `f` with each of `k` blocks from block `i` filled with its character.
abbrev pub overwritten : (ℕ → ℕ) → (ℕ → ℕ) → ℕ → ℕ → ℕ → ℕ
overwritten random f i k j =
    if leb (i * 64) j && ltb j ((i + k) * 64) then char_of (random (j / 64)) else f j

window :
    (i k j x y z : ℕ)
    → (i * 64 ≤ j → j < i * 64 + 64 → x ≡ y)
    → (if leb (suc i * 64) j && ltb j ((suc i + k) * 64)
        then y
        else if leb (i * 64) j && ltb j (i * 64 + 64)
        then x
        else z)
      ≡ (if leb (i * 64) j && ltb j ((i + suc k) * 64) then y else z)
window i k j x y z same = ground arith

buffered :
    (i j p x z : ℕ) (y : ℕ)
    → (if leb (i * 64) j && ltb j (i * 64 + 64)
        then (if leb p (p + (j - i * 64)) && ltb (p + (j - i * 64)) (p + 64) then x else y)
        else z)
      ≡ (if leb (i * 64) j && ltb j (i * 64 + 64) then x else z)
buffered i j p x z y = ground arith

-- A block at a time.
overwritten-step :
    (random f g : ℕ → ℕ) (i k j : ℕ)
    → g j ≡ (if leb (i * 64) j && ltb j (i * 64 + 64) then char_of (random i) else f j)
    → overwritten random g (suc i) k j ≡ overwritten random f i (suc k) j
overwritten-step random f g i k j e =
    rw e
      (window i k j _ _ _ (λ low high. ap (λ n. char_of (random n)) (sym (block_of i j low high))))

-- What it prints, for `k` blocks from block `i`.
unfoldable pub write_lines : (ℕ → ℕ) → ℕ → ℕ → List Line
write_lines random zero i = []
write_lines random (suc k) i = writing_block i (char_of (random i)) ∷ write_lines random k (suc i)

module _ (os : Posix) (cpu : Stores os) (ans : Answers) (fit : IsFit ans) where
  open os use {World, file}

  abbrev filled : ℕ → Machine World → World
  filled i m = fill os cpu ans 64 ans.buffer (char_of (ans.random i)) m.world

  abbrev write_one : ℕ → Machine World → Machine World
  write_one i m = record m {
    world = filled i m;
    out = m.out ++ writing_block i (char_of (ans.random i)) ∷ [];
  }

  write_one-IsSettled :
      (i : ℕ) (m : Machine World) → IsSettled os m.sys m.world → IsSettled os m.sys (filled i m)
  write_one-IsSettled i m calm = record {
    rests = calm.rests;
    holds = rw (fill-size os cpu ans 64 ans.buffer (char_of (ans.random i)) m.world) calm.holds;
  }

  -- The block of the buffer that has just been filled.
  Wrote-filled :
      (i j : ℕ) (m : Machine World) (v : World)
      → Wrote os (filled i m) i ans.buffer v
      → file v j
        ≡ (if leb (i * 64) j && ltb j (i * 64 + 64) then char_of (ans.random i) else file m.world j)
  Wrote-filled i j m v wrote =
      wrote.bytes j
      ∙ rw (fill-memory os cpu ans, fill-file os cpu ans) (buffered i j ans.buffer _ _ _)

  pub write_blocks-Ran :
      (k i : ℕ) (m : Machine World)
      → IsSettled os m.sys m.world
      → i + k ≤ pos_part m.sys.hw.num_blocks
      → Ran os tt m
          (write_lines ans.random k i)
          (λ v. (j : ℕ) → file v j ≡ overwritten ans.random (file m.world) i k j)
          (write_blocks os cpu ans 64 k i m)
  unfolding write_blocks write_lines
  write_blocks-Ran zero i m calm room = record {
    after = m;
    result = refl;
    settled = calm;
    blocks = refl;
    out = sym (append-nil m.out);
    moved = λ j. ground arith;
  }
  write_blocks-Ran (suc k) i m calm room =
      let m1 = write_one i m in
      let step =
        transfer_block-Wrote os cpu ans fit i m1 (write_one-IsSettled i m calm) (omega arith) in
      let rest =
        write_blocks-Ran k (suc i) step.after step.settled (rw step.blocks (omega arith)) in
      record {
        after = rest.after;
        result = rw step.result rest.result;
        settled = rest.settled;
        blocks = rest.blocks ∙ step.blocks;
        out =
            rest.out
            ∙ ap (λ xs. xs ++ write_lines ans.random k (suc i)) (step.out ∙ append-nil m1.out)
            ∙ append_assoc m.out _ _;
        moved = λ j.
            rest.moved j
            ∙ overwritten-step ans.random (file m.world) (file step.after.world) i k j
                (Wrote-filled i j m step.after.world step.moved);
      }
