-- ===== src/Disco/Reads.antt =====
-- The first loop of pingpong-disco1.c.
use ping_pong_so.Base.{
  List, [], ap, append-nil, ap₂, arith, refl, suc, sym, zero, ℕ, ◌*◌, ◌++◌, ◌+◌, ◌∙◌, ◌∷◌, ◌≡◌, ◌≤◌,
}
use ping_pong_so.Base.Int.{pos_part}
use ping_pong_so.Device.Posix.{Loaded, Posix, add-sub, in_window}
use ping_pong_so.Disco.{Answers, Line, Machine, Stores, bytes, read_blocks, reading_block, shown}
use ping_pong_so.Disco.Buffer.{bytes-same}
use ping_pong_so.Disco.Steps.{IsFit, Ran, append_two, transfer_block-Loaded}
use ping_pong_so.Single.Blocks.{IsSettled}
use mathlib.Core.Path.{fun_ext}

-- What it prints where the file is `f`, for `k` blocks from block `i`.
unfoldable pub read_lines : (ℕ → ℕ) → ℕ → ℕ → List Line
read_lines f zero i = []
read_lines f (suc k) i = reading_block i ∷ shown (bytes f 64 (i * 64)) ∷ read_lines f k (suc i)

module _ (os : Posix) (cpu : Stores os) (ans : Answers) (fit : IsFit ans) where
  open os use {World, file}

  Loaded-bytes :
      (w v : World) (i : ℕ)
      → Loaded os w i ans.buffer v
      → bytes (os.memory v) 64 ans.buffer ≡ bytes (file w) 64 (i * 64)
  Loaded-bytes w v i l = bytes-same (os.memory v) (file w) 64 ans.buffer (i * 64) (λ j h.
      l.bytes (ans.buffer + j)
      ∙ in_window _ _ ans.buffer 64 j h
      ∙ ap (λ x. file w (i * 64 + x)) (add-sub ans.buffer j))

  -- The machine after a round.
  abbrev read_one : ℕ → Machine World → Machine World → Machine World
  read_one i m n = record n { out = n.out ++ shown (bytes (os.memory n.world) 64 ans.buffer) ∷ [] }

  pub read_blocks-Ran :
      (k i : ℕ) (m : Machine World)
      → IsSettled os m.sys m.world
      → i + k ≤ pos_part m.sys.hw.num_blocks
      → Ran os tt m
          (read_lines (file m.world) k i)
          (λ v. file v ≡ file m.world)
          (read_blocks os cpu ans 64 k i m)
  unfolding read_blocks read_lines
  read_blocks-Ran zero i m calm room = record {
    after = m;
    result = refl;
    settled = calm;
    blocks = refl;
    out = sym (append-nil m.out);
    moved = refl;
  }
  read_blocks-Ran (suc k) i m calm room =
      let m1 : Machine World = record m { out = m.out ++ reading_block i ∷ [] } in
      let step = transfer_block-Loaded os cpu ans fit i m1 calm (omega arith) in
      let rest =
        read_blocks-Ran k (suc i) (read_one i m step.after) step.settled
          (rw step.blocks (omega arith)) in
      let same : file step.after.world ≡ file m.world = fun_ext step.moved.kept in
      record {
        after = rest.after;
        result = rw step.result rest.result;
        settled = rest.settled;
        blocks = rest.blocks ∙ step.blocks;
        out =
            rest.out
            ∙ ap₂
                (λ xs f.
                  (xs ++ shown (bytes (os.memory step.after.world) 64 ans.buffer) ∷ [])
                  ++ read_lines f k (suc i))
                (step.out ∙ append-nil m1.out) same
            ∙ append_two m.out (reading_block i) _ _
            ∙ ap (λ b. m.out ++ reading_block i ∷ shown b ∷ read_lines (file m.world) k (suc i))
                (Loaded-bytes m.world step.after.world i step.moved);
        moved = rest.moved ∙ same;
      }
