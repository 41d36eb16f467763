-- ===== src/Disco/Main.antt =====
-- pingpong-disco1.c from `main` to the end.
use ping_pong_so.Base.{List, Option, [], false, some, true, ℕ, ◌++◌, ◌/◌, ◌∷◌, ◌≡◌}
use ping_pong_so.Base.Int.{pos, ℤ}
use ping_pong_so.Device.Posix.{Posix, perform_all}
use ping_pong_so.Disco.{Answers, Line, Machine, Stores, disk_has, main_ends, main_starts}
use ping_pong_so.Disco.Reads.{read_lines}
use ping_pong_so.Disco.Steps.{IsFit, Ran}
use ping_pong_so.Disco.Writes.{overwritten, write_lines}
use ping_pong_so.Manager.State.{System}
use ping_pong_so.Protocol.{IsBoot}
use ping_pong_so.Requests.Memory.{Ptr, is_live}
use ping_pong_so.Single.Blocks.{IsSettled}

-- What the program prints from the first loop on, where the disk has `n` blocks and the file is `f`.
abbrev pub visit_lines : (random f : ℕ → ℕ) → ℕ → List Line
visit_lines random f n = read_lines f n 0 ++ (write_lines random n 0 ++ (main_ends ∷ []))

module _ (os : Posix) (cpu : Stores os) (ans : Answers) where
  open os use {World, file, size}

  -- The file has been overwritten.
  abbrev Overwrites : Machine World → ℕ → World → Type 0
  Overwrites m n v = (j : ℕ) → file v j ≡ overwritten ans.random (file m.world) 0 n j

  module _ (fit : IsFit ans) (n : ℕ) (m : Machine World) (calm : IsSettled os m.sys m.world)
      (blocks : m.sys.hw.num_blocks ≡ pos n) where
    abbrev Visits : Option (ℤ × Machine World) → Type 0
    Visits o = Ran os (pos 0) m (visit_lines ans.random (file m.world) n) (Overwrites m n) o

  -- `main` has run to its end, on a disk of `n` blocks.
  pub record Finished (n : ℕ) (m : Machine World) (o : Option (ℤ × Machine World)) : Type 0 where
    pub after : Machine World
    pub result : o ≡ some (pos 0, after)
    pub settled : IsSettled os after.sys after.world
    pub out :
        after.out
        ≡ m.out ++ main_starts ∷ disk_has (pos n) (pos 64) ∷ visit_lines ans.random (file m.world) n
    pub moved : Overwrites m n after.world

  module _ (fit : IsFit ans) (m : Machine World) (boot : IsBoot ans.boot m.sys)
      (handled : ans.handled ≡ true) (allocated : ans.allocated ≡ true)
      (whole : ans.boot.file_end ≡ pos (size m.world))
      (no_nodes : (a : Ptr) → is_live (m.sys.mem.cell a) ≡ false) where
    abbrev unbooted : System
    unbooted = record m.sys { io = [] }

    abbrev total_blocks : ℕ
    total_blocks = size m.world / 64

    -- The machine once the disk has been opened.
    abbrev opened_machine : System → Machine World
    opened_machine t = record {
      sys = t;
      world = perform_all os t.io m.world;
      out = (m.out ++ main_starts ∷ []) ++ disk_has t.disk.size t.disk.i_block_size ∷ [];
    }
