-- ===== src/Device/Posix.antt =====
-- The operating system that disk.c calls.
use ping_pong_so.Base.{
  List, [], arith, if◌then◌else◌, leb, ltb, ℕ, ◌&&◌, ◌*◌, ◌+◌, ◌-◌, ◌<◌, ◌∙◌, ◌∷◌, ◌≡◌, ◌≤◌,
}
use ping_pong_so.Base.Int.{pos, ℤ}
use ping_pong_so.Device.{Call, lseek_set, read_file, write_file}

-- What disk.c uses of the operating system: `lseek (fd, offset, SEEK_SET)`, `read` and `write`,
-- seen through the bytes of the file and of memory and the position in the file. `read` and
-- `write` are given with the bytes that POSIX documents for a transfer inside a file.
pub record Posix : Type 1 where
  pub World : Type 0
  pub lseek : ℤ → ℤ → World → World
  pub read : ℤ → ℕ → ℤ → World → World
  pub write : ℤ → ℕ → ℤ → World → World
  pub file : World → ℕ → ℕ
  pub size : World → ℕ
  pub memory : World → ℕ → ℕ
  pub position : World → ℕ
  pub lseek-position : (fd : ℤ) (o : ℕ) (w : World) → position (lseek fd (pos o) w) ≡ o
  pub lseek-file : (fd : ℤ) (o i : ℕ) (w : World) → file (lseek fd (pos o) w) i ≡ file w i
  pub lseek-size : (fd : ℤ) (o : ℕ) (w : World) → size (lseek fd (pos o) w) ≡ size w
  pub lseek-memory : (fd : ℤ) (o a : ℕ) (w : World) → memory (lseek fd (pos o) w) a ≡ memory w a
  pub read-memory :
      (fd : ℤ) (p n a : ℕ) (w : World)
      → position w + n ≤ size w
      → memory (read fd p (pos n) w) a
        ≡ (if leb p a && ltb a (p + n) then file w (position w + (a - p)) else memory w a)
  pub read-file : (fd : ℤ) (p n i : ℕ) (w : World) → file (read fd p (pos n) w) i ≡ file w i
  pub read-size : (fd : ℤ) (p n : ℕ) (w : World) → size (read fd p (pos n) w) ≡ size w
  pub write-file :
      (fd : ℤ) (p n i : ℕ) (w : World)
      → position w + n ≤ size w
      → file (write fd p (pos n) w) i ≡ (
          if leb (position w) i && ltb i (position w + n)
          then memory w (p + (i - position w))
          else file w i)
  pub write-size :
      (fd : ℤ) (p n : ℕ) (w : World)
      → position w + n ≤ size w
      → size (write fd p (pos n) w) ≡ size w
  pub write-memory : (fd : ℤ) (p n a : ℕ) (w : World) → memory (write fd p (pos n) w) a ≡ memory w a

-- The bytes of a window of `n` from `lo`.
pub in_window :
    (x y lo n i : ℕ) → i < n → (if leb lo (lo + i) && ltb (lo + i) (lo + n) then x else y) ≡ x
in_window x y lo n i h = ground arith

pub add-sub : (a b : ℕ) → a + b - a ≡ b
add-sub a b = omega arith

module _ (os : Posix) where
  open os use {World, file, size, memory}

  -- The calls that touch the file's bytes or memory.
  unfoldable pub perform : Call → World → World
  perform (lseek_set fd o) w = os.lseek fd o w
  perform (read_file fd p n) w = os.read fd p n w
  perform (write_file fd p n) w = os.write fd p n w
  perform _ w = w

  unfoldable pub perform_all : List Call → World → World
  unfolding perform
  perform_all [] w = w
  perform_all (c ∷ cs) w = perform_all cs (perform c w)

  -- The world after a block has been moved from the memory at `p` to the file.
  pub record Wrote (w : World) (b p : ℕ) (v : World) : Type 0 where
    pub bytes :
        (i : ℕ)
        → file v i ≡ (
            if leb (b * 64) i && ltb i (b * 64 + 64) then memory w (p + (i - b * 64)) else file w i)
    pub kept : (a : ℕ) → memory v a ≡ memory w a

  -- The world after a block has been moved from the file to the memory at `p`.
  pub record Loaded (w : World) (b p : ℕ) (v : World) : Type 0 where
    pub bytes :
        (a : ℕ)
        → memory v a ≡ (if leb p a && ltb a (p + 64) then file w (b * 64 + (a - p)) else memory w a)
    pub kept : (i : ℕ) → file v i ≡ file w i

  module _ (w : World) (fd : ℤ) (b p m : ℕ) (holds : m * 64 ≤ size w) (inside : b < m) where
    fits : os.position (os.lseek fd (pos (b * 64)) w) + 64 ≤ size (os.lseek fd (pos (b * 64)) w)
    fits = rw (os.lseek-position fd (b * 64) w, os.lseek-size fd (b * 64) w) (omega arith)

    pub Wrote-write : Wrote w b p (os.write fd p (pos 64) (os.lseek fd (pos (b * 64)) w))
    Wrote-write = record {
      bytes = λ i.
          os.write-file fd p 64 i _ fits ∙ simp (os.lseek-position, os.lseek-memory, os.lseek-file);
      kept = λ a. os.write-memory fd p 64 a _ ∙ os.lseek-memory fd (b * 64) a w;
    }

    pub Loaded-read : Loaded w b p (os.read fd p (pos 64) (os.lseek fd (pos (b * 64)) w))
    Loaded-read = record {
      bytes = λ a.
          os.read-memory fd p 64 a _ fits
          ∙ simp (os.lseek-position, os.lseek-memory, os.lseek-file);
      kept = λ i. os.read-file fd p 64 i _ ∙ os.lseek-file fd (b * 64) i w;
    }

    pub Wrote-size : size (os.write fd p (pos 64) (os.lseek fd (pos (b * 64)) w)) ≡ size w
    Wrote-size = os.write-size fd p 64 _ fits ∙ os.lseek-size fd (b * 64) w

    pub Loaded-size : size (os.read fd p (pos 64) (os.lseek fd (pos (b * 64)) w)) ≡ size w
    Loaded-size = os.read-size fd p 64 _ ∙ os.lseek-size fd (b * 64) w
