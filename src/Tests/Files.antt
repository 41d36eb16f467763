-- ===== src/Tests/Files.antt =====
-- A concrete operating system, and a transfer to a disk of 16 blocks.
-- The bytes of a file and of memory, and the position in the file.
use ping_pong_so.Base.{arith, if◌then◌else◌, leb, ltb, refl, ℕ, ◌&&◌, ◌+◌, ◌-◌, ◌<◌, ◌≡◌}
use ping_pong_so.Base.Int.{negsuc, pos, ℤ}
use ping_pong_so.Device.Posix.{Loaded, Posix, Wrote}
use ping_pong_so.Device.Storage.{
  IsIdle, Operated, operate, read-write_block, read_block, write_block,
}
use ping_pong_so.Tests.Disks.{env, free_disk, free_disk-IsReady}

pub record World : Type 0 where
  pub file : ℕ → ℕ
  pub size : ℕ
  pub memory : ℕ → ℕ
  pub position : ℕ

abbrev seek : ℤ → ℤ → World → World
seek fd (pos o) w = record w { position = o }
seek fd (negsuc o) w = w

abbrev read_bytes : ℤ → ℕ → ℤ → World → World
read_bytes fd p (pos n) w = record w {
  memory = λ a. if leb p a && ltb a (p + n) then w.file (w.position + (a - p)) else w.memory a;
  position = w.position + n;
}
read_bytes fd p (negsuc n) w = w

abbrev write_bytes : ℤ → ℕ → ℤ → World → World
write_bytes fd p (pos n) w = record w {
  file = λ i.
      if leb w.position i && ltb i (w.position + n)
      then w.memory (p + (i - w.position))
      else w.file i;
  position = w.position + n;
}
write_bytes fd p (negsuc n) w = w

abbrev pub os : Posix
os = record {
  World = World;
  lseek = seek;
  read = read_bytes;
  write = write_bytes;
  file = λ w. w.file;
  size = λ w. w.size;
  memory = λ w. w.memory;
  position = λ w. w.position;
  lseek-position = λ fd o w. refl;
  lseek-file = λ fd o i w. refl;
  lseek-size = λ fd o w. refl;
  lseek-memory = λ fd o a w. refl;
  read-memory = λ fd p n a w fits. refl;
  read-file = λ fd p n i w. refl;
  read-size = λ fd p n w. refl;
  write-file = λ fd p n i w fits. refl;
  write-size = λ fd p n w fits. refl;
  write-memory = λ fd p n a w. refl;
}

-- A file of zeros, and memory in which each byte holds its address.
abbrev pub start : World
start = record { file = λ i. 0; size = 1024; memory = λ a. a; position = 0 }

free-IsIdle : IsIdle os free_disk start
free-IsIdle = record { ready = free_disk-IsReady; is_idle = refl; holds = omega arith }

write_block_example :
    Operated os free_disk
      (Wrote os start 5 1000)
      (operate os env (pos 2) (pos 5) 1000 free_disk start)
write_block_example =
    write_block os env free_disk start 5 1000 free-IsIdle refl (omega arith) (omega arith)

read_block_example :
    Operated os free_disk
      (Loaded os start 5 1000)
      (operate os env (pos 1) (pos 5) 1000 free_disk start)
read_block_example =
    read_block os env free_disk start 5 1000 free-IsIdle refl (omega arith) (omega arith)

abbrev written :
    Operated os free_disk
      (Wrote os start 5 1000)
      (operate os env (pos 2) (pos 5) 1000 free_disk start)
written = write_block os env free_disk start 5 1000 free-IsIdle refl (omega arith) (omega arith)

read-write_block_example :
    Operated os written.after
      (λ u. (i : ℕ) → i < 64 → u.memory (2000 + i) ≡ 1000 + i)
      (operate os env (pos 1) (pos 5) 2000 written.after written.world)
read-write_block_example =
    read-write_block os env env free_disk written.after start written.world 5 1000 2000 free-IsIdle
      refl refl (omega arith) (omega arith) (omega arith) written.result
