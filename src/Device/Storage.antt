-- ===== src/Device/Storage.antt =====
-- The disk as an array of blocks: what a request and its signal do to the file and to memory.
use ping_pong_so.Base.{
  Option, ap, arith, none, refl, some, subst, subst₂, sym, true, ℕ, ◌*◌, ◌+◌, ◌<◌, ◌∙◌, ◌≡◌, ◌≢◌,
  ◌≤◌,
}
use ping_pong_so.Base.Int.{pos, pos_part, ℤ, ◌<ℤ◌}
use ping_pong_so.Device.{
  Env, Hardware, Outcome, Status, crashed, disk_cmd, disk_sighandle, exited, idle, reading,
  returned, writing,
}
use ping_pong_so.Device.Commands.{Accepted, busy-IsReady, disk_cmd-accepts}
use ping_pong_so.Device.Invariant.{moved, Completed, delay-IsReady, sighandle-Completed}
use ping_pong_so.Device.Posix.{
  Loaded, Loaded-read, Loaded-size, Posix, Wrote, Wrote-size, Wrote-write, add-sub, in_window,
  perform, perform_all,
}
use ping_pong_so.Device.Valid.{IsReady, Returns}

module _ (os : Posix) where
  open os use {World, size, memory}

  -- The timer of a pending operation fires.
  unfoldable pub fire : Outcome (Unit {0}) → World → Option (Hardware × World)
  unfolding perform_all
  fire (returned _ d calls) w = some (d, perform_all os calls w)
  fire (exited _) w = none
  fire crashed w = none

  -- A command that is accepted, and then the signal of its timer.
  unfoldable pub complete : Outcome ℤ → World → Option (Hardware × World)
  unfolding perform_all fire
  complete (returned r d calls) w = fire (disk_sighandle d) (perform_all os calls w)
  complete (exited _) w = none
  complete crashed w = none

  abbrev pub operate : Env → ℤ → ℤ → ℕ → Hardware → World → Option (Hardware × World)
  operate e cmd block buffer d w = complete (disk_cmd e cmd block buffer d) w

  -- An operation on `d` that ends with the disk free and the world `v`.
  pub record Done (d : Hardware) (v : World) (o : Option (Hardware × World)) : Type 0 where
    pub after : Hardware
    pub result : o ≡ some (after, v)
    pub is_idle : after.status ≡ Status.idle
    pub ready : IsReady after
    pub blocks : after.num_blocks ≡ d.num_blocks
    pub fd : after.fd ≡ d.fd

  fire-Done :
      (d : Hardware) (w : World) (o : Outcome (Unit {0}))
      → Returns (Completed d) o
      → Done d
          (perform os
            (moved d.status d.fd d.buffer)
            (os.lseek d.fd (pos (pos_part d.next_block * 64)) w))
          (fire o w)
  unfolding fire perform_all perform
  fire-Done d w (returned u g calls) comp = record {
    after = g;
    result = rw comp.traced;
    is_idle = comp.is_idle;
    ready = comp.ready;
    blocks = comp.blocks;
    fd = comp.fd;
  }
  fire-Done d w (exited calls) comp = absurd comp
  fire-Done d w crashed comp = absurd comp

  complete-Done :
      (d : Hardware) (w : World) (b : ℤ) (busy : Status) (p : ℕ) (o : Outcome ℤ)
      → IsReady (record d { buffer = p; next_block = b; status = busy })
      → busy ≢ idle
      → Returns (Accepted d busy b p) o
      → Done d
          (perform os (moved busy d.fd p) (os.lseek d.fd (pos (pos_part b * 64)) w))
          (complete o w)
  unfolding complete perform_all perform
  complete-Done d w b busy p (returned a g calls) ready hb (t, low, high, ended) =
      let busy_disk : Hardware = record d {
        buffer = p;
        next_block = b;
        status = busy;
        delay_sec = pos 0;
        delay_nsec = pos (t * 1_000_000);
      } in
      let fired =
        fire-Done busy_disk w (disk_sighandle busy_disk)
          (sighandle-Completed busy_disk (delay-IsReady _ _ ready) hb) in
      rw (ended.1, ended.2)
        (record {
          after = fired.after;
          result = fired.result;
          is_idle = fired.is_idle;
          ready = fired.ready;
          blocks = fired.blocks;
          fd = fired.fd;
        })
  complete-Done d w b busy p (exited calls) ready hb acc = absurd acc
  complete-Done d w b busy p crashed ready hb acc = absurd acc

  -- The disk is ready and free, and its file holds its blocks.
  pub record IsIdle (d : Hardware) (w : World) : Type 0 where
    pub ready : IsReady d
    pub is_idle : d.status ≡ Status.idle
    pub holds : pos_part d.num_blocks * 64 ≤ size w

  -- An operation that comes to its end, on a disk that is free again.
  pub record Operated (d : Hardware) (P : World → Type 0) (o : Option (Hardware × World))
      : Type 0 where
    pub after : Hardware
    pub world : World
    pub result : o ≡ some (after, world)
    pub free : IsIdle after world
    pub blocks : after.num_blocks ≡ d.num_blocks
    pub moved : P world

  Operated-Done :
      (d : Hardware) (w v : World) (P : World → Type 0) (o : Option (Hardware × World))
      → IsIdle d w
      → Done d v o
      → size v ≡ size w
      → P v
      → Operated d P o
  Operated-Done d w v P o start ended same p = record {
    after = ended.after;
    world = v;
    result = ended.result;
    free = record {
      ready = ended.ready;
      is_idle = ended.is_idle;
      holds = rw (same, ended.blocks) start.holds;
    };
    blocks = ended.blocks;
    moved = p;
  }

  module _ (e : Env) (d : Hardware) (w : World) (b p : ℕ) (start : IsIdle d w)
      (set : e.timer_set ≡ true) (buffered : p ≢ 0) (inside : b < pos_part d.num_blocks) where
    inside_ℤ : pos b <ℤ d.num_blocks
    inside_ℤ = omega (arith, start.ready.sized)

    -- On a free disk, a request to write block `b` from the memory at `p`, followed by the timer's
    -- signal, comes to its end: the 64 bytes of the file from 64 times `b` are those of the memory,
    -- every other byte of the file and all memory are as before, and the disk is free again.
    pub write_block : Operated d (Wrote os w b p) (operate e (pos 2) (pos b) p d w)
    unfolding perform
    write_block =
        Operated-Done d w _ (Wrote os w b p) _ start
          (complete-Done d w (pos b) writing p _
            (busy-IsReady writing (pos b) p start.ready (buffered, inside_ℤ) (refl, omega arith))
            (λ same. cc)
            (disk_cmd-accepts e d (pos b) p start.ready start.is_idle set buffered (omega arith)
              inside_ℤ).1)
          (Wrote-size os w d.fd b p (pos_part d.num_blocks) start.holds inside)
          (Wrote-write os w d.fd b p (pos_part d.num_blocks) start.holds inside)

    -- On a free disk, a request to read block `b` into the memory at `p`, followed by the timer's
    -- signal, comes to its end: the 64 bytes of memory from `p` are those of the file from 64 times
    -- `b`, all other memory and the file are as before, and the disk is free again.
    pub read_block : Operated d (Loaded os w b p) (operate e (pos 1) (pos b) p d w)
    unfolding perform
    read_block =
        Operated-Done d w _ (Loaded os w b p) _ start
          (complete-Done d w (pos b) reading p _
            (busy-IsReady reading (pos b) p start.ready (buffered, inside_ℤ) (refl, omega arith))
            (λ same. cc)
            (disk_cmd-accepts e d (pos b) p start.ready start.is_idle set buffered (omega arith)
              inside_ℤ).0)
          (Loaded-size os w d.fd b p (pos_part d.num_blocks) start.holds inside)
          (Loaded-read os w d.fd b p (pos_part d.num_blocks) start.holds inside)

  pub Operated-inv :
      (d g : Hardware) (v : World) (P : World → Type 0) (o : Option (Hardware × World))
      → Operated d P o
      → o ≡ some (g, v)
      → IsIdle g v × (g.num_blocks ≡ d.num_blocks) × P v
  Operated-inv d g v P o op eq =
      let same : ◌≡◌ {A = Option (Hardware × World)} (some (op.after, op.world)) (some (g, v)) =
        sym op.result ∙ eq in
      let hw : op.after ≡ g = cc in
      let world : op.world ≡ v = cc in
      (
        subst₂ IsIdle hw world op.free,
        ap (λ h. h.num_blocks) (sym hw) ∙ op.blocks,
        subst P world op.moved,
      )

  -- A block that has been written to a free disk and is then read into any buffer is what the
  -- memory held when it was written: the 64 bytes from `q` are those that stood at `p`.
  pub read-write_block :
      (e e' : Env) (d g : Hardware) (w v : World) (b p q : ℕ)
      → IsIdle d w
      → e.timer_set ≡ true
      → e'.timer_set ≡ true
      → p ≢ 0
      → q ≢ 0
      → b < pos_part d.num_blocks
      → operate e (pos 2) (pos b) p d w ≡ some (g, v)
      → Operated g
          (λ u. (i : ℕ) → i < 64 → memory u (q + i) ≡ memory w (p + i))
          (operate e' (pos 1) (pos b) q g v)
  read-write_block e e' d g w v b p q start set set' hp hq inside wrote =
      let (free, blocks, w1) =
        Operated-inv d g v (Wrote os w b p) _ (write_block e d w b p start set hp inside) wrote in
      let r = read_block e' g v b q free set' hq (rw blocks inside) in
      record {
        after = r.after;
        world = r.world;
        result = r.result;
        free = r.free;
        blocks = r.blocks;
        moved = λ i h.
            r.moved.bytes (q + i)
            ∙ in_window _ _ q 64 i h
            ∙ ap (λ j. os.file v (b * 64 + j)) (add-sub q i)
            ∙ w1.bytes (b * 64 + i)
            ∙ in_window _ _ (b * 64) 64 i h
            ∙ ap (λ j. memory w (p + j)) (add-sub (b * 64) i);
      }
