-- ===== src/Single/Blocks.antt =====
-- One call of disk_block_read or disk_block_write, and the bytes of the file and of memory.
use ping_pong_so.Base.{
  List, Option, [], ap, arith, refl, some, subst, sym, true, ℕ, ◌*◌, ◌++◌, ◌<◌, ◌∙◌, ◌∷◌, ◌≡◌, ◌≢◌,
  ◌≤◌,
}
use ping_pong_so.Base.Int.{pos, pos_part, ℤ, ◌<ℤ◌}
use ping_pong_so.Device.{
  Call, Env, Hardware, Status, disk_cmd, disk_sighandle, reading, returned, writing,
}
use ping_pong_so.Device.Commands.{Accepted, busy-IsReady, disk_cmd-accepts}
use ping_pong_so.Device.Invariant.{Completed, delay-IsReady, sighandle-Completed}
use ping_pong_so.Device.Posix.{Loaded, Posix, Wrote, perform, perform_all}
use ping_pong_so.Device.Storage.{
  IsIdle, Operated, Operated-inv, complete, fire, operate, read_block, write_block,
}
use ping_pong_so.Device.Valid.{HasRequest, IsReady, Returns, Returns-inv}
use ping_pong_so.Disco.{called}
use ping_pong_so.Manager.State.{System}
use ping_pong_so.Manager.Takes.{requeue_cells}
use ping_pong_so.Movers.Ranges.{high, low}
use ping_pong_so.Protocol.{ask, fresh_calls}
use ping_pong_so.Requests.Memory.{Node, Ptr, Request, null}
use ping_pong_so.Single.{block_call, outcome}
use ping_pong_so.Single.Call.{IsResting, Transfers, call-Called, call_sequence}

Accepted-Transfers :
    (e : Env) (r : Request) (d : Hardware) (busy : Status)
    → IsReady (record d { buffer = r.buffer; next_block = r.block; status = busy })
    → busy ≢ Status.idle
    → Returns (Accepted d busy r.block r.buffer) (disk_cmd e r.task_action r.block r.buffer d)
    → (g : Hardware) × Transfers e r d g
Accepted-Transfers e r d busy ready works accepted =
    let (a, d1, calls, run, (t, low, high, armed)) =
      Returns-inv (Accepted d busy r.block r.buffer) (disk_cmd e r.task_action r.block r.buffer d)
        accepted in
    let busy1 : d1.status ≢ Status.idle =
      λ idle_. works (sym (ap (λ h. h.status) armed.1) ∙ idle_) in
    let ready1 : IsReady d1 = subst IsReady (sym armed.1) (delay-IsReady _ _ ready) in
    let (u, g, moved, fired, comp) =
      Returns-inv (Completed d1) (disk_sighandle d1) (sighandle-Completed d1 ready1 busy1) in
    (
      g,
      record {
        busy = d1;
        armed = calls;
        moved = moved;
        begins = run ∙ ap (λ b. returned b d1 calls) armed.0;
        works = busy1;
        ends = fired;
      },
    )

module _ (os : Posix) where
  open os use {World, size}

  perform_all-append :
      (xs ys : List Call) (w : World)
      → perform_all os (xs ++ ys) w ≡ perform_all os ys (perform_all os xs w)
  unfolding perform_all
  perform_all-append [] ys w = refl
  perform_all-append (x ∷ xs) ys w = perform_all-append xs ys (perform os x w)

  operate-Transfers :
      (e : Env) (r : Request) (d g : Hardware) (m : Transfers e r d g) (w : World)
      → operate os e r.task_action r.block r.buffer d w
        ≡ some (g, perform_all os (m.armed ++ m.moved) w)
  unfolding complete fire
  operate-Transfers e r d g m w = rw (m.begins, perform_all-append) (rw m.ends refl)

  -- Between two calls; the file holds the blocks of the disk.
  pub record IsSettled (s : System) (w : World) : Type 0 where
    pub rests : IsResting s
    pub holds : pos_part s.hw.num_blocks * 64 ≤ size w

  -- A call that returns 0, between the world `w` and one that is as stated.
  pub record Returned (s : System) (P : World → Type 0) (o : Option (ℤ × System × World))
      : Type 0 where
    pub next : System
    pub world : World
    pub result : o ≡ some (pos 0, next, world)
    pub settled : IsSettled next world
    pub blocks : next.hw.num_blocks ≡ s.hw.num_blocks
    pub calls : next.mem.calls ≡ call_sequence
    pub moved : P world

  module _ (e : Env) (s : System) (w : World) (v : IsSettled s w) (fresh : Ptr) (action block : ℤ)
      (buffer : Ptr) (ne : fresh ≢ null) where
    abbrev quiet : System
    quiet = record (fresh_calls s) { io = [] }

    quiet-IsResting : IsResting quiet
    quiet-IsResting = record {
      list = v.rests.list;
      there = v.rests.there;
      queue = requeue_cells refl v.rests.queue;
      no_nodes = v.rests.no_nodes;
      ready = v.rests.ready;
      is_idle = v.rests.is_idle;
      keeps = v.rests.keeps;
    }

    free-IsIdle : IsIdle os s.hw w
    free-IsIdle = record { ready = v.rests.ready; is_idle = v.rests.is_idle; holds = v.holds }

    block_call-Returned :
        (P : World → Type 0) (g : Hardware)
        → Transfers e (ask action block buffer quiet) s.hw g
        → Operated os s.hw P (operate os e action block buffer s.hw w)
        → Returned s P (block_call os e fresh action block buffer s w)
    unfolding block_call
    block_call-Returned P g m op =
        let (t, run, called) =
          call-Called e quiet quiet-IsResting fresh action block buffer ne g m in
        let (idle_, blocks, moved) =
          Operated-inv os s.hw g _ P _ op
            (operate-Transfers e (ask action block buffer quiet) s.hw g m w) in
        record {
          next = t;
          world = perform_all os (m.armed ++ m.moved) w;
          result =
              ap (λ o. outcome os o w) run
              ∙ ap (λ cs. some (pos 0, t, perform_all os cs w)) called.io;
          settled = record {
            rests = record {
              list = called.list;
              there = called.there;
              queue = called.queue;
              no_nodes = called.no_nodes;
              ready = subst IsReady (sym called.hw) idle_.ready;
              is_idle = ap (λ h. h.status) called.hw ∙ idle_.is_idle;
              keeps = λ n. ap (λ (f : Node → Node). (f n).request) called.residue ∙ v.rests.keeps n;
            };
            holds = rw called.hw idle_.holds;
          };
          blocks = ap (λ h. h.num_blocks) called.hw ∙ blocks;
          calls = called.sync_calls;
          moved = moved;
        }

    module _ (armable : e.timer_set ≡ true) (buffered : buffer ≢ 0) where
      module _ (b : ℕ) (inside : b < pos_part s.hw.num_blocks) (is : block ≡ pos b) where
        inside_ℤ : block <ℤ s.hw.num_blocks
        inside_ℤ = rw is (omega (arith, v.rests.ready.sized))

        -- The block of a busy disk.
        busy-IsBlock :
            (busy : Status)
            → HasRequest busy buffer block s.hw.num_blocks
            → IsReady (record s.hw { buffer = buffer; next_block = block; status = busy })
        busy-IsBlock busy pending =
            busy-IsReady busy block buffer v.rests.ready pending (rw is (refl, omega arith))

        -- disk_block_write
        write-Returned :
            action ≡ pos 2
            → Returned s (Wrote os w b buffer) (block_call os e fresh action block buffer s w)
        write-Returned kind =
            let accepts =
              (disk_cmd-accepts e s.hw block buffer v.rests.ready v.rests.is_idle armable buffered
                (rw is (omega arith)) inside_ℤ).1 in
            let (g, m) =
              Accepted-Transfers e (ask action block buffer quiet) s.hw writing
                (busy-IsBlock writing (buffered, inside_ℤ)) (λ no. cc) (rw kind accepts) in
            block_call-Returned (Wrote os w b buffer) g m
              (rw (kind, is) (write_block os e s.hw w b buffer free-IsIdle armable buffered inside))

        -- disk_block_read
        read-Returned :
            action ≡ pos 1
            → Returned s (Loaded os w b buffer) (block_call os e fresh action block buffer s w)
        read-Returned kind =
            let accepts =
              (disk_cmd-accepts e s.hw block buffer v.rests.ready v.rests.is_idle armable buffered
                (rw is (omega arith)) inside_ℤ).0 in
            let (g, m) =
              Accepted-Transfers e (ask action block buffer quiet) s.hw reading
                (busy-IsBlock reading (buffered, inside_ℤ)) (λ no. cc) (rw kind accepts) in
            block_call-Returned (Loaded os w b buffer) g m
              (rw (kind, is) (read_block os e s.hw w b buffer free-IsIdle armable buffered inside))

  module _ (e : Env) (s : System) (w : World) (v : IsSettled s w) (fresh : Ptr) (b : ℕ)
      (buffer : Ptr) (ne : fresh ≢ null) (armable : e.timer_set ≡ true) (buffered : buffer ≢ 0)
      (inside : b < pos_part s.hw.num_blocks) where
    -- A call of disk_block_write that no other task interferes with, for a block of the disk and a
    -- buffer, runs to its end and returns 0: the caller waits, the disk task serves the request, the
    -- timer's handler moves the block and wakes the caller. Then the 64 bytes of the file from 64
    -- times `b` are those of the buffer, all else of the file and all memory are as before, the list
    -- of requests is empty and the disk is free for the next call. It holds where the manager is
    -- between two calls, malloc gives a node, the timer can be armable and freeing a node keeps
    -- its request.
    pub block_call-Wrote :
        Returned s (Wrote os w b buffer) (block_call os e fresh (pos 2) (pos b) buffer s w)
    block_call-Wrote =
        write-Returned e s w v fresh (pos 2) (pos b) buffer ne armable buffered b inside refl refl

    -- A call of disk_block_read that no other task interferes with, for a block of the disk and a
    -- buffer, runs to its end and returns 0. Then the 64 bytes of the buffer are those of the file
    -- from 64 times `b`, all other memory and the file are as before, the list of requests is empty
    -- and the disk is free for the next call. It holds where the manager is between two calls,
    -- malloc gives a node, the timer can be armable and freeing a node keeps its request.
    pub block_call-Loaded :
        Returned s (Loaded os w b buffer) (block_call os e fresh (pos 1) (pos b) buffer s w)
    block_call-Loaded =
        read-Returned e s w v fresh (pos 1) (pos b) buffer ne armable buffered b inside refl refl
