-- ===== src/Tests/Calls.antt =====
-- Calls of the disk by one task, and pingpong-disco1.c, on a disk of 16 blocks.
use ping_pong_so.Base.{[], arith, if◌then◌else◌, refl, some, true, ◌*◌, ◌==◌}
use ping_pong_so.Base.Int.{pos}
use ping_pong_so.Device.Posix.{Loaded, Wrote}
use ping_pong_so.Disco.{Answers, Machine, Stores}
use ping_pong_so.Manager.State.{System}
use ping_pong_so.Requests.{empty_list}
use ping_pong_so.Single.{block_call}
use ping_pong_so.Single.Blocks.{IsSettled, Returned, block_call-Loaded, block_call-Wrote}
use ping_pong_so.Tests.Disks.{env, free_disk, free_disk-IsReady}
use ping_pong_so.Tests.Files.{World, os, start}
use ping_pong_so.Tests.Turns.{off}

abbrev resting : System
resting = record off {
  disk = record off.disk { init = true; size = pos 16; i_block_size = pos 64 };
  list = some empty_list;
  hw = free_disk;
}

resting-IsSettled : IsSettled os resting start
resting-IsSettled = record {
  rests = record {
    list = empty_list;
    there = refl;
    queue = record { chain = tt; first = refl; last = refl; size = refl; distinct = tt };
    no_nodes = λ a. refl;
    ready = free_disk-IsReady;
    is_idle = refl;
    keeps = λ n. refl;
  };
  holds = omega arith;
}

block_call-Wrote_example :
    Returned os resting
      (Wrote os start 5 1000)
      (block_call os env 7 (pos 2) (pos 5) 1000 resting start)
block_call-Wrote_example =
    block_call-Wrote os env resting start resting-IsSettled 7 5 1000 (omega arith) refl
      (omega arith) (omega arith)

block_call-Loaded_example :
    Returned os resting
      (Loaded os start 5 1000)
      (block_call os env 7 (pos 1) (pos 5) 1000 resting start)
block_call-Loaded_example =
    block_call-Loaded os env resting start resting-IsSettled 7 5 1000 (omega arith) refl
      (omega arith) (omega arith)

abbrev stores : Stores os
stores = record {
  store = λ a c w. record w { memory = λ x. if x == a then c else w.memory x };
  store-memory = λ a c x w. refl;
  store-file = λ a c i w. refl;
  store-size = λ a c w. refl;
}

abbrev answers : Answers
answers = record {
  boot = env;
  handled = true;
  allocated = true;
  buffer = 1000;
  fresh = λ h. 7;
  reads = λ i. env;
  writes = λ i. env;
  random = λ i. 100 * i;
}

abbrev machine : Machine World
machine = record { sys = off; world = start; out = [] }
