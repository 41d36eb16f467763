-- ===== src/Device/Valid.antt =====
-- What holds of an initialised disk, and what it means that a command returns.
use ping_pong_so.Base.{List, refl, ℕ, ◌-◌, ◌≡◌, ◌≢◌, ◌≤◌}
use ping_pong_so.Base.Int.{neg_part, pos, pos_part, ℤ, ◌<ℤ◌}
use ping_pong_so.Device.{Call, Hardware, Outcome, Status, crashed, exited, idle, returned, unknown}

-- A block of the disk, or block 0, where the head stands after initialisation.
abbrev pub IsBlock : Hardware → ℤ → Type 0
IsBlock d b = (neg_part b ≡ 0) × (pos_part b ≤ pos_part d.num_blocks - 1)

-- An operation in progress has a buffer and a block of the disk.
abbrev pub HasRequest : Status → ℕ → ℤ → ℤ → Type 0
HasRequest unknown buffer next blocks = ⊥
HasRequest idle buffer next blocks = Unit
HasRequest _ buffer next blocks = (buffer ≢ 0) × (next <ℤ blocks)

-- The largest number of blocks at which the seek time is computed without overflow.
abbrev pub max_blocks : ℕ
max_blocks = 7_953_643

pub record IsReady (d : Hardware) : Type 0 where
  pub sized : neg_part d.num_blocks ≡ 0
  pub small : pos_part d.num_blocks ≤ max_blocks
  pub block_size : d.block_size ≡ pos 64
  pub delay_min : d.delay_min ≡ pos 30
  pub delay_max : d.delay_max ≡ pos 300
  pub prev : IsBlock d d.prev_block
  pub next : IsBlock d d.next_block
  pub pending : HasRequest d.status d.buffer d.next_block d.num_blocks

-- The run returns, with a result, a state and system calls as stated.
abbrev pub Returns : {A : Type 0} → (A → Hardware → List Call → Type 0) → Outcome A → Type 0
Returns P (returned r d calls) = P r d calls
Returns P (exited _) = ⊥
Returns P crashed = ⊥

pub Returns-map :
    {A : Type 0} (P Q : A → Hardware → List Call → Type 0) (o : Outcome A)
    → ((a : A) (d : Hardware) (calls : List Call) → P a d calls → Q a d calls)
    → Returns P o
    → Returns Q o
Returns-map P Q (returned a d calls) f h = f a d calls h
Returns-map P Q (exited calls) f h = h
Returns-map P Q crashed f h = h

pub known :
    (s : Status) (buffer : ℕ) (next blocks : ℤ) → HasRequest s buffer next blocks → s ≢ unknown
known unknown buffer next blocks h = absurd h
known idle buffer next blocks h = λ e. cc
known _ buffer next blocks h = λ e. cc

pub Returns-inv :
    {A : Type 0} (P : A → Hardware → List Call → Type 0) (o : Outcome A)
    → Returns P o
    → (a : A) × (d : Hardware) × (calls : List Call) × (o ≡ returned a d calls) × P a d calls
Returns-inv P (returned a d calls) h = (a, d, calls, refl, h)
Returns-inv P (exited calls) h = absurd h
Returns-inv P crashed h = absurd h
