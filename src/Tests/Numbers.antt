-- ===== src/Tests/Numbers.antt =====
-- A library of locks that are Booleans and semaphores that are numbers.
use ping_pong_so.Base.{Bool, Option, arith, false, none, refl, some, suc, true, zero, ℕ, ◌≡◌}
use ping_pong_so.Base.Int.{pos_part}
use ping_pong_so.Protocol.Sync.{SyncLib}

unfoldable pub take_lock : Bool → Option Bool
take_lock true = none
take_lock false = some true

unfoldable pub take_one : ℕ → Option ℕ
take_one zero = none
take_one (suc k) = some k

pub take_lock-free : (m : Bool) → m ≡ false → (m' : Bool) × (take_lock m ≡ some m') × (m' ≡ true)
unfolding take_lock
take_lock-free true free_ = absurd (ground arith)
take_lock-free false free_ = (true, refl, refl)

pub take_lock-held : (m : Bool) → m ≡ true → take_lock m ≡ none
unfolding take_lock
take_lock-held m held_ = rw held_ refl

pub take_one-pos : (s k : ℕ) → s ≡ suc k → (s' : ℕ) × (take_one s ≡ some s') × (s' ≡ k)
unfolding take_one
take_one-pos s k is = (k, rw is refl, refl)

pub take_one-zero : (s : ℕ) → s ≡ 0 → take_one s ≡ none
unfolding take_one
take_one-zero s is = rw is refl

abbrev pub numbers : SyncLib
numbers = record {
  Lock = Bool;
  Sem = ℕ;
  is_held = λ m. m;
  unlocked = false;
  lock = take_lock;
  unlock = λ _. false;
  value = λ k. k;
  counter = pos_part;
  up = λ k. suc k;
  down = take_one;
  is_held-unlocked = refl;
  lock-free = take_lock-free;
  lock-held = take_lock-held;
  is_held-unlock = λ _. refl;
  value-counter = λ _. refl;
  value-up = λ _. refl;
  down-pos = take_one-pos;
  down-zero = take_one-zero;
}
