-- ===== src/Disco/Buffer.antt =====
-- The bytes that pingpong-disco1.c stores into its buffer, and those that it prints.
use ping_pong_so.Base.{
  ap, ap₂, arith, if◌then◌else◌, leb, ltb, refl, suc, zero, ℕ, ◌&&◌, ◌+◌, ◌<◌, ◌∙◌, ◌∷◌, ◌≡◌,
}
use ping_pong_so.Device.Posix.{Posix}
use ping_pong_so.Disco.{Answers, Stores, bytes, fill}

pub bytes-same :
    (f g : ℕ → ℕ) (n a b : ℕ)
    → ((i : ℕ) → i < n → f (a + i) ≡ g (b + i))
    → bytes f n a ≡ bytes g n b
unfolding bytes
bytes-same f g zero a b same = refl
bytes-same f g (suc n) a b same =
    ap₂ (λ x xs. x ∷ xs) (ap f (omega arith) ∙ same 0 (omega arith) ∙ ap g (omega arith))
      (bytes-same f g n (suc a) (suc b)
        (λ i h. ap f (omega arith) ∙ same (suc i) (omega arith) ∙ ap g (omega arith)))

module _ (os : Posix) (cpu : Stores os) (ans : Answers) where
  open os use {World, file, size, memory}

  pub fill-memory :
      (n a c x : ℕ) (w : World)
      → memory (fill os cpu ans n a c w) x ≡ (if leb a x && ltb x (a + n) then c else memory w x)
  unfolding fill
  fill-memory zero a c x w = ground arith
  fill-memory (suc n) a c x w =
      fill-memory n (suc a) c x (cpu.store a c w) ∙ rw (cpu.store-memory a c x w) (ground arith)

  pub fill-file : (n a c i : ℕ) (w : World) → file (fill os cpu ans n a c w) i ≡ file w i
  unfolding fill
  fill-file zero a c i w = refl
  fill-file (suc n) a c i w = fill-file n (suc a) c i (cpu.store a c w) ∙ cpu.store-file a c i w

  pub fill-size : (n a c : ℕ) (w : World) → size (fill os cpu ans n a c w) ≡ size w
  unfolding fill
  fill-size zero a c w = refl
  fill-size (suc n) a c w = fill-size n (suc a) c (cpu.store a c w) ∙ cpu.store-size a c w
