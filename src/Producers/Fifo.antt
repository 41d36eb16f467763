-- ===== src/Producers/Fifo.antt =====
-- bufferPlace and bufferRetrieve: the buffer as a queue.
use ping_pong_so.Base.{
  List, [], ap, append_assoc, arith, length, length-append, refl, some, suc, sym, true, zero, ℕ,
  ◌&&◌, ◌++◌, ◌-◌, ◌<◌, ◌∙◌, ◌∷◌, ◌≡◌,
}
use ping_pong_so.Base.Int.{add_int, add_int-pos, leb_ℤ, ltb_ℤ, pos, sub_int, sub_int-pos, ℤ}
use ping_pong_so.Producers.{
  Buffer, buffer_place, buffer_retrieve, buffer_size, get_elem?, set, shift_loop,
}

-- The buffer holds the items `xs`.
pub record IsHolding (b : Buffer) (xs : List ℤ) : Type 0 where
  pub size : length b.array ≡ buffer_size
  pub count : b.i ≡ pos (length xs)
  pub rest : List ℤ
  pub split : b.array ≡ xs ++ rest

set-append :
    (xs : List ℤ) (y : ℤ) (ys : List ℤ) (v : ℤ) → set (xs ++ y ∷ ys) (length xs) v ≡ xs ++ v ∷ ys
set-append [] y ys v = refl
set-append (x ∷ xs) y ys v = ap (λ (zs : List ℤ). x ∷ zs) (set-append xs y ys v)

get_elem-append :
    (xs : List ℤ) (y z : ℤ) (ys : List ℤ) → get_elem? (xs ++ y ∷ z ∷ ys) (suc (length xs)) ≡ some z
get_elem-append [] y z ys = refl
get_elem-append (x ∷ xs) y z ys = get_elem-append xs y z ys

length-set : (xs : List ℤ) (j : ℕ) (v : ℤ) → length (set xs j v) ≡ length xs
length-set [] j v = refl
length-set (x ∷ xs) zero v = refl
length-set (x ∷ xs) (suc j) v = ap (λ n. suc n) (length-set xs j v)

pub length-snoc : (xs : List ℤ) (y : ℤ) → length (xs ++ y ∷ []) ≡ suc (length xs)
length-snoc xs y = omega (arith, length-append xs (y ∷ []))

room-cons :
    (xs rest : List ℤ)
    → length (xs ++ rest) ≡ buffer_size
    → length xs < buffer_size
    → (y : ℤ) × (ys : List ℤ) × (rest ≡ y ∷ ys)
room-cons xs [] e less = absurd (omega (arith, length-append xs []))
room-cons xs (y ∷ ys) e less = (y, ys, refl)

-- With room left, `bufferPlace` puts the item behind those that the buffer holds.
pub buffer_place-snoc :
    (b : Buffer) (xs : List ℤ) (item : ℤ)
    → IsHolding b xs
    → length xs < buffer_size
    → (c : Buffer) × (buffer_place item b ≡ some c) × IsHolding c (xs ++ item ∷ [])
unfolding buffer_place
buffer_place-snoc b xs item h room =
    let (y, ys, is) =
      room-cons xs h.rest (ap (λ (zs : List ℤ). length zs) (sym h.split) ∙ h.size) room in
    let fits : (leb_ℤ (pos 0) (pos (length xs)) && ltb_ℤ (pos (length xs)) (pos buffer_size))
        ≡ true =
      ground arith in
    (
      record { array = set b.array (length xs) item; i = add_int (pos (length xs)) (pos 1) },
      rw (h.count, fits) refl,
      record {
        size = length-set b.array (length xs) item ∙ h.size;
        count =
            add_int-pos (length xs) 1 (omega (arith, room))
            ∙ ap (λ n. pos n) (omega (arith, length-snoc xs item));
        rest = ys;
        split =
            ap (λ (zs : List ℤ). set zs (length xs) item)
              (h.split ∙ ap (λ (zs : List ℤ). xs ++ zs) is)
            ∙ set-append xs y ys item
            ∙ sym (append_assoc xs (item ∷ []) ys);
      },
    )

-- The loop moves the items behind the first one place to the front.
shift_loop-append :
    (ds : List ℤ) (d : ℤ) (xs rest : List ℤ)
    → (e : ℤ) × (shift_loop (length xs) (length ds) (ds ++ (d ∷ (xs ++ rest)))
        ≡ some (ds ++ (xs ++ (e ∷ rest))))
unfolding shift_loop
shift_loop-append ds d [] rest = (d, refl)
shift_loop-append ds d (x ∷ xs) rest =
    let (e, run) = shift_loop-append (ds ++ x ∷ []) x xs rest in
    let run2 : shift_loop (length xs) (suc (length ds)) (ds ++ (x ∷ (x ∷ (xs ++ rest))))
        ≡ some (ds ++ (x ∷ (xs ++ (e ∷ rest)))) =
      rw
        (
          length-snoc ds x,
          append_assoc ds (x ∷ []) (x ∷ (xs ++ rest)),
          append_assoc ds (x ∷ []) (xs ++ (e ∷ rest)),
        )
        at run in
    (
      e,
      rw (shift_loop, get_elem-append ds d x (xs ++ rest), set-append ds d (x ∷ (xs ++ rest)) x)
          run2,
    )

-- `bufferRetrieve` takes the first of the items out of the buffer.
pub buffer_retrieve-head :
    (b : Buffer) (x : ℤ) (xs : List ℤ)
    → IsHolding b (x ∷ xs)
    → (c : Buffer) × (buffer_retrieve b ≡ some (x, c)) × IsHolding c xs
unfolding buffer_retrieve
buffer_retrieve-head b x xs h =
    let (e, run) = shift_loop-append [] x xs h.rest in
    let less : suc (length xs) - 1 ≡ length xs = omega arith in
    let whole = length-append (x ∷ xs) h.rest in
    let size = ap (λ (zs : List ℤ). length zs) (sym h.split) ∙ h.size in
    (
      record { array = xs ++ (e ∷ h.rest); i = sub_int (pos (suc (length xs))) (pos 1) },
      rw (h.count, h.split) (rw (buffer_retrieve, less, run) refl),
      record {
        size = omega (arith, length-append xs (e ∷ h.rest), whole, size);
        count =
            sub_int-pos (suc (length xs)) 1 (omega arith) (omega (arith, whole, size))
            ∙ ap (λ n. pos n) less;
        rest = e ∷ h.rest;
        split = refl;
      },
    )
