-- ===== src/Frame/RoundTrip.antt =====
-- What is written as a frame is read back, with the bytes after it.
use mathlib.Core.List.{append_assoc, append-nil}
use ananke.Prelude.{
  ℕ, suc, zero, ◌-◌, ◌^◌, ◌≤◌, ◌<◌, ◌≡◌, ◌≢◌, refl, ap, ◌∙◌, ◌⊎◌, inl, inr, Bool-cases, false, ◌||◌,
  List, [], ◌∷◌, ◌++◌, length, take, drop, ltb, eqb, arith, length-append, take-append-drop,
}
use ananke.Prelude.Fallible.{ok, err, Fallible-cases}
use ananke.Frame.{
  frame_limit, put_uint32, uint32, read_full, read_frame, Writer, write_loop, write_bytes,
  write_frame,
}

uint32-put_uint32 : (n : ℕ) → n < 2 ^ 32 → uint32 (put_uint32 n) ≡ n
unfolding uint32 put_uint32
uint32-put_uint32 n h = omega arith

take-append : {A : Type 0} (xs ys : List A) → take (length xs) (xs ++ ys) ≡ xs
take-append [] ys = refl
take-append (x ∷ xs) ys = ap (λ zs. x ∷ zs) (take-append xs ys)

drop-append : {A : Type 0} (xs ys : List A) → drop (length xs) (xs ++ ys) ≡ ys
drop-append [] ys = refl
drop-append (x ∷ xs) ys = drop-append xs ys

length-drop : {A : Type 0} (n : ℕ) (xs : List A) → length (drop n xs) ≡ length xs - n
length-drop zero xs = omega arith
length-drop (suc n) [] = omega arith
length-drop (suc n) (x ∷ xs) = omega (arith, length-drop n xs)

read_full-append : (xs ys : List ℕ) → read_full (length xs) (xs ++ ys) ≡ ok (xs, ys)
unfolding read_full
read_full-append xs ys = ground (arith, length-append xs ys, take-append xs ys, drop-append xs ys)

-- The bytes of a frame.
abbrev pub frame : List ℕ → List ℕ
frame payload = put_uint32 (length payload) ++ payload

-- Reading a frame whose payload is not empty, is within the limit and has a length of 32 bits gives
-- back the payload and leaves the bytes that follow.
read_frame-frame :
    (limit : ℕ) (payload rest : List ℕ)
    → length payload ≢ 0
    → length payload ≤ limit
    → limit < 2 ^ 32
    → read_frame limit (frame payload ++ rest) ≡ ok (payload, rest)
unfolding read_frame put_uint32
read_frame-frame limit payload rest n l b =
    let header = put_uint32 (length payload) in
    let first : read_full 4 (header ++ (payload ++ rest)) ≡ ok (header, payload ++ rest) =
      read_full-append header (payload ++ rest) in
    let size : uint32 header ≡ length payload =
      uint32-put_uint32 (length payload) (omega (arith, l, b)) in
    let within : (eqb (length payload) 0 || ltb limit (length payload)) ≡ false =
      ground (arith, n, l) in
    rw (first, size, within, read_full-append payload rest) refl

module _ {ℓ} {W : Type ℓ} (writer : Writer W) where
  write_loop-written :
      (fuel : ℕ) (bytes : List ℕ) (w w' : W)
      → write_loop writer fuel bytes w ≡ ok w'
      → writer.written w' ≡ writer.written w ++ bytes
  unfolding write_loop
  write_loop-written fuel [] w w' h = ground (arith, append-nil (writer.written w))
  write_loop-written zero (b ∷ bytes) w w' h = ground arith
  write_loop-written (suc fuel) (b ∷ bytes) w w' h =
      elim (Fallible-cases (writer.write w (b ∷ bytes))) [
        | inr (x, e) ↦ ground arith
        | inl ((n, v), e) ↦
            let rest : write_loop writer fuel (drop n (b ∷ bytes)) v ≡ ok w' = ground arith in
            write_loop-written fuel (drop n (b ∷ bytes)) v w' rest
            ∙ ap (λ us. us ++ drop n (b ∷ bytes)) (writer.receives w v (b ∷ bytes) n e)
            ∙ append_assoc (writer.written w) (take n (b ∷ bytes)) (drop n (b ∷ bytes))
            ∙ ap (λ us. writer.written w ++ us) (take-append-drop n (b ∷ bytes))
      ]

  -- A writer that is ready takes at least one byte of any that it is given.
  abbrev pub Ready : Type ℓ
  Ready =
      (w : W) (b : ℕ) (bytes : List ℕ)
      → (n : ℕ) × (w' : W) × (writer.write w (b ∷ bytes) ≡ ok (suc n, w'))

  write_loop-ok :
      (fuel : ℕ) (bytes : List ℕ) (w : W)
      → Ready
      → length bytes ≤ fuel
      → (w' : W) × (write_loop writer fuel bytes w ≡ ok w')
  unfolding write_loop
  write_loop-ok fuel [] w r l = (w, refl)
  write_loop-ok zero (b ∷ bytes) w r l = ground arith
  write_loop-ok (suc fuel) (b ∷ bytes) w r l =
      let (n, v, e) = r w b bytes in
      let (w', rest) =
        write_loop-ok fuel (drop n bytes) v r (omega (arith, length-drop n bytes, l)) in
      (w', ground (arith, e, rest))

  -- A frame that WriteFrame writes has a payload that is not empty and within the limit, and what
  -- the other end has received is extended by the length and the payload.
  write_frame-written :
      (limit : ℕ) (payload : List ℕ) (w w' : W)
      → write_frame writer limit payload w ≡ ok w'
      → (length payload ≢ 0)
        × (length payload ≤ limit)
        × (writer.written w' ≡ writer.written w ++ frame payload)
  unfolding write_frame write_bytes put_uint32
  write_frame-written limit payload w w' h =
      elim (Fallible-cases (write_bytes writer (put_uint32 (length payload)) w)) [
        | inr (x, e) ↦ ground arith
        | inl (v, e) ↦
            let last : write_bytes writer payload v ≡ ok w' = ground arith in
            (
              ground arith,
              ground arith,
              write_loop-written (length payload) payload v w' last
                  ∙ ap (λ us. us ++ payload)
                      (write_loop-written 4 (put_uint32 (length payload)) w v e)
                  ∙ append_assoc (writer.written w) (put_uint32 (length payload)) payload,
            )
      ]

  -- When WriteFrame succeeds with a limit of 32 bits, the other end has received some bytes more,
  -- and ReadFrame with that limit, on these bytes and any that follow, gives back the payload and
  -- leaves those that follow.
  pub read_frame-write_frame :
      (limit : ℕ) (payload : List ℕ) (w w' : W)
      → limit < 2 ^ 32
      → write_frame writer limit payload w ≡ ok w'
      → (bytes : List ℕ) × (writer.written w' ≡ writer.written w ++ bytes)
        × ((rest : List ℕ) → read_frame limit (bytes ++ rest) ≡ ok (payload, rest))
  read_frame-write_frame limit payload w w' b h =
      let (n, l, sent) = write_frame-written limit payload w w' h in
      (frame payload, sent, λ rest. read_frame-frame limit payload rest n l b)

  -- WriteFrame to a writer that is ready either succeeds, on a payload that is not empty and within
  -- the limit, or the payload is empty or over the limit and it is refused.
  pub write_frame_exact :
      (limit : ℕ) (payload : List ℕ) (w : W)
      → Ready
      → ((length payload ≢ 0)
          × (length payload ≤ limit)
          × (w' : W) × (write_frame writer limit payload w ≡ ok w'))
        ⊎ (((length payload ≡ 0) ⊎ (limit < length payload))
            × (write_frame writer limit payload w ≡ err frame_limit))
  unfolding write_frame write_bytes
  write_frame_exact limit payload w r =
      let (v, e) =
        write_loop-ok (length (put_uint32 (length payload))) (put_uint32 (length payload)) w r
          (omega arith) in
      let (w', f) = write_loop-ok (length payload) payload v r (omega arith) in
      elim (Bool-cases (eqb (length payload) 0)) [
        | inl z ↦ inr (inl (ground arith), ground arith)
        | inr n ↦ elim (Bool-cases (ltb limit (length payload))) [
          | inl o ↦ inr (inr (ground arith), ground arith)
          | inr l ↦ inl (ground arith, ground arith, w', ground (arith, e, f, n, l))
        ]
      ]
