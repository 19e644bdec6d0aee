-- ===== src/Frame/Examples.antt =====
-- A frame of five bytes through a writer that takes three bytes at a time.
use ananke.Prelude.{ℕ, ◌≤◌, ◌<◌, ◌≡◌, ◌≢◌, ◌⊎◌, refl, List, [], ◌∷◌, ◌++◌, length, take, arith}
use ananke.Prelude.Fallible.{ok, err}
use ananke.Frame.{frame_limit, Writer, put_uint32, read_frame, write_frame, write_bytes, write_loop}
use ananke.Frame.RoundTrip.{Ready, read_frame-write_frame, write_frame_exact}

abbrev taken : List ℕ → ℕ
taken [] = 0
taken (a ∷ []) = 1
taken (a ∷ b ∷ []) = 2
taken (a ∷ b ∷ c ∷ _) = 3

taken-length : (bytes : List ℕ) → taken bytes ≤ length bytes
taken-length [] = omega arith
taken-length (a ∷ []) = omega arith
taken-length (a ∷ b ∷ []) = omega arith
taken-length (a ∷ b ∷ c ∷ bytes) = omega arith

abbrev by_three : Writer (List ℕ)
by_three = record {
  write = λ w bytes. ok (taken bytes, w ++ take (taken bytes) bytes);
  written = λ w. w;
  takes_at_most = λ w w' bytes n h. ground (arith, taken-length bytes);
  receives = λ w w' bytes n h. ground arith;
}

by_three-Ready : Ready by_three
by_three-Ready w b [] = (0, w ++ b ∷ [], refl)
by_three-Ready w b (c ∷ []) = (1, w ++ b ∷ c ∷ [], refl)
by_three-Ready w b (c ∷ d ∷ bytes) = (2, w ++ b ∷ c ∷ d ∷ [], refl)

abbrev payload : List ℕ
payload = 104 ∷ 101 ∷ 108 ∷ 108 ∷ 111 ∷ []

abbrev sent : List ℕ
sent = 7 ∷ 0 ∷ 0 ∷ 0 ∷ 5 ∷ payload

payload_sent : write_frame by_three 64 payload (7 ∷ []) ≡ ok sent
unfolding write_frame write_bytes write_loop put_uint32
payload_sent = refl

read_frame-write_frame_example :
    (bytes : List ℕ) × (sent ≡ (7 ∷ []) ++ bytes)
    × ((rest : List ℕ) → read_frame 64 (bytes ++ rest) ≡ ok (payload, rest))
read_frame-write_frame_example =
    read_frame-write_frame by_three 64 payload (7 ∷ []) sent (omega arith) payload_sent

write_frame_exact_example :
    ((length payload ≢ 0)
      × (length payload ≤ 64)
      × (w' : List ℕ) × (write_frame by_three 64 payload [] ≡ ok w'))
    ⊎ (((length payload ≡ 0) ⊎ (64 < length payload))
        × (write_frame by_three 64 payload [] ≡ err frame_limit))
write_frame_exact_example = write_frame_exact by_three 64 payload [] by_three-Ready
