-- ===== src/Frame.antt =====
-- internal/transportprimitives/frame.go: frames of bytes behind their length as a big-endian uint32.
-- A byte is a number; a reader is the list of the bytes that are still to come. A writer is any
-- type with a Write that takes some of the bytes it is given, or fails.
pub mod RoundTrip
pub mod Examples
use ananke.Prelude.{
  ℕ, suc, zero, ◌+◌, ◌*◌, ◌/◌, ◌%◌, ◌^◌, ◌≤◌, ◌≡◌, Bool, true, false, ◌||◌, List, [], ◌∷◌, ◌++◌,
  length, take, drop, leb, ltb, eqb, if◌then◌else◌,
}
use ananke.Prelude.Fallible.{Fallible, ok, err, ◌>>=◌, ◌>>◌, fail_if}

pub data FrameError : Type 0 where
  frame_limit eof unexpected_eof write_failed : FrameError

abbrev pub Result {ℓ} : Type ℓ → Type ℓ
Result A = Fallible FrameError A

-- binary.BigEndian.PutUint32 of uint32(n), and Uint32
unfoldable pub put_uint32 : ℕ → List ℕ
put_uint32 n = n / 2 ^ 24 % 256 ∷ n / 2 ^ 16 % 256 ∷ n / 2 ^ 8 % 256 ∷ n % 256 ∷ []

unfoldable pub uint32 : List ℕ → ℕ
uint32 [] = 0
uint32 (a ∷ []) = 0
uint32 (a ∷ b ∷ []) = 0
uint32 (a ∷ b ∷ c ∷ []) = 0
uint32 (a ∷ b ∷ c ∷ d ∷ _) = a * 2 ^ 24 + b * 2 ^ 16 + c * 2 ^ 8 + d

-- io.ReadFull: all of the n bytes, or an error that says whether there were any.
unfoldable pub read_full : ℕ → List ℕ → Result (List ℕ × List ℕ)
read_full n reader =
    if leb n (length reader)
    then ok (take n reader, drop n reader)
    else err (if eqb (length reader) 0 then eof else unexpected_eof)

unfoldable pub read_frame : ℕ → List ℕ → Result (List ℕ × List ℕ)
read_frame limit reader = do
  (header, reader) ← read_full 4 reader
  let len = uint32 header
  fail_if (eqb len 0 || ltb limit len) frame_limit
  read_full len reader

-- An io.Writer: Write says how many bytes it took. `written` is what the other end has received.
-- The contract of Write: it takes at most what it is given, and what it took is received.
pub record Writer {ℓ} (W : Type ℓ) : Type ℓ where
  pub write : W → List ℕ → Result (ℕ × W)
  pub written : W → List ℕ
  pub takes_at_most :
      (w w' : W) (bytes : List ℕ) (n : ℕ) → write w bytes ≡ ok (n, w') → n ≤ length bytes
  pub receives :
      (w w' : W) (bytes : List ℕ) (n : ℕ)
      → write w bytes ≡ ok (n, w')
      → written w' ≡ written w ++ take n bytes

module _ {ℓ} {W : Type ℓ} (writer : Writer W) where
  -- The loop, on fuel: each turn that goes on takes at least one byte, so the length is enough.
  unfoldable pub write_loop : ℕ → List ℕ → W → Result W
  write_loop fuel [] w = ok w
  write_loop zero (b ∷ bytes) w = err unexpected_eof
  write_loop (suc fuel) (b ∷ bytes) w = do
    (n, w') ← writer.write w (b ∷ bytes)
    fail_if (eqb n 0) unexpected_eof
    write_loop fuel (drop n (b ∷ bytes)) w'

  unfoldable pub write_bytes : List ℕ → W → Result W
  write_bytes value w = write_loop (length value) value w

  unfoldable pub write_frame : ℕ → List ℕ → W → Result W
  write_frame limit payload w = do
    fail_if (eqb (length payload) 0 || ltb limit (length payload)) frame_limit
    w' ← write_bytes (put_uint32 (length payload)) w
    write_bytes payload w'
