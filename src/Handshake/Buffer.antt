-- ===== src/Handshake/Buffer.antt =====
-- src/buffer.rs: the buffer that a handshake reads into. The scratch chunk is written anew by every
-- read, so it is no state; its size is the one of src/lib.rs. `Buf` for a `Cursor` is the `bytes`
-- crate's: the bytes behind the position, and a panic when more than those are passed over.
use tungstenite_rs.Prelude.{ℕ, ◌+◌, ◌-◌, ◌≤◌, List, [], ◌++◌, length, drop, ltb, if◌then◌else◌}
use tungstenite_rs.Result.{Result, ok, panic}
use tungstenite_rs.Result.Fallible.{◌>>=◌}
use tungstenite_rs.Stream.{Io, IoResult}

-- `Cursor<Vec<u8>>`
pub record Storage : Type 0 where
  pub bytes : List ℕ
  pub position : ℕ

-- `Buf::chunk`, `Buf::remaining`, `Buf::advance`
unfoldable pub chunk : Storage → List ℕ
chunk b = drop b.position b.bytes

unfoldable pub remaining : Storage → ℕ
remaining b = length b.bytes - b.position

unfoldable pub advance : ℕ → Storage → Result Storage
unfolding remaining
advance count b =
    if ltb (remaining b) count then panic else ok (record b { position = b.position + count })

-- READ_BUFFER_CHUNK_SIZE
abbrev pub chunk_size : ℕ
chunk_size = 4096

unfoldable pub from_partially_read : List ℕ → Storage
from_partially_read part = record { bytes = part; position = 0 }

unfoldable pub new : Storage
new = from_partially_read []

-- `drain(0..pos)` panics when there are fewer bytes.
unfoldable pub clean_up : Storage → Result Storage
clean_up b =
    if ltb (length b.bytes) b.position
    then panic
    else ok (record { bytes = drop b.position b.bytes; position = 0 })

unfoldable pub into_vec : Storage → Result (List ℕ)
into_vec b = do cleaned ← clean_up b; ok cleaned.bytes

module _ {S : Type 0} (world : Io S) where
  unfoldable pub store : IoResult (List ℕ) × S → Storage → Result (IoResult ℕ × (Storage × S))
  store (IoResult.failed kind, s) b = ok (IoResult.failed kind, (b, s))
  store (IoResult.done got, s) b =
      if ltb chunk_size (length got)
      then panic
      else ok (IoResult.done (length got), (record b { bytes = b.bytes ++ got }, s))

  unfoldable pub read_from : Storage → S → Result (IoResult ℕ × (Storage × S))
  unfolding store
  read_from b s = do cleaned ← clean_up b; store (world.read chunk_size s) cleaned

-- The position is in the vector.
abbrev pub IsSound : Storage → Type 0
IsSound b = b.position ≤ length b.bytes
