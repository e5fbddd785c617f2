-- ===== src/Stream.antt =====
-- What the protocol code takes from outside: the `Read + Write` stream, `rand::random` for masks,
-- and the growth of a `BytesMut` of the `bytes` crate. They are a parameter of the model; `Lawful`
-- states what their documentation promises.
use tungstenite_rs.Prelude.{ℕ, ◌+◌, ◌-◌, ◌≤◌, ◌≡◌, List, length, drop}
use tungstenite_rs.Types.{Mask, IoErrorKind, io}
use tungstenite_rs.Result.{Result, ok, err}

pub data IoResult (A : Type 0) : Type 0 where
  done : A → IoResult A
  failed : IoErrorKind → IoResult A

pub record Io (S : Type 0) : Type 0 where
  -- `read` into a buffer of so many bytes, `write` of the bytes, `flush`.
  pub read : ℕ → S → IoResult (List ℕ) × S
  pub write : List ℕ → S → IoResult ℕ × S
  pub flush : S → IoResult (Unit {0}) × S
  pub random_mask : S → Mask × S
  -- The capacity after `reserve`, from the capacity, the length and the additional bytes.
  pub grow : ℕ → ℕ → ℕ → ℕ

pub record Lawful {S : Type 0} (world : Io S) : Type 0 where
  pub read_fits :
      (n : ℕ) (s : S) (bytes : List ℕ) → (world.read n s).0 ≡ done bytes → length bytes ≤ n
  pub write_fits :
      (bytes : List ℕ) (s : S) (n : ℕ) → (world.write bytes s).0 ≡ done n → n ≤ length bytes
  pub grow_enough :
      (capacity len additional : ℕ) → len + additional ≤ world.grow capacity len additional

-- `BytesMut`
pub record BytesMut : Type 0 where
  pub bytes : List ℕ
  pub capacity : ℕ

unfoldable pub reserve : {S : Type 0} → Io S → ℕ → BytesMut → BytesMut
reserve world additional b = record b {
  capacity = world.grow b.capacity (length b.bytes) additional;
}

-- `advance` and the rest of `split_to`: the bytes in front go, with their capacity.
unfoldable pub advance : ℕ → BytesMut → BytesMut
advance n b = record { bytes = drop n b.bytes; capacity = b.capacity - n }

unfoldable pub from_io : {A : Type 0} → IoResult A → Result A
from_io (done a) = ok a
from_io (failed kind) = err (io kind)
