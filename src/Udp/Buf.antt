-- ===== src/Udp/Buf.antt =====
-- What the STP code takes from the `bytes` crate: writing and reading a u64 at the ends of a
-- buffer. The crate's documentation says that both use the big-endian order and take eight bytes.
pub mod BigEndian
use speed_cli.Base.{ℕ, ◌≡◌, List, ◌++◌, length, All, IsU64, IsByte}

-- A `Bytes` or `BytesMut` is the list of its bytes.
abbrev pub Bytes : Type 0
Bytes = List ℕ

pub record ByteBuf : Type 0 where
  -- `BufMut::put_u64` appends this.
  pub put_u64 : ℕ → Bytes
  -- `Buf::get_u64` takes a number off the front.
  pub get_u64 : Bytes → ℕ × Bytes

-- The documented behaviour of the pair.
pub record IsFixedWidth (b : ByteBuf) : Type 0 where
  pub put_u64_length : (n : ℕ) → length (b.put_u64 n) ≡ 8
  pub put_u64-IsByte : (n : ℕ) → All IsByte (b.put_u64 n)
  pub get_u64-put_u64 : (n : ℕ) (s : Bytes) → IsU64 n → b.get_u64 (b.put_u64 n ++ s) ≡ (n, s)
  -- Eight bytes have one reading, and it writes them again.
  pub put_u64-get_u64 :
      (s r : Bytes)
      → length s ≡ 8
      → All IsByte s
      → (n : ℕ) × (b.get_u64 (s ++ r) ≡ (n, r)) × IsU64 n × (b.put_u64 n ≡ s)
