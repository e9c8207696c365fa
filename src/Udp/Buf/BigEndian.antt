-- ===== src/Udp/Buf/BigEndian.antt =====
-- The big-endian order, which meets what is assumed of the `bytes` crate.
use speed_cli.Base.{
  ℕ, ◌+◌, ◌*◌, ◌/◌, ◌%◌, ◌<◌, ◌≡◌, refl, [], ◌∷◌, ◌++◌, length, All, IsU64, IsByte, arith,
}
use speed_cli.Udp.Buf.{Bytes, ByteBuf, IsFixedWidth}

-- Two bytes, then pairs of halves: each step splits a number at a fixed width.
abbrev put_u16 : ℕ → Bytes → Bytes
put_u16 n s = (n / 256) ∷ (n % 256) ∷ s

abbrev put_u32 : ℕ → Bytes → Bytes
put_u32 n s = put_u16 (n / 65536) (put_u16 (n % 65536) s)

unfoldable pub put_be : ℕ → Bytes
put_be n = put_u32 (n % 18446744073709551616 / 4294967296) (put_u32 (n % 4294967296) [])

abbrev join_u16 : ℕ → ℕ → ℕ
join_u16 a b = a * 256 + b

abbrev join_u32 : ℕ → ℕ → ℕ → ℕ → ℕ
join_u32 a b c d = join_u16 a b * 65536 + join_u16 c d

unfoldable pub get_be : Bytes → ℕ × Bytes
get_be (a ∷ b ∷ c ∷ d ∷ e ∷ f ∷ g ∷ h ∷ s) = (join_u32 a b c d * 4294967296 + join_u32 e f g h, s)
get_be s = (0, s)

abbrev pub big_endian : ByteBuf
big_endian = record { put_u64 = put_be; get_u64 = get_be }

join_split :
    (n : ℕ)
    → n < 4294967296
    → join_u32 (n / 65536 / 256) (n / 65536 % 256) (n % 65536 / 256) (n % 65536 % 256) ≡ n
join_split n h = omega arith

get_be-put_be : (n : ℕ) (s : Bytes) → IsU64 n → get_be (put_be n ++ s) ≡ (n, s)
unfolding get_be put_be
get_be-put_be n s h =
    ground (arith, join_split (n % 18446744073709551616 / 4294967296), join_split (n % 4294967296))

put_be-IsByte : (n : ℕ) → All IsByte (put_be n)
unfolding put_be
put_be-IsByte n = omega arith

split_join :
    (a b c d : ℕ)
    → a < 256
    → b < 256
    → c < 256
    → d < 256
    → let n = join_u32 a b c d in
      (n / 65536 / 256 ≡ a)
      × (n / 65536 % 256 ≡ b)
      × (n % 65536 / 256 ≡ c)
      × (n % 65536 % 256 ≡ d)
      × (n < 4294967296)
split_join a b c d ha hb hc hd = omega arith

join_halves :
    (m n : ℕ)
    → m < 4294967296
    → n < 4294967296
    → let w = m * 4294967296 + n in
      (w % 18446744073709551616 / 4294967296 ≡ m) × (w % 4294967296 ≡ n)
join_halves m n hm hn = omega arith

put_be-get_be :
    (s r : Bytes)
    → length s ≡ 8
    → All IsByte s
    → (n : ℕ) × (get_be (s ++ r) ≡ (n, r)) × IsU64 n × (put_be n ≡ s)
unfolding get_be put_be
put_be-get_be (a ∷ b ∷ c ∷ d ∷ e ∷ f ∷ g ∷ h ∷ []) r l k =
    (m * 4294967296 + n, refl, omega (arith, front, back), ground (arith, halves, front, back))
  where
    m : ℕ
    m = join_u32 a b c d

    n : ℕ
    n = join_u32 e f g h

    front :
        (m / 65536 / 256 ≡ a)
        × (m / 65536 % 256 ≡ b)
        × (m % 65536 / 256 ≡ c)
        × (m % 65536 % 256 ≡ d)
        × (m < 4294967296)
    front = split_join a b c d (omega arith) (omega arith) (omega arith) (omega arith)

    back :
        (n / 65536 / 256 ≡ e)
        × (n / 65536 % 256 ≡ f)
        × (n % 65536 / 256 ≡ g)
        × (n % 65536 % 256 ≡ h)
        × (n < 4294967296)
    back = split_join e f g h (omega arith) (omega arith) (omega arith) (omega arith)

    halves :
        ((m * 4294967296 + n) % 18446744073709551616 / 4294967296 ≡ m)
        × ((m * 4294967296 + n) % 4294967296 ≡ n)
    halves = join_halves m n front.4 back.4
put_be-get_be s r l k = absurd (omega arith)

pub big_endian-IsFixedWidth : IsFixedWidth big_endian
big_endian-IsFixedWidth = record {
  put_u64_length = λ n. unfold put_be in refl;
  put_u64-IsByte = put_be-IsByte;
  get_u64-put_u64 = get_be-put_be;
  put_u64-get_u64 = put_be-get_be;
}
