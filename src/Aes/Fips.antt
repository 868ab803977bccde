-- ===== src/Aes/Fips.antt =====
-- AES-128 as FIPS 197 describes it, apart from the code: arithmetic in GF(2^8), the cipher's four
-- transformations, and the words of the key schedule. SubWord in the key schedule is the code's table,
-- which `Aes.Cipher` relates to SubBytes.
use arduino_spider_l3s_libra.Base.{
  ℕ, zero, suc, ◌+◌, ◌*◌, ◌/◌, ◌%◌, ◌==◌, ltb, bit_xor, List, if◌then◌else◌, ◌<<<◌, ◌>>>◌, u8,
}
use arduino_spider_l3s_libra.Aes.{Column, Block, round_key, xor_column, add_round_key}
use arduino_spider_l3s_libra.Aes.Tables.{sbox}

-- Multiplication by x modulo x^8 + x^4 + x^3 + x + 1.
abbrev pub xtime : ℕ → ℕ
xtime b = if ltb (b * 2) 256 then b * 2 else bit_xor (b * 2) 0x11b

-- The product of `a` and the polynomial of the `n` low bits of `b`.
abbrev pub gf_mul_bits : ℕ → ℕ → ℕ → ℕ
gf_mul_bits zero a b = 0
gf_mul_bits (suc n) a b = bit_xor (if b % 2 == 1 then a else 0) (gf_mul_bits n (xtime a) (b / 2))

unfoldable pub gf_mul : ℕ → ℕ → ℕ
gf_mul a b = gf_mul_bits 8 a b

abbrev pub rotate_left : ℕ → ℕ → ℕ → ℕ
rotate_left k l b = u8 (b <<< k) + b >>> l

-- The affine transformation of SubBytes, and its inverse.
unfoldable pub affine : ℕ → ℕ
affine b = bit_xor 0x63 (
    bit_xor b (
      bit_xor (rotate_left 1 7 b)
        (bit_xor (rotate_left 2 6 b) (bit_xor (rotate_left 3 5 b) (rotate_left 4 4 b)))))

unfoldable pub inv_affine : ℕ → ℕ
inv_affine b =
    bit_xor 0x05 (bit_xor (rotate_left 1 7 b) (bit_xor (rotate_left 3 5 b) (rotate_left 6 2 b)))

-- From the power p and the product of some powers, the product with the n next squares.
abbrev pub times_squares : ℕ → ℕ → ℕ → ℕ
times_squares zero p product = product
times_squares (suc n) p product =
    let square = gf_mul p p in times_squares n square (gf_mul product square)

-- The inverse, as the power 254 = 2 + 4 + ... + 128; 0 for 0.
unfoldable pub gf_inverse : ℕ → ℕ
gf_inverse x = times_squares 7 x 1

unfoldable pub s_box : ℕ → ℕ
s_box x = affine (gf_inverse x)

unfoldable pub sub_column : Column → Column
sub_column s = record { r0 = s_box s.r0; r1 = s_box s.r1; r2 = s_box s.r2; r3 = s_box s.r3 }

unfoldable pub sub_bytes : Block → Block
unfolding sub_column
sub_bytes s = record {
  c0 = sub_column s.c0;
  c1 = sub_column s.c1;
  c2 = sub_column s.c2;
  c3 = sub_column s.c3;
}

-- Row `r` of the result at column `c` is row `r` of column `c + r`.
unfoldable pub shift_rows : Block → Block
shift_rows s = record {
  c0 = record { r0 = s.c0.r0; r1 = s.c1.r1; r2 = s.c2.r2; r3 = s.c3.r3 };
  c1 = record { r0 = s.c1.r0; r1 = s.c2.r1; r2 = s.c3.r2; r3 = s.c0.r3 };
  c2 = record { r0 = s.c2.r0; r1 = s.c3.r1; r2 = s.c0.r2; r3 = s.c1.r3 };
  c3 = record { r0 = s.c3.r0; r1 = s.c0.r1; r2 = s.c1.r2; r3 = s.c2.r3 };
}

-- The product with the circulant matrix of 2, 3, 1, 1.
unfoldable pub mix_product : Column → Column
mix_product s = record {
  r0 = bit_xor (bit_xor (bit_xor (gf_mul s.r0 2) (gf_mul s.r1 3)) s.r2) s.r3;
  r1 = bit_xor (bit_xor (bit_xor s.r0 (gf_mul s.r1 2)) (gf_mul s.r2 3)) s.r3;
  r2 = bit_xor (bit_xor (bit_xor s.r0 s.r1) (gf_mul s.r2 2)) (gf_mul s.r3 3);
  r3 = bit_xor (bit_xor (bit_xor (gf_mul s.r0 3) s.r1) s.r2) (gf_mul s.r3 2);
}

unfoldable pub mix_products : Block → Block
mix_products s = record {
  c0 = mix_product s.c0;
  c1 = mix_product s.c1;
  c2 = mix_product s.c2;
  c3 = mix_product s.c3;
}

-- The state after the AddRoundKey of round `n`.
unfoldable pub cipher_rounds : List Block → ℕ → Block → Block
cipher_rounds keys zero s = add_round_key (round_key keys 0) s
cipher_rounds keys (suc n) s =
    add_round_key (round_key keys (suc n))
      (mix_products (shift_rows (sub_bytes (cipher_rounds keys n s))))

unfoldable pub cipher : Block → List Block → Block
cipher s keys = add_round_key (round_key keys 10) (shift_rows (sub_bytes (cipher_rounds keys 9 s)))

-- Rcon[i], the power `i - 1` of x.
abbrev pub round_constant : ℕ → ℕ
round_constant zero = 0
round_constant (suc zero) = 1
round_constant (suc (suc i)) = xtime (round_constant (suc i))

-- SubWord (RotWord w) with a round constant added.
unfoldable pub schedule_core : ℕ → Column → Column
schedule_core c w = record {
  r0 = bit_xor (sbox w.r1) c;
  r1 = sbox w.r2;
  r2 = sbox w.r3;
  r3 = sbox w.r0;
}

-- w[i] = w[i - 4] ^ (w[i - 1], through the core where 4 divides i)
unfoldable pub schedule_word : Block → ℕ → Column
schedule_word key zero = key.c0
schedule_word key (suc zero) = key.c1
schedule_word key (suc (suc zero)) = key.c2
schedule_word key (suc (suc (suc zero))) = key.c3
schedule_word key (suc (suc (suc (suc n)))) =
    let last = schedule_word key (suc (suc (suc n))) in
    xor_column (if n % 4 == 0 then schedule_core (round_constant (n / 4 + 1)) last else last)
      (schedule_word key n)

-- The four words from the n-th on.
abbrev pub schedule_block : Block → ℕ → Block
schedule_block key n = record {
  c0 = schedule_word key n;
  c1 = schedule_word key (suc n);
  c2 = schedule_word key (suc (suc n));
  c3 = schedule_word key (suc (suc (suc n)));
}
