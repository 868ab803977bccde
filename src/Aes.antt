-- ===== src/Aes.antt =====
-- AES-128 of security.c: `expandKey`, `aes_encr`, `aes_decr`, `aes_encrypt` and `aes_decrypt`.
-- `state[4 * c + r]` is row `r` of column `c`, and `expandedKey[16 * n + i]` is byte `i` of the
-- n-th round key.
pub mod Tables
pub mod Galois
pub mod Linear
pub mod Columns
pub mod Substitution
pub mod RoundTrip
pub mod Fips
pub mod Cipher
pub mod Schedule
mod Tests
use arduino_spider_l3s_libra.Base.{ℕ, zero, suc, ◌+◌, bit_xor, List, [], ◌∷◌, get_or, IsByte, All}
use Tables.{sbox, rsbox, rcon}
use Galois.{galois_mul2}

pub record Column : Type 0 where
  pub r0 : ℕ
  pub r1 : ℕ
  pub r2 : ℕ
  pub r3 : ℕ

pub record Block : Type 0 where
  pub c0 : Column
  pub c1 : Column
  pub c2 : Column
  pub c3 : Column

pub record IsColumn (c : Column) : Type 0 where
  pub b0 : IsByte c.r0
  pub b1 : IsByte c.r1
  pub b2 : IsByte c.r2
  pub b3 : IsByte c.r3

pub record IsBlock (s : Block) : Type 0 where
  pub p0 : IsColumn s.c0
  pub p1 : IsColumn s.c1
  pub p2 : IsColumn s.c2
  pub p3 : IsColumn s.c3

abbrev pub zero_column : Column
zero_column = record { r0 = 0; r1 = 0; r2 = 0; r3 = 0 }

-- What a key array holds past its end; no index of the code reaches it.
abbrev pub zero_block : Block
zero_block = record { c0 = zero_column; c1 = zero_column; c2 = zero_column; c3 = zero_column }

-- `expandedKey[round * 16 ..]`
abbrev pub round_key : List Block → ℕ → Block
round_key keys n = get_or keys n zero_block

-- The body of the loop of `expandKey` at `ii`, from the sixteen bytes before it.
unfoldable pub expand_round : ℕ → Block → Block
expand_round ii p =
    let w0 : Column = record {
      r0 = bit_xor (bit_xor (sbox p.c3.r1) p.c0.r0) (rcon ii);
      r1 = bit_xor (sbox p.c3.r2) p.c0.r1;
      r2 = bit_xor (sbox p.c3.r3) p.c0.r2;
      r3 = bit_xor (sbox p.c3.r0) p.c0.r3;
    } in
    let w1 : Column = record {
      r0 = bit_xor p.c1.r0 w0.r0;
      r1 = bit_xor p.c1.r1 w0.r1;
      r2 = bit_xor p.c1.r2 w0.r2;
      r3 = bit_xor p.c1.r3 w0.r3;
    } in
    let w2 : Column = record {
      r0 = bit_xor p.c2.r0 w1.r0;
      r1 = bit_xor p.c2.r1 w1.r1;
      r2 = bit_xor p.c2.r2 w1.r2;
      r3 = bit_xor p.c2.r3 w1.r3;
    } in
    let w3 : Column = record {
      r0 = bit_xor p.c3.r0 w2.r0;
      r1 = bit_xor p.c3.r1 w2.r1;
      r2 = bit_xor p.c3.r2 w2.r2;
      r3 = bit_xor p.c3.r3 w2.r3;
    } in
    record { c0 = w0; c1 = w1; c2 = w2; c3 = w3 }

-- `for (ii ..; ii < 11; ii++)` with `left` rounds to go, after the bytes `p`.
unfoldable pub expand_from : ℕ → ℕ → Block → List Block
expand_from zero ii p = []
expand_from (suc left) ii p = let q = expand_round ii p in q ∷ expand_from left (ii + 1) q

-- The 176 bytes of `expandedKey`.
unfoldable pub expand_key : Block → List Block
expand_key key = key ∷ expand_from 10 1 key

-- "addroundkey, sbox and shiftrows": row `r` moves left by `r` columns.
unfoldable pub sub_shift : Block → Block → Block
sub_shift k s = record {
  c0 = record {
    r0 = sbox (bit_xor s.c0.r0 k.c0.r0);
    r1 = sbox (bit_xor s.c1.r1 k.c1.r1);
    r2 = sbox (bit_xor s.c2.r2 k.c2.r2);
    r3 = sbox (bit_xor s.c3.r3 k.c3.r3);
  };
  c1 = record {
    r0 = sbox (bit_xor s.c1.r0 k.c1.r0);
    r1 = sbox (bit_xor s.c2.r1 k.c2.r1);
    r2 = sbox (bit_xor s.c3.r2 k.c3.r2);
    r3 = sbox (bit_xor s.c0.r3 k.c0.r3);
  };
  c2 = record {
    r0 = sbox (bit_xor s.c2.r0 k.c2.r0);
    r1 = sbox (bit_xor s.c3.r1 k.c3.r1);
    r2 = sbox (bit_xor s.c0.r2 k.c0.r2);
    r3 = sbox (bit_xor s.c1.r3 k.c1.r3);
  };
  c3 = record {
    r0 = sbox (bit_xor s.c3.r0 k.c3.r0);
    r1 = sbox (bit_xor s.c0.r1 k.c0.r1);
    r2 = sbox (bit_xor s.c1.r2 k.c1.r2);
    r3 = sbox (bit_xor s.c2.r3 k.c2.r3);
  };
}

-- "mixcolums" of one column. `buf2` keeps the first byte as it was.
unfoldable pub mix_column : Column → Column
mix_column s =
    let buf1 = bit_xor (bit_xor (bit_xor s.r0 s.r1) s.r2) s.r3 in
    let buf2 = s.r0 in
    record {
      r0 = bit_xor (bit_xor s.r0 (galois_mul2 (bit_xor s.r0 s.r1))) buf1;
      r1 = bit_xor (bit_xor s.r1 (galois_mul2 (bit_xor s.r1 s.r2))) buf1;
      r2 = bit_xor (bit_xor s.r2 (galois_mul2 (bit_xor s.r2 s.r3))) buf1;
      r3 = bit_xor (bit_xor s.r3 (galois_mul2 (bit_xor s.r3 buf2))) buf1;
    }

unfoldable pub mix_columns : Block → Block
mix_columns s = record {
  c0 = mix_column s.c0;
  c1 = mix_column s.c1;
  c2 = mix_column s.c2;
  c3 = mix_column s.c3;
}

-- `state[i] ^= expandedKey[160 + i]` of one column, then of the block.
unfoldable pub xor_column : Column → Column → Column
xor_column k s = record {
  r0 = bit_xor s.r0 k.r0;
  r1 = bit_xor s.r1 k.r1;
  r2 = bit_xor s.r2 k.r2;
  r3 = bit_xor s.r3 k.r3;
}

unfoldable pub add_round_key : Block → Block → Block
add_round_key k s = record {
  c0 = xor_column k.c0 s.c0;
  c1 = xor_column k.c1 s.c1;
  c2 = xor_column k.c2 s.c2;
  c3 = xor_column k.c3 s.c3;
}

-- The state after the rounds `0 .. n - 1` of the loop of `aes_encr`.
unfoldable pub encr_rounds : List Block → ℕ → Block → Block
encr_rounds keys zero s = s
encr_rounds keys (suc n) s = mix_columns (sub_shift (round_key keys n) (encr_rounds keys n s))

unfoldable pub aes_encr : Block → List Block → Block
aes_encr s keys =
    add_round_key (round_key keys 10) (sub_shift (round_key keys 9) (encr_rounds keys 9 s))

-- "addroundkey, rsbox and shiftrows" of `aes_decr`: row `r` moves right by `r` columns.
unfoldable pub unshift_sub : Block → Block → Block
unshift_sub k s = record {
  c0 = record {
    r0 = bit_xor (rsbox s.c0.r0) k.c0.r0;
    r1 = bit_xor (rsbox s.c3.r1) k.c0.r1;
    r2 = bit_xor (rsbox s.c2.r2) k.c0.r2;
    r3 = bit_xor (rsbox s.c1.r3) k.c0.r3;
  };
  c1 = record {
    r0 = bit_xor (rsbox s.c1.r0) k.c1.r0;
    r1 = bit_xor (rsbox s.c0.r1) k.c1.r1;
    r2 = bit_xor (rsbox s.c3.r2) k.c1.r2;
    r3 = bit_xor (rsbox s.c2.r3) k.c1.r3;
  };
  c2 = record {
    r0 = bit_xor (rsbox s.c2.r0) k.c2.r0;
    r1 = bit_xor (rsbox s.c1.r1) k.c2.r1;
    r2 = bit_xor (rsbox s.c0.r2) k.c2.r2;
    r3 = bit_xor (rsbox s.c3.r3) k.c2.r3;
  };
  c3 = record {
    r0 = bit_xor (rsbox s.c3.r0) k.c3.r0;
    r1 = bit_xor (rsbox s.c2.r1) k.c3.r1;
    r2 = bit_xor (rsbox s.c1.r2) k.c3.r2;
    r3 = bit_xor (rsbox s.c0.r3) k.c3.r3;
  };
}

-- "barreto": what `aes_decr` does to a column before it mixes it.
unfoldable pub barreto : Column → Column
barreto s =
    let buf1 = galois_mul2 (galois_mul2 (bit_xor s.r0 s.r2)) in
    let buf2 = galois_mul2 (galois_mul2 (bit_xor s.r1 s.r3)) in
    record {
      r0 = bit_xor s.r0 buf1;
      r1 = bit_xor s.r1 buf2;
      r2 = bit_xor s.r2 buf1;
      r3 = bit_xor s.r3 buf2;
    }

unfoldable pub barreto_columns : Block → Block
barreto_columns s = record {
  c0 = barreto s.c0;
  c1 = barreto s.c1;
  c2 = barreto s.c2;
  c3 = barreto s.c3;
}

-- The rounds `n - 1, .., 0` of the loop of `aes_decr`.
unfoldable pub decr_rounds : List Block → ℕ → Block → Block
decr_rounds keys zero s = s
decr_rounds keys (suc n) s =
    decr_rounds keys n (unshift_sub (round_key keys n) (mix_columns (barreto_columns s)))

unfoldable pub aes_decr : Block → List Block → Block
aes_decr s keys =
    decr_rounds keys 9 (unshift_sub (round_key keys 9) (add_round_key (round_key keys 10) s))

unfoldable pub aes_encrypt : Block → Block → Block
aes_encrypt state key = aes_encr state (expand_key key)

unfoldable pub aes_decrypt : Block → Block → Block
aes_decrypt state key = aes_decr state (expand_key key)
