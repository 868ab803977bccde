-- ===== src/Aes/RoundTrip.antt =====
-- `aes_decr` undoes `aes_encr`, and the other way round, under any round keys.
use arduino_spider_l3s_libra.Base.{ℕ, zero, suc, ◌≡◌, refl, arith, List, [], ◌∷◌, All}
use arduino_spider_l3s_libra.Base.Xor.{xor_cancel, xor-IsByte}
use arduino_spider_l3s_libra.Aes.{
  Block, IsBlock, zero_block, round_key, sub_shift, unshift_sub, mix_columns, barreto_columns,
  xor_column, add_round_key, encr_rounds, decr_rounds, aes_encr, aes_decr,
}
use arduino_spider_l3s_libra.Aes.Columns.{
  unmix-mix, mix-unmix, mix_column-IsColumn, barreto-IsColumn,
}
use arduino_spider_l3s_libra.Aes.Substitution.{unsub-sub, sub-unsub, sub-IsByte, unsub-IsByte}

module _ {k s : Block} (g : IsBlock k) (h : IsBlock s) where
  unshift_sub-sub_shift : unshift_sub k (sub_shift k s) ≡ s
  unfolding unshift_sub sub_shift
  unshift_sub-sub_shift = λ i. record {
    c0 = record {
      r0 = unsub-sub _ _ h.p0.b0 g.p0.b0 i;
      r1 = unsub-sub _ _ h.p0.b1 g.p0.b1 i;
      r2 = unsub-sub _ _ h.p0.b2 g.p0.b2 i;
      r3 = unsub-sub _ _ h.p0.b3 g.p0.b3 i;
    };
    c1 = record {
      r0 = unsub-sub _ _ h.p1.b0 g.p1.b0 i;
      r1 = unsub-sub _ _ h.p1.b1 g.p1.b1 i;
      r2 = unsub-sub _ _ h.p1.b2 g.p1.b2 i;
      r3 = unsub-sub _ _ h.p1.b3 g.p1.b3 i;
    };
    c2 = record {
      r0 = unsub-sub _ _ h.p2.b0 g.p2.b0 i;
      r1 = unsub-sub _ _ h.p2.b1 g.p2.b1 i;
      r2 = unsub-sub _ _ h.p2.b2 g.p2.b2 i;
      r3 = unsub-sub _ _ h.p2.b3 g.p2.b3 i;
    };
    c3 = record {
      r0 = unsub-sub _ _ h.p3.b0 g.p3.b0 i;
      r1 = unsub-sub _ _ h.p3.b1 g.p3.b1 i;
      r2 = unsub-sub _ _ h.p3.b2 g.p3.b2 i;
      r3 = unsub-sub _ _ h.p3.b3 g.p3.b3 i;
    };
  }

  sub_shift-unshift_sub : sub_shift k (unshift_sub k s) ≡ s
  unfolding unshift_sub sub_shift
  sub_shift-unshift_sub = λ i. record {
    c0 = record {
      r0 = sub-unsub s.c0.r0 k.c0.r0 h.p0.b0 i;
      r1 = sub-unsub s.c0.r1 k.c1.r1 h.p0.b1 i;
      r2 = sub-unsub s.c0.r2 k.c2.r2 h.p0.b2 i;
      r3 = sub-unsub s.c0.r3 k.c3.r3 h.p0.b3 i;
    };
    c1 = record {
      r0 = sub-unsub s.c1.r0 k.c1.r0 h.p1.b0 i;
      r1 = sub-unsub s.c1.r1 k.c2.r1 h.p1.b1 i;
      r2 = sub-unsub s.c1.r2 k.c3.r2 h.p1.b2 i;
      r3 = sub-unsub s.c1.r3 k.c0.r3 h.p1.b3 i;
    };
    c2 = record {
      r0 = sub-unsub s.c2.r0 k.c2.r0 h.p2.b0 i;
      r1 = sub-unsub s.c2.r1 k.c3.r1 h.p2.b1 i;
      r2 = sub-unsub s.c2.r2 k.c0.r2 h.p2.b2 i;
      r3 = sub-unsub s.c2.r3 k.c1.r3 h.p2.b3 i;
    };
    c3 = record {
      r0 = sub-unsub s.c3.r0 k.c3.r0 h.p3.b0 i;
      r1 = sub-unsub s.c3.r1 k.c0.r1 h.p3.b1 i;
      r2 = sub-unsub s.c3.r2 k.c1.r2 h.p3.b2 i;
      r3 = sub-unsub s.c3.r3 k.c2.r3 h.p3.b3 i;
    };
  }

  pub sub_shift-IsBlock : IsBlock (sub_shift k s)
  unfolding sub_shift
  sub_shift-IsBlock = record {
    p0 = record {
      b0 = sub-IsByte _ _ h.p0.b0 g.p0.b0;
      b1 = sub-IsByte _ _ h.p1.b1 g.p1.b1;
      b2 = sub-IsByte _ _ h.p2.b2 g.p2.b2;
      b3 = sub-IsByte _ _ h.p3.b3 g.p3.b3;
    };
    p1 = record {
      b0 = sub-IsByte _ _ h.p1.b0 g.p1.b0;
      b1 = sub-IsByte _ _ h.p2.b1 g.p2.b1;
      b2 = sub-IsByte _ _ h.p3.b2 g.p3.b2;
      b3 = sub-IsByte _ _ h.p0.b3 g.p0.b3;
    };
    p2 = record {
      b0 = sub-IsByte _ _ h.p2.b0 g.p2.b0;
      b1 = sub-IsByte _ _ h.p3.b1 g.p3.b1;
      b2 = sub-IsByte _ _ h.p0.b2 g.p0.b2;
      b3 = sub-IsByte _ _ h.p1.b3 g.p1.b3;
    };
    p3 = record {
      b0 = sub-IsByte _ _ h.p3.b0 g.p3.b0;
      b1 = sub-IsByte _ _ h.p0.b1 g.p0.b1;
      b2 = sub-IsByte _ _ h.p1.b2 g.p1.b2;
      b3 = sub-IsByte _ _ h.p2.b3 g.p2.b3;
    };
  }

  unshift_sub-IsBlock : IsBlock (unshift_sub k s)
  unfolding unshift_sub
  unshift_sub-IsBlock = record {
    p0 = record {
      b0 = unsub-IsByte _ _ h.p0.b0 g.p0.b0;
      b1 = unsub-IsByte _ _ h.p3.b1 g.p0.b1;
      b2 = unsub-IsByte _ _ h.p2.b2 g.p0.b2;
      b3 = unsub-IsByte _ _ h.p1.b3 g.p0.b3;
    };
    p1 = record {
      b0 = unsub-IsByte _ _ h.p1.b0 g.p1.b0;
      b1 = unsub-IsByte _ _ h.p0.b1 g.p1.b1;
      b2 = unsub-IsByte _ _ h.p3.b2 g.p1.b2;
      b3 = unsub-IsByte _ _ h.p2.b3 g.p1.b3;
    };
    p2 = record {
      b0 = unsub-IsByte _ _ h.p2.b0 g.p2.b0;
      b1 = unsub-IsByte _ _ h.p1.b1 g.p2.b1;
      b2 = unsub-IsByte _ _ h.p0.b2 g.p2.b2;
      b3 = unsub-IsByte _ _ h.p3.b3 g.p2.b3;
    };
    p3 = record {
      b0 = unsub-IsByte _ _ h.p3.b0 g.p3.b0;
      b1 = unsub-IsByte _ _ h.p2.b1 g.p3.b1;
      b2 = unsub-IsByte _ _ h.p1.b2 g.p3.b2;
      b3 = unsub-IsByte _ _ h.p0.b3 g.p3.b3;
    };
  }

  pub add_round_key-IsBlock : IsBlock (add_round_key k s)
  unfolding add_round_key xor_column
  add_round_key-IsBlock = record {
    p0 = record {
      b0 = xor-IsByte _ _ h.p0.b0 g.p0.b0;
      b1 = xor-IsByte _ _ h.p0.b1 g.p0.b1;
      b2 = xor-IsByte _ _ h.p0.b2 g.p0.b2;
      b3 = xor-IsByte _ _ h.p0.b3 g.p0.b3;
    };
    p1 = record {
      b0 = xor-IsByte _ _ h.p1.b0 g.p1.b0;
      b1 = xor-IsByte _ _ h.p1.b1 g.p1.b1;
      b2 = xor-IsByte _ _ h.p1.b2 g.p1.b2;
      b3 = xor-IsByte _ _ h.p1.b3 g.p1.b3;
    };
    p2 = record {
      b0 = xor-IsByte _ _ h.p2.b0 g.p2.b0;
      b1 = xor-IsByte _ _ h.p2.b1 g.p2.b1;
      b2 = xor-IsByte _ _ h.p2.b2 g.p2.b2;
      b3 = xor-IsByte _ _ h.p2.b3 g.p2.b3;
    };
    p3 = record {
      b0 = xor-IsByte _ _ h.p3.b0 g.p3.b0;
      b1 = xor-IsByte _ _ h.p3.b1 g.p3.b1;
      b2 = xor-IsByte _ _ h.p3.b2 g.p3.b2;
      b3 = xor-IsByte _ _ h.p3.b3 g.p3.b3;
    };
  }

add_round_key_twice : (k s : Block) → add_round_key k (add_round_key k s) ≡ s
unfolding add_round_key xor_column
add_round_key_twice k s = λ i. record {
  c0 = record {
    r0 = xor_cancel s.c0.r0 k.c0.r0 i;
    r1 = xor_cancel s.c0.r1 k.c0.r1 i;
    r2 = xor_cancel s.c0.r2 k.c0.r2 i;
    r3 = xor_cancel s.c0.r3 k.c0.r3 i;
  };
  c1 = record {
    r0 = xor_cancel s.c1.r0 k.c1.r0 i;
    r1 = xor_cancel s.c1.r1 k.c1.r1 i;
    r2 = xor_cancel s.c1.r2 k.c1.r2 i;
    r3 = xor_cancel s.c1.r3 k.c1.r3 i;
  };
  c2 = record {
    r0 = xor_cancel s.c2.r0 k.c2.r0 i;
    r1 = xor_cancel s.c2.r1 k.c2.r1 i;
    r2 = xor_cancel s.c2.r2 k.c2.r2 i;
    r3 = xor_cancel s.c2.r3 k.c2.r3 i;
  };
  c3 = record {
    r0 = xor_cancel s.c3.r0 k.c3.r0 i;
    r1 = xor_cancel s.c3.r1 k.c3.r1 i;
    r2 = xor_cancel s.c3.r2 k.c3.r2 i;
    r3 = xor_cancel s.c3.r3 k.c3.r3 i;
  };
}

unmix_columns : (s : Block) → mix_columns (barreto_columns (mix_columns s)) ≡ s
unfolding mix_columns barreto_columns
unmix_columns s = λ i. record {
  c0 = unmix-mix s.c0 i;
  c1 = unmix-mix s.c1 i;
  c2 = unmix-mix s.c2 i;
  c3 = unmix-mix s.c3 i;
}

mix_unmix_columns : (s : Block) → mix_columns (mix_columns (barreto_columns s)) ≡ s
unfolding mix_columns barreto_columns
mix_unmix_columns s = λ i. record {
  c0 = mix-unmix s.c0 i;
  c1 = mix-unmix s.c1 i;
  c2 = mix-unmix s.c2 i;
  c3 = mix-unmix s.c3 i;
}

pub mix_columns-IsBlock : {s : Block} → IsBlock s → IsBlock (mix_columns s)
unfolding mix_columns
mix_columns-IsBlock h = record {
  p0 = mix_column-IsColumn h.p0;
  p1 = mix_column-IsColumn h.p1;
  p2 = mix_column-IsColumn h.p2;
  p3 = mix_column-IsColumn h.p3;
}

barreto_columns-IsBlock : {s : Block} → IsBlock s → IsBlock (barreto_columns s)
unfolding barreto_columns
barreto_columns-IsBlock h = record {
  p0 = barreto-IsColumn h.p0;
  p1 = barreto-IsColumn h.p1;
  p2 = barreto-IsColumn h.p2;
  p3 = barreto-IsColumn h.p3;
}

zero_block-IsBlock : IsBlock zero_block
zero_block-IsBlock = omega arith

pub round_key-IsBlock : (keys : List Block) (n : ℕ) → All IsBlock keys → IsBlock (round_key keys n)
round_key-IsBlock [] n g = zero_block-IsBlock
round_key-IsBlock (k ∷ keys) zero g = g.0
round_key-IsBlock (k ∷ keys) (suc n) g = round_key-IsBlock keys n g.1

module _ (keys : List Block) (g : All IsBlock keys) where
  pub encr_rounds-IsBlock : (n : ℕ) {s : Block} → IsBlock s → IsBlock (encr_rounds keys n s)
  unfolding encr_rounds
  encr_rounds-IsBlock zero h = h
  encr_rounds-IsBlock (suc n) h =
      mix_columns-IsBlock (sub_shift-IsBlock (round_key-IsBlock keys n g) (encr_rounds-IsBlock n h))

  decr_rounds-encr_rounds :
      (n : ℕ) {s : Block} → IsBlock s → decr_rounds keys n (encr_rounds keys n s) ≡ s
  unfolding encr_rounds decr_rounds
  decr_rounds-encr_rounds zero h = refl
  decr_rounds-encr_rounds (suc n) h =
      rw
        (
          unmix_columns,
          unshift_sub-sub_shift (round_key-IsBlock keys n g) (encr_rounds-IsBlock n h),
        )
        (decr_rounds-encr_rounds n h)

  encr_rounds-decr_rounds :
      (n : ℕ) {s : Block} → IsBlock s → encr_rounds keys n (decr_rounds keys n s) ≡ s
  unfolding encr_rounds decr_rounds
  encr_rounds-decr_rounds zero h = refl
  encr_rounds-decr_rounds (suc n) {s} h =
      let key = round_key-IsBlock keys n g in
      let unmixed = mix_columns-IsBlock (barreto_columns-IsBlock h) in
      rw
        (
          encr_rounds-decr_rounds n (unshift_sub-IsBlock key unmixed),
          sub_shift-unshift_sub key unmixed,
        )
        (mix_unmix_columns s)

  decr_rounds-IsBlock : (n : ℕ) {s : Block} → IsBlock s → IsBlock (decr_rounds keys n s)
  unfolding decr_rounds
  decr_rounds-IsBlock zero h = h
  decr_rounds-IsBlock (suc n) h = decr_rounds-IsBlock n (
      unshift_sub-IsBlock (round_key-IsBlock keys n g)
        (mix_columns-IsBlock (barreto_columns-IsBlock h)))

pub aes_encr-IsBlock :
    (s : Block) (keys : List Block) → IsBlock s → All IsBlock keys → IsBlock (aes_encr s keys)
unfolding aes_encr
aes_encr-IsBlock s keys h g =
    add_round_key-IsBlock (round_key-IsBlock keys 10 g)
      (sub_shift-IsBlock (round_key-IsBlock keys 9 g) (encr_rounds-IsBlock keys g 9 h))

pub aes_decr-IsBlock :
    (s : Block) (keys : List Block) → IsBlock s → All IsBlock keys → IsBlock (aes_decr s keys)
unfolding aes_decr
aes_decr-IsBlock s keys h g = decr_rounds-IsBlock keys g 9 (
    unshift_sub-IsBlock (round_key-IsBlock keys 9 g)
      (add_round_key-IsBlock (round_key-IsBlock keys 10 g) h))

-- Decryption undoes encryption: for every block of bytes and every list of round keys made of bytes,
-- `aes_decr` of what `aes_encr` returned, under the same keys, is the block.
pub aes_decr-aes_encr :
    (s : Block) (keys : List Block)
    → IsBlock s
    → All IsBlock keys
    → aes_decr (aes_encr s keys) keys ≡ s
unfolding aes_encr aes_decr
aes_decr-aes_encr s keys h g =
    rw
      (
        add_round_key_twice,
        unshift_sub-sub_shift (round_key-IsBlock keys 9 g) (encr_rounds-IsBlock keys g 9 h),
      )
      (decr_rounds-encr_rounds keys g 9 h)

-- Encryption undoes decryption: for every block of bytes and every list of round keys made of bytes,
-- `aes_encr` of what `aes_decr` returned, under the same keys, is the block.
pub aes_encr-aes_decr :
    (s : Block) (keys : List Block)
    → IsBlock s
    → All IsBlock keys
    → aes_encr (aes_decr s keys) keys ≡ s
unfolding aes_encr aes_decr
aes_encr-aes_decr s keys h g =
    let key = round_key-IsBlock keys 9 g in
    let last = add_round_key-IsBlock (round_key-IsBlock keys 10 g) h in
    rw
      (
        encr_rounds-decr_rounds keys g 9 (unshift_sub-IsBlock key last),
        sub_shift-unshift_sub key last,
      )
      (add_round_key_twice (round_key keys 10) s)
