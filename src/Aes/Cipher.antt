-- ===== src/Aes/Cipher.antt =====
-- `aes_encr` is the cipher of FIPS 197, and the table `sbox` is its substitution box.
use arduino_spider_l3s_libra.Base.{
  Bool-cases, ==_iff, inl, inr, ◌⊎◌, ◌∙◌, ℕ, zero, suc, ◌<◌, ◌==◌, bit_xor, ◌≡◌, refl, sym, ap,
  true, ltb, ltb→lt, List, [], ◌∷◌, All, if◌then◌else◌,
}
use arduino_spider_l3s_libra.Base.Table.{all_below, at_all_below, eq_below}
use arduino_spider_l3s_libra.Aes.{
  Column, Block, IsColumn, IsBlock, round_key, sub_shift, mix_column, mix_columns, xor_column,
  add_round_key, encr_rounds, aes_encr,
}
use arduino_spider_l3s_libra.Aes.Tables.{sbox}
use arduino_spider_l3s_libra.Aes.Galois.{galois_mul2}
use arduino_spider_l3s_libra.Aes.Linear.{Sum, v, ◌⊕◌, mul2, eval, by_parity}
use arduino_spider_l3s_libra.Aes.RoundTrip.{
  add_round_key-IsBlock, sub_shift-IsBlock, round_key-IsBlock, encr_rounds-IsBlock,
}
use arduino_spider_l3s_libra.Aes.Fips.{
  gf_mul, gf_inverse, s_box, affine, inv_affine, sub_column, sub_bytes, shift_rows, mix_product,
  mix_products, cipher_rounds, cipher,
}

mul_two_table : all_below 256 (λ a. gf_mul a 2 == galois_mul2 a) ≡ true
unfolding all_below gf_mul galois_mul2
mul_two_table = refl

mul_three_table : all_below 256 (λ a. gf_mul a 3 == bit_xor (galois_mul2 a) a) ≡ true
unfolding all_below gf_mul galois_mul2
mul_three_table = refl

-- `galois_mul2` is multiplication by 2 in the field: for every byte, it is the product of that byte
-- and 2 modulo the cipher's polynomial.
pub galois_mul2-gf_mul : (a : ℕ) → a < 256 → gf_mul a 2 ≡ galois_mul2 a
galois_mul2-gf_mul = eq_below 256 (λ a. gf_mul a 2) galois_mul2 mul_two_table

mul_three : (a : ℕ) → a < 256 → gf_mul a 3 ≡ bit_xor (galois_mul2 a) a
mul_three = eq_below 256 (λ a. gf_mul a 3) (λ a. bit_xor (galois_mul2 a) a) mul_three_table

inverse_table :
    all_below 256 (λ x. gf_mul x (inv_affine (sbox x)) == (if x == 0 then 0 else 1)) ≡ true
unfolding all_below gf_mul inv_affine sbox
inverse_table = refl

affine_table : all_below 256 (λ x. affine (inv_affine (sbox x)) == sbox x) ≡ true
unfolding all_below affine inv_affine sbox
affine_table = refl

byte_table : all_below 256 (λ x. ltb (inv_affine (sbox x)) 256) ≡ true
unfolding all_below inv_affine sbox
byte_table = refl

-- The table `sbox` holds at every byte the affine image of that byte's inverse in the field: there is
-- a byte `y` with `sbox x` the affine image of `y`, and `x` and `y` are both 0 or their product is 1.
pub sbox_is_affine_inverse :
    (x : ℕ)
    → x < 256
    → (y : ℕ) × (y < 256) × (sbox x ≡ affine y) × ((x ≡ 0) × (y ≡ 0) ⊎ (gf_mul x y ≡ 1))
unfolding inv_affine sbox
sbox_is_affine_inverse x h = (
  inv_affine (sbox x),
  ltb→lt _ _ (at_all_below (λ n. ltb (inv_affine (sbox n)) 256) 256 x h byte_table),
  sym (eq_below 256 (λ x. affine (inv_affine (sbox x))) sbox affine_table x h),
  elim (Bool-cases (x == 0)) [
    | inl e ↦ let zero_lem : x ≡ 0 = (==_iff x 0).0 e in inl (zero_lem, rw zero_lem refl)
    | inr e ↦ inr (inverse ∙ rw e refl)
  ],
)
  where
    inverse : gf_mul x (inv_affine (sbox x)) ≡ (if x == 0 then 0 else 1)
    inverse =
        eq_below 256 (λ x. gf_mul x (inv_affine (sbox x))) (λ x. if x == 0 then 0 else 1)
          inverse_table x h

abbrev bytes : Column → List ℕ
bytes s = s.r0 ∷ s.r1 ∷ s.r2 ∷ s.r3 ∷ []

-- One byte of `mix_column`, from the neighbours that follow it.
abbrev mixed : ℕ → ℕ → Sum
mixed i j = v i ⊕ mul2 (v i ⊕ v j) ⊕ (v 0 ⊕ v 1 ⊕ v 2 ⊕ v 3)

abbrev three : ℕ → Sum
three i = mul2 (v i) ⊕ v i

mix_product_lem : {s : Column} → IsColumn s → mix_product s ≡ mix_column s
unfolding mix_product mix_column
mix_product_lem {s} h = λ i. record { r0 = row0 i; r1 = row1 i; r2 = row2 i; r3 = row3 i }
  where
    row0 :
        bit_xor (bit_xor (bit_xor (gf_mul s.r0 2) (gf_mul s.r1 3)) s.r2) s.r3
        ≡ eval (bytes s) (mixed 0 1)
    row0 =
        rw (galois_mul2-gf_mul s.r0 h.b0, mul_three s.r1 h.b1)
          (by_parity (bytes s) (mul2 (v 0) ⊕ three 1 ⊕ v 2 ⊕ v 3) (mixed 0 1) refl)

    row1 :
        bit_xor (bit_xor (bit_xor s.r0 (gf_mul s.r1 2)) (gf_mul s.r2 3)) s.r3
        ≡ eval (bytes s) (mixed 1 2)
    row1 =
        rw (galois_mul2-gf_mul s.r1 h.b1, mul_three s.r2 h.b2)
          (by_parity (bytes s) (v 0 ⊕ mul2 (v 1) ⊕ three 2 ⊕ v 3) (mixed 1 2) refl)

    row2 :
        bit_xor (bit_xor (bit_xor s.r0 s.r1) (gf_mul s.r2 2)) (gf_mul s.r3 3)
        ≡ eval (bytes s) (mixed 2 3)
    row2 =
        rw (galois_mul2-gf_mul s.r2 h.b2, mul_three s.r3 h.b3)
          (by_parity (bytes s) (v 0 ⊕ v 1 ⊕ mul2 (v 2) ⊕ three 3) (mixed 2 3) refl)

    row3 :
        bit_xor (bit_xor (bit_xor (gf_mul s.r0 3) s.r1) s.r2) (gf_mul s.r3 2)
        ≡ eval (bytes s) (mixed 3 0)
    row3 =
        rw (galois_mul2-gf_mul s.r3 h.b3, mul_three s.r0 h.b0)
          (by_parity (bytes s) (three 0 ⊕ v 1 ⊕ v 2 ⊕ mul2 (v 3)) (mixed 3 0) refl)

mix_products_lem : {s : Block} → IsBlock s → mix_products s ≡ mix_columns s
unfolding mix_products mix_columns
mix_products_lem h = λ i. record {
  c0 = mix_product_lem h.p0 i;
  c1 = mix_product_lem h.p1 i;
  c2 = mix_product_lem h.p2 i;
  c3 = mix_product_lem h.p3 i;
}

s_box_table : all_below 256 (λ x. s_box x == sbox x) ≡ true
unfolding all_below s_box gf_inverse gf_mul affine sbox
s_box_table = refl

s_box-sbox : (x : ℕ) → x < 256 → s_box x ≡ sbox x
s_box-sbox = eq_below 256 s_box sbox s_box_table

-- The bytes of a column through the code's table.
abbrev looked_up : Column → Column
looked_up s = record { r0 = sbox s.r0; r1 = sbox s.r1; r2 = sbox s.r2; r3 = sbox s.r3 }

sub_column_lem : {s : Column} → IsColumn s → sub_column s ≡ looked_up s
unfolding sub_column
sub_column_lem {s} h i = record {
  r0 = s_box-sbox s.r0 h.b0 i;
  r1 = s_box-sbox s.r1 h.b1 i;
  r2 = s_box-sbox s.r2 h.b2 i;
  r3 = s_box-sbox s.r3 h.b3 i;
}

abbrev looked_up_block : Block → Block
looked_up_block s = record {
  c0 = looked_up s.c0;
  c1 = looked_up s.c1;
  c2 = looked_up s.c2;
  c3 = looked_up s.c3;
}

sub_bytes_lem : {s : Block} → IsBlock s → sub_bytes s ≡ looked_up_block s
unfolding sub_bytes
sub_bytes_lem h i = record {
  c0 = sub_column_lem h.p0 i;
  c1 = sub_column_lem h.p1 i;
  c2 = sub_column_lem h.p2 i;
  c3 = sub_column_lem h.p3 i;
}

looked_up-sub_shift :
    (k s : Block) → shift_rows (looked_up_block (add_round_key k s)) ≡ sub_shift k s
unfolding shift_rows add_round_key xor_column sub_shift
looked_up-sub_shift k s = refl

sub_shift_lem :
    (k s : Block)
    → IsBlock k
    → IsBlock s
    → shift_rows (sub_bytes (add_round_key k s)) ≡ sub_shift k s
sub_shift_lem k s g h =
    ap shift_rows (sub_bytes_lem (add_round_key-IsBlock g h)) ∙ looked_up-sub_shift k s

module _ (keys : List Block) (g : All IsBlock keys) {s : Block} (h : IsBlock s) where
  cipher_rounds_lem :
      (n : ℕ) → cipher_rounds keys n s ≡ add_round_key (round_key keys n) (encr_rounds keys n s)
  unfolding cipher_rounds encr_rounds
  cipher_rounds_lem zero = refl
  cipher_rounds_lem (suc n) =
      rw
        (
          cipher_rounds_lem n,
          sub_shift_lem (round_key keys n) (encr_rounds keys n s) (round_key-IsBlock keys n g)
              (encr_rounds-IsBlock keys g n h),
        )
        (ap (add_round_key (round_key keys (suc n))) (
          mix_products_lem
            (sub_shift-IsBlock (round_key-IsBlock keys n g) (encr_rounds-IsBlock keys g n h))))

-- The optimised encryption is the cipher of FIPS 197: for every block and round keys made of bytes,
-- `aes_encr` returns what the specification's SubBytes, ShiftRows, MixColumns and AddRoundKey give,
-- where SubBytes is computed, as the affine image of the inverse in the field, and not looked up.
pub aes_encr-cipher :
    (s : Block) (keys : List Block) → IsBlock s → All IsBlock keys → aes_encr s keys ≡ cipher s keys
unfolding aes_encr cipher
aes_encr-cipher s keys h g = rw (
  cipher_rounds_lem keys g h 9,
  sub_shift_lem (round_key keys 9) (encr_rounds keys 9 s) (round_key-IsBlock keys 9 g)
      (encr_rounds-IsBlock keys g 9 h),
)
