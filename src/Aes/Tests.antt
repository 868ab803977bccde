-- ===== src/Aes/Tests.antt =====
-- The ciphers of security.c at the example of FIPS 197, appendix C.1, and the theorems at it.
use arduino_spider_l3s_libra.Base.{◌<◌, ◌⊎◌, ℕ, ◌*◌, ◌≡◌, refl, arith}
use arduino_spider_l3s_libra.Aes.{
  Block, IsBlock, round_key, expand_key, aes_encr, aes_encrypt, aes_decrypt, encr_rounds,
  expand_from, expand_round, sub_shift, mix_columns, mix_column, add_round_key, xor_column,
}
use arduino_spider_l3s_libra.Aes.Fips.{gf_mul, affine, schedule_block, cipher}
use arduino_spider_l3s_libra.Aes.Cipher.{sbox_is_affine_inverse, aes_encr-cipher}
use arduino_spider_l3s_libra.Aes.Schedule.{
  expand_key-schedule, expand_key-IsBlock, aes_decrypt-aes_encrypt, aes_encrypt-IsBlock,
}
use arduino_spider_l3s_libra.Aes.Tables.{sbox, rcon}
use arduino_spider_l3s_libra.Aes.Galois.{galois_mul2}

abbrev plain : Block
plain = record {
  c0 = record { r0 = 0x00; r1 = 0x11; r2 = 0x22; r3 = 0x33 };
  c1 = record { r0 = 0x44; r1 = 0x55; r2 = 0x66; r3 = 0x77 };
  c2 = record { r0 = 0x88; r1 = 0x99; r2 = 0xaa; r3 = 0xbb };
  c3 = record { r0 = 0xcc; r1 = 0xdd; r2 = 0xee; r3 = 0xff };
}

abbrev secret : Block
secret = record {
  c0 = record { r0 = 0x00; r1 = 0x01; r2 = 0x02; r3 = 0x03 };
  c1 = record { r0 = 0x04; r1 = 0x05; r2 = 0x06; r3 = 0x07 };
  c2 = record { r0 = 0x08; r1 = 0x09; r2 = 0x0a; r3 = 0x0b };
  c3 = record { r0 = 0x0c; r1 = 0x0d; r2 = 0x0e; r3 = 0x0f };
}

abbrev hidden : Block
hidden = record {
  c0 = record { r0 = 0x69; r1 = 0xc4; r2 = 0xe0; r3 = 0xd8 };
  c1 = record { r0 = 0x6a; r1 = 0x7b; r2 = 0x04; r3 = 0x30 };
  c2 = record { r0 = 0xd8; r1 = 0xcd; r2 = 0xb7; r3 = 0x80 };
  c3 = record { r0 = 0x70; r1 = 0xb4; r2 = 0xc5; r3 = 0x5a };
}

fips_vector : aes_encrypt plain secret ≡ hidden
unfolding aes_encrypt aes_encr encr_rounds expand_key expand_from expand_round sub_shift mix_columns
    mix_column add_round_key xor_column sbox rcon galois_mul2
fips_vector = refl

plain-IsBlock : IsBlock plain
plain-IsBlock = omega arith

secret-IsBlock : IsBlock secret
secret-IsBlock = omega arith

aes_decrypt-aes_encrypt_example : aes_decrypt (aes_encrypt plain secret) secret ≡ plain
aes_decrypt-aes_encrypt_example = aes_decrypt-aes_encrypt plain secret plain-IsBlock secret-IsBlock

aes_encrypt-IsBlock_example :
    IsBlock (aes_encrypt plain secret)
    × IsBlock (aes_decrypt plain secret)
    × (aes_encrypt (aes_decrypt plain secret) secret ≡ plain)
aes_encrypt-IsBlock_example = aes_encrypt-IsBlock plain secret plain-IsBlock secret-IsBlock

aes_encr-cipher_example : aes_encr plain (expand_key secret) ≡ cipher plain (expand_key secret)
aes_encr-cipher_example =
    aes_encr-cipher plain (expand_key secret) plain-IsBlock (expand_key-IsBlock secret-IsBlock)

expand_key-schedule_example : round_key (expand_key secret) 7 ≡ schedule_block secret (4 * 7)
expand_key-schedule_example = expand_key-schedule secret 7 (omega arith)

sbox_is_affine_inverse_example :
    (y : ℕ) × (y < 256)
    × (sbox 0x53 ≡ affine y)
    × ((◌≡◌ {A = ℕ} 0x53 0) × (y ≡ 0) ⊎ (gf_mul 0x53 y ≡ 1))
sbox_is_affine_inverse_example = sbox_is_affine_inverse 0x53 (omega arith)
