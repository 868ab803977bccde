-- ===== src/Aes/Schedule.antt =====
-- `expandKey` computes the key schedule of FIPS 197.
use arduino_spider_l3s_libra.Base.{
  ℕ, zero, suc, ◌+◌, ◌*◌, ◌/◌, ◌%◌, ◌≤◌, ◌<◌, ◌==◌, ◌≡◌, refl, ap, sym, ◌∙◌, true, false, All,
  arith, ltb, ltb→lt,
}
use native.Mathlib.Numerals.{add-one}
use arduino_spider_l3s_libra.Base.Table.{all_below, at_all_below, eq_below}
use arduino_spider_l3s_libra.Base.Xor.{xor_assoc, xor_comm, xor_left_comm, xor-IsByte}
use arduino_spider_l3s_libra.Aes.{
  Column, Block, IsColumn, IsBlock, round_key, xor_column, expand_round, expand_from, expand_key,
  aes_encrypt, aes_decrypt,
}
use arduino_spider_l3s_libra.Aes.Tables.{sbox, rcon}
use arduino_spider_l3s_libra.Aes.Substitution.{sbox-IsByte}
use arduino_spider_l3s_libra.Aes.RoundTrip.{
  aes_decr-aes_encr, aes_encr-aes_decr, aes_encr-IsBlock, aes_decr-IsBlock,
}
use arduino_spider_l3s_libra.Aes.Fips.{round_constant, schedule_core, schedule_word, schedule_block}

rcon_byte : (i : ℕ) → i < 11 → rcon i < 256
rcon_byte i h = ltb→lt _ _ (at_all_below (λ j. ltb (rcon j) 256) 11 i h table)
  where
    table : all_below 11 (λ j. ltb (rcon j) 256) ≡ true
    table = unfold all_below rcon in refl

rcon_powers : (i : ℕ) → i < 10 → rcon (suc i) ≡ round_constant (suc i)
rcon_powers = eq_below 10 (λ i. rcon (suc i)) (λ i. round_constant (suc i)) table
  where
    table : all_below 10 (λ i. rcon (suc i) == round_constant (suc i)) ≡ true
    table = unfold all_below rcon in refl

-- A word that 4 does not divide is the sum of the one before it and the one four back.
schedule_word_plain :
    (key : Block) (n : ℕ)
    → (n % 4 == 0) ≡ false
    → schedule_word key (suc (suc (suc (suc n))))
      ≡ xor_column (schedule_word key (suc (suc (suc n)))) (schedule_word key n)
unfolding schedule_word
schedule_word_plain key n e = rw e

schedule_word_core :
    (key : Block) (n : ℕ)
    → (n % 4 == 0) ≡ true
    → schedule_word key (suc (suc (suc (suc n))))
      ≡ xor_column
          (schedule_core (round_constant (n / 4 + 1)) (schedule_word key (suc (suc (suc n)))))
          (schedule_word key n)
unfolding schedule_word
schedule_word_core key n e = rw e

-- `expand_round` by words.
expand_round_words :
    (ii : ℕ) (p : Block)
    → let w0 = xor_column (schedule_core (rcon ii) p.c3) p.c0 in
      let w1 = xor_column w0 p.c1 in
      let w2 = xor_column w1 p.c2 in
      let w3 = xor_column w2 p.c3 in
      expand_round ii p ≡ record { c0 = w0; c1 = w1; c2 = w2; c3 = w3 }
unfolding expand_round xor_column schedule_core
expand_round_words ii p = λ i. record {
  c0 = w0 i;
  c1 = xor_column (w0 i) p.c1;
  c2 = xor_column (xor_column (w0 i) p.c1) p.c2;
  c3 = xor_column (xor_column (xor_column (w0 i) p.c1) p.c2) p.c3;
}
  where
    w0 : (expand_round ii p).c0 ≡ xor_column (schedule_core (rcon ii) p.c3) p.c0
    w0 = λ i. record {
      r0 = (xor_assoc _ p.c0.r0 _ ∙ xor_left_comm (sbox p.c3.r1) p.c0.r0 (rcon ii)) i;
      r1 = xor_comm (sbox p.c3.r2) p.c0.r1 i;
      r2 = xor_comm (sbox p.c3.r3) p.c0.r2 i;
      r3 = xor_comm (sbox p.c3.r0) p.c0.r3 i;
    }

-- One round takes the words `n .. n + 3` of the schedule to the next four.
expand_round-schedule :
    (key : Block) (n : ℕ)
    → n % 4 ≡ 0
    → n < 40
    → expand_round (n / 4 + 1) (schedule_block key n) ≡ schedule_block key (suc (suc (suc (suc n))))
expand_round-schedule key n e h =
    expand_round_words (n / 4 + 1) (schedule_block key n)
    ∙ (λ i. record { c0 = w0 i; c1 = w1 i; c2 = w2 i; c3 = w3 i })
  where
    at : ℕ → Column
    at = schedule_word key

    constant : rcon (n / 4 + 1) ≡ round_constant (n / 4 + 1)
    constant = rw add-one (rcon_powers (n / 4) (omega arith))

    w0 :
        xor_column (schedule_core (rcon (n / 4 + 1)) (at (suc (suc (suc n))))) (at n)
        ≡ at (suc (suc (suc (suc n))))
    w0 = rw constant (sym (schedule_word_core key n (ground arith)))

    w1 :
        xor_column
          (xor_column (schedule_core (rcon (n / 4 + 1)) (at (suc (suc (suc n))))) (at n))
          (at (suc n))
        ≡ at (suc (suc (suc (suc (suc n)))))
    w1 = rw w0 (sym (schedule_word_plain key (suc n) (ground arith)))

    w2 :
        xor_column
          (xor_column
            (xor_column (schedule_core (rcon (n / 4 + 1)) (at (suc (suc (suc n))))) (at n))
            (at (suc n)))
          (at (suc (suc n)))
        ≡ at (suc (suc (suc (suc (suc (suc n))))))
    w2 = rw w1 (sym (schedule_word_plain key (suc (suc n)) (ground arith)))

    w3 :
        xor_column
          (xor_column
            (xor_column
              (xor_column (schedule_core (rcon (n / 4 + 1)) (at (suc (suc (suc n))))) (at n))
              (at (suc n)))
            (at (suc (suc n))))
          (at (suc (suc (suc n))))
        ≡ at (suc (suc (suc (suc (suc (suc (suc n)))))))
    w3 = rw w2 (sym (schedule_word_plain key (suc (suc (suc n))) (ground arith)))

four_more : (n : ℕ) → suc (suc (suc (suc n))) ≡ n + 4
four_more n = omega arith

expand_from-schedule :
    (key : Block) (left n r : ℕ)
    → n % 4 ≡ 0
    → n + 4 * left ≤ 40
    → r < left
    → round_key (expand_from left (n / 4 + 1) (schedule_block key n)) r
      ≡ schedule_block key (n + 4 * (r + 1))
unfolding expand_from
expand_from-schedule key zero n r e h p = absurd (omega arith)
expand_from-schedule key (suc left) n zero e h p =
    expand_round-schedule key n e (omega arith) ∙ ap (schedule_block key) (omega arith)
expand_from-schedule key (suc left) n (suc r) e h p =
    rw (expand_round-schedule key n e (omega arith), four_more n, next)
      (expand_from-schedule key left (n + 4) r (omega arith) (omega arith) (omega arith)
        ∙ ap (schedule_block key) (omega arith))
  where
    next : n / 4 + 1 + 1 ≡ (n + 4) / 4 + 1
    next = omega arith

-- `expandKey` is the key schedule of FIPS 197: for every key and every round `r` from 0 to 10, the
-- sixteen bytes at `16 * r` are the words `4 * r` to `4 * r + 3` of the schedule.
pub expand_key-schedule :
    (key : Block) (r : ℕ) → r ≤ 10 → round_key (expand_key key) r ≡ schedule_block key (4 * r)
unfolding expand_key schedule_word
expand_key-schedule key zero h = refl
expand_key-schedule key (suc r) h =
    expand_from-schedule key 10 0 r refl (omega arith) (omega arith)
    ∙ ap (schedule_block key) (omega arith)

xor_column-IsColumn : {k s : Column} → IsColumn k → IsColumn s → IsColumn (xor_column k s)
unfolding xor_column
xor_column-IsColumn g h = record {
  b0 = xor-IsByte _ _ h.b0 g.b0;
  b1 = xor-IsByte _ _ h.b1 g.b1;
  b2 = xor-IsByte _ _ h.b2 g.b2;
  b3 = xor-IsByte _ _ h.b3 g.b3;
}

schedule_core-IsColumn : {c : ℕ} {w : Column} → c < 256 → IsColumn w → IsColumn (schedule_core c w)
unfolding schedule_core
schedule_core-IsColumn p h = record {
  b0 = xor-IsByte _ _ (sbox-IsByte _ h.b1) p;
  b1 = sbox-IsByte _ h.b2;
  b2 = sbox-IsByte _ h.b3;
  b3 = sbox-IsByte _ h.b0;
}

expand_round-IsBlock : (ii : ℕ) (p : Block) → ii < 11 → IsBlock p → IsBlock (expand_round ii p)
expand_round-IsBlock ii p e h =
    rw (expand_round_words ii p)
      (record { p0 = w0; p1 = w1; p2 = w2; p3 = xor_column-IsColumn w2 h.p3 })
  where
    w0 : IsColumn (xor_column (schedule_core (rcon ii) p.c3) p.c0)
    w0 = xor_column-IsColumn (schedule_core-IsColumn (rcon_byte ii e) h.p3) h.p0

    w1 : IsColumn (xor_column (xor_column (schedule_core (rcon ii) p.c3) p.c0) p.c1)
    w1 = xor_column-IsColumn w0 h.p1

    w2 :
        IsColumn
          (xor_column (xor_column (xor_column (schedule_core (rcon ii) p.c3) p.c0) p.c1) p.c2)
    w2 = xor_column-IsColumn w1 h.p2

expand_from-IsBlock :
    (left ii : ℕ) (p : Block) → ii + left ≤ 11 → IsBlock p → All IsBlock (expand_from left ii p)
unfolding expand_from
expand_from-IsBlock zero ii p e h = tt
expand_from-IsBlock (suc left) ii p e h =
    let q = expand_round-IsBlock ii p (omega arith) h in
    (q, expand_from-IsBlock left (ii + 1) (expand_round ii p) (omega arith) q)

pub expand_key-IsBlock : {key : Block} → IsBlock key → All IsBlock (expand_key key)
unfolding expand_key
expand_key-IsBlock {key} h = (h, expand_from-IsBlock 10 1 key (omega arith) h)

-- `aes_decrypt` undoes `aes_encrypt`: for every block and every key made of bytes, decrypting what was
-- encrypted under the same key gives the block back.
pub aes_decrypt-aes_encrypt :
    (state key : Block)
    → IsBlock state
    → IsBlock key
    → aes_decrypt (aes_encrypt state key) key ≡ state
unfolding aes_encrypt aes_decrypt
aes_decrypt-aes_encrypt state key h g =
    aes_decr-aes_encr state (expand_key key) h (expand_key-IsBlock g)

-- For a block and a key made of bytes, what `aes_encrypt` and `aes_decrypt` return is made of bytes too,
-- and encrypting what was decrypted under the same key gives the block back: under a key both permute
-- the blocks of bytes.
pub aes_encrypt-IsBlock :
    (state key : Block)
    → IsBlock state
    → IsBlock key
    → IsBlock (aes_encrypt state key)
      × IsBlock (aes_decrypt state key)
      × (aes_encrypt (aes_decrypt state key) key ≡ state)
unfolding aes_encrypt aes_decrypt
aes_encrypt-IsBlock state key h g = (
  aes_encr-IsBlock state (expand_key key) h (expand_key-IsBlock g),
  aes_decr-IsBlock state (expand_key key) h (expand_key-IsBlock g),
  aes_encr-aes_decr state (expand_key key) h (expand_key-IsBlock g),
)
