-- ===== src/Aes/Substitution.antt =====
-- The two substitution tables of security.c.
use arduino_spider_l3s_libra.Base.{ℕ, ◌<◌, ◌==◌, ltb, bit_xor, ◌≡◌, refl, true, ltb→lt}
use arduino_spider_l3s_libra.Base.Table.{all_below, at_all_below, eq_below}
use arduino_spider_l3s_libra.Base.Xor.{xor_cancel, xor-IsByte}
use arduino_spider_l3s_libra.Aes.Tables.{sbox, rsbox}

unsub_sub_table : all_below 256 (λ x. rsbox (sbox x) == x) ≡ true
unfolding all_below sbox rsbox
unsub_sub_table = refl

sub_unsub_table : all_below 256 (λ x. sbox (rsbox x) == x) ≡ true
unfolding all_below sbox rsbox
sub_unsub_table = refl

sbox_byte_table : all_below 256 (λ x. ltb (sbox x) 256) ≡ true
unfolding all_below sbox
sbox_byte_table = refl

rsbox_byte_table : all_below 256 (λ x. ltb (rsbox x) 256) ≡ true
unfolding all_below rsbox
rsbox_byte_table = refl

pub rsbox-sbox : (x : ℕ) → x < 256 → rsbox (sbox x) ≡ x
rsbox-sbox = eq_below 256 (λ x. rsbox (sbox x)) (λ x. x) unsub_sub_table

pub sbox-rsbox : (x : ℕ) → x < 256 → sbox (rsbox x) ≡ x
sbox-rsbox = eq_below 256 (λ x. sbox (rsbox x)) (λ x. x) sub_unsub_table

pub sbox-IsByte : (x : ℕ) → x < 256 → sbox x < 256
sbox-IsByte x h = ltb→lt _ _ (at_all_below (λ x. ltb (sbox x) 256) 256 x h sbox_byte_table)

pub rsbox-IsByte : (x : ℕ) → x < 256 → rsbox x < 256
rsbox-IsByte x h = ltb→lt _ _ (at_all_below (λ x. ltb (rsbox x) 256) 256 x h rsbox_byte_table)

-- One byte through the key and the table, and back.
pub unsub-sub : (x k : ℕ) → x < 256 → k < 256 → bit_xor (rsbox (sbox (bit_xor x k))) k ≡ x
unsub-sub x k h p = rw (rsbox-sbox (bit_xor x k) (xor-IsByte x k h p)) (xor_cancel x k)

pub sub-unsub : (x k : ℕ) → x < 256 → sbox (bit_xor (bit_xor (rsbox x) k) k) ≡ x
sub-unsub x k h = rw xor_cancel (sbox-rsbox x h)

pub sub-IsByte : (x k : ℕ) → x < 256 → k < 256 → sbox (bit_xor x k) < 256
sub-IsByte x k h p = sbox-IsByte _ (xor-IsByte x k h p)

pub unsub-IsByte : (x k : ℕ) → x < 256 → k < 256 → bit_xor (rsbox x) k < 256
unsub-IsByte x k h p = xor-IsByte _ k (rsbox-IsByte x h) p
