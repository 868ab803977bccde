-- ===== src/Ntp/Zone.antt =====
-- The time zone of `NTP_begin`, in hours, as the offset of `NTP_get_time`, in seconds.
use arduino_spider_l3s_libra.Base.{
  ℕ, ◌+◌, ◌-◌, ◌*◌, ◌≤◌, ◌<◌, ◌≡◌, ◌⊎◌, inl, inr, ltb, ltb→lt, Bool-cases, refl, arith, u16, u32,
  if◌then◌else◌, ◌∙◌,
}
use arduino_spider_l3s_libra.Base.Table.{all_below, eq_below}
use arduino_spider_l3s_libra.Ntp.{gmt_offset}

abbrev wrapped_east : ℕ → ℕ
wrapped_east i = if ltb i 10 then gmt_offset i else u32 (4294967296 + 3600 * i - 65536)

abbrev wrapped_west : ℕ → ℕ
wrapped_west i =
    if ltb i 10 then gmt_offset (u16 (65536 - i)) else u32 (4294967296 + 65536 - 3600 * i)

-- Up to 9 hours east or west of Greenwich the offset is that many times 3600 seconds, modulo 2^32; from
-- 10 hours to 14 the product has passed the 16-bit int, and the offset lies 65536 seconds off.
pub gmt_offset-hours :
    (n : ℕ)
    → n ≤ 14
    → ((n < 10)
        × (gmt_offset n ≡ 3600 * n)
        × (gmt_offset (u16 (65536 - n)) ≡ u32 (4294967296 - 3600 * n)))
      ⊎ ((10 ≤ n)
          × (gmt_offset n ≡ u32 (4294967296 + 3600 * n - 65536))
          × (gmt_offset (u16 (65536 - n)) ≡ u32 (4294967296 + 65536 - 3600 * n)))
unfolding gmt_offset all_below
gmt_offset-hours n h = elim (Bool-cases (ltb n 10)) [
  | inl e ↦
      let small = ltb→lt n 10 e in
      inl (
        small,
        eq_below 10 gmt_offset (λ i. 3600 * i) refl n small,
        eq_below 10 (λ i. gmt_offset (u16 (65536 - i))) (λ i. u32 (4294967296 - 3600 * i)) refl n
            small,
      )
  | inr e ↦ inr (
    ground arith,
    eq_below 15 gmt_offset wrapped_east refl n (omega arith) ∙ rw e refl,
    eq_below 15 (λ i. gmt_offset (u16 (65536 - i))) wrapped_west refl n (omega arith) ∙ rw e refl,
  )
]
