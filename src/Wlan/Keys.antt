-- ===== src/Wlan/Keys.antt =====
-- The key of the smart-config profile: what `wlan_smart_config_process` makes of the two encrypted blocks.
use arduino_spider_l3s_libra.Base.{
  ℕ, zero, suc, ◌+◌, ◌≤◌, ◌<◌, List, [], ◌∷◌, ◌++◌, length, drop, get_elem?, some, ok, access, ltb,
  ◌≡◌, refl, ap, ◌∙◌, arith, true, inl, inr, ltb,
}
use arduino_spider_l3s_libra.Stream.{load}
use arduino_spider_l3s_libra.Stream.Memory.{splice, store_bytes-splice}
use arduino_spider_l3s_libra.Stream.RoundTrip.{
  get_elem?-splice, get_elem?-splice_outside, length-splice, splice-append,
}
use arduino_spider_l3s_libra.Aes.{Column, Block, IsBlock, aes_encrypt}
use arduino_spider_l3s_libra.Aes.Schedule.{aes_decrypt-aes_encrypt}
use arduino_spider_l3s_libra.Wlan.SmartConfig.{
  load_column, load_block, block_bytes, decrypt_at, decrypt_key,
}

-- The buffer `b` holds the bytes `xs` at `i`.
abbrev pub HoldsAt : List ℕ → ℕ → List ℕ → Type 0
HoldsAt b i xs = (j : ℕ) (v : ℕ) → get_elem? xs j ≡ some v → get_elem? b (i + j) ≡ some v

load-HoldsAt :
    (b : List ℕ) (i : ℕ) (xs : List ℕ) (j k v : ℕ)
    → HoldsAt b i xs
    → k ≡ i + j
    → get_elem? xs j ≡ some v
    → load b k ≡ ok v
unfolding load
load-HoldsAt b i xs j k v h e g = ap (λ n. access (get_elem? b n)) e ∙ ap access (h j v g)

load_column-HoldsAt :
    (b : List ℕ) (i : ℕ) (xs : List ℕ) (j k : ℕ) (c : Column)
    → HoldsAt b i xs
    → k ≡ i + j
    → get_elem? xs j ≡ some c.r0
    → get_elem? xs (j + 1) ≡ some c.r1
    → get_elem? xs (j + 2) ≡ some c.r2
    → get_elem? xs (j + 3) ≡ some c.r3
    → load_column b k ≡ ok c
unfolding load_column
load_column-HoldsAt b i xs j k c h e g0 g1 g2 g3 =
    rw
      (
        load-HoldsAt b i xs j k c.r0 h e g0,
        load-HoldsAt b i xs (j + 1) (k + 1) c.r1 h (omega arith) g1,
        load-HoldsAt b i xs (j + 2) (k + 2) c.r2 h (omega arith) g2,
        load-HoldsAt b i xs (j + 3) (k + 3) c.r3 h (omega arith) g3,
      )
      refl

load_block-HoldsAt :
    (b : List ℕ) (i : ℕ) (s : Block) → HoldsAt b i (block_bytes s) → load_block b i ≡ ok s
unfolding load_block
load_block-HoldsAt b i s h =
    rw
      (
        load_column-HoldsAt b i (block_bytes s) 0 i s.c0 h (omega arith) refl refl refl refl,
        load_column-HoldsAt b i (block_bytes s) 4 (i + 4) s.c1 h refl refl refl refl refl,
        load_column-HoldsAt b i (block_bytes s) 8 (i + 8) s.c2 h refl refl refl refl refl,
        load_column-HoldsAt b i (block_bytes s) 12 (i + 12) s.c3 h refl refl refl refl refl,
      )
      refl

get_elem?-length :
    {A : Type 0} (xs : List A) (j : ℕ) {v : A} → get_elem? xs j ≡ some v → j < length xs
get_elem?-length [] j h = cc
get_elem?-length (x ∷ xs) zero h = omega arith
get_elem?-length (x ∷ xs) (suc j) h = let r = get_elem?-length xs j h in omega (arith, r)

get_elem?-left :
    {A : Type 0} (xs ys : List A) (j : ℕ) {v : A}
    → get_elem? xs j ≡ some v
    → get_elem? (xs ++ ys) j ≡ some v
get_elem?-left [] ys j h = cc
get_elem?-left (x ∷ xs) ys zero h = h
get_elem?-left (x ∷ xs) ys (suc j) h = get_elem?-left xs ys j h

pub get_elem?-right :
    {A : Type 0} (xs ys : List A) (j : ℕ) → get_elem? (xs ++ ys) (length xs + j) ≡ get_elem? ys j
get_elem?-right [] ys j = let e : 0 + j ≡ j = omega arith in ap (get_elem? ys) e
get_elem?-right (x ∷ xs) ys j =
    let e : suc (length xs) + j ≡ suc (length xs + j) = omega arith in
    ap (get_elem? (x ∷ (xs ++ ys))) e ∙ get_elem?-right xs ys j

-- A write over another of the same length.
splice_over :
    (b : List ℕ) (p : ℕ) (xs ys : List ℕ)
    → length xs ≡ length ys
    → p + length xs ≤ length b
    → splice (splice b p xs) p ys ≡ splice b p ys
splice_over b zero xs ys e h =
    ap (◌++◌ ys) (drop-both xs ys (drop (length xs) b) e ∙ ap (λ n. drop n b) e)
  where
    drop-both : (xs ys zs : List ℕ) → length xs ≡ length ys → drop (length ys) (xs ++ zs) ≡ zs
    drop-both [] [] zs e = refl
    drop-both [] (y ∷ ys) zs e = absurd (omega (arith, e))
    drop-both (x ∷ xs) [] zs e = absurd (omega (arith, e))
    drop-both (x ∷ xs) (y ∷ ys) zs e = drop-both xs ys zs (omega (arith, e))
splice_over [] (suc p) xs ys e h = absurd (omega arith)
splice_over (x ∷ b) (suc p) xs ys e h = ap (◌∷◌ x) (splice_over b p xs ys e (omega arith))

decrypt_at-HoldsAt :
    (b : List ℕ) (i : ℕ) (s k : Block)
    → IsBlock s
    → IsBlock k
    → i + 16 ≤ length b
    → HoldsAt b i (block_bytes (aes_encrypt s k))
    → decrypt_at (block_bytes k) b i ≡ ok (splice b i (block_bytes s))
unfolding decrypt_at
decrypt_at-HoldsAt b i s k hs hk room h =
    rw
      (
        load_block-HoldsAt (block_bytes k) 0 k self,
        load_block-HoldsAt b i (aes_encrypt s k) h,
        aes_decrypt-aes_encrypt s k hs hk,
      )
      (store_bytes-splice b i (block_bytes s) room)
  where
    self : HoldsAt (block_bytes k) 0 (block_bytes k)
    self j v g = let e : 0 + j ≡ j = omega arith in ap (get_elem? (block_bytes k)) e ∙ g

-- In a written region, the two halves of what was written.
splice-HoldsAt_left :
    (b : List ℕ) (p : ℕ) (xs ys : List ℕ)
    → p + length (xs ++ ys) ≤ length b
    → HoldsAt (splice b p (xs ++ ys)) p xs
splice-HoldsAt_left b p xs ys room j v g =
    let g' = get_elem?-left xs ys j g in
    get_elem?-splice b p (xs ++ ys) (p + j) j room refl (get_elem?-length (xs ++ ys) j g') ∙ g'

splice-HoldsAt_right :
    (b : List ℕ) (p : ℕ) (xs ys : List ℕ) (q : ℕ)
    → p + length (xs ++ ys) ≤ length b
    → q ≡ p + length xs
    → HoldsAt (splice b p (xs ++ ys)) q ys
splice-HoldsAt_right b p xs ys q room e j v g =
    let g' : get_elem? (xs ++ ys) (length xs + j) ≡ some v = get_elem?-right xs ys j ∙ g in
    get_elem?-splice b p (xs ++ ys) (q + j) (length xs + j) room (omega (arith, e))
      (get_elem?-length (xs ++ ys) (length xs + j) g')
    ∙ g'

-- A smart-config profile whose key, longer than 16 bytes, was encrypted as two blocks with the device's
-- key: `decrypt_key` puts the two blocks in clear in their place and changes nothing else.
pub decrypt_key-aes_encrypt :
    (b : List ℕ) (ssid_len n : ℕ) (s1 s2 k : Block)
    → IsBlock s1
    → IsBlock s2
    → IsBlock k
    → ssid_len + 35 ≤ length b
    → load b (ssid_len + 1) ≡ ok n
    → 16 < n
    → decrypt_key
        (block_bytes k)
        (splice b (ssid_len + 3) (block_bytes (aes_encrypt s1 k) ++ block_bytes (aes_encrypt s2 k)))
        ssid_len
      ≡ ok (splice b (ssid_len + 3) (block_bytes s1 ++ block_bytes s2))
unfolding decrypt_key load
decrypt_key-aes_encrypt b ssid_len n s1 s2 k h1 h2 hk room len long =
    rw (first, length_kept, is_long, second) (ap ok whole)
  where
    e1 : List ℕ
    e1 = block_bytes (aes_encrypt s1 k)

    e2 : List ℕ
    e2 = block_bytes (aes_encrypt s2 k)

    coded : List ℕ
    coded = splice b (ssid_len + 3) (e1 ++ e2)

    half : List ℕ
    half = splice coded (ssid_len + 3) (block_bytes s1)

    coded_length : length coded ≡ length b
    coded_length = length-splice b (ssid_len + 3) (e1 ++ e2) (omega arith)

    half_length : length half ≡ length b
    half_length =
        length-splice coded (ssid_len + 3) (block_bytes s1) (omega (arith, coded_length))
        ∙ coded_length

    first : decrypt_at (block_bytes k) coded (ssid_len + 3) ≡ ok half
    first =
        decrypt_at-HoldsAt coded (ssid_len + 3) s1 k h1 hk (omega (arith, coded_length))
          (splice-HoldsAt_left b (ssid_len + 3) e1 e2 (omega arith))

    length_kept : load half (ssid_len + 1) ≡ ok n
    length_kept =
        ap access (
          get_elem?-splice_outside coded (ssid_len + 3) (block_bytes s1) (ssid_len + 1)
            (omega (arith, coded_length)) (inl (omega arith))
          ∙ get_elem?-splice_outside b (ssid_len + 3) (e1 ++ e2) (ssid_len + 1) (omega arith)
              (inl (omega arith)))
        ∙ len

    is_long : ltb 16 n ≡ true
    is_long = ground arith

    second :
        decrypt_at (block_bytes k) half (ssid_len + 19)
        ≡ ok (splice half (ssid_len + 19) (block_bytes s2))
    second =
        decrypt_at-HoldsAt half (ssid_len + 19) s2 k h2 hk (omega (arith, half_length)) (λ j v g.
          get_elem?-splice_outside coded (ssid_len + 3) (block_bytes s1) (ssid_len + 19 + j)
            (omega (arith, coded_length)) (inr (omega arith))
          ∙ splice-HoldsAt_right b (ssid_len + 3) e1 e2 (ssid_len + 19) (omega arith) (omega arith)
              j v g)

    whole :
        splice half (ssid_len + 19) (block_bytes s2)
        ≡ splice b (ssid_len + 3) (block_bytes s1 ++ block_bytes s2)
    whole =
        splice-append coded (ssid_len + 3) (ssid_len + 19) (block_bytes s1) (block_bytes s2)
          (omega arith) (omega (arith, coded_length))
        ∙ splice_over b (ssid_len + 3) (e1 ++ e2) (block_bytes s1 ++ block_bytes s2) refl
            (omega arith)
