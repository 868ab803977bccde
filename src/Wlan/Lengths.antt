-- ===== src/Wlan/Lengths.antt =====
-- The argument lengths that `wlan_add_profile` gives to `hci_command_send`, against the bytes it writes.
use arduino_spider_l3s_libra.Base.{
  ◌||◌, ℕ, zero, suc, ◌+◌, ◌-◌, ◌*◌, ◌<◌, ◌==◌, List, [], ◌∷◌, length, Result, ◌>>=◌, u8, u16, u32,
  ◌>>>◌, ◌≡◌, true, refl, sym, ap, arith, IfReturns, IfReturns->>=, IfReturns-any, IfReturns-map,
  Bool-cases, inl, inr, Option, some, none,
}
use mathlib.Core.Path.{subst}
use arduino_spider_l3s_libra.Stream.{
  Cursor, store, store_bytes, load, load_bytes, uint8_to_stream, uint16_to_stream, uint32_to_stream,
  array_to_stream,
}
use arduino_spider_l3s_libra.Socket.{uint32s_to_stream}
use arduino_spider_l3s_libra.Wlan.{bssid_to_stream, bssid_zero}
use arduino_spider_l3s_libra.Wlan.Profile.{
  Profile, sec_unsec, sec_wep, sec_wpa, sec_wpa2, part_to_stream, common_args, wep_keys, unsec_args,
  wep_args, wpa_args, profile_args,
}

-- A write moves the pointer by `n` bytes, if it stays in the buffer.
abbrev pub Moves : ℕ → (Cursor → Result Cursor) → Type 0
Moves n write = (c : Cursor) → IfReturns (λ d. d.position ≡ c.position + n) (write c)

Moves-then :
    (m n : ℕ) (f g : Cursor → Result Cursor)
    → Moves m f
    → Moves n g
    → Moves (m + n) (λ c. f c >>= g)
Moves-then m n f g p q c =
    IfReturns->>= (λ d. d.position ≡ c.position + m) _ (f c) g (p c)
      (λ d e. IfReturns-map _ _ (g d) (q d) (λ k s. omega (arith, s, e)))

uint8_to_stream-Moves : (v : ℕ) → Moves 1 (λ c. uint8_to_stream c v)
unfolding uint8_to_stream
uint8_to_stream-Moves v c =
    IfReturns->>= _ _ (store c.buffer c.position (u8 v)) _ (IfReturns-any _) (λ b p. refl)

uint16_to_stream-Moves : (v : ℕ) → Moves 2 (λ c. uint16_to_stream c v)
unfolding uint16_to_stream
uint16_to_stream-Moves v =
    Moves-then 1 1 (λ c. uint8_to_stream c (u16 v)) (λ c. uint8_to_stream c (u16 v >>> 8))
      (uint8_to_stream-Moves (u16 v)) (uint8_to_stream-Moves (u16 v >>> 8))

array_to_stream-Moves : (bs : List ℕ) → Moves (length bs) (λ c. array_to_stream c bs)
unfolding array_to_stream
array_to_stream-Moves bs c =
    IfReturns->>= _ _ (store_bytes c.buffer c.position bs) _ (IfReturns-any _) (λ b p. refl)

uint32_to_stream-Moves : (v : ℕ) → Moves 4 (λ c. uint32_to_stream c v)
unfolding uint32_to_stream
uint32_to_stream-Moves v =
    Moves-then 1 3 (λ c. uint8_to_stream c (u32 v)) _ (uint8_to_stream-Moves (u32 v))
      (Moves-then 1 2 (λ c. uint8_to_stream c (u32 v >>> 8)) _ (uint8_to_stream-Moves (u32 v >>> 8))
        (Moves-then 1 1 (λ c. uint8_to_stream c (u32 v >>> 16))
          (λ c. uint8_to_stream c (u32 v >>> 24)) (uint8_to_stream-Moves (u32 v >>> 16))
          (uint8_to_stream-Moves (u32 v >>> 24))))

uint32s_to_stream-Moves : (vs : List ℕ) → Moves (4 * length vs) (λ c. uint32s_to_stream c vs)
unfolding uint32s_to_stream
uint32s_to_stream-Moves [] c = let h : c.position ≡ c.position + 4 * 0 = omega arith in h
uint32s_to_stream-Moves (v ∷ vs) c =
    IfReturns-map _ _ (uint32_to_stream c v >>= λ d. uint32s_to_stream d vs)
      (Moves-then 4 (4 * length vs) (λ k. uint32_to_stream k v) (λ d. uint32s_to_stream d vs)
        (uint32_to_stream-Moves v) (uint32s_to_stream-Moves vs) c)
      (λ d e. omega (arith, e))

length-load_bytes : (b : List ℕ) (i n : ℕ) → IfReturns (λ xs. length xs ≡ n) (load_bytes b i n)
unfolding load_bytes
length-load_bytes b i zero = refl
length-load_bytes b i (suc n) = IfReturns->>= _ _ (load b i) _ (IfReturns-any _) (λ x p.
    IfReturns->>= (λ xs. length xs ≡ n) _ (load_bytes b (suc i) n) _ (length-load_bytes b (suc i) n)
      (λ xs e. omega (arith, e)))

-- Bytes from memory, and what follows of them.
loaded-Moves :
    (b : List ℕ) (i n : ℕ) → Moves n (λ c. load_bytes b i n >>= λ bytes. array_to_stream c bytes)
loaded-Moves b i n c =
    IfReturns->>= (λ xs. length xs ≡ n) _ (load_bytes b i n) _ (length-load_bytes b i n)
      (λ xs e.
        IfReturns-map _ _ (array_to_stream c xs) (array_to_stream-Moves xs c)
          (λ d q. omega (arith, q, e)))

bssid_to_stream-Moves : (bssid : Option (List ℕ)) → Moves 6 (bssid_to_stream bssid)
unfolding bssid_to_stream
bssid_to_stream-Moves none c = array_to_stream-Moves bssid_zero c
bssid_to_stream-Moves (some bssid) c = loaded-Moves bssid 0 6 c

part_to_stream-Moves : (p : List ℕ) (offset n : ℕ) → Moves n (part_to_stream p offset n)
unfolding part_to_stream
part_to_stream-Moves p offset n c = loaded-Moves p offset n c

common_args-Moves : (number : ℕ) (p : Profile) → Moves 20 (common_args number p)
unfolding common_args
common_args-Moves number p =
    Moves-then 8 12 (λ c. uint32s_to_stream c (number ∷ p.ssid_len ∷ [])) _
      (uint32s_to_stream-Moves (number ∷ p.ssid_len ∷ []))
      (Moves-then 2 10 (λ c. uint16_to_stream c 0) _ (uint16_to_stream-Moves 0)
        (Moves-then 6 4 (bssid_to_stream p.bssid) (λ c. uint32s_to_stream c (p.priority ∷ []))
          (bssid_to_stream-Moves p.bssid) (uint32s_to_stream-Moves (p.priority ∷ []))))

wep_keys-Moves :
    (left i : ℕ) (p : Profile) → Moves (left * p.pairwise_cipher_or_tx_key_len) (wep_keys left i p)
unfolding wep_keys
wep_keys-Moves zero i p c =
    let h : c.position ≡ c.position + 0 * p.pairwise_cipher_or_tx_key_len = omega arith in h
wep_keys-Moves (suc left) i p c =
    let n = p.pairwise_cipher_or_tx_key_len in
    let total : n + left * n ≡ suc left * n = ground arith in
    IfReturns-map _ _ (part_to_stream p.pf_or_key (u32 (i * n)) n c >>= wep_keys left (i + 1) p)
      (Moves-then n (left * n) (part_to_stream p.pf_or_key (u32 (i * n)) n)
        (wep_keys left (i + 1) p) (part_to_stream-Moves p.pf_or_key (u32 (i * n)) n)
        (wep_keys-Moves left (i + 1) p) c)
      (λ d e. omega (arith, e, total))

unsec_args-Moves : (p : Profile) → Moves (20 + p.ssid_len) (unsec_args p)
unfolding unsec_args
unsec_args-Moves p =
    Moves-then 20 p.ssid_len (common_args 0x14 p) (part_to_stream p.ssid 0 p.ssid_len)
      (common_args-Moves 0x14 p) (part_to_stream-Moves p.ssid 0 p.ssid_len)

wep_args-Moves :
    (p : Profile)
    → Moves (20 + (12 + (p.ssid_len + 4 * p.pairwise_cipher_or_tx_key_len))) (wep_args p)
unfolding wep_args
wep_args-Moves p =
    let numbers =
      u32 (0xc + p.ssid_len) ∷ p.pairwise_cipher_or_tx_key_len ∷ p.group_cipher_tx_key_index ∷ [] in
    Moves-then 20 _ (common_args 0x20 p) _ (common_args-Moves 0x20 p) (
      Moves-then 12 _ (λ c. uint32s_to_stream c numbers) _ (uint32s_to_stream-Moves numbers)
        (Moves-then p.ssid_len _ (part_to_stream p.ssid 0 p.ssid_len) (wep_keys 4 0 p)
          (part_to_stream-Moves p.ssid 0 p.ssid_len) (wep_keys-Moves 4 0 p)))

wpa_args-Moves : (p : Profile) → Moves (20 + (20 + (p.ssid_len + p.pass_phrase_len))) (wpa_args p)
unfolding wpa_args
wpa_args-Moves p =
    let numbers =
      p.pairwise_cipher_or_tx_key_len
      ∷ p.group_cipher_tx_key_index
      ∷ p.key_mgmt
      ∷ u32 (8 + p.ssid_len)
      ∷ p.pass_phrase_len
      ∷ [] in
    Moves-then 20 _ (common_args 0x28 p) _ (common_args-Moves 0x28 p) (
      Moves-then 20 _ (λ c. uint32s_to_stream c numbers) _ (uint32s_to_stream-Moves numbers)
        (Moves-then p.ssid_len _ (part_to_stream p.ssid 0 p.ssid_len)
          (part_to_stream p.pf_or_key 0 p.pass_phrase_len)
          (part_to_stream-Moves p.ssid 0 p.ssid_len)
          (part_to_stream-Moves p.pf_or_key 0 p.pass_phrase_len)))

-- After the security type, a writer that moves the pointer by `n` fits the length `total`.
typed-Moves :
    (sec n total : ℕ) (c : Cursor) (g : Cursor → Result Cursor)
    → 4 + n ≡ total
    → Moves n g
    → IfReturns
        (λ d. u16 (d.position - c.position) ≡ u16 total)
        (uint32s_to_stream c (sec ∷ []) >>= g)
typed-Moves sec n total c g e q =
    IfReturns-map _ _ (uint32s_to_stream c (sec ∷ []) >>= g)
      (Moves-then 4 n (λ k. uint32s_to_stream k (sec ∷ [])) g (uint32s_to_stream-Moves (sec ∷ [])) q
        c)
      (λ d s. let moved : d.position - c.position ≡ total = omega (arith, s, e) in ap u16 moved)

-- What fits, for the arguments `a`.
abbrev Fits : Profile → Cursor → (Cursor → Result Cursor) × ℕ → Type 0
Fits p c a =
    IfReturns (λ d. u16 (d.position - c.position) ≡ a.1)
      (uint32s_to_stream c (p.sec_type ∷ []) >>= a.0)

-- The argument writer of `wlan_add_profile` for the security types 0 to 3, the type itself included: when
-- it stays in the buffer, it moves the pointer by the argument length of the command, modulo 2^16.
pub profile_args-length :
    (p : Profile) (arg_len0 : ℕ) (c : Cursor)
    → p.sec_type < 4
    → IfReturns
        (λ d. u16 (d.position - c.position) ≡ (profile_args p arg_len0).1)
        (uint32s_to_stream c (p.sec_type ∷ []) >>= (profile_args p arg_len0).0)
unfolding profile_args
profile_args-length p arg_len0 c h = elim (Bool-cases (p.sec_type == sec_unsec)) [
  | inl e0 ↦
      let a : profile_args p arg_len0 ≡ (unsec_args p, u16 (24 + p.ssid_len)) = rw e0 refl in
      subst (Fits p c) (sym a) (
        typed-Moves p.sec_type (20 + p.ssid_len) (24 + p.ssid_len) c (unsec_args p) (omega arith)
          (unsec_args-Moves p))
  | inr e0 ↦ elim (Bool-cases (p.sec_type == sec_wep)) [
    | inl e1 ↦
        let n = p.pairwise_cipher_or_tx_key_len in
        let a : profile_args p arg_len0 ≡ (wep_args p, u16 (36 + p.ssid_len + n * 4)) =
          rw (e0, e1) refl in
        subst (Fits p c) (sym a) (
          typed-Moves p.sec_type (20 + (12 + (p.ssid_len + 4 * n))) (36 + p.ssid_len + n * 4) c
            (wep_args p) (omega arith) (wep_args-Moves p))
    | inr e1 ↦
        let e2 : (p.sec_type == sec_wpa || p.sec_type == sec_wpa2) ≡ true = ground arith in
        let a : profile_args p arg_len0 ≡ (wpa_args p, u16 (44 + p.ssid_len + p.pass_phrase_len)) =
          rw (e0, e1, e2) refl in
        subst (Fits p c) (sym a) (
          typed-Moves p.sec_type (20 + (20 + (p.ssid_len + p.pass_phrase_len)))
            (44 + p.ssid_len + p.pass_phrase_len) c (wpa_args p) (omega arith) (wpa_args-Moves p))
  ]
]
