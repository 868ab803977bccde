-- ===== src/Wlan/Passphrase.antt =====
-- The profile that smart config leaves in the device, from the encrypted passphrase to `wlan_add_profile`.
use arduino_spider_l3s_libra.Base.{
  ℕ, zero, suc, ◌+◌, ◌-◌, ◌≤◌, ◌<◌, ◌≡◌, ◌⊎◌, inl, inr, refl, sym, ap, ◌∙◌, List, [], ◌∷◌, ◌++◌,
  append_assoc, length, length-append, length-replicate, replicate, drop, get_elem?, none, some, ok,
  access, ◌>>=◌, arith,
}
use arduino_spider_l3s_libra.Stream.{load}
use arduino_spider_l3s_libra.Stream.Memory.{splice}
use arduino_spider_l3s_libra.Stream.RoundTrip.{get_elem?-splice, get_elem?-splice_outside}
use arduino_spider_l3s_libra.Spi.Frame.Laws.{drop-splice}
use arduino_spider_l3s_libra.Aes.{Block, IsBlock, aes_encrypt}
use arduino_spider_l3s_libra.Socket.{Host}
use arduino_spider_l3s_libra.Wlan.Profile.{sec_wpa, sec_wpa2, wlan_add_profile}
use arduino_spider_l3s_libra.Wlan.SmartConfig.{
  block_bytes, decrypt_key, key_at, add_by_type, process_profile,
}
use arduino_spider_l3s_libra.Wlan.Keys.{decrypt_key-aes_encrypt, get_elem?-right}

-- A passphrase of at most 30 bytes, as the profile holds it: its length, itself, and zeros up to 32 bytes.
abbrev pub key_field : List ℕ → List ℕ
key_field pw = length pw ∷ (pw ++ replicate (31 - length pw) 0)

get_elem?-replicate : (n i x : ℕ) → i < n → get_elem? (replicate n x) i ≡ some x
get_elem?-replicate zero i x h = absurd (omega arith)
get_elem?-replicate (suc n) zero x h = refl
get_elem?-replicate (suc n) (suc i) x h = get_elem?-replicate n i x (omega arith)

key_field-last : (pw : List ℕ) → length pw ≤ 30 → get_elem? (key_field pw) 31 ≡ some 0
key_field-last pw short =
    let e : 30 ≡ length pw + (30 - length pw) = omega arith in
    ap (get_elem? (pw ++ replicate (31 - length pw) 0)) e
    ∙ (get_elem?-right pw (replicate (31 - length pw) 0) (30 - length pw)
        ∙ get_elem?-replicate (31 - length pw) (30 - length pw) 0 (omega arith))

key_field-length : (pw : List ℕ) → length pw ≤ 30 → length (key_field pw) ≡ 32
key_field-length pw short = omega (
  arith,
  length-append pw (replicate (31 - length pw) 0),
  length-replicate {A = ℕ} (31 - length pw) 0,
)

drop-drop : (m n k : ℕ) (xs : List ℕ) → k ≡ m + n → drop n (drop m xs) ≡ drop k xs
drop-drop zero n k xs e = let e' : n ≡ k = omega arith in ap (λ j. drop j xs) e'
drop-drop (suc m) n zero xs e = absurd (omega arith)
drop-drop (suc m) zero (suc k) [] e = refl
drop-drop (suc m) (suc n) (suc k) [] e = refl
drop-drop (suc m) n (suc k) (x ∷ xs) e = drop-drop m n k xs (omega arith)

module _ (b : List ℕ) (ssid_len : ℕ) (pw : List ℕ) (short : length pw ≤ 30)
    (room : ssid_len + 35 ≤ length b) where
  abbrev pub clear : List ℕ
  clear = splice b (ssid_len + 3) (key_field pw)

  fits : ssid_len + 3 + length (key_field pw) ≤ length b
  fits = omega (arith, room, key_field-length pw short)

  key_at-clear : key_at clear (ssid_len + 3) ≡ ok (ssid_len + 3 + 1, length pw)
  unfolding key_at load
  key_at-clear =
      rw
        (
          get_elem?-splice b (ssid_len + 3) (key_field pw) (ssid_len + 3 + 31) 31 fits refl
              (omega (arith, key_field-length pw short)),
          key_field-last pw short,
          get_elem?-splice b (ssid_len + 3) (key_field pw) (ssid_len + 3) 0 fits (omega arith)
              (omega arith),
        )
        refl

  load-clear : (i v : ℕ) → i < ssid_len + 3 → load b i ≡ ok v → load clear i ≡ ok v
  unfolding load
  load-clear i v h e =
      ap access (get_elem?-splice_outside b (ssid_len + 3) (key_field pw) i fits (inl h)) ∙ e

  key-clear :
      drop (ssid_len + 3 + 1) clear ≡ pw ++ (replicate (31 - length pw) 0 ++ drop (ssid_len + 35) b)
  key-clear =
      sym (drop-drop (ssid_len + 3) 1 (ssid_len + 3 + 1) clear refl)
      ∙ (ap (drop 1) (drop-splice b (ssid_len + 3) (key_field pw) (omega arith))
          ∙ (append_assoc pw (replicate (31 - length pw) 0) _
              ∙ ap (λ l. pw ++ (replicate (31 - length pw) 0 ++ l))
                  (drop-drop (ssid_len + 3) (length (key_field pw)) (ssid_len + 35) b
                    (omega (arith, key_field-length pw short)))))

-- The profile in the device's memory has the network's name, the number of encrypted bytes, above 16, the
-- security type, and two blocks: the AES encryption, with the device's key, of the passphrase's length,
-- the passphrase, of at most 30 bytes, and zeros. For WPA and WPA2 the rest of
-- `wlan_smart_config_process` is then `wlan_add_profile`, for WPA2, with the name and the passphrase in
-- clear, its length and the fixed numbers, and the profile is left in clear in `profileArray`.
pub process_profile-aes_encrypt :
    (b : List ℕ) (ssid_len n sec_type : ℕ) (pw : List ℕ) (s1 s2 k : Block) (arg_len0 : ℕ)
    (local : List ℕ) (h : Host)
    → IsBlock s1
    → IsBlock s2
    → IsBlock k
    → block_bytes s1 ++ block_bytes s2 ≡ key_field pw
    → length pw ≤ 30
    → ssid_len + 35 ≤ length b
    → load b 0 ≡ ok ssid_len
    → load b (ssid_len + 1) ≡ ok n
    → 16 < n
    → load b (ssid_len + 2) ≡ ok sec_type
    → (sec_type ≡ sec_wpa) ⊎ (sec_type ≡ sec_wpa2)
    → process_profile
        (block_bytes k)
        (splice b (ssid_len + 3) (block_bytes (aes_encrypt s1 k) ++ block_bytes (aes_encrypt s2 k)))
        arg_len0
        local
        h
      ≡ (wlan_add_profile
            (record {
              sec_type = sec_wpa2;
              ssid = drop 1 (splice b (ssid_len + 3) (key_field pw));
              ssid_len = ssid_len;
              bssid = none;
              priority = 1;
              pairwise_cipher_or_tx_key_len = 0x18;
              group_cipher_tx_key_index = 0x1e;
              key_mgmt = 2;
              pf_or_key = pw ++ (replicate (31 - length pw) 0 ++ drop (ssid_len + 35) b);
              pass_phrase_len = length pw;
            })
            arg_len0
            local
            h
          >>= λ r. ok (
            record {
              return_value = r.0;
              key = block_bytes k;
              profile_array = splice b (ssid_len + 3) (key_field pw);
            },
            r.1,
          ))
unfolding process_profile
process_profile-aes_encrypt b ssid_len n sec_type pw s1 s2 k arg_len0 local h h1 h2 hk same short
      room first len long sec wpa =
    rw
      (
        first_coded,
        decrypted,
        key_at-clear b ssid_len pw short room,
        load-clear b ssid_len pw short room (ssid_len + 2) sec_type (omega arith) sec,
        by_type wpa,
        key-clear b ssid_len pw short room,
      )
      refl
  where
    coded : List ℕ
    coded = block_bytes (aes_encrypt s1 k) ++ block_bytes (aes_encrypt s2 k)

    first_coded : load (splice b (ssid_len + 3) coded) 0 ≡ ok ssid_len
    first_coded =
        unfold load in
        (ap access (
            get_elem?-splice_outside b (ssid_len + 3) coded 0 (omega (arith, room))
              (inl (omega arith)))
          ∙ first)

    decrypted :
        decrypt_key (block_bytes k) (splice b (ssid_len + 3) coded) ssid_len
        ≡ ok (clear b ssid_len pw short room)
    decrypted =
        decrypt_key-aes_encrypt b ssid_len n s1 s2 k h1 h2 hk room len long
        ∙ ap (λ xs. ok (splice b (ssid_len + 3) xs)) same

    by_type :
        (sec_type ≡ sec_wpa) ⊎ (sec_type ≡ sec_wpa2)
        → add_by_type sec_type
            (drop 1 (clear b ssid_len pw short room))
            ssid_len
            (drop (ssid_len + 3 + 1) (clear b ssid_len pw short room))
            (length pw)
            arg_len0
            local
            h
          ≡ wlan_add_profile
              (record {
                sec_type = sec_wpa2;
                ssid = drop 1 (clear b ssid_len pw short room);
                ssid_len = ssid_len;
                bssid = none;
                priority = 1;
                pairwise_cipher_or_tx_key_len = 0x18;
                group_cipher_tx_key_index = 0x1e;
                key_mgmt = 2;
                pf_or_key = drop (ssid_len + 3 + 1) (clear b ssid_len pw short room);
                pass_phrase_len = length pw;
              })
              arg_len0
              local
              h
    by_type (inl e) = unfold add_by_type in rw e refl
    by_type (inr e) = unfold add_by_type in rw e refl
