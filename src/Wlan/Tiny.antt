-- ===== src/Wlan/Tiny.antt =====
-- The two versions of `wlan_connect`.
use arduino_spider_l3s_libra.Base.{
  ℕ, ◌+◌, ◌-◌, ◌≡◌, refl, List, none, arith, ok, trap, Result, ◌>>=◌,
}
use arduino_spider_l3s_libra.Stream.{Cursor}
use arduino_spider_l3s_libra.Socket.{Host}
use arduino_spider_l3s_libra.Wlan.{bssid_to_stream, key_to_stream, wlan_connect, wlan_connect_tiny}

>>=_ok : (m : Result Cursor) → (m >>= λ c. ok c) ≡ m
>>=_ok (ok c) = refl
>>=_ok (trap t) = refl

-- On an open network, with no address of the access point and no key, both send the same command and do
-- the same with its reply.
pub wlan_connect_tiny-wlan_connect :
    (ssid : List ℕ) (ssid_len : ℕ) (h : Host)
    → wlan_connect_tiny ssid ssid_len h ≡ wlan_connect 0 ssid ssid_len none none 0 h
unfolding wlan_connect_tiny wlan_connect bssid_to_stream key_to_stream
wlan_connect_tiny-wlan_connect ssid ssid_len h = simp (>>=_ok, no_key)
  where
    no_key : 29 + ssid_len + 0 - 1 ≡ 29 + ssid_len - 1
    no_key = omega arith
