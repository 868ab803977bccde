-- ===== src/Netapp.antt =====
-- netapp.c, as it is built without CC3000_TINY_DRIVER. An address is four bytes, as the caller's pointer
-- leads to them. The INT8 that takes the status of the reply starts as EFAIL and is widened to an INT32.
use arduino_spider_l3s_libra.Base.{
  ℕ, ◌+◌, ◌==◌, ◌&&◌, not, ltb, List, [], ◌∷◌, if◌then◌else◌, Result, ok, ◌>>=◌,
}
use arduino_spider_l3s_libra.Stream.{Cursor, load_bytes, array_to_stream, stream_to_uint8}
use arduino_spider_l3s_libra.Driver.Opcode
use arduino_spider_l3s_libra.Socket.{Host, uint32s_to_stream, command}
use arduino_spider_l3s_libra.Nvmem.{nvmem_set_mac_address}

-- The conversion of an INT8 to an INT32.
abbrev pub extend8 : ℕ → ℕ
extend8 v = if ltb v 0x80 then v else v + 0xffffff00

-- MIN_TIMER_SET
abbrev pub min_timer_set : ℕ → ℕ
min_timer_set t = if not (t == 0) && ltb t 10 then 10 else t

-- A command whose reply is the status byte in `scRet`.
unfoldable pub status_command : ℕ → ℕ → (Cursor → Result Cursor) → Host → Result (ℕ × Host)
status_command opcode len write_args h = do
  r ← command opcode len opcode write_args (0xff ∷ []) h
  sc_ret ← stream_to_uint8 r.0 0
  ok (extend8 sc_ret, r.1)

abbrev pub netapp_config_mac_address : List ℕ → Host → Result (ℕ × Host)
netapp_config_mac_address mac h = nvmem_set_mac_address mac h

-- `ARRAY_TO_STREAM(args, p, 4)`
unfoldable pub four_bytes : List ℕ → Cursor → Result Cursor
four_bytes p c = load_bytes p 0 4 >>= λ bytes. array_to_stream c bytes

unfoldable pub netapp_dhcp : List ℕ → List ℕ → List ℕ → List ℕ → Host → Result (ℕ × Host)
netapp_dhcp ip subnet_mask default_gateway dns_server h =
    status_command Opcode.netapp_dhcp 20
      (λ c. four_bytes ip c >>= λ c1. four_bytes subnet_mask c1 >>= λ c2.
        four_bytes default_gateway c2 >>= λ c3.
        uint32s_to_stream c3 (0 ∷ []) >>= λ c4. four_bytes dns_server c4)
      h

-- The four timeouts; the caller's own are raised in place.
pub record Timeouts : Type 0 where
  pub dhcp : ℕ
  pub arp : ℕ
  pub keepalive : ℕ
  pub inactivity : ℕ

abbrev pub raise_all : Timeouts → Timeouts
raise_all t = record {
  dhcp = min_timer_set t.dhcp;
  arp = min_timer_set t.arp;
  keepalive = min_timer_set t.keepalive;
  inactivity = min_timer_set t.inactivity;
}

unfoldable pub netapp_timeout_values : Timeouts → Host → Result (ℕ × Timeouts × Host)
netapp_timeout_values timeouts h = do
  let t = raise_all timeouts
  r ←
      status_command Opcode.netapp_set_timers 20
        (λ c. uint32s_to_stream c (t.dhcp ∷ t.arp ∷ t.keepalive ∷ t.inactivity ∷ [])) h
  ok (r.0, t, r.1)

unfoldable pub netapp_ping_send : ℕ → ℕ → ℕ → ℕ → Host → Result (ℕ × Host)
netapp_ping_send ip ping_attempts ping_size ping_timeout h =
    status_command Opcode.netapp_ping_send 16
      (λ c. uint32s_to_stream c (ip ∷ ping_attempts ∷ ping_size ∷ ping_timeout ∷ [])) h

unfoldable pub netapp_ping_report : Host → Result Host
netapp_ping_report h = status_command Opcode.netapp_ping_report 0 (λ c. ok c) h >>= λ r. ok r.1

unfoldable pub netapp_ping_stop : Host → Result (ℕ × Host)
netapp_ping_stop h = status_command Opcode.netapp_ping_stop 0 (λ c. ok c) h

-- `ipconfig` is the memory of the caller's structure.
unfoldable pub netapp_ipconfig : List ℕ → Host → Result (List ℕ × Host)
netapp_ipconfig ipconfig h =
    command Opcode.netapp_ipconfig 0 Opcode.netapp_ipconfig (λ c. ok c) ipconfig h

unfoldable pub netapp_arp_flush : Host → Result (ℕ × Host)
netapp_arp_flush h = status_command Opcode.netapp_arp_flush 0 (λ c. ok c) h

unfoldable pub netapp_set_debug_level : ℕ → Host → Result (ℕ × Host)
netapp_set_debug_level level h =
    status_command Opcode.netapp_set_debug_level 4 (λ c. uint32s_to_stream c (level ∷ [])) h
