-- ===== src/Spider.antt =====
-- Spider_L3.c: the flags that the event callback keeps, and the calls on top of the driver. Delays and the
-- pin of the LED are left out.
pub mod Notices
mod Tests
use arduino_spider_l3s_libra.Base.{
  ℕ, Option, zero, suc, ◌==◌, ◌&&◌, not, List, [], ◌∷◌, length, drop, Bool, true, false, some, none,
  if◌then◌else◌, Result, ok, trap, Trap, ◌>>=◌, bit_or,
}
use arduino_spider_l3s_libra.Driver.{Call, Driver}
use arduino_spider_l3s_libra.Driver.Opcode
use arduino_spider_l3s_libra.Events.Unsolicited.{spi_receive, hci_unsolicited_event_handler}
use arduino_spider_l3s_libra.Socket.{Host}
use arduino_spider_l3s_libra.Socket.Commands.{mdns_advertiser}
use arduino_spider_l3s_libra.Nvmem.{
  aes128_key_fileid, aes128_key_size, nvmem_create_entry, aes_write_key,
}
use arduino_spider_l3s_libra.Wlan.{
  wlan_connect, wlan_disconnect, wlan_ioctl_set_connection_policy, wlan_ioctl_del_profile,
  wlan_set_event_mask, wlan_smart_config_start, wlan_smart_config_set_prefix,
}
use arduino_spider_l3s_libra.Wlan.Start.{wlan_init, wlan_start, wlan_stop}

pub record Flags : Type 0 where
  pub hw_initialed : ℕ
  pub smart_config_finished : ℕ
  pub stop_smart_config : ℕ
  pub spider_connected : ℕ
  pub spider_dhcp : ℕ
  pub spider_can_shut_down : ℕ
  pub spider_arp_flag : ℕ

-- SPIDER_ARP_FLAG_INIT, SPIDER_ARP_FLAG_PROC and SPIDER_ARP_FLAG_DONE
abbrev pub arp_flag_init : ℕ
arp_flag_init = 1

abbrev pub arp_flag_proc : ℕ
arp_flag_proc = 2

abbrev pub arp_flag_done : ℕ
arp_flag_done = 3

unfoldable pub spider_async_callback : ℕ → Flags → Flags
spider_async_callback event_type f =
    if event_type == Opcode.evnt_wlan_async_simple_config_done
    then record f { smart_config_finished = 1; stop_smart_config = 1 }
    else if event_type == Opcode.evnt_wlan_unsol_connect
    then record f { spider_connected = 1 }
    else if event_type == Opcode.evnt_wlan_unsol_disconnect
    then record f { spider_connected = 0; spider_dhcp = 0 }
    else if event_type == Opcode.evnt_wlan_unsol_dhcp
    then record f { spider_dhcp = 1 }
    else if event_type == Opcode.event_can_shut_down
    then record f { spider_can_shut_down = 1 }
    else if event_type == Opcode.evnt_async_arp_done
    then record f { spider_arp_flag = arp_flag_done }
    else if event_type == Opcode.evnt_async_arp_waiting
    then record f { spider_arp_flag = arp_flag_proc }
    else f

-- The flags after the calls of the callback, in order.
unfoldable pub notified : List Call → Flags → Flags
notified [] f = f
notified (c ∷ calls) f = notified calls (spider_async_callback c.event_type f)

pub record Board : Type 0 where
  pub flags : Flags
  pub host : Host

-- The board after the driver has come from `b.host` to `h`: the callback was called for what is new.
abbrev pub with_host : Board → Host → Board
with_host b h = record {
  flags = notified (drop (length b.host.driver.calls) h.driver.calls) b.flags;
  host = h;
}

-- A call of the driver on the board.
unfoldable pub call_driver : Board → (Host → Result (ℕ × Host)) → Result (ℕ × Board)
call_driver b f = f b.host >>= λ r. ok (r.0, with_host b r.1)

-- `while (waiting) ...`, in which the packets of the device come in.
unfoldable pub wait_while : (Flags → Bool) → Flags → List (List ℕ) → Driver → Result Board
wait_while waiting f [] d =
    if waiting f
    then trap Trap.hang
    else ok (record { flags = f; host = record { driver = d; incoming = [] } })
wait_while waiting f (packet ∷ packets) d = elim (waiting f) [
  | false ↦ ok (record { flags = f; host = record { driver = d; incoming = packet ∷ packets } })
  | true ↦ spi_receive packet d >>= λ e.
      wait_while waiting (notified (drop (length d.calls) e.calls) f) packets e
]

abbrev pub board_wait : (Flags → Bool) → Board → Result Board
board_wait waiting b = wait_while waiting b.flags b.host.incoming b.host.driver

-- What `Spider_begin` and `Spider_close` clear.
abbrev pub cleared_flags : Flags → Flags
cleared_flags f = record f {
  hw_initialed = 0;
  smart_config_finished = 0;
  stop_smart_config = 0;
  spider_connected = 0;
  spider_dhcp = 0;
  spider_can_shut_down = 0;
}

-- HCI_EVNT_WLAN_KEEPALIVE | HCI_EVNT_WLAN_UNSOL_INIT | HCI_EVNT_WLAN_ASYNC_PING_REPORT
abbrev pub event_mask : ℕ
event_mask =
    bit_or (bit_or Opcode.evnt_wlan_keepalive Opcode.evnt_wlan_unsol_init)
      Opcode.evnt_wlan_async_ping_report

-- `wlan_start(0)` and `wlan_set_event_mask`.
unfoldable pub start_masked : ℕ → List Bool → Board → Result (List Bool × Board)
start_masked tx_buffer_size pins b = do
  s ← wlan_start tx_buffer_size 0 pins b.host
  m ← call_driver (with_host b s.1) (wlan_set_event_mask event_mask)
  ok (s.0, m.1)

-- The library has no patches: each is NULL, and its length, 0, is not used then.
abbrev pub send_firmware_patch : Option (List ℕ)
send_firmware_patch = none

abbrev pub send_driver_patch : Option (List ℕ)
send_driver_patch = none

abbrev pub send_bootloader_patch : Option (List ℕ)
send_bootloader_patch = none

unfoldable pub spider_begin : ℕ → List Bool → Board → Result (List Bool × Board)
spider_begin tx_buffer_size pins b = do
  let d =
      wlan_init (some send_firmware_patch) (some send_driver_patch) (some send_bootloader_patch)
        b.host.driver
  r ←
      start_masked tx_buffer_size pins
        (record { flags = cleared_flags b.flags; host = record b.host { driver = d } })
  ok (r.0, record r.1 { flags = record r.1.flags { hw_initialed = 1 } })

-- `WriteWlanPin(0)`, `SpiClose` and the flags.
unfoldable pub spider_close : Board → Board
spider_close b = record {
  flags = cleared_flags b.flags;
  host = record b.host { driver = record b.host.driver { spi_enabled = false } };
}

abbrev pub smart_config_prefix : List ℕ
smart_config_prefix = 84 ∷ 84 ∷ 84 ∷ []

abbrev pub smart_config_key : List ℕ
smart_config_key =
    0x73 ∷ 0x6d ∷ 0x61 ∷ 0x72 ∷ 0x74 ∷ 0x63 ∷ 0x6f ∷ 0x6e ∷ 0x66 ∷ 0x69 ∷ 0x67 ∷ 0x41 ∷ 0x45 ∷ 0x53
    ∷ 0x31 ∷ 0x36 ∷ []

-- -1 unless `Spider_begin` was called.
unfoldable pub if_begun : Board → Result (ℕ × Board) → Result (ℕ × Board)
if_begun b next = if b.flags.hw_initialed == 1 then next else ok (0xffff, b)

-- -2 unless the driver's result is 0.
abbrev pub or_failed : ℕ × Board → ℕ × Board
or_failed r = if r.0 == 0 then r else (0xfffe, r.1)

unfoldable pub spider_auto_connect : Board → Result (ℕ × Board)
spider_auto_connect b = if_begun b (do
  w ← board_wait (λ f. f.spider_connected == 1) b
  r ← call_driver w (wlan_ioctl_set_connection_policy 0 0 1)
  ok (or_failed r))

unfoldable pub spider_disconnect : Board → Result (ℕ × Board)
spider_disconnect b = if_begun b (
    call_driver b wlan_disconnect >>= λ r. elim (r.0 == 0) [
      | false ↦ ok (0xfffe, r.1)
      | true ↦
          board_wait (λ f. not (f.spider_dhcp == 0) && not (f.spider_connected == 0)) r.1 >>= λ w.
          ok (
            0,
            record w {
              flags = record w.flags {
                smart_config_finished = 0;
                stop_smart_config = 0;
                spider_connected = 0;
                spider_dhcp = 0;
                spider_can_shut_down = 0;
              };
            },
          )
    ])

-- The strings are without their zeroes.
unfoldable pub spider_connect : ℕ → List ℕ → List ℕ → Board → Result (ℕ × Board)
spider_connect sec_mode tar_ssid tar_password b = if_begun b (do
  p ← call_driver b (wlan_ioctl_set_connection_policy 0 0 0)
  r ← call_driver p.1 (
      wlan_connect sec_mode tar_ssid (length tar_ssid) none (some tar_password)
        (length tar_password))
  ok (or_failed r))

unfoldable pub spider_check_dhcp : Board → ℕ
spider_check_dhcp b = if b.flags.spider_dhcp == 1 then 0 else 0xffff

unfoldable pub spider_check_connected : Board → ℕ
spider_check_connected b = if b.flags.spider_connected == 1 then 0 else 0xffff

abbrev pub spider_start_arp_event : Board → Board
spider_start_arp_event b = record b { flags = record b.flags { spider_arp_flag = arp_flag_init } }

abbrev pub spider_chk_arp_event : Board → ℕ
spider_chk_arp_event b = b.flags.spider_arp_flag

-- `for(i = 0; i < 3; i++)`, with `left` rounds to go.
unfoldable pub ack_rounds : ℕ → List ℕ → List ℕ → Board → Result (ℕ × Board)
ack_rounds zero ack_msg local b = ok (0, b)
ack_rounds (suc left) ack_msg local b =
    call_driver b (mdns_advertiser 1 ack_msg (length ack_msg) local) >>= λ r. elim (r.0 == 0) [
      | true ↦ ack_rounds left ack_msg local r.1
      | false ↦ ok (0xffff, r.1)
    ]

abbrev pub spider_smart_config_ack_finish : List ℕ → List ℕ → Board → Result (ℕ × Board)
spider_smart_config_ack_finish ack_msg local b = ack_rounds 3 ack_msg local b

-- `while (SpiderConnected == 1)` with its call of `hci_unsolicited_event_handler`, between two of which a
-- packet comes in.
unfoldable pub poll_while : Flags → List (List ℕ) → Driver → Result Board
poll_while f [] d = elim (f.spider_connected == 1) [
  | false ↦ ok (record { flags = f; host = record { driver = d; incoming = [] } })
  | true ↦ hci_unsolicited_event_handler d >>= λ e.
      let g = notified (drop (length d.calls) e.0.calls) f in
      if g.spider_connected == 1
      then trap Trap.hang
      else ok (record { flags = g; host = record { driver = e.0; incoming = [] } })
]
poll_while f (packet ∷ packets) d = elim (f.spider_connected == 1) [
  | false ↦ ok (record { flags = f; host = record { driver = d; incoming = packet ∷ packets } })
  | true ↦ hci_unsolicited_event_handler d >>= λ e. spi_receive packet e.0 >>= λ g.
      poll_while (notified (drop (length d.calls) g.calls) f) packets g
]

-- The key, the prefix and the start; the result is that of `wlan_smart_config_start`.
unfoldable pub smart_config_set_up : List ℕ → Board → Result (ℕ × Board)
smart_config_set_up local b = do
  e ← call_driver b (nvmem_create_entry aes128_key_fileid aes128_key_size local)
  k ← call_driver e.1 (aes_write_key smart_config_key)
  p ←
      call_driver k.1
        (λ h. wlan_smart_config_set_prefix (some smart_config_prefix) h >>= λ r. ok (r.0, r.2))
  call_driver p.1 (wlan_smart_config_start 0)

unfoldable pub spider_smart_config : ℕ → List Bool → List ℕ → Board → Result (ℕ × List Bool × Board)
spider_smart_config tx_buffer_size pins local b =
    call_driver
      (record b {
        flags = record b.flags {
          smart_config_finished = 0;
          spider_connected = 0;
          spider_dhcp = 0;
          spider_can_shut_down = 0;
        };
      })
      (wlan_ioctl_set_connection_policy 0 0 0)
    >>= λ p. call_driver p.1 (wlan_ioctl_del_profile 255) >>= λ d.
        poll_while d.1.flags d.1.host.incoming d.1.host.driver >>= λ w.
        smart_config_set_up local w >>= λ s. elim (s.0 == 0) [
          | false ↦ ok (0xffff, pins, s.1)
          | true ↦ board_wait (λ f. f.smart_config_finished == 0) s.1 >>= λ done.
              call_driver done (wlan_ioctl_set_connection_policy 0 0 1) >>= λ q.
              wlan_stop pins q.1.host >>= λ stop.
              start_masked tx_buffer_size stop.0 (with_host q.1 stop.1) >>= λ m. ok (0, m.0, m.1)
        ]
