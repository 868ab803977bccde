-- ===== src/Events/Unsolicited/Laws.antt =====
-- What the handler of unsolicited events leaves alone, and what a failed transmission does.
use arduino_spider_l3s_libra.Base.{
  ℕ, ◌+◌, ◌≡◌, refl, ap, ◌⊎◌, inl, inr, List, [], ◌∷◌, ◌++◌, Bool, true, false, Result, ok, trap,
  ◌>>=◌, if◌then◌else◌, Trap, not, ◌&&◌, ◌==◌, u16, u32, arith, ◌-◌,
}
use mathlib.Core.Path.{subst}
use arduino_spider_l3s_libra.Stream.{
  load, stream_to_uint8, stream_to_uint16, stream_to_uint32, load_bytes,
}
use arduino_spider_l3s_libra.Stream.Memory.{le16, le32}
use arduino_spider_l3s_libra.Driver.{Driver}
use arduino_spider_l3s_libra.Driver.Opcode
use arduino_spider_l3s_libra.Driver.Status.{inactive, set_socket_active_status}
use arduino_spider_l3s_libra.Events.FlowControl.{freed_buffers, flow_control_handler}
use arduino_spider_l3s_libra.Events.Unsolicited.{
  one_of, has_bit, no_argument_events, transmit_events, error_socket_inactive, call_back,
  dhcp_event, ping_event, wlan_event, update_socket_active_status, transmit_event,
  free_buffer_event, hci_unsol_event_handler, hci_unsolicited_event_handler, spi_receive,
}

-- A result that is a value satisfies `P`.
pub data Holds {ℓ κ} {A : Type ℓ} (P : A → Type κ) : Result A → Type (ℓ ⊔ κ) where
  holds : {a : A} → P a → Holds P (ok a)
  vacuous : {t : Trap} → Holds P (trap t)

pub Holds-then {ℓ κ} :
    {A B : Type ℓ} {Q : A → Type κ} (P : B → Type κ) (m : Result A) {f : A → Result B}
    → Holds Q m
    → ((a : A) → Q a → Holds P (f a))
    → Holds P (m >>= f)
Holds-then P _ (Holds.holds q) h = h _ q
Holds-then P _ Holds.vacuous h = Holds.vacuous

pub of_ok {ℓ κ} : {A : Type ℓ} {P : A → Type κ} {a : A} → Holds P (ok a) → P a
of_ok (Holds.holds p) = p

Holds-bind {ℓ κ} :
    {A B : Type ℓ} (P : B → Type κ) (m : Result A) {f : A → Result B}
    → ((a : A) → Holds P (f a))
    → Holds P (m >>= f)
Holds-bind P (ok a) h = h a
Holds-bind P (trap t) h = Holds.vacuous

pub both_ways {ℓ κ} :
    {A : Type ℓ} (P : A → Type κ) (b : Bool) {x y : A} → P x → P y → P (if b then x else y)
both_ways P true p q = p
both_ways P false p q = q

-- The buffers of the device that are free or on their way there, as the host counts them: free ones and
-- packets sent less packets released.
abbrev pub credit : Driver → ℕ
credit d = u16 (
    d.number_of_free_buffers
    + d.number_of_sent_packets
    + (4294967296 - u32 d.number_of_released_packets))

-- What no unsolicited event touches: the packet, its flag, the SPI, what the host waits for, the patch
-- sources, the transmit side and the credit.
abbrev pub Keeps : Driver → Driver → Type 0
Keeps d e =
    (e.event_or_data_received ≡ d.event_or_data_received)
    × (e.received_data ≡ d.received_data)
    × (e.spi_enabled ≡ d.spi_enabled)
    × (e.rx_event_opcode ≡ d.rx_event_opcode)
    × (e.rx_data_pending ≡ d.rx_data_pending)
    × (e.driver_patches ≡ d.driver_patches)
    × (e.fw_patches ≡ d.fw_patches)
    × (e.boot_loader_patches ≡ d.boot_loader_patches)
    × (e.port ≡ d.port)
    × (credit e ≡ credit d)

Keeps-refl : (d : Driver) → Keeps d d
Keeps-refl d = (refl, refl, refl, refl, refl, refl, refl, refl, refl, refl)

abbrev Handled : Driver → Driver × Bool → Type 0
Handled d r = Keeps d r.0

call_back-Keeps :
    (event_type : ℕ) (payload : List ℕ) (d : Driver) → Keeps d (call_back event_type payload d)
unfolding call_back
call_back-Keeps event_type payload d =
    both_ways (Keeps d) d.wlan_callback (Keeps-refl d) (Keeps-refl d)

flow_control_handler-Keeps :
    (event : List ℕ) (d : Driver) → Holds (Keeps d) (flow_control_handler event d)
unfolding flow_control_handler
flow_control_handler-Keeps event d = Holds-bind (Keeps d) (stream_to_uint16 event 5) (λ handles.
    Holds-bind (Keeps d) (freed_buffers event handles 7 0)
      (λ temp. Holds.holds (refl, refl, refl, refl, refl, refl, refl, refl, refl, omega arith)))

free_buffer_event-Keeps :
    (event : List ℕ) (d : Driver) → Holds (Handled d) (free_buffer_event event d)
unfolding free_buffer_event
free_buffer_event-Keeps event d =
    Holds-then (Handled d) (flow_control_handler event d) (flow_control_handler-Keeps event d)
      (λ e k.
        both_ways (Holds (Handled d))
          (e.number_of_released_packets == e.number_of_sent_packets
            && not (e.inform_host_on_tx_complete == 0))
          (both_ways (Holds (Handled d)) e.wlan_callback (Holds.holds k) Holds.vacuous)
          (Holds.holds k))

dhcp_event-Keeps : (event : List ℕ) (d : Driver) → Holds (Keeps d) (dhcp_event event d)
unfolding dhcp_event
dhcp_event-Keeps event d = Holds-bind (Keeps d) (load_bytes event 5 20) (λ addresses.
    Holds-bind (Keeps d) (stream_to_uint8 event 4) (λ status. Holds.holds (call_back-Keeps _ _ d)))

ping_event-Keeps : (event : List ℕ) (d : Driver) → Holds (Keeps d) (ping_event event d)
unfolding ping_event
ping_event-Keeps event d = Holds-bind (Keeps d) (stream_to_uint32 event 5) (λ a.
    Holds-bind (Keeps d) (stream_to_uint32 event 9) (λ b.
      Holds-bind (Keeps d) (stream_to_uint32 event 13) (λ c.
        Holds-bind (Keeps d) (stream_to_uint32 event 17) (λ e.
          Holds-bind (Keeps d) (stream_to_uint32 event 21)
            (λ f. Holds.holds (call_back-Keeps _ _ d))))))

handled :
    (d : Driver) (b : Bool) (m : Result Driver)
    → Holds (Keeps d) m
    → Holds (Handled d) (m >>= λ e. ok (e, b))
handled d b m h = Holds-then (Handled d) m h (λ e k. Holds.holds k)

wlan_event-Keeps :
    (event_type : ℕ) (event : List ℕ) (d : Driver)
    → Holds (Handled d) (wlan_event event_type event d)
unfolding wlan_event
wlan_event-Keeps event_type event d =
    both_ways P (one_of event_type no_argument_events)
      (Holds.holds (call_back-Keeps event_type [] d))
      (both_ways P (event_type == Opcode.evnt_wlan_unsol_dhcp)
        (handled d true (dhcp_event event d) (dhcp_event-Keeps event d))
        (both_ways P (event_type == Opcode.evnt_wlan_async_ping_report)
          (handled d true (ping_event event d) (ping_event-Keeps event d))
          (both_ways P (event_type == Opcode.evnt_bsd_tcp_close_wait)
            (both_ways P d.wlan_callback
              (Holds-bind (Handled d) (load_bytes event 5 1)
                (λ socket. Holds.holds (call_back-Keeps event_type socket d)))
              (Holds.holds (Keeps-refl d)))
            (Holds.holds (Keeps-refl d)))))
  where
    P : Result (Driver × Bool) → Type 0
    P = Holds (Handled d)

update_socket_active_status-Keeps :
    (event : List ℕ) (d : Driver) → Holds (Keeps d) (update_socket_active_status event d)
unfolding update_socket_active_status
update_socket_active_status-Keeps event d = Holds-bind (Keeps d) (stream_to_uint32 event 5) (λ sd.
    Holds-bind (Keeps d) (stream_to_uint32 event 9) (λ status.
      Holds.holds
        (both_ways (Keeps d) (status == error_socket_inactive) (Keeps-refl d) (Keeps-refl d))))

transmit_event-Keeps : (event : List ℕ) (d : Driver) → Holds (Handled d) (transmit_event event d)
unfolding transmit_event
transmit_event-Keeps event d = Holds-bind (Handled d) (stream_to_uint32 event 9) (λ status.
    both_ways (Holds (Handled d)) (status == error_socket_inactive)
      (Holds-bind (Handled d) (stream_to_uint8 event 4) (λ error.
        let e = record d { transmit_data_error = error } in
        Holds-then (Handled d) (update_socket_active_status event e)
          (update_socket_active_status-Keeps event e) (λ e k. Holds.holds k)))
      (Holds.holds (Keeps-refl d)))

pub hci_unsol_event_handler-Keeps :
    (event : List ℕ) (d : Driver) → Holds (λ r. Keeps d r.0) (hci_unsol_event_handler event d)
unfolding hci_unsol_event_handler
hci_unsol_event_handler-Keeps event d =
    Holds-bind (Handled d) (stream_to_uint16 event 1) (λ event_type.
      both_ways P
        (has_bit event_type Opcode.evnt_unsol_base
          && event_type == Opcode.evnt_data_unsol_free_buff)
        (free_buffer_event-Keeps event d)
        (both_ways P (has_bit event_type Opcode.evnt_wlan_unsol_base)
          (wlan_event-Keeps event_type event d)
          (both_ways P (one_of event_type transmit_events) (transmit_event-Keeps event d)
            (Holds.holds (Keeps-refl d)))))
  where
    P : Result (Driver × Bool) → Type 0
    P = Holds (Handled d)

-- A packet was handled in the interrupt, and the SPI runs again, or it is pending, and the SPI rests.
abbrev pub Received : List ℕ → Driver → Driver → Type 0
Received packet d e =
    ((e.event_or_data_received ≡ 0) × (e.spi_enabled ≡ true)
      ⊎ (e.event_or_data_received ≡ 1) × (e.spi_enabled ≡ false))
    × (e.received_data ≡ packet)
    × (e.rx_event_opcode ≡ d.rx_event_opcode)
    × (e.rx_data_pending ≡ d.rx_data_pending)
    × (e.port ≡ d.port)
    × (credit e ≡ credit d)

abbrev pending : List ℕ → Driver → Driver
pending packet d = record d {
  spi_enabled = false;
  event_or_data_received = 1;
  received_data = packet;
}

pending-Received :
    (packet : List ℕ) (d e : Driver) → Keeps (pending packet d) e → Received packet d e
pending-Received packet d e k = (inr (k.0, k.2), k.1, k.3, k.4, k.8, k.9)

pub spi_receive-Holds :
    (packet : List ℕ) (d : Driver) → Holds (Received packet d) (spi_receive packet d)
unfolding spi_receive hci_unsolicited_event_handler
spi_receive-Holds packet d =
    Holds-then (Received packet d) (hci_unsolicited_event_handler d') handled_packet
      (λ r k. Holds.holds k)
  where
    d' : Driver
    d' = pending packet d

    P : Driver × Bool → Type 0
    P r = Received packet d r.0

    handled_packet : Holds P (hci_unsolicited_event_handler d')
    handled_packet = Holds-bind P (stream_to_uint8 packet 0) (λ packet_type.
        both_ways (Holds P) (packet_type == Opcode.type_evnt)
          (Holds-then P (hci_unsol_event_handler packet d')
            (hci_unsol_event_handler-Keeps packet d')
            (λ r k. Holds.holds (
              both_ways P r.1 (inl (refl, refl), k.1, k.3, k.4, k.8, k.9)
                (pending-Received packet d r.0 k))))
          (Holds.holds (pending-Received packet d d' (Keeps-refl d'))))

-- Whatever a packet holds and whatever the state, when `spi_receive` ends without a trap then either
-- the packet was consumed and the SPI runs, or the packet is pending and the SPI is paused. In both
-- cases the packet is the one in the receive buffer; what the host waits for and the transmit side are as
-- before, and the free buffers and the packets sent less those released have the same sum modulo 2^16.
pub spi_receive-Received :
    (packet : List ℕ) (d e : Driver) → spi_receive packet d ≡ ok e → Received packet d e
spi_receive-Received packet d e h =
    of_ok (subst (Holds (Received packet d)) h (spi_receive-Holds packet d))

-- The opcodes that report a transmission.
abbrev pub IsTransmit : ℕ → Type 0
IsTransmit opcode =
    (opcode ≡ Opcode.evnt_send) ⊎ (opcode ≡ Opcode.evnt_sendto) ⊎ (opcode ≡ Opcode.evnt_write)

-- The report with the socket and the result.
abbrev pub transmit_packet : ℕ → ℕ → ℕ → ℕ → ℕ → List ℕ → List ℕ
transmit_packet opcode len status sd value rest =
    Opcode.type_evnt ∷ (le16 opcode ++ (len ∷ status ∷ (le32 sd ++ (le32 value ++ rest))))

transmit_event-inactive :
    (opcode len status sd : ℕ) (rest : List ℕ) (d : Driver)
    → transmit_event (transmit_packet opcode len status sd error_socket_inactive rest) d
      ≡ ok (
        record d {
          transmit_data_error = status;
          socket_active_status = set_socket_active_status (u32 sd) inactive d.socket_active_status;
        },
        true,
      )
unfolding transmit_event update_socket_active_status stream_to_uint32 stream_to_uint8 load
transmit_event-inactive opcode len status sd rest d =
    ap
      (λ s. Result.ok (
        record d {
          transmit_data_error = status;
          socket_active_status = set_socket_active_status s inactive d.socket_active_status;
        },
        true,
      ))
      (omega arith)

-- A report of a transmission (send, sendto or write) whose result is ERROR_SOCKET_INACTIVE is consumed:
-- the socket that it names is marked inactive and the status byte becomes the transmit error.
pub hci_unsol_event_handler-inactive :
    (opcode len status sd : ℕ) (rest : List ℕ) (d : Driver)
    → IsTransmit opcode
    → hci_unsol_event_handler (transmit_packet opcode len status sd error_socket_inactive rest) d
      ≡ ok (
        record d {
          transmit_data_error = status;
          socket_active_status = set_socket_active_status (u32 sd) inactive d.socket_active_status;
        },
        true,
      )
unfolding hci_unsol_event_handler stream_to_uint16 load
hci_unsol_event_handler-inactive opcode len status sd rest d (inl e) =
    rw e (transmit_event-inactive Opcode.evnt_send len status sd rest d)
hci_unsol_event_handler-inactive opcode len status sd rest d (inr (inl e)) =
    rw e (transmit_event-inactive Opcode.evnt_sendto len status sd rest d)
hci_unsol_event_handler-inactive opcode len status sd rest d (inr (inr e)) =
    rw e (transmit_event-inactive Opcode.evnt_write len status sd rest d)
