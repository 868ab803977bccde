-- ===== src/Wlan/Start.antt =====
-- `wlan_init`, `wlan_start` and `wlan_stop` of wlan.c, with `SpiOpen` and `SpiClose` of spider_spi.cpp.
-- `pins` are the readings of the interrupt pin, one after the other, true for high; waiting without a
-- reading left does not end.
use arduino_spider_l3s_libra.Base.{
  ℕ, zero, suc, ◌-◌, ◌==◌, Bool, true, false, List, [], ◌∷◌, ◌++◌, if◌then◌else◌, Result, ok, trap,
  Trap, ◌>>=◌,
}
use arduino_spider_l3s_libra.Stream.{uint8_to_stream}
use arduino_spider_l3s_libra.Spi.Frame.{magic_number}
use arduino_spider_l3s_libra.Driver.{Driver, PatchSource}
use arduino_spider_l3s_libra.Driver.Opcode
use arduino_spider_l3s_libra.Socket.{Host, command}

-- `wlan_init`: the callback is given, and the functions for the pins are spider_spi.cpp's.
unfoldable pub wlan_init : PatchSource → PatchSource → PatchSource → Driver → Driver
wlan_init fw_patches driver_patches boot_loader_patches d = record d {
  fw_patches = fw_patches;
  driver_patches = driver_patches;
  boot_loader_patches = boot_loader_patches;
  wlan_callback = true;
  inform_host_on_tx_complete = 1;
}

abbrev pub zeros : ℕ → List ℕ
zeros zero = []
zeros (suc n) = 0 ∷ zeros n

-- `wlan_tx_buffer` after `SpiOpen`: CC3000_TX_BUFFER_SIZE, which is at least 1, bytes.
unfoldable pub opened_buffer : ℕ → List ℕ
opened_buffer size = zeros (size - 1) ++ (magic_number ∷ [])

-- The state that `wlan_start` begins with, `SpiOpen` included, which enables the interrupt. The wire is
-- the record of what was sent, no part of the code's state.
unfoldable pub reset : ℕ → Driver → Driver
reset tx_buffer_size d = record d {
  number_of_sent_packets = 0;
  number_of_released_packets = 0;
  rx_event_opcode = 0;
  number_of_free_buffers = 0;
  sl_buffer_length = 0;
  rx_data_pending = 0;
  transmit_data_error = 0;
  event_or_data_received = 0;
  received_data = [];
  port = record { tx = opened_buffer tx_buffer_size; wire = d.port.wire };
  spi_enabled = true;
}

-- `while(ReadWlanInterruptPin() != level)`
unfoldable pub wait_pin : Bool → List Bool → Result (List Bool)
wait_pin level [] = trap Trap.hang
wait_pin level (p ∷ pins) =
    let rest = wait_pin level pins in
    elim level [ true ↦ if p then ok pins else rest | false ↦ if p then rest else ok pins ]

-- The waits of `wlan_start`: the first reading decides whether the pin has to go high first.
unfoldable pub wait_ready : List Bool → Result (List Bool)
wait_ready [] = trap Trap.hang
wait_ready (true ∷ pins) = wait_pin false pins
wait_ready (false ∷ pins) = wait_pin true pins >>= wait_pin false

-- SimpleLink_Init_Start
unfoldable pub simple_link_init_start : ℕ → Host → Result Host
simple_link_init_start patches_available_at_host h = do
  r ←
      command Opcode.cmnd_simple_link_start 1 Opcode.cmnd_simple_link_start
        (λ c. uint8_to_stream c (if patches_available_at_host == 0 then 0 else 2)) [] h
  ok r.1

unfoldable pub wlan_start : ℕ → ℕ → List Bool → Host → Result (List Bool × Host)
wlan_start tx_buffer_size patches_available_at_host pins h = do
  rest ← wait_ready pins
  e ←
      simple_link_init_start patches_available_at_host
        (record h { driver = reset tx_buffer_size h.driver })
  r ← command Opcode.cmnd_read_buffer_size 0 Opcode.cmnd_read_buffer_size (λ c. ok c) [] e
  ok (rest, r.1)

-- `wlan_stop`; `SpiClose` disables the interrupt. Without its buffer the driver can send nothing.
unfoldable pub wlan_stop : List Bool → Host → Result (List Bool × Host)
wlan_stop pins h = do
  rest ← wait_pin true pins
  ok (
    rest,
    record h {
      driver = record h.driver {
        port = record { tx = []; wire = h.driver.port.wire };
        spi_enabled = false;
      };
    },
  )
