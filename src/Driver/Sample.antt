-- ===== src/Driver/Sample.antt =====
-- A driver for runs: nothing pending, all sockets inactive, a callback, and a transmit buffer of 24 bytes.
use arduino_spider_l3s_libra.Base.{[], ◌∷◌, none, true}
use arduino_spider_l3s_libra.Driver.{Driver}
use arduino_spider_l3s_libra.Driver.Status.{status_init}

abbrev pub idle_driver : Driver
idle_driver = record {
  rx_event_opcode = 0;
  event_or_data_received = 0;
  received_data = [];
  driver_patches = none;
  fw_patches = none;
  boot_loader_patches = none;
  wlan_callback = true;
  transmit_data_error = 0;
  number_of_free_buffers = 0;
  sl_buffer_length = 0;
  rx_data_pending = 0;
  number_of_sent_packets = 0;
  number_of_released_packets = 0;
  inform_host_on_tx_complete = 0;
  socket_active_status = status_init;
  errno = 0;
  spi_enabled = true;
  calls = [];
  port = record {
    tx =
        0 ∷ 0 ∷ 0 ∷ 0 ∷ 0 ∷ 0 ∷ 0 ∷ 0 ∷ 0 ∷ 0 ∷ 0 ∷ 0 ∷ 0 ∷ 0 ∷ 0 ∷ 0 ∷ 0 ∷ 0 ∷ 0 ∷ 0 ∷ 0 ∷ 0 ∷ 0
        ∷ 0xde ∷ [];
    wire = [];
  };
}
