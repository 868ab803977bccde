-- ===== src/Driver.antt =====
-- The state that the host driver keeps: `tSLInformation` of cc3000_common.h, the globals
-- `socket_active_status` of evnt_handler.c and `errno`, and the transmit side of the SPI layer.
mod Tests
pub mod Opcode
pub mod Status
pub mod Sample
use arduino_spider_l3s_libra.Base.{ℕ, ◌+◌, Bool, List, Option}
use arduino_spider_l3s_libra.Spi.Frame.{Port}

-- A call of `sWlanCB(event_type, data, length)`: `payload` is the `length` bytes at `data`.
pub record Call : Type 0 where
  pub event_type : ℕ
  pub payload : List ℕ

-- A patch callback: no function, or a function that returns NULL or the bytes of a patch.
abbrev pub PatchSource : Type 0
PatchSource = Option (Option (List ℕ))

pub record Driver : Type 0 where
  -- `usRxEventOpcode`, `usEventOrDataReceived`, and the bytes from `pucReceivedData` on.
  pub rx_event_opcode : ℕ
  pub event_or_data_received : ℕ
  pub received_data : List ℕ
  -- `sDriverPatches`, `sFWPatches`, `sBootLoaderPatches`, and whether `sWlanCB` is set.
  pub driver_patches : PatchSource
  pub fw_patches : PatchSource
  pub boot_loader_patches : PatchSource
  pub wlan_callback : Bool
  -- `slTransmitDataError` is the pattern of an INT32.
  pub transmit_data_error : ℕ
  pub number_of_free_buffers : ℕ
  pub sl_buffer_length : ℕ
  pub rx_data_pending : ℕ
  pub number_of_sent_packets : ℕ
  pub number_of_released_packets : ℕ
  pub inform_host_on_tx_complete : ℕ
  pub socket_active_status : ℕ
  pub errno : ℕ
  -- Set by `SpiResumeSpi`, cleared by `SpiPauseSpi`.
  pub spi_enabled : Bool
  -- The calls of `sWlanCB` so far, the latest last.
  pub calls : List Call
  -- `pucTxCommandBuffer`, which is `wlan_tx_buffer`, and what went over the bus.
  pub port : Port
