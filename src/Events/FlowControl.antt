-- ===== src/Events/FlowControl.antt =====
-- `hci_event_unsol_flowcontrol_handler`: the device reports buffers that it has freed.
pub mod Laws
use arduino_spider_l3s_libra.Base.{ℕ, zero, suc, ◌+◌, List, Result, ok, ◌>>=◌, u16, u32}
use arduino_spider_l3s_libra.Stream.{stream_to_uint16}
use arduino_spider_l3s_libra.Driver.{Driver}

-- The loop over the handles that are `left`, with `pReadPayload` at `position`; the count of a handle
-- stands two bytes into its four.
unfoldable pub freed_buffers : List ℕ → ℕ → ℕ → ℕ → Result ℕ
freed_buffers event zero position temp = ok temp
freed_buffers event (suc left) position temp = do
  value ← stream_to_uint16 event (position + 2)
  freed_buffers event left (position + 4) (u32 (temp + value))

unfoldable pub flow_control_handler : List ℕ → Driver → Result Driver
flow_control_handler event d = do
  handles ← stream_to_uint16 event 5
  temp ← freed_buffers event handles 7 0
  ok (record d {
    number_of_free_buffers = u16 (d.number_of_free_buffers + temp);
    number_of_released_packets = u32 (d.number_of_released_packets + temp);
  })
