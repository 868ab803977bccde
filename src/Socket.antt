-- ===== src/Socket.antt =====
-- socket.c: the BSD calls. The host is the driver's state with the packets that the device is going to
-- send; a call takes them from the front while it waits. An INT32 is its 32-bit pattern, an INT16 its
-- 16-bit pattern, and `errno`, an int, has 16 bits on the AVR. A local variable that the code does not
-- initialise is an argument, `local`: the bytes from its address on.
mod Tests
pub mod Commands
pub mod Select
pub mod Transfer
pub mod Mdns
use arduino_spider_l3s_libra.Base.{
  ℕ, ◌+◌, ◌==◌, ltb, List, [], ◌∷◌, if◌then◌else◌, Result, ok, ◌>>=◌, u8, u16, u32,
}
use arduino_spider_l3s_libra.Stream.{Cursor, uint32_to_stream, stream_to_uint32}
use arduino_spider_l3s_libra.Driver.{Driver}
use arduino_spider_l3s_libra.Driver.Status.{set_socket_active_status}
use arduino_spider_l3s_libra.Hci.{with_tx, hci_command_send}
use arduino_spider_l3s_libra.Events.Loop.{Caller, simple_link_wait_event}

pub record Host : Type 0 where
  pub driver : Driver
  pub incoming : List (List ℕ)

-- EFAIL as an INT32.
abbrev pub efail : ℕ
efail = 0xffffffff

-- The conversion of an INT16 to an INT32.
abbrev pub extend16 : ℕ → ℕ
extend16 v = if ltb v 0x8000 then v else v + 0xffff0000

-- `errno = value`
abbrev pub with_errno : ℕ → Host → Host
with_errno value h = record h { driver = record h.driver { errno = u16 value } }

-- `set_socket_active_status(sd, status)`
abbrev pub with_status : ℕ → ℕ → Host → Host
with_status sd status h = record h {
  driver = record h.driver {
    socket_active_status = set_socket_active_status sd status h.driver.socket_active_status;
  };
}

-- `args = UINT32_TO_STREAM(args, v)` for one value after the other.
unfoldable pub uint32s_to_stream : Cursor → List ℕ → Result Cursor
uint32s_to_stream c [] = ok c
uint32s_to_stream c (v ∷ vs) = uint32_to_stream c v >>= λ d. uint32s_to_stream d vs

-- SimpleLinkWaitEvent(event, &local)
unfoldable pub wait_event : ℕ → List ℕ → Host → Result (List ℕ × Host)
wait_event event local h = do
  r ← simple_link_wait_event event h.incoming local h.driver
  ok (r.0.ret, record { driver = r.1; incoming = r.2 })

-- What the calls share: `args` from HEADERS_SIZE_CMD on, `hci_command_send`, and the wait.
unfoldable pub command :
    ℕ → ℕ → ℕ → (Cursor → Result Cursor) → List ℕ → Host → Result (List ℕ × Host)
command opcode len event write_args local h = do
  let port = h.driver.port
  args ← write_args (record { buffer = port.tx; position = 9 })
  p ← hci_command_send opcode len (with_tx port args.buffer)
  wait_event event local (record h { driver = record h.driver { port = p } })
