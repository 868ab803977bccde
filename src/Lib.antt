-- ===== src/Lib.antt =====
-- Verification library of the host driver for the CC3000 in the Spider_L3S module.
--
-- The driver talks to the device over SPI. A call of socket.c writes its arguments into the one transmit
-- buffer, hci.c puts a header in front of them and hands the buffer to `SpiWrite` (spider_spi.cpp), and
-- evnt_handler.c waits for the reply. Packets from the device come in by an interrupt, which hands each
-- to `SpiReceiveHandler` (wlan.c): unsolicited events are consumed there, everything else pauses the SPI
-- and stays pending for the loop of `hci_event_handler`. security.c, apart from all this, is AES-128.
--
-- Which file models which part:
--   Base: Boolean tests, buffers as lists, the widths of data_types.h, texts, the result of code that may touch
--     memory out of bounds or hang, laws of `^`, `&` and `|`.
--   Stream: cc3000_common.c and the stream macros of cc3000_common.h; Memory, RoundTrip, Parts and InBounds
--     are laws of reads and writes.
--   Spi: spider_spi.cpp. Frame is the frame and the overrun check of `SpiWrite`, which the modules above
--     use with the transfer done in one go. Link is the rest: the handler of the IRQ pin and the reception;
--     Write the handshake of `SpiWrite`, as steps of the program between any two of which the handler may
--     run, down to the bytes of its transfer and the tests of `WlanInterruptEnable` and of the handler that
--     it calls itself; Open the start of the link. Interrupt, Reception, Handler, Sending, Steps and Runs are
--     the proofs.
--   Hci: hci.c.
--   Driver: `tSLInformation` of cc3000_common.h, the opcodes of hci.h, and `socket_active_status` with its
--     two functions in evnt_handler.c.
--   Events: the rest of evnt_handler.c. FlowControl is `hci_event_unsol_flowcontrol_handler`, Unsolicited
--     `hci_unsol_event_handler` and `hci_unsolicited_event_handler`, Solicited the switch over the replies
--     in `hci_event_handler`, Patches `hci_unsol_handle_patch_request`, Loop the loop itself and
--     `SimpleLinkWaitEvent` and `SimpleLinkWaitData`.
--   Socket: socket.c. Commands has the calls that send a command and wait for its reply, Select is
--     `select`, Transfer `HostFlowControlConsumeBuff`, `simple_link_recv` and `simple_link_send`.
--     Transfer/Recv and Transfer/Send follow `recv` and `send` from the call to the bus and back.
--     Mdns is `mdnsAdvertiser` with MDNS_ADVERTISE_HOST; Message is a DNS message, written independently,
--     Fill, Laws and Overflow are proofs.
--   Nvmem: nvmem.c, and `aes_read_key` and `aes_write_key` of security.c.
--   Netapp: netapp.c.
--   Wlan: wlan.c. Profile is `wlan_add_profile`, Start `wlan_init`, `wlan_start` and `wlan_stop`, SmartConfig
--     `wlan_smart_config_process`; Lengths, Keys and Passphrase are proofs about Profile and
--     SmartConfig, and Tiny one about the two versions of `wlan_connect`.
--   Spider: Spider_L3.c. The event callback is applied to the calls that the driver's model records; Notices
--     is its proof.
--   Ntp: NTP.c, with its sockets in Client; Years, Calendar and Zone are proofs about the time that `NTP_get_time`
--     makes of a reply; Gregorian is the calendar, written independently.
--   WebServer: WebServer.c. Reader is the byte-by-byte part of `WebServer_process_request`, RequestLine,
--     Kept, Window, Headers and Content its proofs, Requests that about a whole request. `strstr` and `sscanf` on a header line are a parameter.
--   WebClient: WebClient.c, with `strstr` and `strncpy` written out; GetRequest and Overflow are proofs
--     about the request and its buffer.
--   Aes: security.c; Fips is the cipher of FIPS 197, written independently, but SubWord in the key
--     schedule is the code's table, which Cipher relates to the inverse in the field.
--
-- Numbers are natural numbers below the bound of their C type, an INT32 or INT16 is its bit pattern, and
-- every cast of the code is a remainder. Buffers are lists of bytes. A buffer access outside of the
-- buffer and a `while (1)` that nothing ends are the two traps. The packets of the device are a list,
-- taken one at a time where the code waits; waiting with none left is the trap for a hang. So the loops
-- recurse on that list, and need no fuel. Three loops have fuel: `hci_patch_send` 66 rounds, since its
-- length is a UINT16 and each round takes 1000 bytes of it; `nvmem_write_patch` a round for every 32 bytes
-- and one more; the years of `NTP_get_time` 137 rounds, more than the years of 2^32 seconds. The readings
-- of the IRQ pin that `wlan_start` and `wlan_stop` wait for are a list too.
--
-- The rounds that the clock lets `WebServer_process_request` make are an argument.
--
-- Not modelled: the electrical side of spider_spi.cpp and Spider_L3.c (pins, delays, the SPI mode), and the
-- branches for builds with SEND_NON_BLOCKING or CC3000_TINY_DRIVER. Interrupts come
-- between any two steps of `SpiWrite` in Spi.Link; in the modules above they come only where the code waits.
-- The handler that an interrupt runs is taken whole, since the AVR runs it with interrupts off; a statement
-- that sets or clears a bit of WLAN_INT_STATUE_REG is taken whole too. What the SPIRxHandler does with
-- a packet is Events.Unsolicited and the function that Wlan models; in Spi.Link it is a parameter, which says
-- whether it ends in `SpiResumeSpi`.
pub mod Base
pub mod Stream
pub mod Spi
pub mod Hci
pub mod Driver
pub mod Events
pub mod Aes
pub mod Socket
pub mod Nvmem
pub mod Netapp
pub mod Wlan
pub mod Ntp
pub mod WebServer
pub mod WebClient
pub mod Spider
