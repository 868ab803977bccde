-- ===== src/Nvmem.antt =====
-- nvmem.c, and the two functions of security.c that keep the AES key in it. The locals that take a reply
-- are as in Socket; `memory` is what the caller's pointer leads to.
pub mod Portions
mod Tests
use arduino_spider_l3s_libra.Base.{
  ℕ, zero, suc, ◌+◌, ◌-◌, ◌/◌, ◌==◌, ◌&&◌, leb, not, true, false, List, [], ◌∷◌, drop, none,
  if◌then◌else◌, Result, ok, trap, Trap, ◌>>=◌, u8, u16,
}
use arduino_spider_l3s_libra.Stream.{
  load, load_bytes, store, store_bytes, stream_to_uint8, stream_to_uint32,
}
use arduino_spider_l3s_libra.Stream.Memory.{le32}
use arduino_spider_l3s_libra.Driver.Opcode
use arduino_spider_l3s_libra.Hci.{with_tx, hci_data_command_send}
use arduino_spider_l3s_libra.Events.Loop.{Caller, simple_link_wait_data}
use arduino_spider_l3s_libra.Socket.{Host, efail, uint32s_to_stream, wait_event, command}

-- NVMEM_MAC_FILEID, NVMEM_AES128_KEY_FILEID, MAC_ADDR_LEN, AES128_KEY_SIZE and SP_PORTION_SIZE
abbrev pub mac_fileid : ℕ
mac_fileid = 6

abbrev pub aes128_key_fileid : ℕ
aes128_key_fileid = 12

abbrev pub mac_addr_len : ℕ
mac_addr_len = 6

abbrev pub aes128_key_size : ℕ
aes128_key_size = 16

abbrev pub sp_portion_size : ℕ
sp_portion_size = 32

-- The status byte, the memory at `buff`, and the host. The data is awaited whatever the status is.
unfoldable pub nvmem_read : ℕ → ℕ → ℕ → List ℕ → Host → Result (ℕ × List ℕ × Host)
nvmem_read file_id len offset memory h = do
  r ←
      command Opcode.cmnd_nvmem_read 12 Opcode.cmnd_nvmem_read
        (λ c. uint32s_to_stream c (file_id ∷ len ∷ offset ∷ [])) (0xff ∷ []) h
  e ← simple_link_wait_data r.1.incoming (record { ret = memory; from = none }) r.1.driver
  status ← stream_to_uint8 r.0 0
  ok (status, e.0.ret, record { driver = e.1; incoming = e.2 })

unfoldable pub nvmem_write : ℕ → ℕ → ℕ → List ℕ → Host → Result (ℕ × Host)
nvmem_write file_id len entry_offset memory h = do
  let port = h.driver.port
  args ←
      uint32s_to_stream (record { buffer = port.tx; position = 10 })
        (file_id ∷ 12 ∷ len ∷ entry_offset ∷ [])
  bytes ← load_bytes memory 0 len
  b ← store_bytes args.buffer 26 bytes
  p ← hci_data_command_send Opcode.cmnd_nvmem_write 16 len (with_tx port b)
  r ←
      wait_event Opcode.evnt_nvmem_write (le32 efail)
        (record h { driver = record h.driver { port = p } })
  res ← stream_to_uint32 r.0 0
  ok (res, r.1)

-- The result is a UINT8 in both.
abbrev pub nvmem_set_mac_address : List ℕ → Host → Result (ℕ × Host)
nvmem_set_mac_address mac h = nvmem_write mac_fileid mac_addr_len 0 mac h >>= λ r. ok (u8 r.0, r.1)

abbrev pub nvmem_get_mac_address : List ℕ → Host → Result (ℕ × List ℕ × Host)
nvmem_get_mac_address mac h = nvmem_read mac_fileid mac_addr_len 0 mac h

-- The `while` of `nvmem_write_patch`, `fuel` rounds at most: the status, `offset`, what is left of the
-- length and of the data. The UINT8 `status` takes the lowest byte of the INT32 that is returned.
unfoldable pub patch_rounds : ℕ → ℕ → ℕ → ℕ → ℕ → List ℕ → Host → Result (ℕ × ℕ × ℕ × List ℕ × Host)
patch_rounds zero file_id status offset sp_len sp_data h = trap Trap.hang
patch_rounds (suc fuel) file_id status offset sp_len sp_data h =
    elim (status == 0 && leb sp_portion_size sp_len) [
      | false ↦ ok (status, offset, sp_len, sp_data, h)
      | true ↦ nvmem_write file_id sp_portion_size offset sp_data h >>= λ r.
          patch_rounds fuel file_id (u8 r.0) (u16 (offset + sp_portion_size))
            (sp_len - sp_portion_size) (drop sp_portion_size sp_data) r.1
    ]

unfoldable pub nvmem_write_patch : ℕ → ℕ → List ℕ → Host → Result (ℕ × Host)
nvmem_write_patch file_id sp_len sp_data h = do
  r ← patch_rounds (sp_len / sp_portion_size + 1) file_id 0 0 sp_len sp_data h
  if not (r.0 == 0)
      then ok (r.0, r.4)
      else if not (r.2 == 0)
      then (nvmem_write file_id r.2 r.1 r.3 r.4 >>= λ w. ok (u8 w.0, w.1))
      else ok (r.0, r.4)

-- `local` is the memory from `retBuf` on; the results are the status and the two bytes of the version.
unfoldable pub nvmem_read_sp_version : List ℕ → Host → Result (ℕ × ℕ × ℕ × Host)
nvmem_read_sp_version local h = do
  r ← command Opcode.cmnd_read_sp_version 0 Opcode.cmnd_read_sp_version (λ c. ok c) local h
  package_id ← load r.0 3
  package_build ← load r.0 4
  status ← load r.0 0
  ok (status, package_id, package_build, r.1)

unfoldable pub nvmem_create_entry : ℕ → ℕ → List ℕ → Host → Result (ℕ × Host)
nvmem_create_entry file_id new_len local h = do
  r ←
      command Opcode.cmnd_nvmem_create_entry 8 Opcode.cmnd_nvmem_create_entry
        (λ c. uint32s_to_stream c (file_id ∷ new_len ∷ [])) local h
  retval ← stream_to_uint8 r.0 0
  ok (retval, r.1)

abbrev pub aes_read_key : List ℕ → Host → Result (ℕ × List ℕ × Host)
aes_read_key key h = nvmem_read aes128_key_fileid aes128_key_size 0 key h

abbrev pub aes_write_key : List ℕ → Host → Result (ℕ × Host)
aes_write_key key h = nvmem_write aes128_key_fileid aes128_key_size 0 key h
