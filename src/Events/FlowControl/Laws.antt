-- ===== src/Events/FlowControl/Laws.antt =====
-- What a report of freed buffers does to the driver's credit.
use arduino_spider_l3s_libra.Base.{
  ℕ, zero, suc, ◌+◌, ◌<◌, ◌≡◌, refl, ap, ◌∙◌, List, [], ◌∷◌, ◌++◌, length, Result, ok, u16, u32,
  arith, get_elem?, sym, ap₂, append_assoc, length-append,
}
use arduino_spider_l3s_libra.Stream.{load, stream_to_uint16}
use arduino_spider_l3s_libra.Stream.Memory.{le16}
use arduino_spider_l3s_libra.Driver.{Driver}
use arduino_spider_l3s_libra.Driver.Opcode
use arduino_spider_l3s_libra.Events.FlowControl.{freed_buffers, flow_control_handler}

-- One entry of the report: the socket, the blocking mode, and how many buffers it gives back.
pub record Handle : Type 0 where
  pub socket : ℕ
  pub block_mode : ℕ
  pub free_buffers : ℕ

abbrev pub entries : List Handle → List ℕ
entries [] = []
entries (h ∷ hs) = h.socket ∷ h.block_mode ∷ (le16 h.free_buffers ++ entries hs)

-- The sum of the counts, each a UINT16.
abbrev pub total_freed : List Handle → ℕ
total_freed [] = 0
total_freed (h ∷ hs) = u16 h.free_buffers + total_freed hs

-- HCI_EVNT_DATA_UNSOL_FREE_BUFF with its entries and whatever follows in the receive buffer.
abbrev pub free_buffer_packet : ℕ → ℕ → List Handle → List ℕ → List ℕ
free_buffer_packet len status hs rest =
    Opcode.type_evnt
    ∷ (le16 Opcode.evnt_data_unsol_free_buff
        ++ (len ∷ status ∷ (le16 (length hs) ++ (entries hs ++ rest))))

get_elem?-behind :
    {A : Type 0} (xs ys : List A) (i j : ℕ)
    → i ≡ length xs + j
    → get_elem? (xs ++ ys) i ≡ get_elem? ys j
get_elem?-behind [] ys i j e = let e' : i ≡ j = omega arith in ap (get_elem? ys) e'
get_elem?-behind (x ∷ xs) ys zero j e = absurd (omega arith)
get_elem?-behind (x ∷ xs) ys (suc i) j e = get_elem?-behind xs ys i j (omega arith)

-- A UINT16 that stands two bytes behind a prefix.
uint16-behind :
    (xs : List ℕ) (a b v : ℕ) (ys : List ℕ) (i : ℕ)
    → i ≡ length xs + 2
    → stream_to_uint16 (xs ++ (a ∷ b ∷ (le16 v ++ ys))) i ≡ ok (u16 v)
unfolding stream_to_uint16 load
uint16-behind xs a b v ys i e =
    rw
      (
        get_elem?-behind xs (a ∷ b ∷ (le16 v ++ ys)) (i + 1) 3 (omega arith),
        get_elem?-behind xs (a ∷ b ∷ (le16 v ++ ys)) i 2 (omega arith),
      )
      (ap {B = Result ℕ} ok (omega arith))

freed_buffers-entries :
    (before : List ℕ) (hs : List Handle) (rest : List ℕ) (position temp : ℕ)
    → position ≡ length before
    → temp < 4294967296
    → freed_buffers (before ++ (entries hs ++ rest)) (length hs) position temp
      ≡ ok (u32 (temp + total_freed hs))
unfolding freed_buffers
freed_buffers-entries before [] rest position temp e h = ap {B = Result ℕ} ok (omega arith)
freed_buffers-entries before (h ∷ hs) rest position temp e small =
    rw
      (uint16-behind before h.socket h.block_mode h.free_buffers (entries hs ++ rest) (position + 2)
        (omega arith))
      (ap (λ b. freed_buffers b (length hs) (position + 4) (u32 (temp + u16 h.free_buffers)))
          (sym (append_assoc before entry (entries hs ++ rest)))
        ∙ (freed_buffers-entries (before ++ entry) hs rest (position + 4)
              (u32 (temp + u16 h.free_buffers)) (omega (arith, length-append before entry))
              (omega arith)
            ∙ ap {B = Result ℕ} ok (omega arith)))
  where
    entry : List ℕ
    entry = h.socket ∷ h.block_mode ∷ le16 h.free_buffers

-- A report of freed buffers with fewer than 65536 entries, whatever stands behind it: the handler adds
-- the sum of the entries' counts to the free buffers (as a UINT16) and to the released packets (as an
-- unsigned long), and changes nothing else.
pub flow_control_handler-free_buffer_packet :
    (len status : ℕ) (hs : List Handle) (rest : List ℕ) (d : Driver)
    → length hs < 65536
    → flow_control_handler (free_buffer_packet len status hs rest) d
      ≡ ok (record d {
        number_of_free_buffers = u16 (d.number_of_free_buffers + total_freed hs);
        number_of_released_packets = u32 (d.number_of_released_packets + total_freed hs);
      })
unfolding flow_control_handler
flow_control_handler-free_buffer_packet len status hs rest d few =
    rw (handles, freed_buffers-entries (front ++ le16 (length hs)) hs rest 7 0 refl (omega arith))
      (ap₂
        (λ f r. Result.ok (record d { number_of_free_buffers = f; number_of_released_packets = r }))
        (omega arith) (omega arith))
  where
    front : List ℕ
    front = Opcode.type_evnt ∷ (le16 Opcode.evnt_data_unsol_free_buff ++ (len ∷ status ∷ []))

    handles : stream_to_uint16 (free_buffer_packet len status hs rest) 5 ≡ ok (length hs)
    handles =
        uint16-behind (Opcode.type_evnt ∷ le16 Opcode.evnt_data_unsol_free_buff) len status
          (length hs) (entries hs ++ rest) 5 refl
        ∙ ap {B = Result ℕ} ok (omega arith)
