-- ===== src/Spi/Link/Reception.antt =====
-- The packet that an interrupt on the idle link receives: which bytes, and how many.
use arduino_spider_l3s_libra.Base.{
  ℕ, zero, suc, ◌+◌, ◌≤◌, ◌<◌, true, List, ◌∷◌, ◌++◌, length, get_elem?, ok, trap, Trap, ◌>>=◌,
  ◌==◌, ◌≡◌, refl, sym, ap, ap₂, ◌∙◌, ◌⊎◌, inl, inr, arith, if◌then◌else◌, u16, ◌<<<◌, access,
  Result, some,
}
use arduino_spider_l3s_libra.Stream.{load, stream_to_uint8, stream_to_uint16}
use arduino_spider_l3s_libra.Stream.Memory.{splice, store_bytes-splice, store_bytes-out_of_bounds}
use arduino_spider_l3s_libra.Stream.RoundTrip.{get_elem?-splice, length-splice, splice-append}
use arduino_spider_l3s_libra.Spi.Link.{
  SpiState, Link, clocked, rest_of_data, rest_of_event, spi_read_data_synchronous,
  spi_read_data_cont, read_by_type,
}

-- The bytes after the first ten of the packet that the device sends.
abbrev pub rest_of : (ℕ → ℕ) → ℕ
rest_of incoming =
    if incoming 5 == 0x02
    then rest_of_data (u16 (u16 (incoming 9 <<< 8) + incoming 8))
    else rest_of_event (incoming 8)

-- The packet is data or an event.
abbrev pub IsKnown : (ℕ → ℕ) → Type 0
IsKnown incoming = (incoming 5 ≡ 0x02) ⊎ (incoming 5 ≡ 0x04)

pub length-clocked : (incoming : ℕ → ℕ) (from n : ℕ) → length (clocked incoming from n) ≡ n
length-clocked incoming from zero = refl
length-clocked incoming from (suc n) = omega (arith, length-clocked incoming (from + 1) n)

clocked-append :
    (incoming : ℕ → ℕ) (from m n : ℕ)
    → clocked incoming from m ++ clocked incoming (from + m) n ≡ clocked incoming from (m + n)
clocked-append incoming from zero n =
    let same : from + 0 ≡ from = omega arith in
    let total : n ≡ 0 + n = omega arith in
    ap (λ a. clocked incoming a n) same ∙ ap (λ k. clocked incoming from k) total
clocked-append incoming from (suc m) n =
    let next : from + suc m ≡ from + 1 + m = omega arith in
    let total : suc (m + n) ≡ suc m + n = omega arith in
    ap (λ a. incoming from ∷ (clocked incoming (from + 1) m ++ clocked incoming a n)) next
    ∙ (ap (◌∷◌ (incoming from)) (clocked-append incoming (from + 1) m n)
        ∙ ap (λ k. clocked incoming from k) total)

-- The receive buffer after `n` bytes of the packet.
abbrev pub filled : (ℕ → ℕ) → ℕ → List ℕ → List ℕ
filled incoming n rx = splice rx 0 (clocked incoming 0 n)

pub spi_read_data_synchronous-splice :
    (incoming : ℕ → ℕ) (from size : ℕ) (l : Link)
    → from + size ≤ length l.rx
    → spi_read_data_synchronous incoming from size l
      ≡ ok (record l { rx = splice l.rx from (clocked incoming from size) })
unfolding spi_read_data_synchronous
spi_read_data_synchronous-splice incoming from size l h =
    rw
      (store_bytes-splice l.rx from (clocked incoming from size)
        (omega (arith, length-clocked incoming from size)))
      refl

-- A byte of the header, once it is read.
load-filled :
    (incoming : ℕ → ℕ) (rx : List ℕ) (i : ℕ)
    → 10 ≤ length rx
    → i < 10
    → get_elem? (clocked incoming 0 10) i ≡ some (incoming i)
    → load (filled incoming 10 rx) i ≡ ok (incoming i)
unfolding load
load-filled incoming rx i h k e = ap access (
    get_elem?-splice rx 0 (clocked incoming 0 10) i i (omega arith) (omega arith) (omega arith) ∙ e)

filled-append :
    (incoming : ℕ → ℕ) (n : ℕ) (rx : List ℕ)
    → 10 + n ≤ length rx
    → splice (filled incoming 10 rx) 10 (clocked incoming 10 n) ≡ filled incoming (10 + n) rx
filled-append incoming n rx h =
    splice-append rx 0 10 (clocked incoming 0 10) (clocked incoming 10 n) refl
      (omega (arith, length-clocked incoming 10 n))
    ∙ ap (splice rx 0) (clocked-append incoming 0 10 n)

module _ (incoming : ℕ → ℕ) (l : Link) (room : 10 ≤ length l.rx) where
  -- The link after the header.
  abbrev pub headed : Link
  headed = record l {
    process = true;
    spi_state = SpiState.read_eot;
    selected = true;
    rx = filled incoming 10 l.rx;
  }

  type_loaded : load headed.rx 5 ≡ ok (incoming 5)
  type_loaded = load-filled incoming l.rx 5 room (omega arith) refl

  low_loaded : load headed.rx 8 ≡ ok (incoming 8)
  low_loaded = load-filled incoming l.rx 8 room (omega arith) refl

  high_loaded : load headed.rx 9 ≡ ok (incoming 9)
  high_loaded = load-filled incoming l.rx 9 room (omega arith) refl

  abbrev at_eot : Link → Result Link
  at_eot m = ok (record m { spi_state = SpiState.read_eot })

  spi_read_data_cont-typed :
      spi_read_data_cont incoming headed ≡ read_by_type (incoming 5) incoming headed
  unfolding spi_read_data_cont stream_to_uint8
  spi_read_data_cont-typed = ap (λ r. r >>= λ type. read_by_type type incoming headed) type_loaded

  data_length : stream_to_uint16 headed.rx 8 ≡ ok (u16 (u16 (incoming 9 <<< 8) + incoming 8))
  unfolding stream_to_uint16
  data_length =
      ap₂ (λ r q. r >>= λ hi. q >>= λ lo. ok (u16 (u16 (hi <<< 8) + lo))) high_loaded low_loaded

  read_by_type-data :
      read_by_type 2 incoming headed
      ≡ spi_read_data_synchronous incoming 10
          (rest_of_data (u16 (u16 (incoming 9 <<< 8) + incoming 8)))
          headed
  unfolding read_by_type
  read_by_type-data =
      ap (λ r. r >>= λ len. spi_read_data_synchronous incoming 10 (rest_of_data len) headed)
        data_length

  read_by_type-event :
      read_by_type 4 incoming headed
      ≡ (spi_read_data_synchronous incoming 10 (rest_of_event (incoming 8)) headed >>= at_eot)
  unfolding read_by_type stream_to_uint8
  read_by_type-event =
      ap
        (λ r.
          r >>= λ len. spi_read_data_synchronous incoming 10 (rest_of_event len) headed >>= at_eot)
        low_loaded

  -- Both kinds of packets are read to their ends.
  pub spi_read_data_cont-filled :
      IsKnown incoming
      → 10 + rest_of incoming ≤ length l.rx
      → spi_read_data_cont incoming headed
        ≡ ok (record headed { rx = filled incoming (10 + rest_of incoming) l.rx })
  spi_read_data_cont-filled known fits = spi_read_data_cont-typed ∙ by_type known
    where
      whole :
          (n : ℕ)
          → rest_of incoming ≡ n
          → spi_read_data_synchronous incoming 10 n headed
            ≡ ok (record headed { rx = filled incoming (10 + rest_of incoming) l.rx })
      whole n e =
          ap (λ k. spi_read_data_synchronous incoming 10 k headed) (sym e)
          ∙ (spi_read_data_synchronous-splice incoming 10 (rest_of incoming) headed in_headed
              ∙ ap (λ r. ok (record headed { rx = r }))
                  (filled-append incoming (rest_of incoming) l.rx fits))
        where
          in_headed : 10 + rest_of incoming ≤ length headed.rx
          in_headed = omega (arith, length-splice l.rx 0 (clocked incoming 0 10) room)

      by_type :
          IsKnown incoming
          → read_by_type (incoming 5) incoming headed
            ≡ ok (record headed { rx = filled incoming (10 + rest_of incoming) l.rx })
      by_type (inl e) =
          ap (λ t. read_by_type t incoming headed) e ∙ (read_by_type-data ∙ whole _ (rw e refl))
      by_type (inr e) =
          ap (λ t. read_by_type t incoming headed) e
          ∙ (read_by_type-event ∙ ap (λ r. r >>= at_eot) (whole _ (rw e refl)))

  -- A packet that is too long is not.
  pub spi_read_data_cont-overrun :
      IsKnown incoming
      → length l.rx < 10 + rest_of incoming
      → spi_read_data_cont incoming headed ≡ trap Trap.out_of_bounds
  unfolding spi_read_data_synchronous
  spi_read_data_cont-overrun known long = spi_read_data_cont-typed ∙ by_type known
    where
      outside :
          (n : ℕ)
          → rest_of incoming ≡ n
          → spi_read_data_synchronous incoming 10 n headed ≡ trap Trap.out_of_bounds
      outside n e =
          ap (λ r. r >>= λ rx. ok (record headed { rx = rx }))
            (store_bytes-out_of_bounds headed.rx 10 (clocked incoming 10 n)
              (λ empty. omega (arith, ap length empty, counted, e))
              (omega (arith, length-splice l.rx 0 (clocked incoming 0 10) room, counted, e)))
        where
          counted : length (clocked incoming 10 n) ≡ n
          counted = length-clocked incoming 10 n

      by_type :
          IsKnown incoming → read_by_type (incoming 5) incoming headed ≡ trap Trap.out_of_bounds
      by_type (inl e) =
          ap (λ t. read_by_type t incoming headed) e ∙ (read_by_type-data ∙ outside _ (rw e refl))
      by_type (inr e) =
          ap (λ t. read_by_type t incoming headed) e
          ∙ (read_by_type-event ∙ ap (λ r. r >>= at_eot) (outside _ (rw e refl)))
