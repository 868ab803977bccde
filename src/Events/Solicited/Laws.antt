-- ===== src/Events/Solicited/Laws.antt =====
-- The reply to `recv` and the structure that it is stored in.
use arduino_spider_l3s_libra.Base.{
  ℕ, zero, suc, ◌+◌, ◌≤◌, ◌≡◌, refl, ap, List, [], ◌∷◌, ◌++◌, length, get_elem?, none, Result, ok,
  trap, Trap, u32, arith,
}
use arduino_spider_l3s_libra.Stream.{load, stream_to_uint32}
use arduino_spider_l3s_libra.Stream.Memory.{splice, le16, le32, store_bytes-splice}
use arduino_spider_l3s_libra.Stream.RoundTrip.{length-splice}
use arduino_spider_l3s_libra.Driver.{Driver}
use arduino_spider_l3s_libra.Driver.Opcode
use arduino_spider_l3s_libra.Events.Solicited.{reply_uint32, recv_reply, store_reply}

-- HCI_EVNT_RECV with the socket, the number of bytes and the flags.
abbrev pub recv_packet : ℕ → ℕ → ℕ → ℕ → ℕ → List ℕ → List ℕ
recv_packet len status sd number flags rest =
    Opcode.type_evnt
    ∷ (le16 Opcode.cmnd_recv ++ (len ∷ status ∷ (le32 sd ++ (le32 number ++ (le32 flags ++ rest)))))

get_elem?-length : (xs : List ℕ) (i : ℕ) → length xs ≤ i → get_elem? xs i ≡ none
get_elem?-length [] i h = refl
get_elem?-length (x ∷ xs) zero h = absurd (omega arith)
get_elem?-length (x ∷ xs) (suc i) h = get_elem?-length xs i (omega arith)

past_end : (r : List ℕ) (i : ℕ) → length r ≤ i + 3 → stream_to_uint32 r i ≡ trap Trap.out_of_bounds
unfolding stream_to_uint32 load
past_end r i h = rw (get_elem?-length r (i + 3) h) refl

module _ (len status sd number flags : ℕ) (rest : List ℕ) where
  abbrev reply : List ℕ
  reply = recv_packet len status sd number flags rest

  first_lem : stream_to_uint32 reply 5 ≡ ok (u32 sd)
  unfolding stream_to_uint32 load
  first_lem = ap {B = Result ℕ} ok (omega arith)

  second_lem : stream_to_uint32 reply 9 ≡ ok (u32 number)
  unfolding stream_to_uint32 load
  second_lem = ap {B = Result ℕ} ok (omega arith)

  third_lem : stream_to_uint32 reply 13 ≡ ok (u32 flags)
  unfolding stream_to_uint32 load
  third_lem = ap {B = Result ℕ} ok (omega arith)

-- The reply to `recv` is stored in the twelve bytes of a `tBsdReadReturnParams`. For every reply, whatever
-- it says, the handler then reads past the end of those twelve bytes.
pub store_reply-recv_packet :
    (len status sd number flags : ℕ) (rest ret : List ℕ) (d : Driver)
    → length ret ≡ 12
    → store_reply Opcode.cmnd_recv (recv_packet len status sd number flags rest) ret d
      ≡ trap Trap.out_of_bounds
unfolding store_reply recv_reply reply_uint32
store_reply-recv_packet len status sd number flags rest ret d twelve =
    rw
      (
        first_lem len status sd number flags rest,
        store_bytes-splice ret 0 (le32 (u32 sd)) (omega arith),
        second_lem len status sd number flags rest,
        store_bytes-splice r1 4 (le32 (u32 number)) (omega (arith, l1)),
        third_lem len status sd number flags rest,
        store_bytes-splice r2 8 (le32 (u32 flags)) (omega (arith, l1, l2)),
        past_end r3 12 (omega (arith, l1, l2, l3)),
      )
      refl
  where
    r1 : List ℕ
    r1 = splice ret 0 (le32 (u32 sd))

    l1 : length r1 ≡ length ret
    l1 = length-splice ret 0 (le32 (u32 sd)) (omega arith)

    r2 : List ℕ
    r2 = splice r1 4 (le32 (u32 number))

    l2 : length r2 ≡ length r1
    l2 = length-splice r1 4 (le32 (u32 number)) (omega (arith, l1))

    r3 : List ℕ
    r3 = splice r2 8 (le32 (u32 flags))

    l3 : length r3 ≡ length r2
    l3 = length-splice r2 8 (le32 (u32 flags)) (omega (arith, l1, l2))
