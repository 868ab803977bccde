-- ===== src/Driver/Status.antt =====
-- `socket_active_status` of evnt_handler.c: one bit for each socket, 0 while the socket is active.
use arduino_spider_l3s_libra.Base.{
  ℕ, zero, suc, ◌⊎◌, ◌-◌, ◌*◌, ◌^◌, ◌<◌, ◌==◌, ◌&&◌, ◌||◌, leb, ◌≡◌, refl, Bool, true, false,
  bit_and, bit_or, if◌then◌else◌, is_nonneg32, ◌<<<◌, arith, ==_iff, Bool-cases, inl, inr,
}
use arduino_spider_l3s_libra.Base.Table.{all_below, at_all_below}
use arduino_spider_l3s_libra.Base.Bits.{digit, digit-bit_and, digit-bit_or, bit_and-pow}
use native.Mathlib.Nat.{one-le-pow}

-- SOCKET_STATUS_ACTIVE, SOCKET_STATUS_INACTIVE, SOCKET_STATUS_INIT_VAL
abbrev pub active : ℕ
active = 0

abbrev pub inactive : ℕ
inactive = 1

abbrev pub status_init : ℕ
status_init = 0xffff

-- M_IS_VALID_SD of the INT32 with pattern `sd`.
abbrev pub is_valid_sd : ℕ → Bool
is_valid_sd sd = is_nonneg32 sd && leb sd 7

-- M_IS_VALID_STATUS
abbrev pub is_valid_status : ℕ → Bool
is_valid_status status = status == active || status == inactive

-- The new value of the UINT32 `socket_active_status`.
unfoldable pub set_socket_active_status : ℕ → ℕ → ℕ → ℕ
set_socket_active_status sd status word =
    if is_valid_sd sd && is_valid_status status
    then bit_or (bit_and word (0xffffffff - 1 <<< sd)) (status <<< sd)
    else word

unfoldable pub get_socket_active_status : ℕ → ℕ → ℕ
get_socket_active_status sd word =
    if is_valid_sd sd then (if bit_and word (1 <<< sd) == 0 then active else inactive) else inactive

-- Every socket number is below 8, so its bits are checked by evaluation.
mask_at : ℕ → ℕ → Bool
mask_at i j = digit j (0xffffffff - 1 <<< i) == (if i == j then 0 else 1)

mask_table : all_below 8 (λ i. all_below 8 (mask_at i)) ≡ true
unfolding all_below mask_at
mask_table = refl

status_at : ℕ → ℕ → ℕ → Bool
status_at s i j = digit j (s <<< i) == (if i == j then s else 0)

active_table : all_below 8 (λ i. all_below 8 (status_at active i)) ≡ true
unfolding all_below status_at
active_table = refl

inactive_table : all_below 8 (λ i. all_below 8 (status_at inactive i)) ≡ true
unfolding all_below status_at
inactive_table = refl

both_below :
    (p : ℕ → ℕ → Bool) (i j : ℕ)
    → all_below 8 (λ k. all_below 8 (p k)) ≡ true
    → i < 8
    → j < 8
    → p i j ≡ true
both_below p i j table h k =
    at_all_below (p i) 8 j k (at_all_below (λ m. all_below 8 (p m)) 8 i h table)

digit-mask : (i j : ℕ) → i < 8 → j < 8 → digit j (0xffffffff - 1 <<< i) ≡ (if i == j then 0 else 1)
unfolding mask_at
digit-mask i j h k = (==_iff _ _).0 (both_below mask_at i j mask_table h k)

digit-status : (i j s : ℕ) → i < 8 → j < 8 → s < 2 → digit j (s <<< i) ≡ (if i == j then s else 0)
unfolding status_at
digit-status i j zero h k small = (==_iff _ _).0 (both_below (status_at 0) i j active_table h k)
digit-status i j (suc zero) h k small =
    (==_iff _ _).0 (both_below (status_at 1) i j inactive_table h k)
digit-status i j (suc (suc s)) h k small = absurd (omega arith)

-- What a valid socket number reads is its bit.
get-digit : (j word : ℕ) → j < 8 → get_socket_active_status j word ≡ digit j word
unfolding get_socket_active_status
get-digit j word h =
    rw (valid, one, bit_and-pow j word)
      (elim (zero_or_one (digit j word) (omega arith)) [
        | inl e ↦ rw (e, nothing) refl
        | inr e ↦ rw (e, positive) refl
      ])
  where
    valid : is_valid_sd j ≡ true
    valid = ground arith

    one : 1 <<< j ≡ 2 ^ j
    one = omega arith

    zero_or_one : (d : ℕ) → d < 2 → (d ≡ 0) ⊎ (d ≡ 1)
    zero_or_one zero k = inl refl
    zero_or_one (suc zero) k = inr refl
    zero_or_one (suc (suc d)) k = absurd (omega arith)

    nothing : (0 * 2 ^ j == 0) ≡ true
    nothing = ground arith

    positive : (1 * 2 ^ j == 0) ≡ false
    positive = ground (arith, one-le-pow j 2)

get-or_and :
    (sd status j word : ℕ)
    → sd < 8
    → status < 2
    → j < 8
    → get_socket_active_status j (bit_or (bit_and word (0xffffffff - 1 <<< sd)) (status <<< sd))
      ≡ (if sd == j then status else get_socket_active_status j word)
get-or_and sd status j word h small k =
    rw
      (
        get-digit j (bit_or (bit_and word (0xffffffff - 1 <<< sd)) (status <<< sd)) k,
        get-digit j word k,
        digit-bit_or j (bit_and word (0xffffffff - 1 <<< sd)) (status <<< sd),
        digit-bit_and j word (0xffffffff - 1 <<< sd),
        digit-mask sd j h k,
        digit-status sd j status h k small,
      )
      (elim (Bool-cases (sd == j)) [ inl e ↦ rw e (omega arith) | inr e ↦ rw e (omega arith) ])

get_invalid : (j word : ℕ) → is_valid_sd j ≡ false → get_socket_active_status j word ≡ inactive
unfolding get_socket_active_status
get_invalid j word e = rw e

other_socket :
    (sd j status : ℕ)
    → (is_valid_sd sd && is_valid_status status) ≡ true
    → is_valid_sd j ≡ false
    → (sd == j) ≡ false
other_socket sd j status e k = ground arith

-- Reading after writing, for all socket numbers, statuses and words: a valid number that was just given
-- a valid status reads that status; every other one reads what it read before.
pub get-set :
    (sd status j word : ℕ)
    → get_socket_active_status j (set_socket_active_status sd status word) ≡ (
        if (is_valid_sd sd && is_valid_status status) && sd == j
        then status
        else get_socket_active_status j word)
unfolding set_socket_active_status
get-set sd status j word = elim (Bool-cases (is_valid_sd sd && is_valid_status status)) [
  | inr e ↦ rw e refl
  | inl e ↦ rw e (elim (Bool-cases (is_valid_sd j)) [
    | inl k ↦ get-or_and sd status j word (ground arith) (ground arith) (ground arith)
    | inr k ↦
        rw
          (
            get_invalid j (bit_or (bit_and word (0xffffffff - 1 <<< sd)) (status <<< sd)) k,
            get_invalid j word k,
            other_socket sd j status e k,
          )
          refl
  ])
]
