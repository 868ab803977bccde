-- ===== src/Aes/Columns.antt =====
-- "mixcolums" of security.c and the "barreto" step that undoes it, on one column.
use arduino_spider_l3s_libra.Base.{ℕ, ◌<◌, bit_xor, ◌≡◌, refl, List, [], ◌∷◌}
use arduino_spider_l3s_libra.Base.Xor.{xor-IsByte}
use arduino_spider_l3s_libra.Aes.{Column, IsColumn, mix_column, barreto}
use arduino_spider_l3s_libra.Aes.Galois.{mul2-IsByte}
use arduino_spider_l3s_libra.Aes.Linear.{Sum, v, ◌⊕◌, mul2, by_parity}

-- A column of sums, and the two steps on it.
record Sums : Type 0 where
  e0 : Sum
  e1 : Sum
  e2 : Sum
  e3 : Sum

abbrev mix : Sums → Sums
mix s =
    let all = s.e0 ⊕ s.e1 ⊕ s.e2 ⊕ s.e3 in
    record {
      e0 = s.e0 ⊕ mul2 (s.e0 ⊕ s.e1) ⊕ all;
      e1 = s.e1 ⊕ mul2 (s.e1 ⊕ s.e2) ⊕ all;
      e2 = s.e2 ⊕ mul2 (s.e2 ⊕ s.e3) ⊕ all;
      e3 = s.e3 ⊕ mul2 (s.e3 ⊕ s.e0) ⊕ all;
    }

abbrev prepare : Sums → Sums
prepare s =
    let even = mul2 (mul2 (s.e0 ⊕ s.e2)) in
    let odd = mul2 (mul2 (s.e1 ⊕ s.e3)) in
    record { e0 = s.e0 ⊕ even; e1 = s.e1 ⊕ odd; e2 = s.e2 ⊕ even; e3 = s.e3 ⊕ odd }

abbrev start : Sums
start = record { e0 = v 0; e1 = v 1; e2 = v 2; e3 = v 3 }

abbrev bytes : Column → List ℕ
bytes s = s.r0 ∷ s.r1 ∷ s.r2 ∷ s.r3 ∷ []

abbrev round_trip : Sums
round_trip = mix (prepare (mix start))

abbrev reverse_trip : Sums
reverse_trip = mix (mix (prepare start))

-- The decryption's two steps undo the mixing of a column.
pub unmix-mix : (s : Column) → mix_column (barreto (mix_column s)) ≡ s
unfolding mix_column barreto
unmix-mix s = λ i. record {
  r0 = by_parity (bytes s) round_trip.e0 (v 0) refl i;
  r1 = by_parity (bytes s) round_trip.e1 (v 1) refl i;
  r2 = by_parity (bytes s) round_trip.e2 (v 2) refl i;
  r3 = by_parity (bytes s) round_trip.e3 (v 3) refl i;
}

-- The mixing of a column undoes the decryption's two steps.
pub mix-unmix : (s : Column) → mix_column (mix_column (barreto s)) ≡ s
unfolding mix_column barreto
mix-unmix s = λ i. record {
  r0 = by_parity (bytes s) reverse_trip.e0 (v 0) refl i;
  r1 = by_parity (bytes s) reverse_trip.e1 (v 1) refl i;
  r2 = by_parity (bytes s) reverse_trip.e2 (v 2) refl i;
  r3 = by_parity (bytes s) reverse_trip.e3 (v 3) refl i;
}

pub mix_column-IsColumn : {s : Column} → IsColumn s → IsColumn (mix_column s)
unfolding mix_column
mix_column-IsColumn {s} h = record {
  b0 = xor-IsByte _ _ (xor-IsByte _ _ h.b0 (mul2-IsByte _)) all;
  b1 = xor-IsByte _ _ (xor-IsByte _ _ h.b1 (mul2-IsByte _)) all;
  b2 = xor-IsByte _ _ (xor-IsByte _ _ h.b2 (mul2-IsByte _)) all;
  b3 = xor-IsByte _ _ (xor-IsByte _ _ h.b3 (mul2-IsByte _)) all;
}
  where
    all : bit_xor (bit_xor (bit_xor s.r0 s.r1) s.r2) s.r3 < 256
    all = xor-IsByte _ _ (xor-IsByte _ _ (xor-IsByte _ _ h.b0 h.b1) h.b2) h.b3

pub barreto-IsColumn : {s : Column} → IsColumn s → IsColumn (barreto s)
unfolding barreto
barreto-IsColumn h = record {
  b0 = xor-IsByte _ _ h.b0 (mul2-IsByte _);
  b1 = xor-IsByte _ _ h.b1 (mul2-IsByte _);
  b2 = xor-IsByte _ _ h.b2 (mul2-IsByte _);
  b3 = xor-IsByte _ _ h.b3 (mul2-IsByte _);
}
