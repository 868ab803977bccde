-- ===== src/Aes/Linear.antt =====
-- Linear combinations of bytes over `^` and `galois_mul2`, compared by the parity of each summand:
-- an equation holds when every multiple of every value stands in both sides together an even
-- number of times.
use arduino_spider_l3s_libra.Base.{ℕ, zero, suc, bit_xor, ◌≡◌, refl, sym, ap, ap₂, ◌∙◌}
use arduino_spider_l3s_libra.Base.{
  Bool-cases, inl, inr, Bool, true, false, not, ◌&&◌, List, [], ◌∷◌, get_or, if◌then◌else◌,
}
use arduino_spider_l3s_libra.Base.Xor.{
  zero-bit_xor, xor-zero, xor_assoc, xor_left_comm, xor_cancel, xor_cancel_left,
}
use arduino_spider_l3s_libra.Aes.Galois.{galois_mul2, mul2-xor}

-- `v i` is the i-th value of an environment.
infixl 65 ◌⊕◌
pub data Sum : Type 0 where
  v : ℕ → Sum
  ◌⊕◌ : Sum → Sum → Sum
  mul2 : Sum → Sum

abbrev pub eval : List ℕ → Sum → ℕ
eval ρ (v i) = get_or ρ i 0
eval ρ (e ⊕ f) = bit_xor (eval ρ e) (eval ρ f)
eval ρ (mul2 e) = galois_mul2 (eval ρ e)

-- Which values stand in a sum an odd number of times.
abbrev unit : ℕ → List Bool
unit zero = true ∷ []
unit (suc i) = false ∷ unit i

abbrev flip : Bool → Bool → Bool
flip true b = not b
flip false b = b

abbrev add : List Bool → List Bool → List Bool
add [] ds = ds
add (c ∷ cs) [] = c ∷ cs
add (c ∷ cs) (d ∷ ds) = flip c d ∷ add cs ds

-- The values that are odd at each power of `galois_mul2`, lowest first.
abbrev add_all : List (List Bool) → List (List Bool) → List (List Bool)
add_all [] qs = qs
add_all (p ∷ ps) [] = p ∷ ps
add_all (p ∷ ps) (q ∷ qs) = add p q ∷ add_all ps qs

abbrev parities : Sum → List (List Bool)
parities (v i) = unit i ∷ []
parities (e ⊕ f) = add_all (parities e) (parities f)
parities (mul2 e) = [] ∷ parities e

abbrev none_odd : List Bool → Bool
none_odd [] = true
none_odd (c ∷ cs) = not c && none_odd cs

abbrev no_powers_odd : List (List Bool) → Bool
no_powers_odd [] = true
no_powers_odd (p ∷ ps) = none_odd p && no_powers_odd ps

lin : List ℕ → List Bool → ℕ
lin [] cs = 0
lin (x ∷ ρ) [] = 0
lin (x ∷ ρ) (c ∷ cs) = if c then bit_xor x (lin ρ cs) else lin ρ cs

lin-nil : (ρ : List ℕ) → lin ρ [] ≡ 0
unfolding lin
lin-nil [] = refl
lin-nil (x ∷ ρ) = refl

lin-unit : (ρ : List ℕ) (i : ℕ) → lin ρ (unit i) ≡ get_or ρ i 0
unfolding lin
lin-unit [] i = refl
lin-unit (x ∷ ρ) zero = ap (bit_xor x) (lin-nil ρ) ∙ xor-zero x
lin-unit (x ∷ ρ) (suc i) = lin-unit ρ i

lin-add : (ρ : List ℕ) (cs ds : List Bool) → lin ρ (add cs ds) ≡ bit_xor (lin ρ cs) (lin ρ ds)
unfolding lin
lin-add [] cs ds = refl
lin-add (x ∷ ρ) [] ds = sym (zero-bit_xor _)
lin-add (x ∷ ρ) (c ∷ cs) [] = sym (xor-zero _)
lin-add (x ∷ ρ) (true ∷ cs) (true ∷ ds) =
    simp (lin-add ρ cs ds, xor_assoc, xor_left_comm (lin ρ cs) x) (sym (xor_cancel_left x _))
lin-add (x ∷ ρ) (true ∷ cs) (false ∷ ds) = simp (lin-add ρ cs ds, xor_assoc)
lin-add (x ∷ ρ) (false ∷ cs) (true ∷ ds) = rw (lin-add ρ cs ds) (xor_left_comm x _ _)
lin-add (x ∷ ρ) (false ∷ cs) (false ∷ ds) = lin-add ρ cs ds

lin-none_odd : (ρ : List ℕ) (cs : List Bool) → none_odd cs ≡ true → lin ρ cs ≡ 0
unfolding lin
lin-none_odd [] cs h = refl
lin-none_odd (x ∷ ρ) [] h = refl
lin-none_odd (x ∷ ρ) (true ∷ cs) h = cc
lin-none_odd (x ∷ ρ) (false ∷ cs) h = lin-none_odd ρ cs h

horner : List ℕ → List (List Bool) → ℕ
horner ρ [] = 0
horner ρ (p ∷ ps) = bit_xor (lin ρ p) (galois_mul2 (horner ρ ps))

mul2-zero : galois_mul2 0 ≡ 0
unfolding galois_mul2
mul2-zero = refl

xor_exchange :
    (a b c d : ℕ) → bit_xor (bit_xor a b) (bit_xor c d) ≡ bit_xor (bit_xor a c) (bit_xor b d)
xor_exchange a b c d =
    xor_assoc a b (bit_xor c d)
    ∙ (ap (bit_xor a) (xor_left_comm b c d) ∙ sym (xor_assoc a c (bit_xor b d)))

horner-add_all :
    (ρ : List ℕ) (ps qs : List (List Bool))
    → horner ρ (add_all ps qs) ≡ bit_xor (horner ρ ps) (horner ρ qs)
unfolding horner
horner-add_all ρ [] qs = sym (zero-bit_xor _)
horner-add_all ρ (p ∷ ps) [] = sym (xor-zero _)
horner-add_all ρ (p ∷ ps) (q ∷ qs) =
    rw (lin-add ρ p q, horner-add_all ρ ps qs, mul2-xor) (xor_exchange _ _ _ _)

horner-parities : (ρ : List ℕ) (e : Sum) → eval ρ e ≡ horner ρ (parities e)
unfolding horner
horner-parities ρ (v i) = rw (lin-unit, mul2-zero, xor-zero)
horner-parities ρ (e ⊕ f) =
    ap₂ bit_xor (horner-parities ρ e) (horner-parities ρ f)
    ∙ sym (horner-add_all ρ (parities e) (parities f))
horner-parities ρ (mul2 e) = rw (lin-nil, zero-bit_xor) (ap galois_mul2 (horner-parities ρ e))

horner-no_powers_odd :
    (ρ : List ℕ) (ps : List (List Bool)) → no_powers_odd ps ≡ true → horner ρ ps ≡ 0
unfolding horner
horner-no_powers_odd ρ [] h = refl
horner-no_powers_odd ρ (p ∷ ps) h = elim (Bool-cases (none_odd p)) [
  | inl e ↦ rw (lin-none_odd ρ p e, horner-no_powers_odd ρ ps (rw e at h), mul2-zero)
  | inr e ↦ cc (rw e at h)
]

-- Two sums are equal when no multiple of a value is odd in the two together.
pub by_parity :
    (ρ : List ℕ) (e f : Sum) → no_powers_odd (parities (e ⊕ f)) ≡ true → eval ρ e ≡ eval ρ f
by_parity ρ e f h =
    sym (xor_cancel (eval ρ e) (eval ρ f))
    ∙ (ap (λ t. bit_xor t (eval ρ f)) (horner-parities ρ (e ⊕ f) ∙ horner-no_powers_odd ρ _ h)
        ∙ zero-bit_xor _)
