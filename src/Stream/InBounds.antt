-- ===== src/Stream/InBounds.antt =====
-- Reads and writes of a buffer either stay within it, and keep its size, or are out of bounds.
use arduino_spider_l3s_libra.Base.{
  ℕ, zero, suc, ◌+◌, ◌≤◌, ◌≡◌, refl, ap, List, [], ◌∷◌, length, ok, trap, Trap, ◌>>=◌, arith,
  IfInBounds, IfInBounds->>=, >>=-out_of_bounds, sym, ◌<◌,
}
use mathlib.Core.Path.{subst}
use native.Mathlib.Decide.{dec_lt}
use arduino_spider_l3s_libra.Stream.{
  store, store_bytes, load, load_bytes, memmove, Cursor, array_to_stream, uint32_to_stream,
}
use arduino_spider_l3s_libra.Stream.Memory.{le32, uint32_to_stream-le32}

abbrev pub HasSize : ℕ → List ℕ → Type 0
HasSize m b = length b ≡ m

abbrev pub Any : {A : Type 0} → A → Type 0
Any a = Unit {0}

pub store-HasSize :
    (m : ℕ) (b : List ℕ) (i v : ℕ) → HasSize m b → IfInBounds (HasSize m) (store b i v)
unfolding store
store-HasSize m [] i v e = refl
store-HasSize m (x ∷ xs) zero v e = e
store-HasSize zero (x ∷ xs) (suc i) v e = absurd (omega (arith, e))
store-HasSize (suc m) (x ∷ xs) (suc i) v e =
    IfInBounds->>= (HasSize m) (HasSize (suc m)) (store xs i v) (λ ys. ok (x ∷ ys))
      (store-HasSize m xs i v (omega (arith, e))) (λ ys k. ap suc k)

pub store_bytes-HasSize :
    (m : ℕ) (b : List ℕ) (i : ℕ) (xs : List ℕ)
    → HasSize m b
    → IfInBounds (HasSize m) (store_bytes b i xs)
unfolding store_bytes
store_bytes-HasSize m b i [] e = e
store_bytes-HasSize m b i (x ∷ xs) e =
    IfInBounds->>= (HasSize m) (HasSize m) (store b i x) (λ c. store_bytes c (suc i) xs)
      (store-HasSize m b i x e) (λ c k. store_bytes-HasSize m c (suc i) xs k)

pub array_to_stream-in_bounds : (c : Cursor) (bs : List ℕ) → IfInBounds Any (array_to_stream c bs)
unfolding array_to_stream
array_to_stream-in_bounds c bs =
    IfInBounds->>= (HasSize (length c.buffer)) Any (store_bytes c.buffer c.position bs)
      (λ b. ok (record { buffer = b; position = c.position + length bs }))
      (store_bytes-HasSize (length c.buffer) c.buffer c.position bs refl) (λ b _. tt)

pub load-in_bounds : (b : List ℕ) (i : ℕ) → IfInBounds Any (load b i)
unfolding load
load-in_bounds [] i = refl
load-in_bounds (x ∷ xs) zero = tt
load-in_bounds (x ∷ xs) (suc i) = load-in_bounds xs i

pub load_bytes-in_bounds : (b : List ℕ) (i n : ℕ) → IfInBounds Any (load_bytes b i n)
unfolding load_bytes
load_bytes-in_bounds b i zero = tt
load_bytes-in_bounds b i (suc n) =
    IfInBounds->>= Any Any (load b i) (λ x. load_bytes b (suc i) n >>= λ xs. ok (x ∷ xs))
      (load-in_bounds b i)
      (λ x _.
        IfInBounds->>= Any Any (load_bytes b (suc i) n) (λ xs. ok (x ∷ xs))
          (load_bytes-in_bounds b (suc i) n) (λ xs _. tt))

pub memmove-HasSize :
    (m : ℕ) (b : List ℕ) (to from n : ℕ)
    → HasSize m b
    → IfInBounds (HasSize m) (memmove b to from n)
unfolding memmove
memmove-HasSize m b to from n e =
    IfInBounds->>= Any (HasSize m) (load_bytes b from n) (λ xs. store_bytes b to xs)
      (load_bytes-in_bounds b from n) (λ xs _. store_bytes-HasSize m b to xs e)

pub store-out_of_bounds :
    (b : List ℕ) (i v : ℕ) → length b ≤ i → store b i v ≡ trap Trap.out_of_bounds
unfolding store
store-out_of_bounds [] i v h = refl
store-out_of_bounds (x ∷ xs) zero v h = absurd (omega arith)
store-out_of_bounds (x ∷ xs) (suc i) v h =
    ap (λ r. r >>= λ ys. ok (x ∷ ys)) (store-out_of_bounds xs i v (omega arith))

load-out_of_bounds : (b : List ℕ) (i : ℕ) → length b ≤ i → load b i ≡ trap Trap.out_of_bounds
unfolding load
load-out_of_bounds [] i h = refl
load-out_of_bounds (x ∷ xs) zero h = absurd (omega arith)
load-out_of_bounds (x ∷ xs) (suc i) h = load-out_of_bounds xs i (omega arith)

pub load_bytes-out_of_bounds :
    (b : List ℕ) (i n : ℕ)
    → i ≤ length b
    → length b < i + n
    → load_bytes b i n ≡ trap Trap.out_of_bounds
load_bytes-out_of_bounds b i zero h over = absurd (omega arith)
load_bytes-out_of_bounds b i (suc n) h over = elim (dec_lt i (length b)) [
  | yes inside ↦ later (load_bytes-out_of_bounds b (suc i) n (omega arith) (omega arith))
  | no outside ↦
      unfold load_bytes in
      ap (λ r. r >>= λ x. load_bytes b (suc i) n >>= λ xs. ok (x ∷ xs))
        (load-out_of_bounds b i (omega arith))
]
  where
    later :
        load_bytes b (suc i) n ≡ trap Trap.out_of_bounds
        → load_bytes b i (suc n) ≡ trap Trap.out_of_bounds
    later e =
        unfold load_bytes in
        >>=-out_of_bounds Any (load b i) (λ x. load_bytes b (suc i) n >>= λ xs. ok (x ∷ xs))
          (load-in_bounds b i) (λ x _. ap (λ r. r >>= λ xs. ok (x ∷ xs)) e)

pub uint32_to_stream-in_bounds : (c : Cursor) (v : ℕ) → IfInBounds Any (uint32_to_stream c v)
uint32_to_stream-in_bounds c v =
    subst (IfInBounds Any) (sym (uint32_to_stream-le32 c v)) (array_to_stream-in_bounds c (le32 v))
