-- ===== src/Stream/Parts.antt =====
-- Writes and reads of a buffer that is given in parts.
use arduino_spider_l3s_libra.Base.{
  ℕ, zero, suc, ◌+◌, ◌≡◌, refl, sym, ap, ap₂, ◌∙◌, List, [], ◌∷◌, ◌++◌, length, take, drop,
  length-append, take-append, length-take, length-drop, append_assoc, Result, ok, trap, ◌>>=◌,
  arith,
}
use arduino_spider_l3s_libra.Stream.{store, store_bytes, load, load_bytes, memmove}
use mathlib.Core.Path.{◌≡⟨◌⟩◌, ◌∎}
use arduino_spider_l3s_libra.Stream.RoundTrip.{take-append-drop}
use arduino_spider_l3s_libra.Stream.Memory.{splice, store_bytes-splice}

pub drop-append : (xs ys : List ℕ) (n : ℕ) → n ≡ length xs → drop n (xs ++ ys) ≡ ys
drop-append [] ys zero e = refl
drop-append [] ys (suc n) e = absurd (omega arith)
drop-append (x ∷ xs) ys zero e = absurd (omega arith)
drop-append (x ∷ xs) ys (suc n) e = drop-append xs ys n (omega arith)

splice-part :
    (xs ys zs ws : List ℕ) (p : ℕ)
    → p ≡ length xs
    → length ws ≡ length ys
    → splice (xs ++ (ys ++ zs)) p ws ≡ xs ++ (ws ++ zs)
splice-part xs ys zs ws p e k =
    ap₂ (λ a b. a ++ (ws ++ b)) (take-append xs (ys ++ zs) p e)
      (ap (drop (length ws)) (drop-append xs (ys ++ zs) p e) ∙ drop-append ys zs (length ws) k)

-- A write over a part of the same length puts the new bytes in its place.
pub store_bytes-part :
    (xs ys zs ws : List ℕ) (p : ℕ)
    → p ≡ length xs
    → length ws ≡ length ys
    → store_bytes (xs ++ (ys ++ zs)) p ws ≡ ok (xs ++ (ws ++ zs))
store_bytes-part xs ys zs ws p e k =
    store_bytes-splice (xs ++ (ys ++ zs)) p ws
      (omega (arith, length-append xs (ys ++ zs), length-append ys zs))
    ∙ ap ok (splice-part xs ys zs ws p e k)

pub store-part :
    (xs : List ℕ) (y : ℕ) (zs : List ℕ) (w p : ℕ)
    → p ≡ length xs
    → store (xs ++ (y ∷ zs)) p w ≡ ok (xs ++ (w ∷ zs))
unfolding store_bytes
store-part xs y zs w p e =
    sym (returned (store (xs ++ (y ∷ zs)) p w)) ∙ store_bytes-part xs (y ∷ []) zs (w ∷ []) p e refl
  where
    returned : (m : Result (List ℕ)) → (m >>= λ c. ok c) ≡ m
    returned (ok a) = refl
    returned (trap t) = refl

load_bytes-cons : (x : ℕ) (b : List ℕ) (p n : ℕ) → load_bytes (x ∷ b) (suc p) n ≡ load_bytes b p n
unfolding load_bytes load
load_bytes-cons x b p zero = refl
load_bytes-cons x b p (suc n) =
    ap (λ r. load b p >>= λ y. r >>= λ ys. ok (y ∷ ys)) (load_bytes-cons x b (suc p) n)

-- A read of a part gives its bytes.
pub load_bytes-part :
    (xs ys zs : List ℕ) (p n : ℕ)
    → p ≡ length xs
    → n ≡ length ys
    → load_bytes (xs ++ (ys ++ zs)) p n ≡ ok ys
load_bytes-part [] ys zs (suc p) n e k = absurd (omega arith)
load_bytes-part [] [] zs zero zero e k = unfold load_bytes in refl
load_bytes-part [] [] zs zero (suc n) e k = absurd (omega arith)
load_bytes-part [] (y ∷ ys) zs zero zero e k = absurd (omega arith)
load_bytes-part [] (y ∷ ys) zs zero (suc n) e k =
    first (load_bytes-part [] ys zs zero n refl (omega arith))
  where
    first : load_bytes (ys ++ zs) 0 n ≡ ok ys → load_bytes (y ∷ (ys ++ zs)) 0 (suc n) ≡ ok (y ∷ ys)
    first ih = unfold load_bytes load in rw (load_bytes-cons y (ys ++ zs) 0 n, ih)
load_bytes-part (x ∷ xs) ys zs zero n e k = absurd (omega arith)
load_bytes-part (x ∷ xs) ys zs (suc p) n e k =
    load_bytes-cons x (xs ++ (ys ++ zs)) p n ∙ load_bytes-part xs ys zs p n (omega arith) k

-- A part of a buffer, `part`, is moved behind the place for `new` and `new` is put before it; `over` is
-- what the moved part covers.
pub insert_part :
    (pre part over rest new : List ℕ) (p n k : ℕ)
    → p ≡ length pre
    → n ≡ length new
    → length over ≡ length new
    → k ≡ length part
    → (memmove (pre ++ (part ++ (over ++ rest))) (p + n) p k >>= λ b. store_bytes b p new)
      ≡ ok (pre ++ (new ++ (part ++ rest)))
unfolding memmove
insert_part pre part over rest new p n k ep en eo ek =
    rw
      (
        load_bytes-part pre part (over ++ rest) p k ep ek,
        split,
        store_bytes-part (pre ++ front) back rest part (p + n)
            (omega (arith, length-append pre front, front_length)) (omega (arith, back_length)),
        append_assoc pre front (part ++ rest),
      )
      (store_bytes-part pre front (part ++ rest) new p ep (omega (arith, front_length)))
  where
    whole : List ℕ
    whole = part ++ over

    front : List ℕ
    front = take n whole

    back : List ℕ
    back = drop n whole

    front_length : length front ≡ n
    front_length = omega (arith, length-take n whole, length-append part over)

    back_length : length back ≡ length part
    back_length = omega (arith, length-drop n whole, length-append part over)

    split : pre ++ (part ++ (over ++ rest)) ≡ (pre ++ front) ++ (back ++ rest)
    split =
        pre ++ (part ++ (over ++ rest))
        ≡⟨ ap (◌++◌ pre) (sym (append_assoc part over rest)) ⟩ pre ++ (whole ++ rest)
        ≡⟨ ap (λ w. pre ++ (w ++ rest)) (sym (take-append-drop n whole)) ⟩
          pre ++ ((front ++ back) ++ rest)
        ≡⟨ ap (◌++◌ pre) (append_assoc front back rest) ⟩ pre ++ (front ++ (back ++ rest))
        ≡⟨ sym (append_assoc pre front (back ++ rest)) ⟩ (pre ++ front) ++ (back ++ rest) ∎

-- A write behind the part `xs`, which then has one byte more.
pub store_next :
    (xs : List ℕ) (y : ℕ) (zs : List ℕ) (w p : ℕ)
    → p ≡ length xs
    → store (xs ++ (y ∷ zs)) p w ≡ ok ((xs ++ (w ∷ [])) ++ zs)
store_next xs y zs w p e = store-part xs y zs w p e ∙ ap ok (sym (append_assoc xs (w ∷ []) zs))

pub load-part :
    (xs : List ℕ) (y : ℕ) (zs : List ℕ) (p : ℕ) → p ≡ length xs → load (xs ++ (y ∷ zs)) p ≡ ok y
unfolding load
load-part [] y zs zero e = refl
load-part [] y zs (suc p) e = absurd (omega arith)
load-part (x ∷ xs) y zs zero e = absurd (omega arith)
load-part (x ∷ xs) y zs (suc p) e = load-part xs y zs p (omega arith)
