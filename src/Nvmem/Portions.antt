-- ===== src/Nvmem/Portions.antt =====
-- `nvmem_write_patch` against its purpose: the patch in portions, each at its offset, in order.
use arduino_spider_l3s_libra.Base.{
  ℕ, zero, suc, ◌+◌, ◌-◌, ◌/◌, ◌≤◌, ◌<◌, ◌==◌, ◌&&◌, leb, ◌≡◌, refl, sym, ap, ◌∙◌, true, false, not,
  inl, inr, Bool-cases, List, [], ◌∷◌, ◌++◌, length, take, drop, if◌then◌else◌, Result, ok, ◌>>=◌,
  u8, u16, arith, ==_iff, Bool, ◌⊎◌, >>=-cong, length-take, length-drop, append-nil,
}
use arduino_spider_l3s_libra.Stream.{load_bytes}
use arduino_spider_l3s_libra.Stream.Memory.{>>=_assoc}
use arduino_spider_l3s_libra.Stream.RoundTrip.{take-append-drop}
use arduino_spider_l3s_libra.Spi.Frame.Laws.{load_bytes-take}
use arduino_spider_l3s_libra.Socket.{Host}
use arduino_spider_l3s_libra.Nvmem.{nvmem_write, patch_rounds, nvmem_write_patch}

pub record Portion : Type 0 where
  pub offset : ℕ
  pub bytes : List ℕ

-- `full` portions of 32 bytes, then the rest if there is one. An offset is a UINT16.
abbrev pub portions : ℕ → ℕ → List ℕ → List Portion
portions zero offset [] = []
portions zero offset (x ∷ xs) = record { offset = offset; bytes = x ∷ xs } ∷ []
portions (suc full) offset xs =
    record { offset = offset; bytes = take 32 xs } ∷ portions full (u16 (offset + 32)) (drop 32 xs)

abbrev pub split : List ℕ → List Portion
split xs = portions (length xs / 32) 0 xs

-- The portions one after the other, up to the first whose status byte is not 0.
abbrev pub write_all : ℕ → List Portion → Host → Result (ℕ × Host)
write_all file_id [] h = ok (0, h)
write_all file_id (p ∷ ps) h = nvmem_write file_id (length p.bytes) p.offset p.bytes h >>= λ r.
    elim (u8 r.0 == 0) [ true ↦ write_all file_id ps r.1 | false ↦ ok (u8 r.0, r.1) ]

-- What follows the loop of `nvmem_write_patch`.
abbrev finish : ℕ → ℕ × ℕ × ℕ × List ℕ × Host → Result (ℕ × Host)
finish file_id r =
    if not (r.0 == 0)
    then ok (r.0, r.4)
    else if not (r.2 == 0)
    then (nvmem_write file_id r.2 r.1 r.3 r.4 >>= λ w. ok (u8 w.0, w.1))
    else ok (r.0, r.4)

nvmem_write-take :
    (file_id n offset : ℕ) (xs : List ℕ) (h : Host)
    → n ≤ length xs
    → nvmem_write file_id n offset xs h
      ≡ nvmem_write file_id (length (take n xs)) offset (take n xs) h
nvmem_write-take file_id n offset xs h enough =
    same_bytes ∙ ap (λ k. nvmem_write file_id k offset (take n xs) h) (sym taken)
  where
    taken : length (take n xs) ≡ n
    taken = omega (arith, length-take n xs)

    take-take : (k : ℕ) (ys : List ℕ) → take k (take k ys) ≡ take k ys
    take-take zero ys = refl
    take-take (suc k) [] = refl
    take-take (suc k) (y ∷ ys) = ap (◌∷◌ y) (take-take k ys)

    same_load : load_bytes xs 0 n ≡ load_bytes (take n xs) 0 n
    same_load =
        load_bytes-take xs 0 n (omega arith)
        ∙ sym (
            load_bytes-take (take n xs) 0 n (omega (arith, taken))
            ∙ ap {B = Result (List ℕ)} ok (take-take n xs))

    same_bytes : nvmem_write file_id n offset xs h ≡ nvmem_write file_id n offset (take n xs) h
    same_bytes = unfold nvmem_write in rw same_load refl

module _ (fuel file_id status offset n : ℕ) (xs : List ℕ) (h : Host) where
  abbrev goes_on : Bool
  goes_on = status == 0 && leb 32 n

  patch_rounds-stop :
      goes_on ≡ false
      → patch_rounds (suc fuel) file_id status offset n xs h ≡ ok (status, offset, n, xs, h)
  unfolding patch_rounds
  patch_rounds-stop e = rw (e, patch_rounds) refl

  patch_rounds-next :
      goes_on ≡ true
      → patch_rounds (suc fuel) file_id status offset n xs h ≡ (
          nvmem_write file_id 32 offset xs h >>= λ r.
          patch_rounds fuel file_id (u8 r.0) (u16 (offset + 32)) (n - 32) (drop 32 xs) r.1)
  unfolding patch_rounds
  patch_rounds-next e = rw (e, patch_rounds) refl

stopped :
    (fuel file_id status offset n : ℕ) (xs : List ℕ) (h : Host)
    → 0 < fuel
    → (status == 0) ≡ false
    → (patch_rounds fuel file_id status offset n xs h >>= finish file_id) ≡ ok (status, h)
stopped zero file_id status offset n xs h some_fuel bad = absurd (omega arith)
stopped (suc fuel) file_id status offset n xs h some_fuel bad =
    ap (λ m. m >>= finish file_id)
      (patch_rounds-stop fuel file_id status offset n xs h (ground (arith, bad)))
    ∙ rw bad refl

-- The status that one portion leaves.
portion_status :
    (status : ℕ) (h : Host) (go_on : Result (ℕ × Host))
    → ((status == 0) ≡ true → go_on ≡ ok (status, h))
    → ◌≡◌ {A = Result (ℕ × Host)}
        (ok (status, h))
        (elim (status == 0) [ true ↦ go_on | false ↦ ok (status, h) ])
portion_status status h go_on e = elim (Bool-cases (status == 0)) [
  | inl zero_lem ↦ rw zero_lem (sym (e zero_lem))
  | inr k ↦ rw k refl
]

last_portion :
    (fuel file_id offset : ℕ) (xs : List ℕ) (h : Host)
    → length xs < 32
    → (patch_rounds (suc fuel) file_id 0 offset (length xs) xs h >>= finish file_id)
      ≡ write_all file_id (portions 0 offset xs) h
last_portion fuel file_id offset xs h short =
    ap (λ m. m >>= finish file_id)
      (patch_rounds-stop fuel file_id 0 offset (length xs) xs h (ground arith))
    ∙ go xs
  where
    go :
        (ys : List ℕ)
        → finish file_id (0, offset, length ys, ys, h) ≡ write_all file_id (portions 0 offset ys) h
    go [] = refl
    go (y ∷ ys) =
        let some_left : (length (y ∷ ys) == 0) ≡ false = ground arith in
        rw some_left (
          >>=-cong (nvmem_write file_id (length (y ∷ ys)) offset (y ∷ ys) h) _ _ (λ r.
            portion_status (u8 r.0) r.1 (ok (0, r.1))
              (λ e. let zero_lem : u8 r.0 ≡ 0 = (==_iff (u8 r.0) 0).0 e in rw zero_lem refl)))

all_portions :
    (full fuel file_id offset : ℕ) (xs : List ℕ) (h : Host)
    → length xs / 32 ≡ full
    → full < fuel
    → (patch_rounds fuel file_id 0 offset (length xs) xs h >>= finish file_id)
      ≡ write_all file_id (portions full offset xs) h
all_portions full zero file_id offset xs h e enough = absurd (omega arith)
all_portions zero (suc fuel) file_id offset xs h e enough =
    last_portion fuel file_id offset xs h (omega arith)
all_portions (suc full) (suc fuel) file_id offset xs h e enough =
    ap (λ m. m >>= finish file_id)
      (patch_rounds-next fuel file_id 0 offset (length xs) xs h (ground arith)
        ∙ ap
            (λ m. m >>= λ r.
              patch_rounds fuel file_id (u8 r.0) (u16 (offset + 32)) (length xs - 32) (drop 32 xs)
                r.1)
            (nvmem_write-take file_id 32 offset xs h (omega arith)))
    ∙ (>>=_assoc (nvmem_write file_id (length (take 32 xs)) offset (take 32 xs) h) _
          (finish file_id)
        ∙ >>=-cong (nvmem_write file_id (length (take 32 xs)) offset (take 32 xs) h) _ _ (λ r.
          after r (Bool-cases (u8 r.0 == 0)) (
            ap
              (λ n.
                patch_rounds fuel file_id 0 (u16 (offset + 32)) n (drop 32 xs) r.1
                >>= finish file_id)
              (sym left)
            ∙ all_portions full fuel file_id (u16 (offset + 32)) (drop 32 xs) r.1
                (omega (arith, left)) (omega arith))))
  where
    left : length (drop 32 xs) ≡ length xs - 32
    left = length-drop 32 xs

    after :
        (r : ℕ × Host)
        → ((u8 r.0 == 0) ≡ true) ⊎ ((u8 r.0 == 0) ≡ false)
        → (patch_rounds fuel file_id 0 (u16 (offset + 32)) (length xs - 32) (drop 32 xs) r.1
            >>= finish file_id)
          ≡ write_all file_id (portions full (u16 (offset + 32)) (drop 32 xs)) r.1
        → (patch_rounds fuel file_id (u8 r.0) (u16 (offset + 32)) (length xs - 32) (drop 32 xs) r.1
            >>= finish file_id)
          ≡ elim (u8 r.0 == 0) [
            | true ↦ write_all file_id (portions full (u16 (offset + 32)) (drop 32 xs)) r.1
            | false ↦ ok (u8 r.0, r.1)
          ]
    after r (inl good) ih =
        let zero_lem : u8 r.0 ≡ 0 = (==_iff (u8 r.0) 0).0 good in rw (good, zero_lem) ih
    after r (inr bad) ih = rw bad (
        stopped fuel file_id (u8 r.0) (u16 (offset + 32)) (length xs - 32) (drop 32 xs) r.1
          (omega arith) bad)

abbrev pub joined : List Portion → List ℕ
joined [] = []
joined (p ∷ ps) = p.bytes ++ joined ps

joined-portions : (full offset : ℕ) (xs : List ℕ) → joined (portions full offset xs) ≡ xs
joined-portions zero offset [] = refl
joined-portions zero offset (x ∷ xs) = append-nil (x ∷ xs)
joined-portions (suc full) offset xs =
    ap (◌++◌ (take 32 xs)) (joined-portions full (u16 (offset + 32)) (drop 32 xs))
    ∙ take-append-drop 32 xs

-- Writing a patch of any length, the whole list being the patch, is writing its portions in order: all of
-- 32 bytes but the last, each at its offset modulo 2^16, until one leaves a status byte that is not 0,
-- which is the result; when all are written it is 0. The portions are the whole patch and nothing else.
pub nvmem_write_patch-write_all :
    (file_id : ℕ) (sp_data : List ℕ) (h : Host)
    → (nvmem_write_patch file_id (length sp_data) sp_data h ≡ write_all file_id (split sp_data) h)
      × (joined (split sp_data) ≡ sp_data)
unfolding nvmem_write_patch
nvmem_write_patch-write_all file_id sp_data h = (
  all_portions (length sp_data / 32) (length sp_data / 32 + 1) file_id 0 sp_data h refl
      (omega arith),
  joined-portions (length sp_data / 32) 0 sp_data,
)
