-- ===== src/WebServer/Reader/Window.antt =====
-- The 50 bytes that `WebServer_process_request` keeps of the header, and the four of its end.
use arduino_spider_l3s_libra.Base.{
  ℕ, zero, suc, ◌≤◌, ◌==◌, ◌&&◌, List, [], ◌∷◌, ◌++◌, length, length-append, length-drop,
  length-take, take, drop, take-append, append_assoc, append-nil, get_or, Bool, true, false, ◌≡◌,
  ◌≢◌, refl, sym, ap, ◌∙◌, arith,
}
use mathlib.Core.Path.{subst}
use arduino_spider_l3s_libra.WebServer.Reader.{with_last, shifted, ends_line}

-- `str_fifo` and `content_head` after some bytes in which no line ends.
unfoldable pub feed : List ℕ → List ℕ → List ℕ
feed fifo [] = fifo
feed fifo (x ∷ l) = feed (shifted (with_last fifo x)) l

abbrev pub push : List ℕ → ℕ → List ℕ
push head x = drop 1 head ++ (x ∷ [])

unfoldable pub push_all : List ℕ → List ℕ → List ℕ
push_all head [] = head
push_all head (x ∷ l) = push_all (push head x) l

-- One byte more in the fifo, whose last place is written again.
shift-window :
    (y : ℕ) (w : List ℕ) (x : ℕ)
    → length w ≡ 48
    → (take 49 (shifted ((y ∷ w) ++ (x ∷ []))) ≡ w ++ (x ∷ []))
      × (length (shifted ((y ∷ w) ++ (x ∷ []))) ≡ 50)
shift-window y w x e = (
  take-append (w ++ (x ∷ [])) (drop 48 (w ++ (x ∷ []))) 49
      (omega (arith, length-append w (x ∷ []), e)),
  omega (
    arith,
    e,
    length-append w (x ∷ []),
    length-append (w ++ (x ∷ [])) (drop 48 (w ++ (x ∷ []))),
    length-drop 48 (w ++ (x ∷ [])),
  ),
)

pub feed-window :
    (w l fifo : List ℕ)
    → length w ≡ 49
    → (take 49 fifo ≡ w) × (length fifo ≡ 50)
    → (take 49 (feed fifo l) ≡ drop (length l) (w ++ l)) × (length (feed fifo l) ≡ 50)
unfolding feed
feed-window w [] fifo e shows = (shows.0 ∙ sym (append-nil w), shows.1)
feed-window [] (x ∷ l) fifo e shows = absurd (omega (arith, e))
feed-window (y ∷ w) (x ∷ l) fifo e shows = moved (
    feed-window (w ++ (x ∷ [])) l (shifted (with_last fifo x))
      (omega (arith, e, length-append w (x ∷ [])))
      (subst
        (λ b.
          (take 49 (shifted (b ++ (x ∷ []))) ≡ w ++ (x ∷ []))
          × (length (shifted (b ++ (x ∷ []))) ≡ 50))
        (sym shows.0) (shift-window y w x (omega (arith, e)))))
  where
    moved :
        (take 49 (feed (shifted (with_last fifo x)) l) ≡ drop (length l) ((w ++ (x ∷ [])) ++ l))
          × (length (feed (shifted (with_last fifo x)) l) ≡ 50)
        → (take 49 (feed (shifted (with_last fifo x)) l) ≡ drop (length l) (w ++ (x ∷ l)))
          × (length (feed (shifted (with_last fifo x)) l) ≡ 50)
    moved h = (h.0 ∙ ap (drop (length l)) (append_assoc w (x ∷ []) l), h.1)

pub window_next :
    (w : List ℕ) (x : ℕ) (fifo : List ℕ)
    → length w ≡ 49
    → (take 49 fifo ≡ w) × (length fifo ≡ 50)
    → take 49 (shifted (with_last fifo x)) ≡ drop 1 (w ++ (x ∷ []))
unfolding feed
window_next w x fifo e shows = (feed-window w (x ∷ []) fifo e shows).0

pub get_or-append :
    (w : List ℕ) (x : ℕ) (zs : List ℕ) (n : ℕ) → n ≡ length w → get_or (w ++ (x ∷ zs)) n 0 ≡ x
get_or-append [] x zs zero e = refl
get_or-append [] x zs (suc n) e = absurd (omega (arith, e))
get_or-append (y ∷ w) x zs zero e = absurd (omega (arith, e))
get_or-append (y ∷ w) x zs (suc n) e = get_or-append w x zs n (omega (arith, e))

and_false : (a b : Bool) → b ≡ false → (a && b) ≡ false
and_false true b e = e
and_false false b e = refl

-- A byte that is no newline ends no line.
pub ends_line-with_last :
    (fifo : List ℕ) (x : ℕ) → length fifo ≡ 50 → x ≢ 10 → ends_line (with_last fifo x) ≡ false
ends_line-with_last fifo x size other = and_false _ _ (
    ap (λ v. v == 10)
      (get_or-append (take 49 fifo) x [] 49 (omega (arith, size, length-take 49 fifo)))
    ∙ different)
  where
    different : (x == 10) ≡ false
    different = ground (arith, other)

pub drop-append_le : (n : ℕ) (xs ys : List ℕ) → n ≤ length xs → drop n (xs ++ ys) ≡ drop n xs ++ ys
drop-append_le zero xs ys h = refl
drop-append_le (suc n) [] ys h = absurd (omega arith)
drop-append_le (suc n) (x ∷ xs) ys h = drop-append_le n xs ys (omega arith)

pub drop_one : (n : ℕ) (xs : List ℕ) → drop 1 (drop n xs) ≡ drop (suc n) xs
drop_one zero xs = refl
drop_one (suc n) [] = refl
drop_one (suc n) (x ∷ xs) = drop_one n xs
