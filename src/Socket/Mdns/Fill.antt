-- ===== src/Socket/Mdns/Fill.antt =====
-- The writes of `mdnsAdvertiser` that put the name and the address into the template, on a template in
-- parts: `opening` up to the first answer's length, `middle` from behind the name's length up to the
-- fourth's, `numbers`, and `before` and `after` the byte of the fifth answer's pointer.
use arduino_spider_l3s_libra.Base.{
  ℕ, ◌+◌, ◌-◌, ◌*◌, ◌≤◌, ◌≡◌, suc, refl, sym, ap, ◌∙◌, List, [], ◌∷◌, ◌++◌, append_assoc, length,
  replicate, length-replicate, replicate-append, length-append, Result, ok, u8, arith,
}
use arduino_spider_l3s_libra.Stream.{store, load}
use arduino_spider_l3s_libra.Stream.Parts.{insert_part, store_next, load-part, store-part}
use arduino_spider_l3s_libra.Socket.Mdns.{insert_name, fill_template}

module _ (opening middle numbers before after name : List ℕ) (byte a b c d : ℕ)
    (opening_size : length opening ≡ 46) (middle_size : length middle ≡ 103)
    (numbers_size : length numbers ≡ 6) (before_size : length before ≡ 3)
    (after_size : length after ≡ 10) (short : length name ≤ 21) where
  abbrev n : ℕ
  n = length name

  abbrev zeros : ℕ → List ℕ
  zeros k = replicate k 0

  abbrev target : List ℕ
  target = before ++ (byte ∷ after)

  abbrev behind_name : List ℕ
  behind_name = middle ++ (0 ∷ (numbers ++ (0 ∷ target)))

  abbrev rest3 : List ℕ
  rest3 = 0 ∷ (0 ∷ (0 ∷ zeros (43 - 2 * n)))

  abbrev rest : List ℕ
  rest = 0 ∷ (zeros n ++ rest3)

  abbrev to_name : List ℕ
  to_name = (opening ++ (u8 (3 + n) ∷ [])) ++ (u8 n ∷ [])

  to_name-length : 48 ≡ length to_name
  to_name-length = omega (arith, length-append {0})

  covered : zeros 47 ≡ zeros n ++ rest
  covered =
      replicate-append n (suc (n + (46 - 2 * n))) 47 0 (omega arith)
      ∙ ap (λ xs. zeros n ++ (0 ∷ xs)) second
    where
      second : zeros (n + (46 - 2 * n)) ≡ zeros n ++ rest3
      second =
          replicate-append n (46 - 2 * n) (n + (46 - 2 * n)) 0 refl
          ∙ ap (◌++◌ (zeros n)) (replicate-append 3 (43 - 2 * n) (46 - 2 * n) 0 (omega arith))

  insert_name-service :
      insert_name (to_name ++ (behind_name ++ zeros 47)) 48 name (173 - 48)
      ≡ ok (to_name ++ (name ++ (behind_name ++ rest)))
  unfolding insert_name
  insert_name-service = rw covered (
      insert_part to_name behind_name (zeros n) rest name 48 n 125 to_name-length refl
        (length-replicate n 0) (omega (arith, sizes)))
    where
      sizes : length behind_name ≡ 125
      sizes = omega (arith, length-append {0})

  abbrev to_size : List ℕ
  to_size = to_name ++ (name ++ middle)

  abbrev to_label : List ℕ
  to_label = (to_size ++ (u8 (9 + n) ∷ [])) ++ numbers

  abbrev to_target : List ℕ
  to_target = to_label ++ (u8 n ∷ [])

  write_size :
      store (to_name ++ (name ++ (behind_name ++ rest))) (151 + n) (u8 (9 + n))
      ≡ ok ((to_size ++ (u8 (9 + n) ∷ [])) ++ (numbers ++ (0 ∷ (target ++ rest))))
  write_size =
      ap (λ l. store l (151 + n) (u8 (9 + n))) (simp append_assoc)
      ∙ store_next to_size 0 (numbers ++ (0 ∷ (target ++ rest))) (u8 (9 + n)) (151 + n)
          (omega (arith, length-append {0}))

  write_label :
      store ((to_size ++ (u8 (9 + n) ∷ [])) ++ (numbers ++ (0 ∷ (target ++ rest)))) (158 + n) (u8 n)
      ≡ ok (to_target ++ (target ++ rest))
  write_label =
      ap (λ l. store l (158 + n) (u8 n))
        (sym (append_assoc (to_size ++ (u8 (9 + n) ∷ [])) numbers (0 ∷ (target ++ rest))))
      ∙ store_next to_label 0 (target ++ rest) (u8 n) (158 + n) (omega (arith, length-append {0}))

  insert_name-target :
      insert_name (to_target ++ (target ++ rest)) (159 + n) name (173 - 158)
      ≡ ok ((to_target ++ (name ++ target)) ++ (0 ∷ rest3))
  unfolding insert_name
  insert_name-target =
      ap (λ l. insert_name l (159 + n) name (173 - 158)) (simp append_assoc)
      ∙ insert_part to_target (target ++ (0 ∷ [])) (zeros n) rest3 name (159 + n) n 15
          (omega (arith, length-append {0})) refl (length-replicate n 0)
          (omega (arith, length-append {0}))
      ∙ ap ok (simp append_assoc)

  abbrev to_address : List ℕ
  to_address = to_target ++ (name ++ target)

  abbrev with_address : List ℕ
  with_address = (((to_address ++ (d ∷ [])) ++ (c ∷ [])) ++ (b ∷ [])) ++ (a ∷ [])

  abbrev to_pointer : List ℕ
  to_pointer = to_target ++ (name ++ before)

  abbrev pub packet : List ℕ
  packet = to_pointer ++ (u8 (byte + n) ∷ (after ++ (d ∷ (c ∷ (b ∷ (a ∷ zeros (43 - 2 * n)))))))

  behind_pointer : List ℕ
  behind_pointer = after ++ (d ∷ (c ∷ (b ∷ (a ∷ zeros (43 - 2 * n)))))

  at_pointer : with_address ++ zeros (43 - 2 * n) ≡ to_pointer ++ (byte ∷ behind_pointer)
  unfolding behind_pointer
  at_pointer = simp append_assoc

  pointer_place : 173 + n + n + 4 - 15 ≡ length to_pointer
  pointer_place = omega (arith, length-append {0})

  pub fill_template-parts :
      fill_template name
        (a ∷ b ∷ c ∷ d ∷ [])
        (record { buffer = opening ++ (0 ∷ (0 ∷ (behind_name ++ zeros 47))); position = 173 })
      ≡ ok (packet, 177 + 2 * n)
  unfolding fill_template load behind_pointer
  fill_template-parts =
      rw
        (
          store_next opening 0 (0 ∷ (behind_name ++ zeros 47)) (u8 (3 + n)) 46 (omega arith),
          store_next (opening ++ (u8 (3 + n) ∷ [])) 0 (behind_name ++ zeros 47) (u8 n) 47
              (omega (arith, length-append {0})),
        )
        (rw (insert_name-service, write_size, write_label, insert_name-target)
          (rw
            (
              store_next to_address 0 rest3 d (173 + n + n) (omega (arith, length-append {0})),
              store_next (to_address ++ (d ∷ [])) 0 (0 ∷ (0 ∷ zeros (43 - 2 * n))) c
                  (173 + n + n + 1) (omega (arith, length-append {0})),
              store_next ((to_address ++ (d ∷ [])) ++ (c ∷ [])) 0 (0 ∷ zeros (43 - 2 * n)) b
                  (173 + n + n + 2) (omega (arith, length-append {0})),
              store_next (((to_address ++ (d ∷ [])) ++ (c ∷ [])) ++ (b ∷ [])) 0 (zeros (43 - 2 * n))
                  a (173 + n + n + 3) (omega (arith, length-append {0})),
            )
            (rw
              (
                at_pointer,
                load-part to_pointer byte behind_pointer (173 + n + n + 4 - 15) pointer_place,
                store-part to_pointer byte behind_pointer (u8 (byte + n)) (173 + n + n + 4 - 15)
                    pointer_place,
              )
              (ap (λ k. Result.ok (packet, k)) (omega arith)))))
