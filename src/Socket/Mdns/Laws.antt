-- ===== src/Socket/Mdns/Laws.antt =====
-- The packet that `mdnsAdvertiser` writes, and the sizes for which it has no room.
use arduino_spider_l3s_libra.Base.{
  ℕ, ◌+◌, ◌-◌, ◌*◌, ◌≤◌, ◌>>>◌, ◌≡◌, refl, ap, ◌∙◌, List, [], ◌∷◌, ◌++◌, append_assoc, length,
  replicate, length-append, ok, u8, arith,
}
use arduino_spider_l3s_libra.Socket.Mdns.{mdns_template, mdns_response}
use arduino_spider_l3s_libra.Socket.Mdns.Fill.{fill_template-parts, packet}
use arduino_spider_l3s_libra.Socket.Mdns.Message.{
  encode_message, service_answers, be16, label, pointer,
}

-- The parts of the template: up to the first answer's length, from behind the name's length to the
-- fourth's, its numbers, the rest up to the fifth's pointer, and behind that.
abbrev pub opening : List ℕ
opening =
    0 ∷ 0 ∷ 132 ∷ 0 ∷ 0 ∷ 0 ∷ 0 ∷ 5 ∷ 0 ∷ 0 ∷ 0 ∷ 0 ∷ 12 ∷ 95 ∷ 100 ∷ 101 ∷ 118 ∷ 105 ∷ 99 ∷ 101
    ∷ 45 ∷ 105 ∷ 110 ∷ 102 ∷ 111 ∷ 4 ∷ 95 ∷ 117 ∷ 100 ∷ 112 ∷ 5 ∷ 108 ∷ 111 ∷ 99 ∷ 97 ∷ 108 ∷ 0 ∷ 0
    ∷ 12 ∷ 0 ∷ 1 ∷ 0 ∷ 0 ∷ 17 ∷ 148 ∷ 0 ∷ []

abbrev pub middle : List ℕ
middle =
    192 ∷ 12 ∷ 9 ∷ 95 ∷ 115 ∷ 101 ∷ 114 ∷ 118 ∷ 105 ∷ 99 ∷ 101 ∷ 115 ∷ 7 ∷ 95 ∷ 100 ∷ 110 ∷ 115 ∷ 45
    ∷ 115 ∷ 100 ∷ 4 ∷ 95 ∷ 117 ∷ 100 ∷ 112 ∷ 5 ∷ 108 ∷ 111 ∷ 99 ∷ 97 ∷ 108 ∷ 0 ∷ 0 ∷ 12 ∷ 0 ∷ 1 ∷ 0
    ∷ 0 ∷ 17 ∷ 148 ∷ 0 ∷ 2 ∷ 192 ∷ 12 ∷ 192 ∷ 47 ∷ 0 ∷ 16 ∷ 128 ∷ 1 ∷ 0 ∷ 0 ∷ 17 ∷ 148 ∷ 0 ∷ 36 ∷ 10
    ∷ 100 ∷ 101 ∷ 118 ∷ 61 ∷ 67 ∷ 67 ∷ 51 ∷ 48 ∷ 48 ∷ 48 ∷ 24 ∷ 118 ∷ 101 ∷ 110 ∷ 100 ∷ 111 ∷ 114
    ∷ 61 ∷ 84 ∷ 101 ∷ 120 ∷ 97 ∷ 115 ∷ 45 ∷ 73 ∷ 110 ∷ 115 ∷ 116 ∷ 114 ∷ 117 ∷ 109 ∷ 101 ∷ 110 ∷ 116
    ∷ 115 ∷ 192 ∷ 47 ∷ 0 ∷ 33 ∷ 128 ∷ 1 ∷ 0 ∷ 0 ∷ 17 ∷ 148 ∷ 0 ∷ []

abbrev pub numbers : List ℕ
numbers = 0 ∷ 0 ∷ 0 ∷ 0 ∷ 4 ∷ 210 ∷ []

abbrev pub before_pointer : List ℕ
before_pointer = 192 ∷ 30 ∷ 192 ∷ []

abbrev pub after_pointer : List ℕ
after_pointer = 0 ∷ 1 ∷ 128 ∷ 1 ∷ 0 ∷ 0 ∷ 17 ∷ 148 ∷ 0 ∷ 4 ∷ []

-- The template from the fourth answer's target on, and from behind the first answer's name on.
abbrev pub target : List ℕ
target = before_pointer ++ (158 ∷ after_pointer)

abbrev pub behind_name : List ℕ
behind_name = middle ++ (0 ∷ (numbers ++ (0 ∷ target)))

pub template_parts :
    mdns_template
    ≡ ok
        (record { buffer = opening ++ (0 ∷ (0 ∷ (behind_name ++ replicate 47 0))); position = 173 })
unfolding mdns_template
template_parts = refl

-- For a name of at most 21 bytes the buffer holds the DNS message and zeros behind it.
pub mdns_response-encode_message :
    (name : List ℕ) (a b c d : ℕ)
    → length name ≤ 21
    → mdns_response name (a ∷ b ∷ c ∷ d ∷ [])
      ≡ ok (
        encode_message (service_answers name (d ∷ c ∷ b ∷ a ∷ []))
            ++ replicate (43 - 2 * length name) 0,
        177 + 2 * length name,
      )
unfolding mdns_response
mdns_response-encode_message name a b c d short = rw template_parts (
    fill_template-parts opening middle numbers before_pointer after_pointer name 158 a b c d refl
      refl refl refl refl short
    ∙ ap (λ xs. ok (xs, 177 + 2 * length name)) same)
  where
    n : ℕ
    n = length name

    label_length : u8 n ≡ n
    label_length = omega arith

    size1 : length (label name ++ pointer 12) ≡ 3 + n
    size1 = omega (arith, length-append name (pointer 12))

    size4 : length (be16 0 ++ (be16 0 ++ (be16 1234 ++ (label name ++ pointer 30)))) ≡ 9 + n
    size4 = omega (arith, length-append name (pointer 30))

    high1 : u8 ((3 + n) >>> 8) ≡ 0
    high1 = omega arith

    high4 : u8 ((9 + n) >>> 8) ≡ 0
    high4 = omega arith

    high5 : u8 ((0xc000 + (158 + n)) >>> 8) ≡ 0xc0
    high5 = omega arith

    low5 : u8 (0xc000 + (158 + n)) ≡ u8 (158 + n)
    low5 = omega arith

    same :
        packet opening middle numbers before_pointer after_pointer name 158 a b c d refl refl refl
          refl refl short
        ≡ encode_message (service_answers name (d ∷ c ∷ b ∷ a ∷ [])) ++ replicate (43 - 2 * n) 0
    same = simp (size1, size4, high1, high4, high5, low5, label_length, append_assoc)
