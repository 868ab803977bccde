-- ===== src/Socket/Mdns/Message.antt =====
-- A DNS message of answers (RFC 1035, section 4.1), and the one that `mdnsAdvertiser` means to send: it
-- names the device's service under _device-info._udp.local, lists the service, describes it, and gives
-- its port and the device's address.
use arduino_spider_l3s_libra.Base.{ℕ, ◌+◌, List, [], ◌∷◌, ◌++◌, u8, ◌>>>◌, length}
use arduino_spider_l3s_libra.Base.Text.{codes}

pub record Answer : Type 0 where
  pub owner : List ℕ
  pub kind : ℕ
  pub class : ℕ
  pub rdata : List ℕ

-- A 16-bit number, highest byte first.
abbrev pub be16 : ℕ → List ℕ
be16 v = u8 (v >>> 8) ∷ u8 v ∷ []

-- One label of a domain name, and a pointer to the rest of a name at an offset of the message.
abbrev pub label : List ℕ → List ℕ
label s = length s ∷ s

abbrev pub pointer : ℕ → List ℕ
pointer offset = be16 (0xc000 + offset)

-- All answers live 4500 seconds.
abbrev pub encode : Answer → List ℕ
encode a =
    a.owner
    ++ (be16 a.kind
        ++ (be16 a.class ++ (be16 0 ++ (be16 4500 ++ (be16 (length a.rdata) ++ a.rdata)))))

abbrev pub encode_all : List Answer → List ℕ
encode_all [] = []
encode_all (a ∷ rest) = encode a ++ encode_all rest

-- An authoritative response: the header counts the answers.
abbrev pub encode_message : List Answer → List ℕ
encode_message answers =
    be16 0
    ++ (be16 0x8400
        ++ (be16 0 ++ (be16 (length answers) ++ (be16 0 ++ (be16 0 ++ encode_all answers)))))

-- The types of records, the class IN, and the class with the bit that replaces older records.
abbrev pub type_a : ℕ
type_a = 1

abbrev pub type_ptr : ℕ
type_ptr = 12

abbrev pub type_txt : ℕ
type_txt = 16

abbrev pub type_srv : ℕ
type_srv = 33

abbrev pub class_in : ℕ
class_in = 1

abbrev pub class_flush : ℕ
class_flush = 0x8001

-- The root ends a name.
abbrev pub root : List ℕ
root = 0 ∷ []

-- Offset 12 is the first answer's name, 30 its last label, 47 the service's name in its data, and
-- 158 more than the name's length the host's name in the data of the fourth.
abbrev pub service_answers : List ℕ → List ℕ → List Answer
service_answers name address =
    record {
      owner =
          label (codes "_device-info") ++ (label (codes "_udp") ++ (label (codes "local") ++ root));
      kind = type_ptr;
      class = class_in;
      rdata = label name ++ pointer 12;
    }
    ∷ record {
      owner =
          label (codes "_services")
          ++ (label (codes "_dns-sd") ++ (label (codes "_udp") ++ (label (codes "local") ++ root)));
      kind = type_ptr;
      class = class_in;
      rdata = pointer 12;
    }
    ∷ record {
      owner = pointer 47;
      kind = type_txt;
      class = class_flush;
      rdata = label (codes "dev=CC3000") ++ label (codes "vendor=Texas-Instruments");
    }
    ∷ record {
      owner = pointer 47;
      kind = type_srv;
      class = class_flush;
      rdata = be16 0 ++ (be16 0 ++ (be16 1234 ++ (label name ++ pointer 30)));
    }
    ∷ record {
      owner = pointer (158 + length name);
      kind = type_a;
      class = class_flush;
      rdata = address;
    }
    ∷ []
