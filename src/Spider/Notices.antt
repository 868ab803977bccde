-- ===== src/Spider/Notices.antt =====
-- The flags of the event callback, against the last notice of the device that concerns each.
use arduino_spider_l3s_libra.Base.{
  ℕ, ◌==◌, List, [], ◌∷◌, Option, none, some, if◌then◌else◌, ◌≡◌, refl, ap, ◌∙◌, arith,
}
use arduino_spider_l3s_libra.Driver.{Call}
use arduino_spider_l3s_libra.Driver.Opcode
use arduino_spider_l3s_libra.Spider.{Flags, spider_async_callback, notified}

-- What a notice says of the link to the access point, and of the address.
abbrev pub says_connected : ℕ → Option ℕ
says_connected event_type =
    if event_type == Opcode.evnt_wlan_unsol_connect
    then some 1
    else if event_type == Opcode.evnt_wlan_unsol_disconnect
    then some 0
    else none

abbrev pub says_dhcp : ℕ → Option ℕ
says_dhcp event_type =
    if event_type == Opcode.evnt_wlan_unsol_dhcp
    then some 1
    else if event_type == Opcode.evnt_wlan_unsol_disconnect
    then some 0
    else none

abbrev pub or_else : Option ℕ → ℕ → ℕ
or_else none old = old
or_else (some new) old = new

-- The last notice that says something.
abbrev pub last_said : (ℕ → Option ℕ) → List Call → Option ℕ
last_said says [] = none
last_said says (c ∷ calls) = elim (last_said says calls) [
  | none ↦ says c.event_type
  | some v ↦ some v
]

callback-connected :
    (e : ℕ) (f : Flags)
    → (spider_async_callback e f).spider_connected ≡ or_else (says_connected e) f.spider_connected
unfolding spider_async_callback
callback-connected e f = ground arith

callback-dhcp :
    (e : ℕ) (f : Flags)
    → (spider_async_callback e f).spider_dhcp ≡ or_else (says_dhcp e) f.spider_dhcp
unfolding spider_async_callback
callback-dhcp e f = ground arith

last_said-cons :
    (says : ℕ → Option ℕ) (c : Call) (calls : List Call) (old : ℕ)
    → or_else (last_said says calls) (or_else (says c.event_type) old)
      ≡ or_else (last_said says (c ∷ calls)) old
last_said-cons says c calls old = by_rest (last_said says calls)
  where
    by_rest :
        (m : Option ℕ)
        → or_else m (or_else (says c.event_type) old)
          ≡ or_else (elim m [ none ↦ says c.event_type | some v ↦ some v ]) old
    by_rest none = refl
    by_rest (some v) = refl

-- After any calls of the event callback, the flag for the link is what the last notice of a connection or
-- of its end says, the flag for the address what the last notice of an address or of the end of the
-- connection says, and each is as it was when there is no such notice.
pub notified-last_said :
    (calls : List Call) (f : Flags)
    → ((notified calls f).spider_connected
        ≡ or_else (last_said says_connected calls) f.spider_connected)
      × ((notified calls f).spider_dhcp ≡ or_else (last_said says_dhcp calls) f.spider_dhcp)
unfolding notified
notified-last_said [] f = (refl, refl)
notified-last_said (c ∷ calls) f =
    let rest = notified-last_said calls (spider_async_callback c.event_type f) in
    (
      rest.0
          ∙ (ap (or_else (last_said says_connected calls)) (callback-connected c.event_type f)
              ∙ last_said-cons says_connected c calls f.spider_connected),
      rest.1
          ∙ (ap (or_else (last_said says_dhcp calls)) (callback-dhcp c.event_type f)
              ∙ last_said-cons says_dhcp c calls f.spider_dhcp),
    )
