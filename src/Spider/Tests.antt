-- ===== src/Spider/Tests.antt =====
-- Runs of the definitions of Spider at concrete inputs.
use arduino_spider_l3s_libra.Base.{List, [], ◌∷◌, ◌≡◌}
use arduino_spider_l3s_libra.Driver.{Call}
use arduino_spider_l3s_libra.Driver.Opcode
use arduino_spider_l3s_libra.Spider.{Flags, notified}
use arduino_spider_l3s_libra.Spider.Notices.{notified-last_said}

abbrev quiet_flags : Flags
quiet_flags = record {
  hw_initialed = 1;
  smart_config_finished = 0;
  stop_smart_config = 0;
  spider_connected = 0;
  spider_dhcp = 0;
  spider_can_shut_down = 0;
  spider_arp_flag = 0;
}

abbrev notices : List Call
notices =
    record { event_type = Opcode.evnt_wlan_unsol_connect; payload = [] }
    ∷ record { event_type = Opcode.evnt_wlan_unsol_dhcp; payload = [] }
    ∷ record { event_type = Opcode.evnt_wlan_unsol_disconnect; payload = [] }
    ∷ record { event_type = Opcode.evnt_wlan_unsol_connect; payload = [] }
    ∷ []

notified-last_said_example :
    ((notified notices quiet_flags).spider_connected ≡ 1)
    × ((notified notices quiet_flags).spider_dhcp ≡ 0)
notified-last_said_example = notified-last_said notices quiet_flags
