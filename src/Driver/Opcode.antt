-- ===== src/Driver/Opcode.antt =====
-- The packet types, commands and events of hci.h.
use arduino_spider_l3s_libra.Base.{ℕ}

abbrev pub type_evnt : ℕ
type_evnt = 0x4

abbrev pub cmnd_wlan_connect : ℕ
cmnd_wlan_connect = 0x0001

abbrev pub evnt_wlan_disconnect : ℕ
evnt_wlan_disconnect = 0x0002

abbrev pub cmnd_wlan_set_scanparam : ℕ
cmnd_wlan_set_scanparam = 0x0003

abbrev pub cmnd_wlan_set_connection_policy : ℕ
cmnd_wlan_set_connection_policy = 0x0004

abbrev pub evnt_wlan_add_profile : ℕ
evnt_wlan_add_profile = 0x0005

abbrev pub cmnd_wlan_del_profile : ℕ
cmnd_wlan_del_profile = 0x0006

abbrev pub cmnd_wlan_get_scan_results : ℕ
cmnd_wlan_get_scan_results = 0x0007

abbrev pub cmnd_event_mask : ℕ
cmnd_event_mask = 0x0008

abbrev pub cmnd_wlan_statusget : ℕ
cmnd_wlan_statusget = 0x0009

abbrev pub cmnd_wlan_simple_config_start : ℕ
cmnd_wlan_simple_config_start = 0x000a

abbrev pub cmnd_wlan_simple_config_stop : ℕ
cmnd_wlan_simple_config_stop = 0x000b

abbrev pub cmnd_wlan_simple_config_set_prefix : ℕ
cmnd_wlan_simple_config_set_prefix = 0x000c

abbrev pub cmnd_wlan_configure_patch : ℕ
cmnd_wlan_configure_patch = 0x000d

abbrev pub cmnd_socket : ℕ
cmnd_socket = 0x1001

abbrev pub cmnd_bind : ℕ
cmnd_bind = 0x1002

abbrev pub cmnd_recv : ℕ
cmnd_recv = 0x1004

abbrev pub cmnd_accept : ℕ
cmnd_accept = 0x1005

abbrev pub cmnd_listen : ℕ
cmnd_listen = 0x1006

abbrev pub cmnd_connect : ℕ
cmnd_connect = 0x1007

abbrev pub cmnd_select : ℕ
cmnd_select = 0x1008

abbrev pub cmnd_setsockopt : ℕ
cmnd_setsockopt = 0x1009

abbrev pub cmnd_getsockopt : ℕ
cmnd_getsockopt = 0x100a

abbrev pub cmnd_close_socket : ℕ
cmnd_close_socket = 0x100b

abbrev pub cmnd_recvfrom : ℕ
cmnd_recvfrom = 0x100d

abbrev pub cmnd_gethostname : ℕ
cmnd_gethostname = 0x1010

abbrev pub cmnd_mdns_advertise : ℕ
cmnd_mdns_advertise = 0x1011

abbrev pub cmnd_getmssvalue : ℕ
cmnd_getmssvalue = 0x1012

abbrev pub cmnd_send : ℕ
cmnd_send = 0x81

abbrev pub cmnd_sendto : ℕ
cmnd_sendto = 0x83

abbrev pub cmnd_nvmem_create_entry : ℕ
cmnd_nvmem_create_entry = 0x0203

abbrev pub cmnd_nvmem_read : ℕ
cmnd_nvmem_read = 0x0201

abbrev pub cmnd_nvmem_write : ℕ
cmnd_nvmem_write = 0x0090

abbrev pub evnt_nvmem_write : ℕ
evnt_nvmem_write = 0x0202

abbrev pub cmnd_nvmem_write_patch : ℕ
cmnd_nvmem_write_patch = 0x0204

abbrev pub cmnd_read_sp_version : ℕ
cmnd_read_sp_version = 0x0207

abbrev pub cmnd_read_buffer_size : ℕ
cmnd_read_buffer_size = 0x400b

abbrev pub cmnd_simple_link_start : ℕ
cmnd_simple_link_start = 0x4000

abbrev pub netapp_dhcp : ℕ
netapp_dhcp = 0x2001

abbrev pub netapp_ping_send : ℕ
netapp_ping_send = 0x2002

abbrev pub netapp_ping_report : ℕ
netapp_ping_report = 0x2003

abbrev pub netapp_ping_stop : ℕ
netapp_ping_stop = 0x2004

abbrev pub netapp_ipconfig : ℕ
netapp_ipconfig = 0x2005

abbrev pub netapp_arp_flush : ℕ
netapp_arp_flush = 0x2006

abbrev pub netapp_set_debug_level : ℕ
netapp_set_debug_level = 0x2008

abbrev pub netapp_set_timers : ℕ
netapp_set_timers = 0x2009

abbrev pub evnt_send : ℕ
evnt_send = 0x1003

abbrev pub evnt_write : ℕ
evnt_write = 0x100e

abbrev pub evnt_sendto : ℕ
evnt_sendto = 0x100f

abbrev pub evnt_patches_req : ℕ
evnt_patches_req = 0x1000

abbrev pub evnt_unsol_base : ℕ
evnt_unsol_base = 0x4000

abbrev pub evnt_wlan_unsol_base : ℕ
evnt_wlan_unsol_base = 0x8000

abbrev pub evnt_wlan_unsol_connect : ℕ
evnt_wlan_unsol_connect = 0x8001

abbrev pub evnt_wlan_unsol_disconnect : ℕ
evnt_wlan_unsol_disconnect = 0x8002

abbrev pub evnt_wlan_unsol_init : ℕ
evnt_wlan_unsol_init = 0x8004

abbrev pub evnt_wlan_unsol_dhcp : ℕ
evnt_wlan_unsol_dhcp = 0x8010

abbrev pub evnt_wlan_async_ping_report : ℕ
evnt_wlan_async_ping_report = 0x8040

abbrev pub evnt_wlan_async_simple_config_done : ℕ
evnt_wlan_async_simple_config_done = 0x8080

abbrev pub evnt_wlan_keepalive : ℕ
evnt_wlan_keepalive = 0x8200

abbrev pub evnt_bsd_tcp_close_wait : ℕ
evnt_bsd_tcp_close_wait = 0x8800

abbrev pub evnt_async_arp_done : ℕ
evnt_async_arp_done = 0x8400

abbrev pub evnt_async_arp_waiting : ℕ
evnt_async_arp_waiting = 0x8900

abbrev pub evnt_data_unsol_free_buff : ℕ
evnt_data_unsol_free_buff = 0x4100

abbrev pub event_can_shut_down : ℕ
event_can_shut_down = 0x99

abbrev pub cmnd_wlan_disconnect : ℕ
cmnd_wlan_disconnect = 0x0002

abbrev pub cmnd_wlan_add_profile : ℕ
cmnd_wlan_add_profile = 0x0005

abbrev pub evnt_wlan_tx_complete : ℕ
evnt_wlan_tx_complete = 0x8008
