-- ===== src/Driver/Tests.antt =====
-- Runs of the socket status bits.
use arduino_spider_l3s_libra.Base.{◌≡◌}
use arduino_spider_l3s_libra.Driver.Status.{
  status_init, get_socket_active_status, set_socket_active_status, get-set,
}

get-set_example : get_socket_active_status 3 (set_socket_active_status 3 0 status_init) ≡ 0
get-set_example = get-set 3 0 3 status_init
