-- ===== src/WebClient/Tests.antt =====
-- Runs of the definitions of WebClient at concrete inputs.
use arduino_spider_l3s_libra.Base.{[], ◌∷◌, some, trap, Trap, ◌≡◌, refl, arith, ◌++◌, ok, All}
use arduino_spider_l3s_libra.WebClient.{zeroes, strstr, split_url, get_request, http_prefix}
use arduino_spider_l3s_libra.Base.Text.{codes}
use arduino_spider_l3s_libra.WebClient.GetRequest.{IsNotSlash, request_text, get_request-split_url}
use arduino_spider_l3s_libra.WebClient.Overflow.{get_request-out_of_bounds}

-- "http://a/b"
split_run : split_url (http_prefix ++ (97 ∷ 47 ∷ 98 ∷ [])) ≡ some (97 ∷ 47 ∷ 98 ∷ [], 1)
unfolding split_url strstr
split_run = refl

get_request-out_of_bounds_example : get_request (97 ∷ 47 ∷ zeroes 500) 1 ≡ trap Trap.out_of_bounds
get_request-out_of_bounds_example =
    get_request-out_of_bounds (97 ∷ 47 ∷ zeroes 500) 1 (omega arith) (omega arith)

get_request-split_url_example :
    (split_url (codes "http://" ++ (codes "example.org" ++ (47 ∷ codes "index")))
      ≡ some (codes "example.org" ++ (47 ∷ codes "index"), 11))
    × (get_request (codes "example.org" ++ (47 ∷ codes "index")) 11
        ≡ ok (request_text (codes "example.org") (47 ∷ codes "index") ++ zeroes 439, 61))
get_request-split_url_example =
    get_request-split_url (codes "example.org") (codes "index") host_has_no_slash (omega arith)
  where
    host_has_no_slash : All IsNotSlash (codes "example.org")
    host_has_no_slash = ground arith
