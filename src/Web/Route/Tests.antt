-- ===== src/Web/Route/Tests.antt =====
-- Requests as a browser sends them.
use bdtrace.Common.{◌≡◌, refl, ◌∷◌, ◌++◌, text_eq, arith}
use bdtrace.Common.Literals.{bytes}
use bdtrace.Web.Query.{
  starts_with, drop_bytes, find_after, occurs, until, hex_value, hex_byte, two_follow, escaped_byte,
  url_decode, get_query_param,
}
use bdtrace.Web.Query.Decode.{url_encode, ends_param, get_query_param-encode}
use bdtrace.Web.Route.{pid_page, files, by_path, route, route_rest, asks_for}
use bdtrace.Web.Route.Pids.{page_uri, route-page_uri}

route-by_path :
    route (bytes "/api/files/by-path") (bytes "path=%2Fusr%2Fa+b.c&n=3")
    ≡ by_path (bytes "/usr/a b.c")
unfolding route route_rest asks_for starts_with drop_bytes find_after occurs until hex_value
    hex_byte two_follow escaped_byte url_decode get_query_param text_eq
route-by_path = refl

-- A parameter whose name ends in the one that is asked for is taken for it.
get_query_param-suffix : get_query_param (bytes "xpath=a&path=b") (bytes "path") ≡ bytes "a"
unfolding starts_with drop_bytes find_after until hex_value hex_byte two_follow escaped_byte
    url_decode get_query_param
get_query_param-suffix = refl

get_query_param-encode_example :
    get_query_param
      (bytes "file" ++ b'=' ∷ (url_encode (bytes "/a b&c") ++ bytes "&depth=2"))
      (bytes "file")
    ≡ bytes "/a b&c"
unfolding ends_param
get_query_param-encode_example =
    get_query_param-encode (bytes "file") (bytes "/a b&c") (bytes "&depth=2") (omega arith) refl

route-page_uri_example :
    route (page_uri files 1234) (bytes "limit=5") ≡ pid_page files 1234 (bytes "limit=5")
route-page_uri_example = route-page_uri files 1234 (bytes "limit=5") (omega arith) (omega arith)
