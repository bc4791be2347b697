-- ===== src/ClientIp/Tests.antt =====
-- Runs of the walk, and the theorem at one: a proxy at 10.0.0.2 forwards a request.
use inite_auth_service.Common.{String, some, Option, not, ◌==◌, starts_with, ◌≡◌, refl}
use inite_auth_service.Common.Text.{trim, split_on}
use inite_auth_service.ClientIp.{
  Net, ClientIpInput, Header, absent, one, resolve, normalize_ip, address, hops_of,
}
use inite_auth_service.ClientIp.Walk.{foreign, stops, resolve-forged}

-- Private addresses start with 10, edges with 173; "junk" is no address.
abbrev small_net : Net
small_net = record {
  is_ip = λ s. not (s == "junk");
  ours = λ s. starts_with s "10.";
  edge = λ s. starts_with s "173.";
}

abbrev request : Option String → String → Header → ClientIpInput
request socket forwarded cf = record {
  socket_address = socket;
  forwarded_for = one forwarded;
  cf_connecting_ip = cf;
}

mapped_socket : normalize_ip small_net (some " ::FFFF:10.0.0.2") ≡ some "10.0.0.2"
unfolding normalize_ip trim split_on
mapped_socket = refl

bracketed : normalize_ip small_net (some "[2a06:98c0::1]:443") ≡ some "2a06:98c0::1"
unfolding normalize_ip trim split_on
bracketed = refl

behind_edge :
    resolve small_net (request (some "10.0.0.2") "1.2.3.4, 8.8.8.8, 173.245.48.9" (one "5.6.7.8"))
    ≡ "5.6.7.8"
unfolding resolve trim split_on
behind_edge = refl

edge_unnamed :
    resolve small_net (request (some "10.0.0.2") "8.8.8.8, 173.245.48.9" absent) ≡ "8.8.8.8"
unfolding resolve trim split_on
edge_unnamed = refl

garbage :
    resolve small_net (request (some "10.0.0.2") "8.8.8.8, junk, 10.0.0.7" absent) ≡ "10.0.0.7"
unfolding resolve trim split_on
garbage = refl

resolve-forged_example :
    resolve small_net (request (some "10.0.0.2") "1.2.3.4, 8.8.8.8, 10.0.0.7" absent)
    ≡ resolve small_net (request (some "10.0.0.2") " 8.8.8.8, 10.0.0.7" absent)
unfolding resolve trim split_on stops foreign address hops_of normalize_ip
resolve-forged_example =
    resolve-forged small_net (some "10.0.0.2") absent "1.2.3.4" " 8.8.8.8, 10.0.0.7" refl
