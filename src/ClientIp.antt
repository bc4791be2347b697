-- ===== src/ClientIp.antt =====
-- src/common/client-ip.ts: which address a request comes from. `isIP` and the BlockLists of node:net
-- are parameters: `ours` is built from the private ranges with the configured ones, `edge` from those
-- of Cloudflare. A header that is sent several times comes as a list.
pub mod Walk
mod Tests
use Prim.Native.Char.{Char, code}
use Prim.Native.String.{[] as nil, ◌∷◌ as cons}
use mathlib.Core.List.{reverse}
use mathlib.Core.Option.{map as option_map}
use inite_auth_service.Common.{
  ℕ, String, List, [], ◌∷◌, Option, none, some, Bool, true, false, not, ◌&&◌, ◌+◌, nat_eq, leb,
  if◌then◌else◌, truthy, select, map, all, or_else,
}
use inite_auth_service.Common.Text.{trim, split_on, is_digit, has_char, join}

pub record Net : Type 0 where
  -- `isIP` is not 0
  pub is_ip : String → Bool
  pub ours : String → Bool
  pub edge : String → Bool

pub data Header : Type 0 where
  absent : Header
  one : String → Header
  many : List String → Header

pub record ClientIpInput : Type 0 where
  pub socket_address : Option String
  pub forwarded_for : Header
  pub cf_connecting_ip : Header

-- A letter as the regular expression's `i` flag compares it.
fold_case : Char → ℕ
fold_case c = if leb b'A' (code c) && leb (code c) b'Z' then code c + 32 else code c

-- What follows a prefix in small letters, in either case.
after : List ℕ → String → Option String
unfolding fold_case
after [] s = some s
after (p ∷ ps) nil = none
after (p ∷ ps) (cons c s) = if nat_eq (fold_case c) p then after ps s else none

all_digits : String → Bool
unfolding is_digit
all_digits nil = true
all_digits (cons c s) = is_digit c && all_digits s

-- \d+
digits : String → Bool
unfolding all_digits
digits s = truthy s && all_digits s

four : List String → Bool
unfolding digits
four (a ∷ (b ∷ (c ∷ (d ∷ [])))) = digits a && (digits b && (digits c && digits d))
four _ = false

quad : Option String → Option String
unfolding four split_on
quad none = none
quad (some s) = if four (split_on b'.' s) then some s else none

-- /^::ffff:(\d+\.\d+\.\d+\.\d+)$/i
mapped : String → Option String
unfolding after quad
mapped ip = quad (after (b':' ∷ b':' ∷ b'f' ∷ b'f' ∷ b'f' ∷ b'f' ∷ b':' ∷ []) ip)

first_piece : List String → String
first_piece [] = ""
first_piece (p ∷ _) = p

-- [address]:port
unbracket : String → String
unfolding split_on first_piece
unbracket nil = nil
unbracket (cons c s) =
    if nat_eq (code c) b'[' && has_char b']' s then first_piece (split_on b']' s) else cons c s

unfoldable pub normalize_ip : Net → Option String → Option String
unfolding mapped unbracket trim
normalize_ip net none = none
normalize_ip net (some raw) =
    let bare = unbracket (trim raw) in
    let ip = or_else (mapped bare) bare in
    if not (truthy raw) then none else if net.is_ip ip then some ip else none

-- The test of a text that may be null
present : Option String → Option String
present none = none
present (some s) = if truthy s then some s else none

unfoldable pub address : Net → Option String → Option String
unfolding present normalize_ip
address net raw = present (normalize_ip net raw)

header_text : Header → String
header_text absent = ""
header_text (one s) = s
header_text (many ss) = join "," ss

header_head : Header → Option String
header_head absent = none
header_head (one s) = some s
header_head (many []) = none
header_head (many (s ∷ _)) = some s

-- The hops of X-Forwarded-For, the nearest first.
unfoldable pub hops_of : String → List String
unfolding split_on trim
hops_of header = reverse (select truthy (map trim (split_on b',' header)))

-- What the walk answers at a hop before it looks further.
settled : Net → Option String → String → Option String
settled net cf current =
    if net.edge current then cf else if net.ours current then none else some current

walk : Net → Option String → String → List String → String
unfolding settled address
walk net cf current [] = or_else (settled net cf current) current
walk net cf current (h ∷ hops) =
    let further = option_map (λ next. walk net cf next hops) (address net (some h)) in
    or_else (settled net cf current) (or_else further current)

resolve_from : Net → ClientIpInput → Option String → String
unfolding walk address header_head header_text hops_of
resolve_from net input none = "unknown"
resolve_from net input (some socket) =
    walk net (address net (header_head input.cf_connecting_ip)) socket
      (hops_of (header_text input.forwarded_for))

unfoldable pub resolve : Net → ClientIpInput → String
unfolding resolve_from address
resolve net input = resolve_from net input (address net input.socket_address)
