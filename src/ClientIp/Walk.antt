-- ===== src/ClientIp/Walk.antt =====
-- What a client writes into X-Forwarded-For does not decide the walk.
use mathlib.Core.List.{reverse, reverse-append, map-append}
use mathlib.Core.Option.{map as option_map}
use inite_auth_service.Common.{
  String, List, [], ◌∷◌, ◌++◌, Option, none, some, Bool, true, false, not, ◌&&◌, ◌||◌, any, or_else,
  ◌≡◌, refl, ap, ◌∙◌, sym, Bool-cases, inl, inr, arith, select, truthy, map,
}
use Prim.Native.String.{◌++◌ as append}
use inite_auth_service.Common.Text.{trim, split_on}
use inite_auth_service.Common.Text.Split.{split_on-append}
use inite_auth_service.ClientIp.{
  Net, Header, one, address, settled, walk, hops_of, resolve, resolve_from, header_text,
  header_head,
}

-- An address that is neither ours nor an edge's
unfoldable pub foreign : Net → Option String → Bool
foreign net none = false
foreign net (some ip) = not (net.ours ip) && not (net.edge ip)

-- A hop that the walk goes no further than.
unfoldable pub stops : Net → String → Bool
unfolding foreign
stops net h = foreign net (address net (some h))

settled-foreign :
    (net : Net) (cf : Option String) (ip : String)
    → foreign net (some ip) ≡ true
    → settled net cf ip ≡ some ip
unfolding settled foreign
settled-foreign net cf ip h = ground arith

walk-foreign :
    (net : Net) (cf : Option String) (ip : String) (hops : List String)
    → foreign net (some ip) ≡ true
    → walk net cf ip hops ≡ ip
unfolding walk
walk-foreign net cf ip [] h = rw (settled-foreign net cf ip h) refl
walk-foreign net cf ip (x ∷ hops) h = rw (settled-foreign net cf ip h) refl

further-append :
    (net : Net) (cf : Option String) (hops forged : List String) (next : Option String)
    → ((ip : String)
        → any (stops net) hops ≡ true
        → walk net cf ip (hops ++ forged) ≡ walk net cf ip hops)
    → (foreign net next || any (stops net) hops) ≡ true
    → option_map (λ ip. walk net cf ip (hops ++ forged)) next
      ≡ option_map (λ ip. walk net cf ip hops) next
further-append net cf hops forged none same h = refl
further-append net cf hops forged (some ip) same h = elim (Bool-cases (foreign net (some ip))) [
  | inl far ↦
      ap some (walk-foreign net cf ip (hops ++ forged) far ∙ sym (walk-foreign net cf ip hops far))
  | inr near ↦ ap some (same ip (rw near at h))
]

-- Past a hop that stops the walk, what follows does not matter.
walk-append :
    (net : Net) (cf : Option String) (current : String) (hops forged : List String)
    → any (stops net) hops ≡ true
    → walk net cf current (hops ++ forged) ≡ walk net cf current hops
unfolding walk stops
walk-append net cf current [] forged h = ground arith
walk-append net cf current (x ∷ hops) forged h =
    ap (λ further. or_else (settled net cf current) (or_else further current))
      (further-append net cf hops forged (address net (some x))
        (λ ip stop. walk-append net cf ip hops forged stop) h)

select-append :
    (xs ys : List String) → select truthy (xs ++ ys) ≡ select truthy xs ++ select truthy ys
select-append [] ys = refl
select-append (x ∷ xs) ys = elim (Bool-cases (truthy x)) [
  | inl kept ↦ rw kept (ap (λ r. x ∷ r) (select-append xs ys))
  | inr dropped ↦ rw dropped (select-append xs ys)
]

hops_of-comma :
    (forged rest : String)
    → hops_of (append forged (append "," rest)) ≡ hops_of rest ++ hops_of forged
unfolding hops_of
hops_of-comma forged rest =
    ap (λ pieces. reverse (select truthy (map trim pieces))) (split_on-append forged rest)
    ∙ ap (λ kept. reverse (select truthy kept))
        (map-append trim (split_on b',' forged) (split_on b',' rest))
    ∙ ap reverse (select-append (map trim (split_on b',' forged)) (map trim (split_on b',' rest)))
    ∙ reverse-append (select truthy (map trim (split_on b',' forged)))
        (select truthy (map trim (split_on b',' rest)))

resolve_from-forged :
    (net : Net) (cf : Header) (forged written : String) (socket start : Option String)
    → (foreign net start || any (stops net) (hops_of written)) ≡ true
    → resolve_from net
        (record {
          socket_address = socket;
          forwarded_for = one (append forged (append "," written));
          cf_connecting_ip = cf;
        })
        start
      ≡ resolve_from net
          (record { socket_address = socket; forwarded_for = one written; cf_connecting_ip = cf })
          start
unfolding resolve_from header_text
resolve_from-forged net cf forged written socket none h = refl
resolve_from-forged net cf forged written socket (some ip) h =
    let cf_ip = address net (header_head cf) in
    ap (walk net cf_ip ip) (hops_of-comma forged written)
    ∙ elim (Bool-cases (foreign net (some ip))) [
      | inl far ↦
          walk-foreign net cf_ip ip (hops_of written ++ hops_of forged) far
          ∙ sym (walk-foreign net cf_ip ip (hops_of written) far)
      | inr near ↦ walk-append net cf_ip ip (hops_of written) (hops_of forged) (rw near at h)
    ]

-- Where the address of the socket, or a hop that the header of forwarding ends with, is neither ours
-- nor an edge's, the address of the client does not depend on what stands in the header before that
-- end.
pub resolve-forged :
    (net : Net) (socket : Option String) (cf : Header) (forged written : String)
    → (foreign net (address net socket) || any (stops net) (hops_of written)) ≡ true
    → resolve net (record {
      socket_address = socket;
      forwarded_for = one (append forged (append "," written));
      cf_connecting_ip = cf;
    })
      ≡ resolve net
          (record { socket_address = socket; forwarded_for = one written; cf_connecting_ip = cf })
unfolding resolve
resolve-forged net socket cf forged written h =
    resolve_from-forged net cf forged written socket (address net socket) h
