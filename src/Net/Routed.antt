-- ===== src/Net/Routed.antt =====
-- Which gateway `get_default_gateway` of src/base/net.c finds on BSD.
use knetutils.Base.{ℕ, zero, suc, ◌+◌, ◌≤◌, ◌<◌}
use knetutils.Base.{◌≡◌, refl, inl, inr, arith}
use knetutils.Base.{true, false, Option, none, some, List, [], ◌∷◌, ◌++◌}
use knetutils.Base.{ltb, ◌==◌, Bool-cases, Option-cases}
use knetutils.Base.{length, Text}
use knetutils.Net.Kernel.{Call, Kernel, if_nametoindex, call, calloc, sysctl, allocate, Reply, free}
use knetutils.Net.Sockets.{get_iface_index}
use knetutils.Net.First.{IsSearched, search_ends, search_hits, search_passes}
use knetutils.Net.Layout.{IsDefaultRoute, gateway_in_sound, gateway_in_complete}
use knetutils.Net.Routes.{
  RouteHeaders, gateway_in, find_route, routes_filled, buf_allocated, routes_sized,
  bsd_get_default_gateway,
}

module _ (h : RouteHeaders) (buf : List ℕ) where
  -- The messages stand one behind the other from `next` up to `lim`, at the offsets given.
  abbrev pub IsTable : ℕ → ℕ → List ℕ → Type 0
  IsTable next lim [] = lim ≤ next
  IsTable next lim (rtm ∷ rtms) =
      (next < lim) × (rtm ≡ next) × IsTable (next + h.rtm_msglen buf next) lim rtms

  -- The message is a default route through the interface of that index, over the gateway `gw`.
  abbrev pub IsThrough : ℕ → ℕ → ℕ → Type 0
  IsThrough index rtm gw = IsDefaultRoute h buf rtm gw × (h.rtm_index buf rtm ≡ index)

-- The kernel knows the index of the interface, whatever was called before.
abbrev pub KnowsIndex : Text → ℕ → Kernel → Type 0
KnowsIndex iface index k =
    (log : List Call)
    → (bytes : List ℕ) × (k.answer log (if_nametoindex iface) ≡ some (index, bytes))

-- What the search finds, within its fuel.
abbrev Finds : (h : RouteHeaders) → List ℕ → ℕ → List ℕ → Option (Option ℕ) → Type 0
Finds h buf index rtms result =
    (out : Option ℕ) × (result ≡ some out) × IsSearched (IsThrough h buf index) rtms out

module _ (h : RouteHeaders) (buf : List ℕ) (index rtm : ℕ) (rtms : List ℕ)
    (rest : Option (Option ℕ)) where
  Finds-passes :
      ((gw : ℕ) → IsThrough h buf index rtm gw → ⊥)
      → Finds h buf index rtms rest
      → Finds h buf index (rtm ∷ rtms) rest
  Finds-passes miss (out, e, s) =
      (out, e, search_passes (IsThrough h buf index) rtm rtms out miss s)

  not_default : gateway_in h buf rtm ≡ none → (gw : ℕ) → IsThrough h buf index rtm gw → ⊥
  not_default e gw r = ground (arith, e, gateway_in_complete h buf rtm gw r.0)

  elsewhere : (h.rtm_index buf rtm == index) ≡ false → (gw : ℕ) → IsThrough h buf index rtm gw → ⊥
  elsewhere e gw r = ground (arith, e, r.1)

find_route-first :
    (h : RouteHeaders) (buf : List ℕ) (fuel : ℕ) (iface : Text) (next lim index : ℕ) (rtms : List ℕ)
    (k : Kernel)
    → KnowsIndex iface index k
    → IsTable h buf next lim rtms
    → length rtms < fuel
    → Finds h buf index rtms (find_route h buf fuel iface next lim k).0
unfolding find_route get_iface_index call
find_route-first h buf zero iface next lim index rtms k known table enough = absurd (omega arith)
find_route-first h buf (suc fuel) iface next lim index [] k known table enough =
    let over : ltb next lim ≡ false = ground (arith, table) in
    rw over (none, refl, search_ends (IsThrough h buf index))
find_route-first h buf (suc fuel) iface next lim index (rtm ∷ rtms) k known (more, at, table)
      enough =
    let within : ltb next lim ≡ true = ground (arith, more) in
    let asked : Kernel = record k { log = k.log ++ (if_nametoindex iface ∷ []) } in
    let after = next + h.rtm_msglen buf next in
    rw (within, at)
      (elim (Option-cases (gateway_in h buf next)) [
        | inl e ↦ rw e (
            Finds-passes h buf index next rtms (find_route h buf fuel iface after lim k).0
              (not_default h buf index next rtms none e)
              (find_route-first h buf fuel iface after lim index rtms k known table (omega arith)))
        | inr (gw, e) ↦
            let (bytes, knows) = known k.log in
            rw (e, knows)
              (elim (Bool-cases (h.rtm_index buf next == index)) [
                | inl same ↦ rw same (
                  some gw,
                  refl,
                  search_hits (IsThrough h buf index) next rtms gw
                      (gateway_in_sound h buf next gw e, ground (arith, same)),
                )
                | inr other ↦ rw other (
                    Finds-passes h buf index next rtms
                      (find_route h buf fuel iface after lim asked).0
                      (elsewhere h buf index next rtms none other)
                      (find_route-first h buf fuel iface after lim index rtms asked known table
                        (omega arith)))
              ])
      ])

-- What sysctl and calloc answer, one call behind the other: the length of the table, a buffer, and the table.
pub record IsListed (k : Kernel) (len : ℕ) (buf : List ℕ) : Type 0 where
  pub size : ℕ
  pub sized : List ℕ
  pub block : Reply
  pub knows_size : k.answer k.log (sysctl none) ≡ some (size, sized)
  pub allocates : k.answer (k.log ++ (sysctl none ∷ [])) calloc ≡ some block
  pub lists :
      k.answer ((k.log ++ (sysctl none ∷ [])) ++ (calloc ∷ [])) (sysctl (some size))
      ≡ some (len, buf)

-- The kernel behind those calls.
abbrev filling : Kernel → ℕ → Kernel
filling k size = record k {
  log = ((k.log ++ (sysctl none ∷ [])) ++ (calloc ∷ [])) ++ (sysctl (some size) ∷ []);
  blocks = suc k.blocks;
}

-- When sysctl lists a table of messages that stand one behind the other, the kernel knows the index of the
-- interface, and the fuel exceeds the number of messages: the function ends, and gives the gateway of the
-- first message that is a route to 0.0.0.0 through the interface, and nothing if none is one. In a message the
-- addresses of the kinds that its mask names stand one behind the other, each padded to a multiple of 8
-- bytes and at least 8; the destination and the gateway are at offset 4 of theirs.
pub bsd_get_default_gateway-first :
    (h : RouteHeaders) (fuel : ℕ) (iface : Text) (index len : ℕ) (buf rtms : List ℕ) (k : Kernel)
    → IsListed k len buf
    → KnowsIndex iface index k
    → IsTable h buf 0 len rtms
    → length rtms < fuel
    → (out : Option ℕ) × ((bsd_get_default_gateway h fuel iface k).0 ≡ some out)
      × IsSearched (IsThrough h buf index) rtms out
unfolding bsd_get_default_gateway routes_sized buf_allocated routes_filled allocate call free
bsd_get_default_gateway-first h fuel iface index len buf rtms k l known table enough =
    rw (l.knows_size, l.allocates, l.lists)
      (find_route-first h buf fuel iface 0 len index rtms (filling k l.size) known table enough)
