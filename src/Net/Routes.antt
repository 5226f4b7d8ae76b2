-- ===== src/Net/Routes.antt =====
-- What src/base/net.c looks up, for BSD: the hardware address of an interface, and the default gateway from
-- the messages of a routing table. What the system's headers say is a `RouteHeaders`; sizeof(long) is 8.
use knetutils.Base.{ℕ, zero, suc, ◌+◌, ◌-◌, ◌*◌, ◌/◌}
use knetutils.Base.{Option, none, some, List, [], ◌∷◌}
use knetutils.Base.{ltb, ◌==◌, if◌then◌else◌}
use knetutils.Base.{take}
use knetutils.Base.{le32, has_bit}
use knetutils.Base.{Text, same_text}
use knetutils.Net.Kernel.{
  calloc, getifaddrs, sysctl, Reply, IfAddr, M, ◌>>=◌, pure, call, allocate, free,
}
use knetutils.Net.Sockets.{get_iface_index}
use knetutils.Net.Lookups.{free_with}

-- `rtm_addrs` of a message and the like: fields of a structure that stands at an offset of a buffer.
pub record RouteHeaders : Type 0 where
  pub rtm_size : ℕ
  pub rtax_max : ℕ
  pub rtax_dst : ℕ
  pub rtax_gateway : ℕ
  pub rtm_msglen : List ℕ → ℕ → ℕ
  pub rtm_addrs : List ℕ → ℕ → ℕ
  pub rtm_index : List ℕ → ℕ → ℕ
  pub sa_len : List ℕ → ℕ → ℕ

-- The first six bytes of the hardware address, if the entry has one and the name.
unfoldable pub link_of : Text → Text → Option (List ℕ) → Option (List ℕ)
link_of iface name none = none
link_of iface name (some address) = if same_text name iface then some (take 6 address) else none

unfoldable pub find_link : Text → List IfAddr → Option (List ℕ)
unfolding link_of
find_link iface [] = none
find_link iface (ifa ∷ ifas) = elim (link_of iface ifa.name ifa.link) [
  | some mac ↦ some mac
  | none ↦ find_link iface ifas
]

unfoldable pub links_listed : Text → Option Reply → M (Option (List ℕ))
unfolding free
links_listed iface none k = (none, k)
links_listed iface (some r) k = free_with (find_link iface k.interfaces) k

unfoldable pub bsd_get_iface_mac : Text → M (Option (List ℕ))
bsd_get_iface_mac iface = allocate getifaddrs >>= links_listed iface

-- `ROUNDUP`.
abbrev pub roundup : ℕ → ℕ
roundup a = if ltb 0 a then 1 + ((a - 1) / 8 * 8 + 7) else 8

-- `sa`, `dst` and `gw`, as offsets.
pub record Addresses : Type 0 where
  pub sa : ℕ
  pub dst : Option ℕ
  pub gw : Option ℕ

module _ (h : RouteHeaders) (buf : List ℕ) where
  -- One round of the loop over the addresses of a message.
  abbrev pub take_address : ℕ → ℕ → Addresses → Addresses
  take_address rtm i a =
      if has_bit (h.rtm_addrs buf rtm) i
      then record {
        sa = a.sa + roundup (h.sa_len buf a.sa);
        dst = if i == h.rtax_dst then some a.sa else a.dst;
        gw = if i == h.rtax_gateway then some a.sa else a.gw;
      }
      else a

  -- `left` rounds from `i` on.
  unfoldable pub take_addresses : ℕ → ℕ → ℕ → Addresses → Addresses
  take_addresses rtm zero i a = a
  take_addresses rtm (suc left) i a = take_addresses rtm left (i + 1) (take_address rtm i a)

  -- The gateway, if both addresses are there and the destination is 0.0.0.0.
  abbrev pub default_gateway : Option ℕ → Option ℕ → Option ℕ
  default_gateway none gw = none
  default_gateway (some dst) none = none
  default_gateway (some dst) (some gw) =
      if le32 buf (dst + 4) == 0 then some (le32 buf (gw + 4)) else none

  unfoldable pub gateway_in : ℕ → Option ℕ
  unfolding take_addresses
  gateway_in rtm =
      let a =
        take_addresses rtm h.rtax_max 0 (record { sa = rtm + h.rtm_size; dst = none; gw = none }) in
      default_gateway a.dst a.gw

  -- The messages from `next` up to `lim`; the outer `none` means that the fuel ran out.
  unfoldable pub find_route : ℕ → Text → ℕ → ℕ → M (Option (Option ℕ))
  unfolding gateway_in
  find_route zero iface next lim = pure none
  find_route (suc fuel) iface next lim =
      let rest = find_route fuel iface (next + h.rtm_msglen buf next) lim in
      let found : M (Option (Option ℕ)) = elim (gateway_in next) [
        | none ↦ rest
        | some gw ↦ get_iface_index iface >>= λ index.
            if h.rtm_index buf next == index then pure (some (some gw)) else rest
      ] in
      if ltb next lim then found else pure (some none)

module _ (h : RouteHeaders) (fuel : ℕ) (iface : Text) where
  -- Behind the second call of `sysctl`.
  unfoldable pub routes_filled : Option Reply → M (Option (Option ℕ))
  unfolding free
  routes_filled none = free_with (some none)
  routes_filled (some (len, buf)) = find_route h buf fuel iface 0 len >>= free_with

  unfoldable pub buf_allocated : ℕ → Option Reply → M (Option (Option ℕ))
  unfolding routes_filled call
  buf_allocated len none = pure (some none)
  buf_allocated len (some r) = call (sysctl (some len)) >>= routes_filled

  unfoldable pub routes_sized : Option Reply → M (Option (Option ℕ))
  unfolding buf_allocated
  routes_sized none = pure (some none)
  routes_sized (some (len, bytes)) = allocate calloc >>= buf_allocated len

  unfoldable pub bsd_get_default_gateway : M (Option (Option ℕ))
  unfolding routes_sized call
  bsd_get_default_gateway = call (sysctl none) >>= routes_sized
