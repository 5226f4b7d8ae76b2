-- ===== src/Net/Lookups.antt =====
-- What src/base/net.c looks up, for Linux: interfaces, names, the default gateway, the source address.
-- `scan_mac` and `scan_route` are what sscanf converts of a text, and `route_lines` the lines that fgets
-- yields of /proc/net/route.
use knetutils.Base.{ℕ}
use knetutils.Base.{◌&&◌, Option, none, some, List, [], ◌∷◌, map}
use knetutils.Base.{◌==◌, if◌then◌else◌}
use knetutils.Base.{length, take}
use knetutils.Base.{u8, u32}
use knetutils.Base.{le32, be16, be16_bytes, write}
use knetutils.Base.{Text, codes, same_text}
use knetutils.Base.{Family, unspec, inet, inet6, is_inet}
use mathlib.Core.Option
use knetutils.Net.Kernel.{
  socket, connect, getsockname, ioctl, getifaddrs, fopen, getaddrinfo, Reply, IfAddr, M, ◌>>=◌,
  ◌>>◌, pure, call, open_fd, close_fd, allocate, free,
}
use knetutils.Net.Sockets.{domain}

-- The label `out`: the descriptor is closed, and the result returned.
abbrev pub close_with : {A : Type 0} → ℕ → A → M A
close_with fd a = do close_fd fd; pure a

abbrev pub free_with : {A : Type 0} → A → M A
free_with a = do free; pure a

-- The first six bytes of the hardware address that SIOCGIFHWADDR delivers.
abbrev pub mac_of : Option Reply → Option (List ℕ)
mac_of none = none
mac_of (some (n, bytes)) = some (take 6 bytes)

unfoldable pub mac_opened : Text → Option ℕ → M (Option (List ℕ))
unfolding call close_fd
mac_opened iface none = pure none
mac_opened iface (some fd) = do r ← call (ioctl fd 0x8927 (take 15 iface)); close_with fd (mac_of r)

unfoldable pub get_iface_mac : Text → M (Option (List ℕ))
get_iface_mac iface = open_fd (socket 2 2 0) >>= mac_opened iface

-- The address of an entry that has an IPv4 address and the name.
unfoldable pub addr_of : Text → Text → Option (Family × ℕ) → Option ℕ
addr_of iface name none = none
addr_of iface name (some (family, ip)) =
    if is_inet family && same_text name iface then some ip else none

-- The first such entry.
unfoldable pub find_addr : Text → List IfAddr → Option ℕ
unfolding addr_of
find_addr iface [] = none
find_addr iface (ifa ∷ ifas) = elim (addr_of iface ifa.name ifa.addr) [
  | some ip ↦ some ip
  | none ↦ find_addr iface ifas
]

unfoldable pub addrs_listed : Text → Option Reply → M (Option ℕ)
unfolding free
addrs_listed iface none k = (none, k)
addrs_listed iface (some r) k = free_with (find_addr iface k.interfaces) k

unfoldable pub get_iface_addr : Text → M (Option ℕ)
get_iface_addr iface = allocate getifaddrs >>= addrs_listed iface

unfoldable pub host_resolved : Option Reply → M (Option (List ℕ))
unfolding free
host_resolved none = pure none
host_resolved (some (addrlen, bytes)) = free_with (some (take addrlen bytes))

unfoldable pub resolve_host : Text → Family → M (Option (List ℕ))
resolve_host hostname family = allocate (getaddrinfo hostname (domain family)) >>= host_resolved

unfoldable pub ipv4_resolved : Option Reply → M (Option ℕ)
unfolding free
ipv4_resolved none = pure none
ipv4_resolved (some (addrlen, bytes)) = free_with (some (le32 bytes 4))

unfoldable pub resolve_ipv4 : Text → M (Option ℕ)
resolve_ipv4 hostname = allocate (getaddrinfo hostname 2) >>= ipv4_resolved

-- The values converted, in order.
unfoldable pub parse_mac : (Text → List ℕ) → Text → Option (List ℕ)
parse_mac scan_mac mac_str =
    let values = scan_mac mac_str in if length values == 6 then some (map u8 values) else none

-- A line of the routing table: name of the interface, destination, gateway.
abbrev pub Route : Type 0
Route = Text × (ℕ × ℕ)

-- The gateway of a default route through the interface.
unfoldable pub gateway_of : Text → Option Route → Option ℕ
gateway_of iface none = none
gateway_of iface (some (name, (dst, gw))) =
    if dst == 0 && same_text name iface then some (u32 gw) else none

module _ (scan_route : Text → Option Route) where
  unfoldable pub find_gateway : Text → List Text → Option ℕ
  find_gateway iface [] = none
  find_gateway iface (line ∷ lines) = elim (gateway_of iface (scan_route line)) [
    | some gw ↦ some gw
    | none ↦ find_gateway iface lines
  ]

  -- The first line is the heading.
  unfoldable pub past_heading : Text → List Text → Option ℕ
  unfolding find_gateway
  past_heading iface [] = none
  past_heading iface (heading ∷ lines) = find_gateway iface lines

  unfoldable pub routes_opened : Text → Option ℕ → M (Option ℕ)
  unfolding close_fd
  routes_opened iface none k = (none, k)
  routes_opened iface (some fd) k = close_with fd (past_heading iface k.route_lines) k

  unfoldable pub get_default_gateway : Text → M (Option ℕ)
  get_default_gateway iface = open_fd (fopen (codes "/proc/net/route")) >>= routes_opened iface

-- The copy of the address, with a port where it has none.
unfoldable pub with_port : Family → List ℕ → List ℕ
with_port unspec dst = dst
with_port inet dst = if be16 dst 2 == 0 then write dst 2 (be16_bytes 53) else dst
with_port inet6 dst = if be16 dst 2 == 0 then write dst 2 (be16_bytes 53) else dst

-- Behind `connect`: the address that the kernel chose.
unfoldable pub connected : ℕ → Option Reply → M (Option (List ℕ))
unfolding call close_fd
connected fd none = close_with fd none
connected fd (some r) = do name ← call (getsockname fd); close_with fd (Option.map (λ n. n.1) name)

unfoldable pub source_opened : Family → List ℕ → Option ℕ → M (Option (List ℕ))
unfolding connected call
source_opened family dst none = pure none
source_opened family dst (some fd) = call (connect fd (with_port family dst)) >>= connected fd

unfoldable pub get_source_ip_for : Family → List ℕ → M (Option (List ℕ))
get_source_ip_for family dst = open_fd (socket (domain family) 2 0) >>= source_opened family dst
