-- ===== src/Net/Sockets.antt =====
-- The sockets of src/base/net.c, for Linux: opening, closing, sending and receiving.
use knetutils.Base.{ℕ}
use knetutils.Base.{Bool, true, false, Option, none, some, List, [], ◌∷◌, ◌++◌}
use knetutils.Base.{◌==◌, if◌then◌else◌}
use knetutils.Base.{length, take, replicate}
use knetutils.Base.{swap16}
use knetutils.Base.{le32_bytes, le16_bytes}
use knetutils.Base.{Text}
use knetutils.Base.{Family, unspec, inet, inet6, is_inet6}
use knetutils.Net.Kernel.{
  Call, socket, bind, setsockopt, sendto, recvfrom, calloc, if_nametoindex, Reply, M, ◌>>=◌, ◌>>◌,
  pure, call, open_fd, close_fd, allocate, free,
}

-- `struct net_socket`; an index of 0 stands in the sockets that have none.
pub record NetSocket : Type 0 where
  pub fd : ℕ
  pub ifindex : ℕ
  pub is_dgram : Bool

-- AF_UNSPEC, AF_INET and AF_INET6 as numbers.
abbrev pub domain : Family → ℕ
domain unspec = 0
domain inet = 2
domain inet6 = 10

unfoldable pub get_iface_index : Text → M ℕ
get_iface_index iface =
    call (if_nametoindex iface) >>= λ r. elim r [ none ↦ pure 0 | some (index, bytes) ↦ pure index ]

-- `struct sockaddr_ll` with a protocol in network order, an index and an address.
abbrev pub sockaddr_ll : ℕ → ℕ → List ℕ → List ℕ
sockaddr_ll protocol ifindex address =
    le16_bytes 17
    ++ (le16_bytes protocol
        ++ (le32_bytes ifindex ++ (0 ∷ 0 ∷ 0 ∷ length address ∷ take 8 (address ++ replicate 8 0))))

-- The label `err_close`.
abbrev pub close_none : ℕ → M (Option NetSocket)
close_none fd = do close_fd fd; pure none

-- The memory for a socket that is open, and its contents.
unfoldable pub wrap_socket : ℕ → ℕ → Bool → M (Option NetSocket)
unfolding allocate close_fd call
wrap_socket fd ifindex is_dgram = allocate calloc >>= λ block. elim block [
  | none ↦ close_none fd
  | some r ↦ pure (some (record { fd = fd; ifindex = ifindex; is_dgram = is_dgram }))
]

-- Behind the call of `bind`.
unfoldable pub behind_bind : ℕ → ℕ → Option Reply → M (Option NetSocket)
behind_bind fd ifindex none = close_none fd
behind_bind fd ifindex (some r) = wrap_socket fd ifindex false

-- From the index of the interface on.
unfoldable pub bind_raw : ℕ → ℕ → ℕ → M (Option NetSocket)
bind_raw fd protocol ifindex =
    if ifindex == 0
    then close_none fd
    else (call (bind fd (sockaddr_ll (swap16 protocol) ifindex [])) >>= behind_bind fd ifindex)

-- Behind the call of `socket`.
unfoldable pub raw_opened : Text → ℕ → Option ℕ → M (Option NetSocket)
raw_opened iface protocol none = pure none
raw_opened iface protocol (some fd) = get_iface_index iface >>= bind_raw fd protocol

unfoldable pub open_raw_socket : Text → ℕ → M (Option NetSocket)
open_raw_socket iface protocol =
    open_fd (socket 17 3 (swap16 protocol)) >>= raw_opened iface protocol

-- Behind the second call of `socket`, for a datagram socket.
unfoldable pub dgram_opened : Option ℕ → M (Option NetSocket)
dgram_opened none = pure none
dgram_opened (some fd) = wrap_socket fd 0 true

unfoldable pub icmp_opened : Family → ℕ → Option ℕ → M (Option NetSocket)
icmp_opened family proto (some fd) = wrap_socket fd 0 false
icmp_opened family proto none = open_fd (socket (domain family) 2 proto) >>= dgram_opened

unfoldable pub open_icmp_socket : Family → M (Option NetSocket)
open_icmp_socket family =
    let proto = if is_inet6 family then 58 else 1 in
    open_fd (socket (domain family) 3 proto) >>= icmp_opened family proto

unfoldable pub ip_opened : Option ℕ → M (Option NetSocket)
ip_opened none = pure none
ip_opened (some fd) = wrap_socket fd 0 false

unfoldable pub open_ip_raw_socket : Family → ℕ → M (Option NetSocket)
open_ip_raw_socket family protocol = open_fd (socket (domain family) 3 protocol) >>= ip_opened

unfoldable pub is_dgram : Option NetSocket → Bool
is_dgram none = false
is_dgram (some sock) = sock.is_dgram

unfoldable pub close_raw_socket : Option NetSocket → M (Unit {0})
unfolding close_fd free
close_raw_socket none = pure tt
close_raw_socket (some sock) = do close_fd sock.fd; free

-- Whether a call succeeds.
abbrev pub succeeds : Call → M Bool
succeeds c = call c >>= λ r. elim r [ none ↦ pure false | some v ↦ pure true ]

-- `struct packet_mreq` with PACKET_MR_PROMISC; SOL_PACKET is 263, PACKET_ADD_MEMBERSHIP 1.
unfoldable pub set_promiscuous : NetSocket → M Bool
unfolding call
set_promiscuous sock =
    succeeds
      (setsockopt sock.fd 263 1 (le32_bytes sock.ifindex ++ (le16_bytes 1 ++ replicate 10 0)))

-- The value returned, `none` for -1.
abbrev pub returned : Call → M (Option ℕ)
returned c = call c >>= λ r. elim r [ none ↦ pure none | some (n, bytes) ↦ pure (some n) ]

-- `sll_addr`, as far as `sll_halen` says.
abbrev pub link_address : Option (List ℕ) → List ℕ
link_address none = replicate 6 0
link_address (some mac) = take 6 mac

unfoldable pub send_packet : NetSocket → List ℕ → Option (List ℕ) → M (Option ℕ)
unfolding call
send_packet sock buf dst_mac =
    returned (sendto sock.fd buf (sockaddr_ll 0 sock.ifindex (link_address dst_mac)))

-- The number of bytes received and the bytes.
unfoldable pub recv_packet : NetSocket → ℕ → M (Option Reply)
unfolding call
recv_packet sock len = call (recvfrom sock.fd len)

unfoldable pub send_icmp_packet : NetSocket → List ℕ → List ℕ → M (Option ℕ)
unfolding call
send_icmp_packet sock buf dest = returned (sendto sock.fd buf dest)

unfoldable pub recv_icmp_packet : NetSocket → ℕ → M (Option Reply)
unfolding call
recv_icmp_packet sock len = call (recvfrom sock.fd len)

unfoldable pub send_ip_raw : NetSocket → List ℕ → List ℕ → M (Option ℕ)
unfolding call
send_ip_raw sock buf dest = returned (sendto sock.fd buf dest)

unfoldable pub recv_ip_raw : NetSocket → ℕ → M (Option Reply)
unfolding call
recv_ip_raw sock len = call (recvfrom sock.fd len)

-- `none` for -1.
unfoldable pub get_socket_fd : Option NetSocket → Option ℕ
get_socket_fd none = none
get_socket_fd (some sock) = some sock.fd
