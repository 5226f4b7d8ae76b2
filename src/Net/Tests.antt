-- ===== src/Net/Tests.antt =====
-- Packets for src/base/net.c and include/net.h, with the theorems applied to them.
use knetutils.Base.{ℕ, ◌≡◌, refl, arith, List, [], ◌∷◌, ◌++◌, replicate}
use knetutils.Net.Checksum.{calculate_checksum}
use knetutils.Net.Checksum.Verify.{packet_with, checksum_verifies}
use knetutils.Base.{◌==◌, same_text, if◌then◌else◌, Option, none, some, Text, codes, inet}
use knetutils.Net.Kernel.{Call, socket, read, sysctl, calloc, Reply, Kernel, Keeps}
use knetutils.Net.Sockets.{open_raw_socket, open_icmp_socket, open_ip_raw_socket}
use knetutils.Net.Balance.{IsOpened, open_sockets-IsOpened}
use knetutils.Net.Lookups.{
  Route, get_iface_mac, get_iface_addr, resolve_host, resolve_ipv4, get_default_gateway,
  get_source_ip_for,
}
use knetutils.Base.{
  length, le32, le16, le32_bytes, le16_bytes, byte_at, byte_at-append, ap, ◌∙◌, ◌+◌, ◌*◌, ◌-◌, ◌/◌,
  ◌≤◌, length-replicate,
}
use knetutils.Net.Bpf.{Bsd, BpfSocket, open_bpf_socket}
use knetutils.Net.Device.{IsBpfOpened, open_bpf_socket-IsBpfOpened}
use knetutils.Net.Records.{IsBpfFormat, encode_all, all_delivered}
use knetutils.Net.Stream.{recv_times, bpf_recv_packet-all_delivered}
use knetutils.Net.Keep.{lookups-Keep}
use knetutils.Net.Routes.{RouteHeaders, find_route, bsd_get_iface_mac, bsd_get_default_gateway}
use knetutils.Net.Routed.{IsThrough, bsd_get_default_gateway-first}
use knetutils.Net.Kernel.{allocate}
use knetutils.Net.Sockets.{get_iface_index}
use knetutils.Net.First.{IsSearched}
use knetutils.Net.Gateway.{IsDefaultRoute, get_default_gateway_lem}
use knetutils.Net.Tcp.{ipv4_pseudo_header, tcp_probe, tcp_probe_verifies}

abbrev echo_head : List ℕ
echo_head = 8 ∷ 0 ∷ []

abbrev echo_tail : List ℕ
echo_tail = 0x12 ∷ 0x34 ∷ 0 ∷ 1 ∷ 97 ∷ []

checksum_verifies_example :
    calculate_checksum
      (packet_with echo_head (calculate_checksum (packet_with echo_head 0 echo_tail)) echo_tail)
    ≡ 0
checksum_verifies_example =
    checksum_verifies echo_head echo_tail (omega arith) (omega arith) refl (omega arith)

abbrev pseudo : List ℕ
unfolding ipv4_pseudo_header
pseudo = ipv4_pseudo_header (10 ∷ 0 ∷ 0 ∷ 1 ∷ []) (10 ∷ 0 ∷ 0 ∷ 2 ∷ [])

tcp_probe_verifies_example : calculate_checksum (pseudo ++ tcp_probe pseudo 1024 443 7) ≡ 0
unfolding ipv4_pseudo_header
tcp_probe_verifies_example = tcp_probe_verifies pseudo 1024 443 7 (omega arith) refl (omega arith)

-- A kernel that refuses the first raw socket, as for a user without rights, and answers all else.
abbrev answer : List Call → Call → Option Reply
answer [] (socket family type protocol) = if type == 3 then none else some (3, [])
answer [] c = some (3, [])
answer (first ∷ log) c = some (4, replicate 16 0)

abbrev kernel : Kernel
kernel = record {
  answer = answer;
  interfaces = record { name = codes "eth0"; addr = some (inet, 0x0100000A); link = none } ∷ [];
  route_lines = codes "Iface" ∷ codes "1" ∷ codes "2" ∷ [];
  log = [];
  opened = 2 ∷ 1 ∷ 0 ∷ [];
  blocks = 5;
}

open_sockets-IsOpened_example :
    IsOpened kernel (open_raw_socket (codes "eth0") 6 kernel)
    × IsOpened kernel (open_icmp_socket inet kernel)
    × IsOpened kernel (open_ip_raw_socket inet 6 kernel)
open_sockets-IsOpened_example = open_sockets-IsOpened kernel (codes "eth0") inet 6

-- The line "2" is the default route.
abbrev scan_route : Text → Option Route
scan_route line =
    if same_text line (codes "2")
    then some (codes "eth0", (0, 0x0101000A))
    else some (codes "eth0", (10, 0))

abbrev headers : RouteHeaders
headers = record {
  rtm_size = 4;
  rtax_max = 8;
  rtax_dst = 0;
  rtax_gateway = 1;
  rtm_msglen = λ buf i. byte_at buf i;
  rtm_addrs = λ buf i. byte_at buf (i + 1);
  rtm_index = λ buf i. byte_at buf (i + 2);
  sa_len = λ buf i. byte_at buf i;
}

lookups-Keep_example :
    Keeps (get_iface_mac (codes "eth0"))
    × Keeps (get_iface_addr (codes "eth0"))
    × Keeps (resolve_host (codes "eth0") inet)
    × Keeps (resolve_ipv4 (codes "eth0"))
    × Keeps (get_default_gateway scan_route (codes "eth0"))
    × Keeps (get_source_ip_for inet [])
    × Keeps (bsd_get_iface_mac (codes "eth0"))
    × Keeps (bsd_get_default_gateway headers 9 (codes "eth0"))
lookups-Keep_example = lookups-Keep scan_route headers 9 (codes "eth0") inet []

-- Two default routes, through the interfaces 3 and 2; a header has 4 bytes here.
abbrev table : List ℕ
table =
    36 ∷ 3 ∷ 3 ∷ 0 ∷ 16 ∷ 2 ∷ replicate 14 0
    ++ (16 ∷ 2 ∷ 0 ∷ 0 ∷ 10 ∷ 0 ∷ 0 ∷ 1 ∷ replicate 8 0
        ++ (36 ∷ 3 ∷ 2 ∷ 0 ∷ 16 ∷ 2 ∷ replicate 14 0
            ++ (16 ∷ 2 ∷ 0 ∷ 0 ∷ 10 ∷ 0 ∷ 0 ∷ 9 ∷ replicate 8 0)))

abbrev listing : List Call → Call → Option Reply
listing log (sysctl none) = some (72, [])
listing log (sysctl (some len)) = some (72, table)
listing log calloc = some (0, [])
listing log c = some (2, [])

abbrev router : Kernel
router = record kernel { answer = listing }

bsd_gateway :
    (bsd_get_default_gateway headers 3 (codes "em0") router).0
    ≡ some (some (le32 (10 ∷ 0 ∷ 0 ∷ 9 ∷ []) 0))
unfolding bsd_get_default_gateway allocate find_route get_iface_index
bsd_gateway = refl

bsd_get_default_gateway-first_example :
    (out : Option ℕ) × ((bsd_get_default_gateway headers 3 (codes "em0") router).0 ≡ some out)
    × IsSearched (IsThrough headers table 2) (0 ∷ 36 ∷ []) out
bsd_get_default_gateway-first_example =
    bsd_get_default_gateway-first headers 3 (codes "em0") 2 72 table (0 ∷ 36 ∷ []) router
      (record {
        size = 72;
        sized = [];
        block = (0, []);
        knows_size = refl;
        allocates = refl;
        lists = refl;
      })
      (λ log. ([], refl)) (omega arith, refl, (omega arith, refl, omega arith)) (omega arith)

get_default_gateway_lem_example :
    IsSearched
      (IsDefaultRoute scan_route (codes "eth0"))
      (codes "1" ∷ codes "2" ∷ [])
      (get_default_gateway scan_route (codes "eth0") kernel).0
get_default_gateway_lem_example =
    get_default_gateway_lem scan_route (codes "eth0") kernel (3, []) (codes "Iface")
      (codes "1" ∷ codes "2" ∷ []) refl refl

-- Headers of 18 bytes, with the packet's length and their own, and records aligned to 8 bytes.
abbrev bsd : Bsd
bsd = record {
  biocsetif = 1;
  biocpromisc = 7;
  biocimmediate = 2;
  biocgblen = 3;
  bh_caplen = λ buf i. le32 buf i;
  bh_hdrlen = λ buf i. le16 buf (i + 4);
  bpf_wordalign = λ n. (n + 7) / 8 * 8;
}

abbrev header : List ℕ → List ℕ
header p = le32_bytes (length p) ++ (le16_bytes 18 ++ replicate 12 0)

abbrev padding : List ℕ → List ℕ
padding p = replicate ((18 + length p + 7) / 8 * 8 - (18 + length p)) 0

open_bpf_socket-IsBpfOpened_example :
    IsBpfOpened (2 ∷ 1 ∷ 0 ∷ []) 5 (open_bpf_socket bsd (codes "em0") kernel)
open_bpf_socket-IsBpfOpened_example = open_bpf_socket-IsBpfOpened bsd (codes "em0") kernel

at_append :
    (before xs : List ℕ) (i j : ℕ) → j ≡ length before + i → byte_at (before ++ xs) j ≡ byte_at xs i
at_append before xs i j e = ap (byte_at (before ++ xs)) e ∙ byte_at-append before xs i

format : IsBpfFormat bsd header padding
format = record {
  caplen_of = λ before p rest short.
      let at = at_append before (header p ++ rest) in
      let n = length before in
      omega (
        arith,
        at 0 n (omega arith),
        at 1 (n + 1) (omega arith),
        at 2 (n + 2) (omega arith),
        at 3 (n + 2 + 1) (omega arith),
      );
  hdrlen_of = λ before p rest.
      let at = at_append before (header p ++ rest) in
      let n = length before in
      omega (arith, at 4 (n + 4) (omega arith), at 5 (n + 4 + 1) (omega arith));
  has_header = λ p. omega arith;
  aligned = λ p.
      let pads = length-replicate {A = ℕ} ((18 + length p + 7) / 8 * 8 - (18 + length p)) 0 in
      omega (arith, pads);
}

abbrev bpf_packets : List (List ℕ)
bpf_packets = (1 ∷ 2 ∷ 3 ∷ []) ∷ (4 ∷ 5 ∷ []) ∷ []

abbrev bpf_socket : BpfSocket
bpf_socket = record {
  fd = 3;
  bpf_buf = replicate 64 0;
  bpf_buf_len = 64;
  bpf_pos = 0;
  bpf_filled = 0;
}

abbrev bpf_bytes : List ℕ
bpf_bytes = encode_all header padding bpf_packets

abbrev bpf_answer : List Call → Call → Option Reply
bpf_answer log c = some (length bpf_bytes, bpf_bytes)

abbrev bpf_kernel : Kernel
bpf_kernel = record kernel { answer = bpf_answer }

bpf_recv_packet-all_delivered_example :
    let out = recv_times bsd 2 bpf_socket 2 bpf_kernel in
    (out.0.0 ≡ all_delivered 2 bpf_packets)
    × (out.0.1.bpf_filled ≤ out.0.1.bpf_pos)
    × (out.1.log ≡ read 3 64 ∷ [])
bpf_recv_packet-all_delivered_example =
    bpf_recv_packet-all_delivered bsd header padding format bpf_socket 2 (1 ∷ 2 ∷ 3 ∷ [])
      ((4 ∷ 5 ∷ []) ∷ []) bpf_kernel (omega arith) (omega arith, (omega arith, tt)) (omega arith)
      refl
