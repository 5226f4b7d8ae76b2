-- ===== src/Usage.antt =====
-- The tables of options that the tools' usage texts show, and the third argument that each tool gives
-- to getopt: src/arping.c, src/ping.c, src/pscan.c, src/sniff.c, src/tcping.c, src/traceroute.c.
pub mod Agree
use knetutils.Base.{ℕ, zero, suc, ◌+◌, ◌-◌, ◌*◌, ◌/◌, ◌%◌, ◌^◌, ◌≤◌, ◌<◌, min, max}
use knetutils.Base.{◌≡◌, refl, sym, ap, ap₂, ◌∙◌, ◌≢◌, ◌↔◌, ◌⊎◌, inl, inr, arith}
use knetutils.Base.{
  Bool, true, false, not, ◌&&◌, ◌||◌, Option, none, some, List, [], ◌∷◌, ◌++◌, map,
}
use knetutils.Base.{ltb, leb, ◌==◌, ◌!=◌, if◌then◌else◌, ==_iff, Bool-cases, Option-cases}
use knetutils.Base.{length, get_or, set, take, drop, replicate, length-append, length-replicate}
use knetutils.Base.{length-set, get_or-set_self, get_or-set_ne, update}
use knetutils.Base.{u8, u16, u32, u64, sub32, sub64, sign_extend, swap16, has_bit}
use knetutils.Base.{
  byte_at, le32, le32_bytes, le16, be16, be32, be16_bytes, be32_bytes, le16_bytes, AgreeBelow,
  IsBytes, byte_at-append, byte_at-append_left, write, length-write,
}
use knetutils.Base.{Text, codes, same_text, same_text_refl, same_text_sound}
use knetutils.Base.{Family, unspec, inet, inet6, is_inet, is_inet6}
use knetutils.Cli.{CliOption, CliApp, cli_print_help}

abbrev flag : ℕ → Text → CliOption
flag ch description = record { short_opt = ch; arg_name = none; description = description }

abbrev value : ℕ → Text → Text → CliOption
value ch name description = record {
  short_opt = ch;
  arg_name = some name;
  description = description;
}

abbrev table_end : List CliOption
table_end = flag 0 [] ∷ []

abbrev usage : Text → Text → List CliOption → Text
usage prog_name usage_args options = cli_print_help (
    some
      (record { prog_name = some prog_name; usage_args = some usage_args; options = some options }))

abbrev pub arping_options : List CliOption
arping_options =
    value b'I' (codes "interface") (codes "specify network interface (e.g. eth0)")
    ∷ value b'c' (codes "count") (codes "stop after sending count ARP requests")
    ∷ value b'w' (codes "timeout") (codes "time to wait for reply in milliseconds (default 1000)")
    ∷ value b'i' (codes "interval")
        (codes "time to wait between requests in milliseconds (default 1000)")
    ∷ value b'S' (codes "source_ip") (codes "specify source IP address (default is interface IP)")
    ∷ flag b'U' (codes "unsolicited ARP mode (updates neighbors' ARP caches)")
    ∷ flag b'd' (codes "duplicate address detection (DAD) mode")
    ∷ flag b'G' (codes "use default gateway as target")
    ∷ flag b'C' (codes "cisco style output (! for reply, . for timeout)")
    ∷ flag b'f' (codes "quit on first reply")
    ∷ flag b'A' (codes "send ARP reply instead of request")
    ∷ flag b'b' (codes "keep broadcasting (do not switch to unicast after first reply)")
    ∷ value b'u' (codes "unit") (
        codes "time unit for output (ns, " ++ (206 ∷ 188 ∷ (codes "s, ms). default: auto-scaling")))
    ∷ flag b'q' (codes "quiet output")
    ∷ flag b'h' (codes "print help and exit")
    ∷ table_end

-- `print_usage` of src/arping.c.
unfoldable pub arping_print_usage : Text → Text
arping_print_usage prog_name =
    usage prog_name (codes "-I interface [options] <destination>") arping_options

abbrev pub arping_optstring : Text
arping_optstring = codes "I:c:w:i:S:qUdGCfAbu:h"

abbrev pub ping_options : List CliOption
ping_options =
    value b'c' (codes "count") (codes "stop after sending count echo request packets")
    ∷ value b'w' (codes "deadline") (codes "specify a timeout, in seconds, before ping exits")
    ∷ value b'W' (codes "timeout") (codes "time to wait for a response, in seconds")
    ∷ value b'i' (codes "interval") (codes "wait interval milliseconds between sending each packet")
    ∷ value b'u' (codes "unit") (
        codes "time unit for output (ns, " ++ (206 ∷ 188 ∷ (codes "s, ms). default: auto-scaling")))
    ∷ value b's' (codes "size") (codes "payload size in bytes")
    ∷ value b'p' (codes "pattern") (codes "hex pattern to fill payload (up to 16 bytes)")
    ∷ value b'Q' (codes "tos") (codes "quality of service / type of service")
    ∷ value b't' (codes "ttl") (codes "time to live (TTL)")
    ∷ flag b'a' (codes "audible ping (print " ++ (92 ∷ (codes "a on reply)")))
    ∷ flag b'A' (codes "adaptive ping (interval adapts to RTT)")
    ∷ flag b'f' (codes "flood ping (prints . for send, " ++ (92 ∷ (codes "b for recv)")))
    ∷ value b'I' (codes "iface/ip") (codes "bind to a specific interface or IP address")
    ∷ flag b'C' (codes "cisco-style output")
    ∷ flag b'q' (codes "quiet output")
    ∷ flag b'h' (codes "print help and exit")
    ∷ table_end

-- `print_usage` of src/ping.c.
unfoldable pub ping_print_usage : Text → Text
ping_print_usage prog_name = usage prog_name (codes "[options] <destination>") ping_options

abbrev pub ping_optstring : Text
ping_optstring = codes "46c:w:W:i:u:s:p:Q:t:I:aAqChf"

abbrev pub pscan_options : List CliOption
pscan_options =
    flag b'4' (codes "use IPv4")
    ∷ flag b'6' (codes "use IPv6")
    ∷ flag b'j' (codes "output in JSON format")
    ∷ flag b'O' (codes "enable OS fingerprinting")
    ∷ value b'p' (codes "ports") (codes "port range to scan (e.g. 1-1024 or 80)")
    ∷ flag b'R' (codes "randomize port scanning order")
    ∷ value b'r' (codes "rate") (codes "max packets per second (rate limit)")
    ∷ flag b's' (codes "service banner grabbing")
    ∷ flag b'u' (codes "use UDP scan instead of TCP SYN")
    ∷ value b'W' (codes "timeout") (codes "time to wait for a response, in seconds")
    ∷ value b'I' (codes "iface/ip") (codes "bind to a specific interface or IP address")
    ∷ flag b'h' (codes "print help and exit")
    ∷ table_end

-- `print_usage` of src/pscan.c.
unfoldable pub pscan_print_usage : Text → Text
pscan_print_usage prog_name = usage prog_name (codes "[options] <destination>") pscan_options

abbrev pub pscan_optstring : Text
pscan_optstring = codes "46jOp:r:W:I:Rsuh"

abbrev pub sniff_options : List CliOption
sniff_options =
    value b'I' (codes "iface") (codes "interface to sniff on (required)")
    ∷ value b'c' (codes "count") (codes "stop after receiving count packets")
    ∷ value b'w' (codes "file") (codes "write packets to a PCAP file")
    ∷ flag b'v' (
        codes "increase verbosity (max level: 3, e.g. -vvv)"
        ++ (10
            ∷ (codes "-v   : show L4 headers (TCP/UDP/ICMP)"
                ++ (10
                    ∷ (codes "-vv  : show L4 headers + payload hex-dump"
                        ++ (10 ∷ (codes "-vvv : show L4 headers + full packet hex-dump")))))))
    ∷ flag b'h' (codes "print help and exit")
    ∷ table_end

-- `print_usage` of src/sniff.c.
unfoldable pub sniff_print_usage : Text → Text
sniff_print_usage prog_name = usage prog_name (codes "[options]") sniff_options

abbrev pub sniff_optstring : Text
sniff_optstring = codes "I:c:w:vh"

abbrev pub tcping_options : List CliOption
tcping_options =
    flag b'4' (codes "use IPv4")
    ∷ flag b'6' (codes "use IPv6")
    ∷ value b'c' (codes "count") (codes "stop after sending count packets")
    ∷ value b'W' (codes "timeout") (codes "time to wait for a response, in seconds")
    ∷ value b'i' (codes "interval") (codes "wait interval milliseconds between sending each packet")
    ∷ value b'I' (codes "iface/ip") (codes "bind to a specific interface or IP address")
    ∷ flag b'q' (codes "quiet output")
    ∷ flag b'h' (codes "print help and exit")
    ∷ table_end

-- `print_usage` of src/tcping.c.
unfoldable pub tcping_print_usage : Text → Text
tcping_print_usage prog_name =
    usage prog_name (codes "[options] <destination> <port>") tcping_options

abbrev pub tcping_optstring : Text
tcping_optstring = codes "46c:W:i:I:qh"

abbrev pub traceroute_options : List CliOption
traceroute_options =
    flag b'4' (codes "use IPv4")
    ∷ flag b'6' (codes "use IPv6")
    ∷ value b'f' (codes "first_ttl") (codes "start from the given first_ttl hop")
    ∷ value b'm' (codes "max_ttl") (codes "set the max number of hops (max TTL)")
    ∷ value b'q' (codes "nqueries") (codes "set the number of probes per hop")
    ∷ flag b'U' (codes "use UDP instead of ICMP ECHO")
    ∷ value b'w' (codes "timeout") (codes "wait time for a response, in seconds")
    ∷ value b'I' (codes "iface/ip") (codes "bind to a specific interface or IP address")
    ∷ flag b'n' (codes "do not resolve IP addresses to their domain names")
    ∷ flag b'h' (codes "print help and exit")
    ∷ table_end

-- `print_usage` of src/traceroute.c.
unfoldable pub traceroute_print_usage : Text → Text
traceroute_print_usage prog_name =
    usage prog_name (codes "[options] <destination>") traceroute_options

abbrev pub traceroute_optstring : Text
traceroute_optstring = codes "46f:m:q:w:I:nUh"

-- What a table shows for a character: whether the option has an argument.
abbrev pub shown : List CliOption → ℕ → Option Bool
shown [] ch = none
shown (opt ∷ opts) ch =
    if opt.short_opt == 0
    then none
    else if opt.short_opt == ch
    then some (elim opt.arg_name [ none ↦ false | some name ↦ true ])
    else shown opts ch

-- What getopt takes for an option by its third argument, as its manual says: a character, which has an
-- argument if a colon follows it.
abbrev pub taken : Text → ℕ → Option Bool
taken [] ch = none
taken (c ∷ []) ch = if c == ch then some false else none
taken (c ∷ d ∷ s) ch =
    if d == b':'
    then (if c == ch then some true else taken s ch)
    else if c == ch
    then some false
    else taken (d ∷ s) ch
