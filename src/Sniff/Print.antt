-- ===== src/Sniff/Print.antt =====
-- The text that src/sniff.c prints for its lines. How inet_ntop shows an address is `ntop`.
use knetutils.Base.{ℕ, zero, suc, ◌/◌, ◌%◌}
use knetutils.Base.{◌&&◌, List, [], ◌∷◌, ◌++◌}
use knetutils.Base.{leb, if◌then◌else◌}
use knetutils.Base.{has_bit}
use knetutils.Base.{Text, codes}
use knetutils.Base.{Family, inet, inet6}
use knetutils.Utils.{decimal, decimal_int, hex_two, log_info}
use knetutils.Sniff.Packet.{
  Row, Line, mac, ipv4, ipv6, tcp, udp, icmp, icmpv6, full_dump, payload_dump,
}
use knetutils.Sniff.Capture.{State}

-- `%04zx` of a number below 65536.
abbrev pub hex_four : ℕ → Text
hex_four n = hex_two (n / 256) ++ hex_two (n % 256)

-- The 16 columns of a row.
unfoldable pub hex_columns : ℕ → List ℕ → Text
hex_columns zero bytes = []
hex_columns (suc left) [] = codes "   " ++ hex_columns left []
hex_columns (suc left) (b ∷ bytes) = hex_two b ++ (b' ' ∷ hex_columns left bytes)

-- The characters of a row.
abbrev pub shown_chars : List ℕ → Text
shown_chars [] = []
shown_chars (b ∷ bytes) = (if leb 32 b && leb b 126 then b else b'.') ∷ shown_chars bytes

unfoldable pub print_hex_dump_line : List ℕ → Text
unfolding hex_columns
print_hex_dump_line bytes =
    hex_columns 16 bytes ++ (codes " \u{1b}[90m|\u{1b}[0m " ++ (shown_chars bytes ++ codes "\n"))

unfoldable pub dump_text : List Row → Text
unfolding print_hex_dump_line
dump_text [] = []
dump_text ((i, bytes) ∷ rows) =
    codes "  \u{1b}[90m"
    ++ (hex_four i ++ (codes "\u{1b}[0m  " ++ (print_hex_dump_line bytes ++ dump_text rows)))

abbrev pub mac_text : List ℕ → Text
mac_text [] = []
mac_text (b ∷ []) = hex_two b
mac_text (b ∷ bytes) = hex_two b ++ (b':' ∷ mac_text bytes)

-- The letters of the flags that are set.
unfoldable pub flags_text : ℕ → Text
flags_text flags =
    (if has_bit flags 1 then codes "S" else [])
    ++ ((if has_bit flags 4 then codes "A" else [])
        ++ ((if has_bit flags 0 then codes "F" else [])
            ++ ((if has_bit flags 2 then codes "R" else [])
                ++ ((if has_bit flags 3 then codes "P" else [])
                    ++ (if has_bit flags 5 then codes "U" else [])))))

module _ (ntop : Family → List ℕ → Text) where
  unfoldable pub line_text : Line → Text
  unfolding flags_text dump_text
  line_text (mac src dst eth_type) =
      codes "\n\u{1b}[1;34m[MAC]\u{1b}[0m "
      ++ (mac_text src
          ++ (codes " -> "
              ++ (mac_text dst ++ (codes " (Type: 0x" ++ (hex_four eth_type ++ codes ")\n")))))
  line_text (ipv4 src dst proto len) =
      codes "\u{1b}[1;32m[IPv4]\u{1b}[0m "
      ++ (ntop inet src
          ++ (codes " -> "
              ++ (ntop inet dst
                  ++ (codes " (Proto: "
                      ++ (decimal proto ++ (codes ", Len: " ++ (decimal len ++ codes ")\n")))))))
  line_text (ipv6 src dst next) =
      codes "\u{1b}[1;32m[IPv6]\u{1b}[0m "
      ++ (ntop inet6 src
          ++ (codes " -> "
              ++ (ntop inet6 dst ++ (codes " (Next: " ++ (decimal next ++ codes ")\n")))))
  line_text (tcp sport dport flags seq ack win) =
      codes "    \u{1b}[1;36m[TCP]\u{1b}[0m "
      ++ (decimal sport
          ++ (codes " -> "
              ++ (decimal dport
                  ++ (codes " ["
                      ++ (flags_text flags
                          ++ (codes "] Seq: "
                              ++ (decimal seq
                                  ++ (codes ", Ack: "
                                      ++ (decimal ack
                                          ++ (codes ", Win: "
                                              ++ (decimal win ++ codes "\n")))))))))))
  line_text (udp sport dport len) =
      codes "    \u{1b}[1;36m[UDP]\u{1b}[0m "
      ++ (decimal sport
          ++ (codes " -> " ++ (decimal dport ++ (codes " (Len: " ++ (decimal len ++ codes ")\n")))))
  line_text (icmp type code) =
      codes "    \u{1b}[1;36m[ICMP]\u{1b}[0m Type: "
      ++ (decimal type ++ (codes ", Code: " ++ (decimal code ++ codes "\n")))
  line_text (icmpv6 type code) =
      codes "    \u{1b}[1;36m[ICMPv6]\u{1b}[0m Type: "
      ++ (decimal type ++ (codes ", Code: " ++ (decimal code ++ codes "\n")))
  line_text (full_dump rows) =
      codes "    \u{1b}[1;35m[Full Packet Dump]\u{1b}[0m\n" ++ dump_text rows
  line_text (payload_dump rows) =
      codes "    \u{1b}[1;35m[Payload Dump]\u{1b}[0m\n" ++ dump_text rows

-- What `sniff_run` prints behind its loop.
unfoldable pub print_summary : State → Text
unfolding log_info
print_summary st =
    b'\n' ∷ log_info (codes "Captured " ++ (decimal_int st.packets_captured ++ codes " packets"))
