-- ===== src/Lib.antt =====
-- knetutils: the network tools arping, ping, pscan, sniff, tcping and traceroute in one program.
--
-- The program. src/main.c chooses a tool by the name of the program or by its first argument; each
-- tool is one file under src/ that reads its command line into a configuration, then runs an event
-- loop around a socket with a state of its own. The tools share src/base/net.c (sockets, the
-- Internet checksum), src/base/utils.c (clock, times as text) and src/base/cli.c (usage texts).
--
-- The files.
--   Base        lists, machine words, byte buffers, C strings, address families, and in
--               Base.Options what getopt, atoi and strtol yield and how a main ends
--   Net         Checksum: calculate_checksum of src/base/net.c; Tcp: the SYN segment of
--               src/tcping.c and src/pscan.c over the pseudo headers of include/net.h; Kernel: what the
--               kernel answers and what is open; Sockets and Lookups: the other functions of
--               src/base/net.c for Linux; Balance, Keep, First and Gateway: their proofs; Bpf: the
--               sockets for BSD; Device, Records and Stream: their proofs; Routes: the lookups for
--               BSD; Layout and Routed: their proofs; Bind: the choice of the option -I that three
--               tools share; Held: when a set-up holds what is closed later
--   Utils       src/base/utils.c: get_time_ns, time_diff_ns, format_time and the log functions
--   Main        get_basename and main of src/main.c
--   Ping        src/ping.c: Sqrt (integer_sqrt), State (the state, update_ping_stats,
--               print_statistics), Stats and Times (the statistics of a whole run), Packet and Request
--               (requests and replies), Run (the rounds of ping_run), Settled, Account and Reported (what
--               a run reports), Print (what is printed), Cisco (the marks of that style), Options
--   Traceroute  src/traceroute.c: Match (is_our_probe_v4, is_our_probe_v6, check_is_target), Safe,
--               Probe (the state, send_traceroute_probe), Run (the loops of traceroute_run), Unique,
--               Hops, Answer, Print (the lines of a run), Text, Named, Measured, Cleared and Read
--               (reading them back), Options
--   Pscan       src/pscan.c: State, Os (guess_os_from_ttl), Ports (the order of the ports), Packet
--               (process_packet), Probe (send_probe and the loop over the ports), Safe, Banner
--               (grab_banner), Report (the JSON report), Json (its text), Grammar, Valid and
--               Printed (that it is JSON), Lines (the other texts), Shown and OnceShown (the lines for
--               open ports), Answered and Open (which packets open a port), Run (pscan_run), Scan and
--               Refine (the whole TCP scan), Quoted (the ICMP messages that close a port), Refused
--               and Udp (the whole UDP scan), Options
--   Tcping      src/tcping.c: State, Options, Run (the rounds of tcping_run), Settled,
--               Answer, Account and Reported (what a run reports), Print (what is printed)
--   Arping      src/arping.c: Options, Frame (frames sent and received), Run (the rounds of
--               arping_run), Settled, Account, Booked and Reported (what a run reports), Owed and
--               Caused (what settles the probes), Print (what is printed)
--   Sniff       src/sniff.c: Options, Packet (process_packet, the hex dump), Safe, Capture (the loop
--               of sniff_run and the file it writes), Pcap (a reader of that file), Print (the text
--               of the lines), Dump (reading the hex dump back)
--   Cli         cli_print_help of src/base/cli.c and, in Columns, what stands where in its text
--   Usage       the tables of options and the arguments of getopt of all tools; Agree: that they agree
--   Setups      the set-ups of all tools' sockets, which each tool has in its file Setup
--   Window      the timeout loop that src/ping.c, src/arping.c and src/tcping.c share; Balance: the
--               books of settled slots against reports, for all three
-- A file called Tests applies the theorems of its tool to concrete arguments.
--
-- The correspondence. A definition has the name of the C function or of the variable that it
-- computes. A struct is a record with its fields; an array indexed by a u_short is a function, one
-- allocated for a range of ports is a list. Words are native numbers with their wrap written out;
-- a pattern of bits stands for a signed value. A buffer is a list of bytes: a read past its end
-- gives 0, and a theorem says that no decision rests on such a read. The host is little-endian.
-- sizeof(struct icmp) is 28, as the C library has it.
--
-- The environment. What is outside the repository is an argument: the results of getopt, the
-- resolver, the interfaces, the clock, the values of rand, what the kernel accepts and delivers (in
-- Net.Kernel a function of the calls made before, which also keeps what is open), what the headers
-- of BSD say, the conversion of a double by printf. That no host answers what was not sent is a
-- hypothesis of the theorems that need it. A theorem on the environment holds for every value of the
-- argument unless a hypothesis says otherwise.
--
-- Fuel. integer_sqrt has 33 rounds for each of its loops, since a u_int64_t has 32 pairs of bits;
-- Window.scan, Pscan.Report.json_report and Pscan.Run.pscan_run take their fuel as an argument, and
-- a theorem says how much is enough. In a round the timeout loop has 65537 steps, one more than a
-- u_short has values. The loops of traceroute, and those over rounds and packets, follow the lists
-- of the environment.
--
-- Reports. The states of ping, tcping and arping keep, in `printed`, the list of what was reported so
-- far, in order; the files Print give the bytes that each report puts on the terminal, with the
-- heading before and the summary behind them.
--
-- Not modelled: when diagnostics are printed on stderr, signals, privileges, and the rate limit of
-- pscan, whose tokens are doubles and only delay.
pub mod Base
pub mod Utils
pub mod Net
pub mod Ping
pub mod Traceroute
pub mod Pscan
pub mod Tcping
pub mod Sniff
pub mod Arping
pub mod Main
pub mod Window
pub mod Setups
pub mod Tests
pub mod Cli
pub mod Usage
