-- ===== src/Arping/Tests.antt =====
-- A call and a run of arping, with the theorems applied to them.
use knetutils.Base.{arith, ◌≡◌, refl, true, false, none, some}
use knetutils.Base.{List, [], ◌∷◌, ◌++◌, replicate, codes}
use knetutils.Base.Options.{Opt, goes, read_options}
use knetutils.Window.{scan}
use knetutils.Arping.Frame.{
  Packet, init_arping_state, is_arp_reply, take_frame, send_arping_probe, match_slot, mark_slot,
  handle_arp_reply, drain_arping_replies,
}
use knetutils.Arping.Reported.{RepliesAwaited, EndsReported, arping_run-EndsReported}
use knetutils.Arping.Run.{
  Tick, arping_run, round, scan_round, send_due, after_send, close_round, poll_timeout,
}
use knetutils.Arping.Owed.{all_arp_replies}
use knetutils.Arping.Caused.{EndsCaused, arping_run-EndsCaused}
use knetutils.Arping.Options.{
  Config, Lookup, defaults, arping_main, check_operands, complete, or_die_mac, choose_source,
  choose_target, apply_option,
}

abbrev lookup : Lookup
lookup = record {
  get_iface_mac = λ _. some (2 ∷ 0 ∷ 0 ∷ 0 ∷ 0 ∷ 1 ∷ []);
  get_iface_addr = λ _. some 5;
  resolve_ipv4 = λ _. some 7;
  get_default_gateway = λ _. none;
}

abbrev options : List Opt
options = (b'I', codes "eth0") ∷ (b'd', []) ∷ (b'C', []) ∷ []

abbrev chosen : Config
chosen = record (defaults.0) {
  iface = some (codes "eth0");
  dad = true;
  cisco_style = true;
  source_mac = 2 ∷ 0 ∷ 0 ∷ 0 ∷ 0 ∷ 1 ∷ [];
  target_ip = 7;
  count = 5;
}

started : arping_main lookup options (codes "host" ∷ []) ≡ goes chosen
unfolding arping_main check_operands complete or_die_mac choose_source choose_target apply_option
    read_options
started = refl

-- A reply from the target, whose address is 7 as a u_int.
abbrev reply : Packet
reply = record {
  buf =
      replicate 12 0
      ++ (8 ∷ 6 ∷ 0 ∷ 1 ∷ 8 ∷ 0 ∷ 6 ∷ 4 ∷ 0 ∷ 2 ∷ replicate 6 9 ++ (7 ∷ replicate 13 0));
  len = 42;
  recv_time = 900;
}

abbrev ticks : List Tick
ticks =
    record { taken = true; now = 10; later = 12; packets = reply ∷ [] }
    ∷ record { taken = true; now = 2_000_000_000; later = 2_000_000_002; packets = [] }
    ∷ []

arping_run-EndsCaused_example :
    EndsCaused chosen (all_arp_replies ticks) (arping_run chosen (init_arping_state, true) 10 ticks)
arping_run-EndsCaused_example = arping_run-EndsCaused chosen 10 ticks (omega arith)

-- The reply comes for the only probe that is awaited; the run goes on.
abbrev patient : Config
patient = record chosen { dad = false }

awaited : RepliesAwaited patient (init_arping_state, true) 10 ticks
unfolding round scan_round send_due send_arping_probe after_send close_round scan poll_timeout
    take_frame is_arp_reply match_slot mark_slot handle_arp_reply drain_arping_replies
awaited = (((λ _. (refl, (0, omega arith, omega arith, refl))), tt), (tt, tt))

arping_run-EndsReported_example :
    EndsReported patient (arping_run patient (init_arping_state, true) 10 ticks)
arping_run-EndsReported_example = arping_run-EndsReported patient 10 ticks (omega arith) awaited
