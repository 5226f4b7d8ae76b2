-- ===== src/Tcping/Tests.antt =====
-- A call and a run of tcping, with the theorems applied to them.
use knetutils.Base.{arith, ℕ, ◌≡◌, refl, Option, some}
use knetutils.Base.{List, [], ◌∷◌, ◌++◌, replicate, Text, codes, Family, inet}
use knetutils.Base.Options.{Opt, goes, read_options, atoi, strtol}
use knetutils.Tcping.State.{Config, State, init_tcping_state}
use knetutils.Window.{scan}
use knetutils.Tcping.Run.{
  Packet, Tick, take_reply, tcping_run, round, send_due, send_tcping_probe, close_round,
  poll_timeout, take_answer, answered_slot, drain_tcping_replies,
}
use knetutils.Tcping.Reported.{AnswersSent, EndsReported, tcping_run-EndsReported}
use knetutils.Tcping.Settled.{EndsWell, tcping_run-EndsWell}
use knetutils.Tcping.Options.{defaults, tcping_main, take_target, apply_option}

abbrev resolver : Text → Family → Option (List ℕ × Family)
resolver name family = some (10 ∷ 0 ∷ 0 ∷ 1 ∷ [], inet)

abbrev options : List Opt
options = (b'c', codes "3") ∷ []

abbrev operands : List Text
operands = codes "host" ∷ codes "443" ∷ []

abbrev chosen : Config
chosen = record defaults { count = 3; port = 443; target_addr = 10 ∷ 0 ∷ 0 ∷ 1 ∷ []; family = inet }

started : tcping_main resolver options operands ≡ goes chosen
unfolding tcping_main take_target apply_option read_options atoi strtol
started = refl

-- A SYN-ACK from port 443 to the source port 1101, for the first probe.
abbrev syn_ack : Packet
syn_ack = record {
  buf =
      0x45 ∷ replicate 19 0
      ++ (1 ∷ 187 ∷ 4 ∷ 77 ∷ replicate 4 0 ++ (0 ∷ 0 ∷ 3 ∷ 233 ∷ 0x50 ∷ 0x12 ∷ replicate 6 0));
  len = 40;
  recv_time = 900;
}

abbrev start : State
unfolding init_tcping_state
start = init_tcping_state [] 77

abbrev ticks : List Tick
ticks =
    record { now = 10; later = 12; packets = syn_ack ∷ syn_ack ∷ [] }
    ∷ record { now = 2_000_000_000; later = 2_000_000_002; packets = [] }
    ∷ []

tcping_run-EndsWell_example : EndsWell chosen (tcping_run chosen (init_tcping_state [] 77) 10 ticks)
tcping_run-EndsWell_example = tcping_run-EndsWell chosen [] 77 10 ticks (omega arith)

-- The segment comes for the first probe, after it was sent.
answers_sent : AnswersSent chosen (init_tcping_state [] 77) 10 ticks
unfolding round send_due send_tcping_probe close_round scan poll_timeout take_reply take_answer
    answered_slot drain_tcping_replies init_tcping_state
answers_sent = (((omega arith, omega arith), ((omega arith, omega arith), tt)), (tt, tt))

tcping_run-EndsReported_example :
    EndsReported chosen (tcping_run chosen (init_tcping_state [] 77) 10 ticks)
tcping_run-EndsReported_example =
    tcping_run-EndsReported chosen [] 77 10 ticks (omega arith) answers_sent
