-- ===== src/Ping/Cisco.antt =====
-- The marks that a run of ping in Cisco's style prints, `!` and `.`. For src/ping.c.
use knetutils.Base.{ℕ, suc, ◌+◌, ◌-◌, ◌≤◌}
use knetutils.Base.{◌≡◌, refl, ap, ◌∙◌, arith}
use knetutils.Base.{Bool, true, false, List, [], ◌∷◌}
use knetutils.Base.{◌==◌, if◌then◌else◌}
use knetutils.Base.{length}
use knetutils.Base.{Text}
use knetutils.Ping.State.{Config, Event, requested, replied, timed_out}
use knetutils.Ping.Packet.{init_ping_state}
use knetutils.Ping.Run.{Tick, Ending, broken, completed, expired, interrupted, ping_run}
use knetutils.Ping.Settled.{IsCounted}
use knetutils.Ping.Account.{replies, timeouts}
use knetutils.Ping.Reported.{AnswersSent, EndsReported, ping_run-EndsReported}
use knetutils.Ping.Print.{print_ping_reply, print_event, print_events}

-- How often a byte occurs.
abbrev pub occurrences : ℕ → Text → ℕ
occurrences c [] = 0
occurrences c (d ∷ text) = if d == c then suc (occurrences c text) else occurrences c text

-- Cisco's style, and none of the options that print something else.
pub record IsMarked (config : Config) : Type 0 where
  pub in_style : config.cisco_style ≡ true
  pub loud : config.quiet ≡ false
  pub no_flood : config.flood ≡ false
  pub no_bell : config.audible ≡ false

-- The text of the reports has a `!` for each reply and a `.` for each timeout, and nothing else.
record HasMarks (text : Text) (received late : ℕ) : Type 0 where
  bangs : occurrences b'!' text ≡ received
  dots : occurrences b'.' text ≡ late
  nothing_else : length text ≡ received + late

print_events-HasMarks :
    (ratio : ℕ → ℕ → Text) (config : Config) (events : List Event)
    → IsMarked config
    → HasMarks (print_events ratio config events) (replies events) (timeouts events)
unfolding print_events print_event print_ping_reply
print_events-HasMarks ratio config [] m = record { bangs = refl; dots = refl; nothing_else = refl }
print_events-HasMarks ratio config (requested ∷ events) m =
    rw m.no_flood (print_events-HasMarks ratio config events m)
print_events-HasMarks ratio config (replied rtt len src_str seq ttl ∷ events) m =
    let rest = print_events-HasMarks ratio config events m in
    rw (m.no_flood, m.no_bell, m.loud, m.in_style)
      (record {
        bangs = ap suc rest.bangs;
        dots = rest.dots;
        nothing_else = omega (arith, rest.nothing_else);
      })
print_events-HasMarks ratio config (timed_out seq ∷ events) m =
    let rest = print_events-HasMarks ratio config events m in
    rw (m.no_flood, m.loud, m.in_style)
      (record {
        bangs = rest.bangs;
        dots = ap suc rest.dots;
        nothing_else = omega (arith, rest.nothing_else);
      })

-- A run that ends by itself prints as many marks as the count, of which as many are `!` as it received; any
-- other run no more than it sent.
abbrev pub EndsMarked : (ℕ → ℕ → Text) → Config → Ending → Type 0
EndsMarked ratio config broken = ⊥
EndsMarked ratio config (completed st) =
    let text = print_events ratio config st.printed in
    (length text ≡ config.count)
    × (occurrences b'!' text ≡ st.received)
    × (occurrences b'.' text ≡ config.count - st.received)
EndsMarked ratio config (expired st) =
    let text = print_events ratio config st.printed in
    (length text ≤ st.sent) × (occurrences b'!' text ≡ st.received)
EndsMarked ratio config (interrupted st) =
    let text = print_events ratio config st.printed in
    (length text ≤ st.sent) × (occurrences b'!' text ≡ st.received)

reported-marked :
    (ratio : ℕ → ℕ → Text) (config : Config) (ending : Ending)
    → IsMarked config
    → EndsReported config ending
    → EndsMarked ratio config ending
reported-marked ratio config broken m e = absurd e
reported-marked ratio config (completed st) m (all_sent, all_requested, all_received, all) =
    let marks = print_events-HasMarks ratio config st.printed m in
    (
      omega (arith, marks.nothing_else, all_received, all),
      marks.bangs ∙ all_received,
      omega (arith, marks.dots, all),
    )
reported-marked ratio config (expired st) m (all_requested, all_received, most) =
    let marks = print_events-HasMarks ratio config st.printed m in
    (omega (arith, marks.nothing_else, all_received, most), marks.bangs ∙ all_received)
reported-marked ratio config (interrupted st) m (all_requested, all_received, most) =
    let marks = print_events-HasMarks ratio config st.printed m in
    (omega (arith, marks.nothing_else, all_received, most), marks.bangs ∙ all_received)

-- In Cisco's style, not quiet, flooding or audible, with a count from 1 to 65534, whatever the clock is, and if
-- no packet answers a request before it is sent: the run never runs out of fuel; between heading and
-- summary it prints a `!` for each reply that it counts; when it ends by itself it prints as many characters
-- as the count and the rest of them are `.`, and else it prints no more characters than it sent requests.
pub ping_run-EndsMarked :
    (ratio : ℕ → ℕ → Text) (config : Config) (pid start_time next_send_time : ℕ) (is_dgram : Bool)
    (ticks : List Tick)
    → IsMarked config
    → IsCounted config
    → AnswersSent config (init_ping_state config pid start_time is_dgram) next_send_time ticks
    → EndsMarked ratio config
        (ping_run config (init_ping_state config pid start_time is_dgram) next_send_time ticks)
ping_run-EndsMarked ratio config pid start_time next_send_time is_dgram ticks m c answers =
    reported-marked ratio config
      (ping_run config (init_ping_state config pid start_time is_dgram) next_send_time ticks) m
      (ping_run-EndsReported config pid start_time next_send_time is_dgram ticks c answers)
