-- ===== src/Tcping/Print.antt =====
-- What src/tcping.c prints: the heading, `print_tcping_reply`, the line of a timeout and `print_tcping_stats`.
-- `target_str` is the target as getnameinfo shows it; how printf shows a double is `ratio`.
use knetutils.Base.{ℕ}
use knetutils.Base.{◌&&◌, none, List, [], ◌∷◌, ◌++◌}
use knetutils.Base.{ltb, if◌then◌else◌}
use knetutils.Base.{has_bit}
use knetutils.Base.{Text, codes}
use knetutils.Utils.{decimal, format_time}
use knetutils.Tcping.State.{Config, Event, replied, timed_out, State}
use knetutils.Tcping.Run.{loss_percent}

module _ (ratio : ℕ → ℕ → Text) (config : Config) (target_str : Text) where
  abbrev pub target : Text
  target = target_str ++ (b':' ∷ decimal config.port)

  unfoldable pub print_tcping_reply : ℕ → ℕ → Text
  print_tcping_reply flags rtt =
      let timed = format_time ratio rtt none 64 ++ codes "\n" in
      if config.quiet
      then []
      else if has_bit flags 1 && has_bit flags 4
      then codes "Reply from " ++ (target ++ (codes " (SYN-ACK) time=" ++ timed))
      else if has_bit flags 2
      then codes "Reply from " ++ (target ++ (codes " (RST) time=" ++ timed))
      else []

  -- In the timeout loop.
  abbrev pub print_timeout : Text
  print_timeout =
      if config.quiet then [] else codes "Timeout waiting for reply from " ++ (target ++ codes "\n")

  -- What one report puts on the terminal.
  unfoldable pub print_event : Event → Text
  unfolding print_tcping_reply
  print_event (replied flags rtt) = print_tcping_reply flags rtt
  print_event (timed_out seq) = print_timeout

  unfoldable pub print_events : List Event → Text
  print_events [] = []
  print_events (event ∷ events) = print_event event ++ print_events events

  unfoldable pub print_tcping_stats : State → Text
  print_tcping_stats st =
      if config.quiet
      then []
      else codes "\n--- "
        ++ (target
            ++ (codes " tcping statistics ---\n"
                ++ (decimal st.sent
                    ++ (codes " packets transmitted, "
                        ++ (decimal st.received
                            ++ (codes " packets received, "
                                ++ (decimal (loss_percent st) ++ codes "% packet loss\n")))))))

  -- What `tcping_run` prints before its rounds.
  unfoldable pub print_heading : Text
  print_heading = if config.quiet then [] else codes "TCPING " ++ (target ++ codes "\n")

  -- Heading, reports and summary.
  unfoldable pub output : State → Text
  unfolding print_heading print_events print_tcping_stats
  output st = print_heading ++ (print_events st.printed ++ print_tcping_stats st)

-- What `tcping_run` returns for the state that its loop leaves.
abbrev pub exit_status : State → ℕ
exit_status st = if ltb 0 st.received then 0 else 1
