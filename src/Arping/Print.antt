-- ===== src/Arping/Print.antt =====
-- What src/arping.c prints: the heading, the lines of `handle_arp_reply` and of a timeout, and
-- `print_arping_stats`. `ntoa` is how inet_ntoa and inet_ntop show an address; how printf shows a double is
-- `ratio`.
use knetutils.Base.{ℕ, ◌/◌}
use knetutils.Base.{none, some, List, [], ◌∷◌, ◌++◌}
use knetutils.Base.{ltb, if◌then◌else◌}
use knetutils.Base.{u32}
use knetutils.Base.{byte_at}
use knetutils.Base.{Text, codes}
use knetutils.Utils.{decimal, hex_two, format_time}
use knetutils.Arping.Options.{Config}
use knetutils.Arping.Frame.{Event, replied, timed_out, State}
use knetutils.Arping.Run.{success_percent, loss_percent}

-- Of the first six bytes.
unfoldable pub print_mac : List ℕ → Text
print_mac mac =
    hex_two (byte_at mac 0)
    ++ (b':' ∷ hex_two (byte_at mac 1)
        ++ (b':' ∷ hex_two (byte_at mac 2)
            ++ (b':' ∷ hex_two (byte_at mac 3)
                ++ (b':' ∷ hex_two (byte_at mac 4) ++ (b':' ∷ hex_two (byte_at mac 5))))))

module _ (ntoa : ℕ → Text) (ratio : ℕ → ℕ → Text) (config : Config) where
  unfoldable pub print_reply : List ℕ → ℕ → Text
  unfolding print_mac
  print_reply mac rtt =
      if config.quiet
      then []
      else if config.cisco_style
      then codes "!"
      else codes "Unicast reply from "
        ++ (ntoa config.target_ip
            ++ (codes " ["
                ++ (print_mac mac
                    ++ (codes "]  " ++ (format_time ratio rtt config.time_unit 64 ++ codes "\n")))))

  -- In the timeout loop.
  abbrev pub print_timeout : Text
  print_timeout =
      if config.quiet
      then []
      else if config.cisco_style
      then codes "."
      else codes "Timeout waiting for reply from " ++ (ntoa config.target_ip ++ codes "\n")

  -- What one report puts on the terminal.
  unfoldable pub print_event : Event → Text
  unfolding print_reply
  print_event (replied mac rtt) = print_reply mac rtt
  print_event (timed_out seq) = print_timeout

  unfoldable pub print_events : List Event → Text
  print_events [] = []
  print_events (event ∷ events) = print_event event ++ print_events events

  unfoldable pub print_arping_stats : State → Text
  print_arping_stats st =
      if config.quiet
      then []
      else if config.cisco_style
      then codes "\nSuccess rate is "
        ++ (decimal (success_percent st)
            ++ (codes " percent ("
                ++ (decimal st.received ++ (codes "/" ++ (decimal st.sent ++ codes ")\n")))))
      else codes "\n--- "
        ++ (ntoa config.target_ip
            ++ (codes " arping statistics ---\n"
                ++ (decimal st.sent
                    ++ (codes " packets transmitted, "
                        ++ (decimal st.received
                            ++ (codes " packets received, "
                                ++ (decimal (loss_percent st) ++ codes "% packet loss\n")))))))

  -- What `arping_run` prints before its rounds; the interface is there in every configuration of arping_main.
  unfoldable pub print_heading : Text
  print_heading =
      let iface : Text = elim config.iface [ none ↦ [] | some iface ↦ iface ] in
      if config.quiet
      then []
      else if config.cisco_style
      then codes "Sending "
        ++ (decimal config.count
            ++ (codes ", 28-byte ARP Requests to "
                ++ (ntoa config.target_ip
                    ++ (codes ", timeout is "
                        ++ (decimal (u32 (config.timeout_ns / 1_000_000_000))
                            ++ codes " seconds:\n")))))
      else codes "ARPING "
        ++ (ntoa config.target_ip
            ++ (codes " from " ++ (ntoa config.source_ip ++ (codes " " ++ (iface ++ codes "\n")))))

  -- Heading, reports and summary.
  unfoldable pub output : State → Text
  unfolding print_heading print_events print_arping_stats
  output st = print_heading ++ (print_events st.printed ++ print_arping_stats st)

-- What `arping_run` returns for the state that its loop leaves.
abbrev pub exit_status : Config → State → ℕ
exit_status config st =
    if config.dad then (if ltb 0 st.received then 1 else 0) else if ltb 0 st.received then 0 else 1
