-- ===== src/Ping/Print.antt =====
-- What src/ping.c prints: the heading, the reports of the rounds (`print_ping_reply` and the bytes printed
-- around it) and the summary of `print_statistics`. `target_str` is the target as getnameinfo shows it; how
-- printf shows a double is `ratio`.
use knetutils.Base.{ℕ, ◌/◌}
use knetutils.Base.{not, ◌&&◌, Option, none, some, List, [], ◌∷◌, ◌++◌}
use knetutils.Base.{ltb, leb, if◌then◌else◌}
use knetutils.Base.{length}
use knetutils.Base.{u32}
use knetutils.Base.{Text, codes}
use knetutils.Utils.{decimal, decimal_int, hex_two, format_time}
use knetutils.Ping.State.{
  Config, Event, requested, replied, timed_out, State, Times, min_avg_max, min_avg_max_mdev, Report,
  silent, cisco, plain, print_statistics,
}

abbrev pub hex_text : List ℕ → Text
hex_text [] = []
hex_text (b ∷ bs) = hex_two b ++ hex_text bs

-- What `ping_run` prints before its rounds.
unfoldable pub print_heading : Config → Text → Text
print_heading config target_str =
    if config.quiet
    then []
    else if config.cisco_style
    then codes "Sending "
      ++ (decimal config.count
          ++ (codes ", "
              ++ (decimal config.payload_size
                  ++ (codes "-byte ICMP Echos to "
                      ++ (target_str
                          ++ (codes ", timeout is "
                              ++ (decimal (u32 (config.timeout_ns / 1_000_000_000))
                                  ++ codes " seconds:\n")))))))
    else codes "PING "
      ++ (target_str
          ++ (codes ": "
              ++ (decimal config.payload_size
                  ++ (codes " data bytes\n"
                      ++ (if ltb 0 (length config.pattern)
                          then codes "PATTERN: 0x" ++ (hex_text config.pattern ++ codes "\n")
                          else [])))))

module _ (ratio : ℕ → ℕ → Text) (config : Config) where
  abbrev pub shown_time : ℕ → Text
  shown_time time_ns = format_time ratio time_ns config.time_unit 64

  unfoldable pub print_ping_reply : ℕ → ℕ → Text → ℕ → Option ℕ → Text
  print_ping_reply rtt len src_str seq ttl =
      let time_buf = if leb 8 config.payload_size then shown_time rtt else codes "N/A" in
      let hops : Text = elim ttl [ none ↦ [] | some hops ↦ codes " ttl=" ++ decimal hops ] in
      if config.quiet
      then []
      else if config.cisco_style
      then codes "!"
      else decimal len
        ++ (codes " bytes from "
            ++ (src_str
                ++ (codes ": icmp_seq="
                    ++ (decimal seq ++ (hops ++ (codes " time=" ++ (time_buf ++ codes "\n")))))))

  -- In `send_ping_request`.
  abbrev pub print_request : Text
  print_request = if config.flood && not config.quiet then codes "." else []

  -- In `drain_ping_replies`.
  abbrev pub print_reply : ℕ → ℕ → Text → ℕ → Option ℕ → Text
  print_reply rtt len src_str seq ttl =
      (if config.flood && not config.quiet then codes "\u{8} \u{8}" else [])
      ++ ((if config.audible then codes "\u{7}" else [])
          ++ print_ping_reply rtt len src_str seq ttl)

  -- In the timeout loop.
  abbrev pub print_timeout : ℕ → Text
  print_timeout seq =
      if not config.quiet && not config.flood
      then (if config.cisco_style
          then codes "."
          else codes "Timeout waiting for reply for seq " ++ (decimal seq ++ codes "\n"))
      else []

  -- What one report puts on the terminal.
  unfoldable pub print_event : Event → Text
  unfolding print_ping_reply
  print_event requested = print_request
  print_event (replied rtt len src_str seq ttl) = print_reply rtt len src_str seq ttl
  print_event (timed_out seq) = print_timeout seq

  unfoldable pub print_events : List Event → Text
  print_events [] = []
  print_events (event ∷ events) = print_event event ++ print_events events

  abbrev pub times_text : Times → Text
  times_text (min_avg_max shortest mean longest) =
      shown_time shortest ++ (codes "/" ++ (shown_time mean ++ (codes "/" ++ shown_time longest)))
  times_text (min_avg_max_mdev shortest mean longest mdev) =
      shown_time shortest
      ++ (codes "/"
          ++ (shown_time mean
              ++ (codes "/" ++ (shown_time longest ++ (codes "/" ++ shown_time mdev)))))

  abbrev pub cisco_times : Option Times → Text
  cisco_times none = []
  cisco_times (some times) = codes ", round-trip min/avg/max = " ++ times_text times

  abbrev pub plain_times_text : Option Times → Text
  plain_times_text none = []
  plain_times_text (some times) =
      codes "rtt min/avg/max/mdev = " ++ (times_text times ++ codes "\n")

  unfoldable pub report_text : Text → Report → Text
  report_text target_str silent = []
  report_text target_str (cisco percent sent received times) =
      codes "\nSuccess rate is "
      ++ (decimal percent
          ++ (codes " percent ("
              ++ (decimal received
                  ++ (codes "/"
                      ++ (decimal sent ++ (codes ")" ++ (cisco_times times ++ codes "\n")))))))
  report_text target_str (plain percent sent received times) =
      codes "\n--- "
      ++ (target_str
          ++ (codes " ping statistics ---\n"
              ++ (decimal sent
                  ++ (codes " packets transmitted, "
                      ++ (decimal received
                          ++ (codes " packets received, "
                              ++ (decimal_int percent
                                  ++ (codes "% packet loss\n" ++ plain_times_text times))))))))

  -- Heading, reports and summary.
  unfoldable pub output : Text → State → Text
  unfolding print_heading print_events report_text print_statistics
  output target_str st =
      print_heading config target_str
      ++ (print_events st.printed ++ report_text target_str (print_statistics config st))

-- What `ping_run` returns for the state that its loop leaves.
abbrev pub exit_status : State → ℕ
exit_status st = if ltb 0 st.received then 0 else 1
