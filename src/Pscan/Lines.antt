-- ===== src/Pscan/Lines.antt =====
-- The other lines that src/pscan.c prints: for an open port, for a UDP port that did not answer, and for a
-- banner. How printf shows a double is `ratio`. The colours are those of include/utils.h.
use knetutils.Base.{ℕ}
use knetutils.Base.{none, List, [], ◌∷◌, ◌++◌}
use knetutils.Base.{ltb, if◌then◌else◌}
use knetutils.Base.{Text, codes}
use knetutils.Utils.{decimal, bold, colour, colour_reset, log_info, format_time}
use knetutils.Pscan.State.{Config, OpenLine}
use knetutils.Pscan.Json.{json_text}
use knetutils.Pscan.Run.{Report, json, open_filtered, banner_list, nothing}

-- What is printed before the scan.
unfoldable pub print_heading : Text → ℕ → Config → Text
unfolding log_info
print_heading target_str rate_limit config =
    if config.json_output
    then []
    else log_info (
        codes "Scanning "
        ++ (target_str
            ++ (codes " ports "
                ++ (decimal config.start_port
                    ++ (codes " to "
                        ++ (decimal config.end_port
                            ++ (codes " (rate: " ++ (decimal rate_limit ++ codes " pps)..."))))))))

unfoldable pub udp_line : ℕ → Text
udp_line port =
    bold
    ++ (colour 3
        ++ (codes "Port "
            ++ (decimal port ++ (codes " is open|filtered" ++ (colour_reset ++ codes "\n")))))

unfoldable pub udp_lines : List ℕ → Text
unfolding udp_line
udp_lines [] = []
udp_lines (port ∷ ports) = udp_line port ++ udp_lines ports

unfoldable pub banner_lines : List (ℕ × Text) → Text
banner_lines [] = []
banner_lines ((port, banner) ∷ rest) =
    codes "Port "
    ++ (decimal port ++ (codes " banner: " ++ (banner ++ (codes "\n" ++ banner_lines rest))))

-- The heading stands before the first banner.
unfoldable pub banners_text : List (ℕ × Text) → Text
unfolding banner_lines
banners_text [] = []
banners_text (first ∷ rest) = codes "\n--- Service Banners ---\n" ++ banner_lines (first ∷ rest)

module _ (ratio : ℕ → ℕ → Text) where
  unfoldable pub open_line : OpenLine → Text
  open_line line =
      let time_buf = if ltb 0 line.rtt then format_time ratio line.rtt none 64 else codes "N/A" in
      let os : Text = elim line.guess [
        | [] ↦ []
        | c ∷ guess ↦ codes " [OS: " ++ ((c ∷ guess) ++ codes "]")
      ] in
      bold
      ++ (colour 2
          ++ (codes "Port "
              ++ (decimal line.port
                  ++ (codes " is open"
                      ++ (colour_reset
                          ++ (codes " (time="
                              ++ (time_buf ++ (codes ")" ++ (os ++ codes "\n")))))))))

  unfoldable pub report_lines : Report → Text
  unfolding json_text udp_lines banners_text
  report_lines (json target es) = json_text ratio target es
  report_lines (open_filtered ports) = udp_lines ports
  report_lines (banner_list banners) = banners_text banners
  report_lines nothing = []
