-- ===== src/Pscan/Json.antt =====
-- The text of the JSON report of `pscan_run` of src/pscan.c. How printf shows a double with three decimals is
-- `ratio`.
use knetutils.Base.{ℕ}
use knetutils.Base.{Option, none, some, List, [], ◌∷◌, ◌++◌}
use knetutils.Base.{Text, codes}
use knetutils.Utils.{decimal}
use knetutils.Pscan.Report.{Entry, tcp_open, udp_open}

abbrev pub entry_port : Entry → ℕ
entry_port (tcp_open port rtt guess banner) = port
entry_port (udp_open port) = port

module _ (ratio : ℕ → ℕ → Text) where
  abbrev pub guess_text : Option Text → Text
  guess_text none = []
  guess_text (some guess) = codes ",\n      \"os_guess\": \"" ++ (guess ++ codes "\"")

  abbrev pub banner_text : Option Text → Text
  banner_text none = codes "\n"
  banner_text (some banner) = codes ",\n      \"banner\": \"" ++ (banner ++ codes "\"\n")

  -- What stands behind the port.
  abbrev pub fields_text : Entry → Text
  fields_text (tcp_open port none guess banner) = codes "\n"
  fields_text (tcp_open port (some rtt) guess banner) =
      codes ",\n      \"rtt_ms\": "
      ++ (ratio rtt 1_000_000 ++ (guess_text guess ++ banner_text banner))
  fields_text (udp_open port) = codes ",\n      \"state\": \"open|filtered\"\n"

  unfoldable pub entry_text : Entry → Text
  entry_text e =
      codes "    {\n      \"port\": "
      ++ (decimal (entry_port e) ++ (fields_text e ++ codes "    }"))

  -- The entries behind the first, with `first` false.
  unfoldable pub more_text : List Entry → Text
  unfolding entry_text
  more_text [] = []
  more_text (e ∷ es) = codes ",\n" ++ (entry_text e ++ more_text es)

  unfoldable pub entries_text : List Entry → Text
  unfolding entry_text more_text
  entries_text [] = []
  entries_text (e ∷ es) = entry_text e ++ more_text es

  unfoldable pub json_text : Text → List Entry → Text
  unfolding entries_text
  json_text target_str es =
      codes "{\n  \"target\": \""
      ++ (target_str
          ++ (codes "\",\n  \"open_ports\": [\n" ++ (entries_text es ++ codes "\n  ]\n}\n")))
