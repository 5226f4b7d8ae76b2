-- ===== src/Pscan/Printed.antt =====
-- That `pscan_run` of src/pscan.c prints JSON, for the state that the scan leaves.
use knetutils.Base.{ℕ, zero, suc, ◌+◌, ◌-◌, ◌≤◌, ◌<◌}
use knetutils.Base.{◌≡◌, refl, arith}
use knetutils.Base.{Bool, true, false, not, ◌&&◌, ◌||◌, Option, none, some, List, [], ◌∷◌, ◌++◌}
use knetutils.Base.{ltb, if◌then◌else◌}
use knetutils.Base.{get_or}
use knetutils.Base.{Text, codes}
use mathlib.Core.List.{append_assoc, append-nil}
use knetutils.Pscan.State.{Config, State}
use knetutils.Pscan.Report.{
  Entry, tcp_open, udp_open, json_entry, add_entry, entries, ports_from, json_report, non_empty,
  json_report_total,
}
use knetutils.Pscan.Json.{entries_text, json_text}
use knetutils.Pscan.Grammar.{
  is_plain, is_space, checked, All, quoted, IsNumber, value, members, IsJson, string, object,
  spaced, member, more_members,
}
use knetutils.Pscan.Valid.{IsPlain, IsFit, AllFit, array-IsJson}

json_text-IsJson :
    (ratio : ℕ → ℕ → Text) (target : Text) (es : List Entry)
    → ((n : ℕ) → IsNumber (ratio n 1_000_000))
    → All is_plain target
    → AllFit es
    → IsJson value (json_text ratio target es)
unfolding json_text
json_text-IsJson ratio target es numbers plain fit =
    let named = codes "\n  \"target\": " ++ quoted target in
    let listed = codes "[\n" ++ (entries_text ratio es ++ codes "\n  ]") in
    let ports = codes "\n  \"open_ports\": " ++ listed in
    let jn =
      member (codes "\n  ") (codes "target") (codes " " ++ quoted target) named
        (checked is_space (codes "\n  ") refl) (checked is_plain (codes "target") refl)
        (spaced value (codes " ") (quoted target) [] _ (checked is_space (codes " ") refl)
          (string target (quoted target) plain refl) tt (simp append-nil refl))
        refl in
    let jp =
      member (codes "\n  ") (codes "open_ports") (codes " " ++ listed) ports
        (checked is_space (codes "\n  ") refl) (checked is_plain (codes "open_ports") refl)
        (spaced value (codes " ") listed [] _ (checked is_space (codes " ") refl)
          (array-IsJson ratio numbers es fit) tt (simp append-nil refl))
        refl in
    let both = more_members named ports (named ++ (b',' ∷ ports)) jn jp refl in
    let inner =
      spaced members [] (named ++ (b',' ∷ ports)) (codes "\n") _ tt both
        (checked is_space (codes "\n") refl) refl in
    let whole =
      object ((named ++ (b',' ∷ ports)) ++ codes "\n")
        (b'{' ∷ (((named ++ (b',' ∷ ports)) ++ codes "\n") ++ (b'}' ∷ []))) inner refl in
    spaced value [] _ (codes "\n") _ tt whole (checked is_space (codes "\n") refl)
      (simp append_assoc refl)

-- The texts of a state need no escape: a banner can hold a quote, and is then printed as it is.
pub record HasPlainTexts (st : State) : Type 0 where
  pub target : All is_plain st.target_str
  pub guesses : (idx : ℕ) → All is_plain (get_or st.os_guesses idx [])
  pub banners : (idx : ℕ) → All is_plain (get_or st.banners idx [])

unfoldable FitEntry : Option Entry → Type 0
FitEntry none = Unit
FitEntry (some e) = IsFit e

chosen-IsPlain :
    (test : Bool) (text : Text) → All is_plain text → IsPlain (if test then some text else none)
chosen-IsPlain true text plain = plain
chosen-IsPlain false text plain = tt

chosen-FitEntry :
    (test : Bool) (e e' : Option Entry)
    → FitEntry e
    → FitEntry e'
    → FitEntry (if test then e else e')
chosen-FitEntry true e e' fit fit' = fit
chosen-FitEntry false e e' fit fit' = fit'

json_entry-FitEntry :
    (config : Config) (st : State) (port : ℕ)
    → HasPlainTexts st
    → 1 ≤ port
    → port < 65536
    → FitEntry (json_entry config st port)
unfolding json_entry FitEntry
json_entry-FitEntry config st port plain low high =
    let idx = port - config.start_port in
    let guess = get_or st.os_guesses idx [] in
    let banner = get_or st.banners idx [] in
    let shown_guess = if config.os_fingerprint && non_empty guess then some guess else none in
    let shown_banner = if config.banner_grab && non_empty banner then some banner else none in
    let rtt = get_or st.open_rtt idx 0 in
    let timed = tcp_open port (some rtt) shown_guess shown_banner in
    let timed_fit : IsFit timed = (
      low,
      high,
      (
        chosen-IsPlain (config.os_fingerprint && non_empty guess) guess (plain.guesses idx),
        chosen-IsPlain (config.banner_grab && non_empty banner) banner (plain.banners idx),
      ),
    ) in
    let bare = if config.udp then some (udp_open port) else some (tcp_open port none none none) in
    let bare_fit : FitEntry bare =
      chosen-FitEntry config.udp (some (udp_open port)) (some (tcp_open port none none none))
        (low, high, tt) (low, high, (tt, tt)) in
    chosen-FitEntry
      (get_or st.open_ports idx false || (config.udp && not (get_or st.closed_ports idx false)))
      (if not config.udp && ltb 0 rtt then some timed else bare) none
      (chosen-FitEntry (not config.udp && ltb 0 rtt) (some timed) bare timed_fit bare_fit) tt

add_entry-AllFit :
    (e : Option Entry) (es : List Entry) → FitEntry e → AllFit es → AllFit (add_entry e es)
unfolding add_entry FitEntry
add_entry-AllFit none es here fit = fit
add_entry-AllFit (some e) es here fit = (here, fit)

entries-AllFit :
    (config : Config) (st : State) (port n : ℕ)
    → HasPlainTexts st
    → 1 ≤ port
    → port + n ≤ 65536
    → AllFit (entries config st (ports_from port n))
unfolding entries
entries-AllFit config st port zero plain low high = tt
entries-AllFit config st port (suc n) plain low high =
    add_entry-AllFit (json_entry config st port) (entries config st (ports_from (port + 1) n))
      (json_entry-FitEntry config st port plain low (omega arith))
      (entries-AllFit config st (port + 1) n plain (omega arith) (omega arith))

-- For a range of ports that is not empty and ends below 65535, when printf shows a quotient as a number, and
-- the name of the target, the guesses and the banners are printable ASCII with no quote or backslash: the
-- loop of the report ends, and what it prints is JSON.
pub json_report-IsJson :
    (ratio : ℕ → ℕ → Text) (config : Config) (st : State)
    → ((n : ℕ) → IsNumber (ratio n 1_000_000))
    → HasPlainTexts st
    → 1 ≤ config.start_port
    → config.start_port ≤ config.end_port
    → config.end_port < 65535
    → (es : List Entry) × (json_report (config.end_port + 2 - config.start_port) config st
        ≡ some es)
      × IsJson value (json_text ratio st.target_str es)
json_report-IsJson ratio config st numbers plain low order high =
    let n : ℕ = config.end_port + 1 - config.start_port in
    let fit = entries-AllFit config st config.start_port n plain low (omega arith) in
    (
      entries config st (ports_from config.start_port n),
      json_report_total config st order high,
      json_text-IsJson ratio st.target_str (entries config st (ports_from config.start_port n))
          numbers plain.target fit,
    )
