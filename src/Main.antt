-- ===== src/Main.antt =====
-- src/main.c: which tool a command line runs, and its usage text. Where it is printed is left out.
use knetutils.Base.{ℕ}
use knetutils.Base.{◌≡◌, refl, ◌≢◌, inl, inr, arith}
use knetutils.Base.{false, ◌||◌, Option, none, some, List, [], ◌∷◌, ◌++◌}
use knetutils.Base.{◌==◌, if◌then◌else◌, Bool-cases}
use knetutils.Base.{Text, codes, same_text, same_text_sound}

-- What stands behind the last slash: `strrchr (path, '/')`.
behind_slash : Text → Option Text
behind_slash [] = none
behind_slash (c ∷ s) = elim (behind_slash s) [
  | some t ↦ some t
  | none ↦ if c == b'/' then some s else none
]

unfoldable pub get_basename : Text → Text
unfolding behind_slash
get_basename path = elim (behind_slash path) [ some base ↦ base | none ↦ path ]

pub data Tool : Type 0 where
  arping ping sniff tcping traceroute pscan : Tool

-- The comparisons of the program's name with those of the tools.
unfoldable tool_linked : Text → Option Tool
unfolding same_text
tool_linked prog_name =
    if same_text prog_name (codes "arping")
    then some arping
    else if same_text prog_name (codes "ping")
    then some ping
    else if same_text prog_name (codes "sniff")
    then some sniff
    else if same_text prog_name (codes "tcping")
    then some tcping
    else if same_text prog_name (codes "traceroute")
    then some traceroute
    else if same_text prog_name (codes "pscan")
    then some pscan
    else none

-- The comparisons of the first argument.
unfoldable tool_named : Text → Option Tool
unfolding same_text
tool_named cmd =
    if same_text cmd (codes "arping")
    then some arping
    else if same_text cmd (codes "ping")
    then some ping
    else if same_text cmd (codes "sniff")
    then some sniff
    else if same_text cmd (codes "tcping")
    then some tcping
    else if same_text cmd (codes "traceroute")
    then some traceroute
    else if same_text cmd (codes "pscan")
    then some pscan
    else none

-- A tool's main with its argument vector, or an exit status (after the usage or an error message).
pub data Action : Type 0 where
  runs : Tool → List Text → Action
  exits : ℕ → Action

unfoldable pub subcommand : List Text → Action
unfolding tool_named
subcommand [] = exits 1
subcommand (cmd ∷ args) = elim (tool_named cmd) [
  | some tool ↦ runs tool (cmd ∷ args)
  | none ↦ if same_text cmd (codes "-h") || same_text cmd (codes "--help") then exits 0 else exits 1
]

unfoldable pub main : List Text → Action
unfolding tool_linked
main [] = exits 1
main (path ∷ args) = elim (tool_linked (get_basename path)) [
  | some tool ↦ runs tool (path ∷ args)
  | none ↦ subcommand args
]

unfoldable pub print_main_usage : Text
print_main_usage =
    codes "knetutils - a collection of network utilities\n\n"
    ++ (codes "Usage: knetutils <command> [args]\n\n"
        ++ (codes "Commands:\n"
            ++ (codes "  arping      discover and probe hosts on a local network using ARP\n"
                ++ (codes "  ping        send ICMP ECHO_REQUEST packets to network hosts\n"
                    ++ (codes "  pscan       fast asynchronous TCP SYN and UDP port scanner\n"
                        ++ (codes
                              "  sniff       capture and display packets on a network interface\n"
                            ++ (codes
                                  "  tcping      measure latency to a host using TCP SYN packets\n"
                                ++ (codes
                                      "  traceroute  print the route packets trace to network host\n\n"
                                    ++ codes
                                        "Run 'knetutils <command> -h' for more information on a command.\n"))))))))

abbrev pub NoSlash : Text → Type 0
NoSlash [] = Unit
NoSlash (c ∷ s) = (c ≢ b'/') × NoSlash s

behind_slash-none : (s : Text) → NoSlash s → behind_slash s ≡ none
unfolding behind_slash
behind_slash-none [] h = refl
behind_slash-none (c ∷ s) h = rw (behind_slash-none s h.1) (ground arith)

behind_slash-append :
    (dir name : Text) → NoSlash name → behind_slash (dir ++ (b'/' ∷ name)) ≡ some name
unfolding behind_slash
behind_slash-append [] name h = rw (behind_slash-none name h) refl
behind_slash-append (c ∷ dir) name h = rw (behind_slash-append dir name h) refl

pub basename-append : (dir name : Text) → NoSlash name → get_basename (dir ++ (b'/' ∷ name)) ≡ name
unfolding get_basename
basename-append dir name h = rw (behind_slash-append dir name h, get_basename) refl

-- The name that each tool goes by.
unfoldable pub tool_name : Tool → Text
tool_name arping = codes "arping"
tool_name ping = codes "ping"
tool_name sniff = codes "sniff"
tool_name tcping = codes "tcping"
tool_name traceroute = codes "traceroute"
tool_name pscan = codes "pscan"

tool_linked-tool_name : (tool : Tool) → tool_linked (tool_name tool) ≡ some tool
unfolding tool_linked tool_name same_text
tool_linked-tool_name arping = refl
tool_linked-tool_name ping = refl
tool_linked-tool_name sniff = refl
tool_linked-tool_name tcping = refl
tool_linked-tool_name traceroute = refl
tool_linked-tool_name pscan = refl

tool_named-tool_name : (tool : Tool) → tool_named (tool_name tool) ≡ some tool
unfolding tool_named tool_name same_text
tool_named-tool_name arping = refl
tool_named-tool_name ping = refl
tool_named-tool_name sniff = refl
tool_named-tool_name tcping = refl
tool_named-tool_name traceroute = refl
tool_named-tool_name pscan = refl

tool_name-NoSlash : (tool : Tool) → NoSlash (tool_name tool)
unfolding tool_name
tool_name-NoSlash arping = ground arith
tool_name-NoSlash ping = ground arith
tool_name-NoSlash sniff = ground arith
tool_name-NoSlash tcping = ground arith
tool_name-NoSlash traceroute = ground arith
tool_name-NoSlash pscan = ground arith

differs : (s t : Text) → s ≢ t → same_text s t ≡ false
differs s t ne = elim (Bool-cases (same_text s t)) [
  | inl e ↦ absurd (ne (same_text_sound s t e))
  | inr e ↦ e
]

-- No tool goes by that name.
abbrev pub IsOther : Text → Type 0
IsOther name = (tool : Tool) → name ≢ tool_name tool

tool_linked-none : (name : Text) → IsOther name → tool_linked name ≡ none
unfolding tool_linked tool_name
tool_linked-none name other =
    rw
      (
        differs name (codes "arping") (other arping),
        differs name (codes "ping") (other ping),
        differs name (codes "sniff") (other sniff),
        differs name (codes "tcping") (other tcping),
        differs name (codes "traceroute") (other traceroute),
        differs name (codes "pscan") (other pscan),
      )
      refl

tool_named-none : (name : Text) → IsOther name → tool_named name ≡ none
unfolding tool_named tool_name
tool_named-none name other =
    rw
      (
        differs name (codes "arping") (other arping),
        differs name (codes "ping") (other ping),
        differs name (codes "sniff") (other sniff),
        differs name (codes "tcping") (other tcping),
        differs name (codes "traceroute") (other traceroute),
        differs name (codes "pscan") (other pscan),
      )
      refl

-- Every tool runs, with the argument vector that begins at its name, when the program is called by the
-- tool's name in any directory, and when its first argument is that name and the program is not named
-- like a tool. A program not named like a tool, with a first argument that names no tool either, runs none.
pub main_multicall :
    (dir prog cmd : Text) (args : List Text)
    → IsOther (get_basename prog)
    → IsOther cmd
    → ((tool : Tool)
        → (main ((dir ++ (b'/' ∷ tool_name tool)) ∷ args)
            ≡ runs tool ((dir ++ (b'/' ∷ tool_name tool)) ∷ args))
          × (main (prog ∷ tool_name tool ∷ args) ≡ runs tool (tool_name tool ∷ args)))
      × ((status : ℕ) × (main (prog ∷ cmd ∷ args) ≡ exits status))
unfolding main subcommand
main_multicall dir prog cmd args p c =
    let linked = tool_linked-none (get_basename prog) p in
    (
      λ tool. (
        rw
            (
              main,
              basename-append dir (tool_name tool) (tool_name-NoSlash tool),
              tool_linked-tool_name tool,
            )
            refl,
        rw (main, linked, subcommand, tool_named-tool_name tool) refl,
      ),
      elim (Bool-cases (same_text cmd (codes "-h") || same_text cmd (codes "--help"))) [
        | inl h ↦ (0, rw (main, linked, subcommand, tool_named-none cmd c, h) refl)
        | inr h ↦ (1, rw (main, linked, subcommand, tool_named-none cmd c, h) refl)
      ],
    )
