-- ===== src/Traceroute/Read.antt =====
-- What a reader learns from the lines of src/traceroute.c.
use knetutils.Base.{ℕ, zero, suc, ◌+◌, ◌-◌}
use knetutils.Base.{◌≡◌, refl, sym, ap, ap₂, ◌∙◌, ◌⊎◌, inl, inr, arith}
use knetutils.Base.{true, not, ◌&&◌, Option, none, some, List, [], ◌∷◌, map}
use knetutils.Base.{leb, if◌then◌else◌, Bool-cases}
use knetutils.Base.{u8}
use knetutils.Base.{Text, same_text, same_text_sound}
use knetutils.Traceroute.Probe.{Config, State, init_traceroute_state}
use knetutils.Traceroute.Run.{Probe, Hop, run_hop, traceroute_loop}
use knetutils.Traceroute.Named.{AllKnown, AllNamed, run_hop-AllNamed}
use knetutils.Utils.{time_diff_ns, format_time}
use knetutils.Traceroute.Measured.{AllMeasured, run-AllMeasured}
use knetutils.Traceroute.Cleared.{last_hop_addr-run_hop, traceroute_loop-forgets}
use knetutils.Traceroute.Print.{
  Piece, host, time, star, Line, no_addr, print_hop_info, time_of, print_probe, print_probes,
  print_hop, print_hops, traceroute_run,
}

-- Whom and how fast a probe found, as a reader sees it.
abbrev pub Cell : Type 0
Cell = Option ((Text × Option Text) × Text)

-- A reader takes the last address printed in the line for the one that a time belongs to.
unfoldable pub read_pieces : Option (Text × Option Text) → List Piece → List Cell
read_pieces at [] = []
read_pieces at (star ∷ pieces) = none ∷ read_pieces at pieces
read_pieces none (time t ∷ pieces) = none ∷ read_pieces none pieces
read_pieces (some h) (time t ∷ pieces) = some (h, t) ∷ read_pieces (some h) pieces
read_pieces at (host ip name ∷ pieces) = read_pieces (some (ip, name)) pieces

abbrev pub read_line : Line → ℕ × List Cell
read_line line = (line.ttl, read_pieces none line.pieces)

module _ (names : List ℕ → Text × Option Text) (ratio : ℕ → ℕ → Text) (config : Config) where
  -- The names shown for an address: in numbers, and that of the host if -n is not given and it has one.
  abbrev pub shown_as : List ℕ → Text × Option Text
  shown_as src = ((names src).0, if config.resolve_hostnames then (names src).1 else none)

  -- What became of a probe: from whom the answer came, and how long after the sending.
  abbrev pub seen : Probe → Cell
  seen p =
      if p.sent_ok && p.received
      then some (shown_as p.src_addr, format_time ratio (p.recv_time - p.send_time) none 64)
      else none

  abbrev pub all_seen : (ℕ → Probe) → ℕ → ℕ → List Cell
  all_seen probes zero probe = []
  all_seen probes (suc left) probe = seen (probes probe) ∷ all_seen probes left (probe + 1)

  -- The reader's address is the one that the program printed last.
  abbrev Follows : Option (Text × Option Text) → List ℕ → Type 0
  Follows at last = (last ≡ no_addr) ⊎ (at ≡ some (shown_as last))

  -- The clock may go back between the sending and the answer; then the difference is 0.
  time_of-difference :
      (p : Probe)
      → time_of names ratio config p ≡ format_time ratio (p.recv_time - p.send_time) none 64
  unfolding time_diff_ns
  time_of-difference p =
      let difference : time_diff_ns p.send_time p.recv_time ≡ p.recv_time - p.send_time =
        ground arith in
      ap (λ d. format_time ratio d none 64) difference

  read_probes :
      (probes : ℕ → Probe) (left probe : ℕ) (last : List ℕ) (at : Option (Text × Option Text))
      → AllNamed probes
      → Follows at last
      → read_pieces at (print_probes names ratio config probes left probe last).0
        ≡ all_seen probes left probe
  unfolding read_pieces print_probes print_probe print_hop_info
  read_probes probes zero probe last at named f = refl
  read_probes probes (suc left) probe last at named f =
      let p : Probe = probes probe in
      let printed : Text × Option Text = shown_as p.src_addr in
      let rest = λ (l : List ℕ) (a : Option (Text × Option Text)).
        read_probes probes left (probe + 1) l a named in
      let found = λ (cells : List Cell). some (printed, time_of names ratio config p) ∷ cells in
      let in_time =
        ap (λ t. some (printed, t) ∷ all_seen probes left (probe + 1)) (time_of-difference p) in
      elim (Bool-cases (p.sent_ok && p.received)) [
        | inr e ↦ rw e (ap (λ l. none ∷ l) (rest last at f))
        | inl e ↦ elim (Bool-cases (same_text last p.src_addr)) [
          | inr d ↦ rw (e, d) (ap found (rest p.src_addr (some printed) (inr refl)) ∙ in_time)
          | inl s ↦
              let same = same_text_sound last p.src_addr s in
              let answered : p.received ≡ true = ground (arith, e) in
              elim f [
                | inl z ↦ absurd (named probe answered (sym same ∙ z))
                | inr g ↦
                    let name = λ (a : List ℕ). some (shown_as a) in
                    let here : at ≡ some printed = g ∙ ap name same in
                    rw (e, s, here)
                      (ap found (rest last (some printed) (inr (sym (ap name same)))) ∙ in_time)
              ]
        ]
      ]

  abbrev pub seen_hop : ℕ × (ℕ → Probe) → ℕ × List Cell
  seen_hop (ttl, probes) = (ttl, all_seen probes config.queries 0)

  read_loop :
      (st : State) (ttl : ℕ) (hops : List Hop)
      → AllKnown hops
      → map read_line (print_hops names ratio config st ttl hops)
        ≡ map seen_hop (traceroute_loop config st ttl hops)
  unfolding traceroute_loop print_hops print_hop
  read_loop st ttl [] known = refl
  read_loop st ttl (hop ∷ hops) known =
      let done : State × (ℕ → Probe) = run_hop config st ttl hop in
      let behind : State = (print_hop names ratio config done.0 ttl done.1).1 in
      let rest =
        read_loop behind (u8 (ttl + 1)) hops known.1
        ∙ ap (map seen_hop)
            (traceroute_loop-forgets config done.0 behind.last_hop_addr (u8 (ttl + 1)) hops) in
      let line =
        read_probes done.1 config.queries 0 (done.0.last_hop_addr) none
          (run_hop-AllNamed config st ttl hop known.0)
          (inl (last_hop_addr-run_hop config st ttl hop)) in
      elim (Bool-cases (leb ttl config.max_ttl && (hop.running && not st.target_reached))) [
        | inl e ↦ rw e (ap₂ (λ cells lines. (ttl, cells) ∷ lines) line rest)
        | inr e ↦ rw e refl
      ]

-- The lines of a run, read back, give for each hop that the loop did its number and for each of its probes what
-- became of it: a star for one that was not sent or not answered, else the names of the address that
-- answered and the time it took. Of the probes of each hop: one that counts as sent was taken by the kernel,
-- and its send time is the clock's at the sending; one that counts as answered was sent, its address is the
-- sender of a packet that a round of the hop brought and that is its answer, and its receive time the clock's
-- at the match. A reader takes the address printed last in the line for the one that a time belongs to;
-- the address of every received packet is taken to differ from the 128 zero bytes that stand for none.
pub read-traceroute_run :
    (names : List ℕ → Text × Option Text) (ratio : ℕ → ℕ → Text) (config : Config) (pid : ℕ)
    (hops : List Hop)
    → AllKnown hops
    → (map read_line (traceroute_run names ratio config pid hops)
        ≡ map
            (seen_hop names ratio config)
            (traceroute_loop config (init_traceroute_state config pid) config.first_ttl hops))
      × AllMeasured config (init_traceroute_state config pid) config.first_ttl hops
unfolding traceroute_run
read-traceroute_run names ratio config pid hops known = (
  read_loop names ratio config (init_traceroute_state config pid) config.first_ttl hops known,
  run-AllMeasured config (init_traceroute_state config pid) config.first_ttl hops,
)
