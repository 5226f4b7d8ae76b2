-- ===== src/Traceroute/Print.antt =====
-- What src/traceroute.c prints of the hops: `print_hop_info` and the loop over the probes at the end of
-- a hop. `names` is what getnameinfo gives for an address, in numbers and, if there is one, the name;
-- `ratio` is how printf shows a quotient.
use knetutils.Base.{ℕ, zero, suc, ◌+◌}
use knetutils.Base.{not, ◌&&◌, Option, none, List, [], ◌∷◌, ◌++◌}
use knetutils.Base.{leb, if◌then◌else◌}
use knetutils.Base.{u8, replicate}
use knetutils.Base.{Text, same_text}
use knetutils.Utils.{time_diff_ns, format_time}
use knetutils.Traceroute.Probe.{Config, State, init_traceroute_state}
use knetutils.Traceroute.Run.{Probe, Hop, run_hop}

-- What is printed for the probes of a hop: an address, with the name of its host or without one, a time,
-- or a star.
pub data Piece : Type 0 where
  host : Text → Option Text → Piece
  time : Text → Piece
  star : Piece

-- The line of a hop.
pub record Line : Type 0 where
  pub ttl : ℕ
  pub pieces : List Piece

-- The bytes of `last_hop_addr` that stand for no address.
abbrev pub no_addr : List ℕ
no_addr = replicate 128 0

module _ (names : List ℕ → Text × Option Text) (ratio : ℕ → ℕ → Text) (config : Config) where
  abbrev pub name_of : List ℕ → Option Text
  name_of src = if config.resolve_hostnames then (names src).1 else none

  -- `print_hop_info`: what it prints and `st->last_hop_addr` behind it.
  unfoldable pub print_hop_info : List ℕ → List ℕ → List Piece × List ℕ
  print_hop_info last src =
      if same_text last src then ([], last) else (host (names src).0 (name_of src) ∷ [], src)

  abbrev pub time_of : Probe → Text
  time_of p = format_time ratio (time_diff_ns p.send_time p.recv_time) none 64

  -- The body of the loop over the probes.
  unfoldable pub print_probe : List ℕ → Probe → List Piece × List ℕ
  unfolding print_hop_info
  print_probe last p =
      let (pieces, last') = print_hop_info last p.src_addr in
      if p.sent_ok && p.received
      then (pieces ++ (time (time_of p) ∷ []), last')
      else (star ∷ [], last)

  -- `left` probes from `probe` on: what is printed, and `last_hop_addr` behind it.
  unfoldable pub print_probes : (ℕ → Probe) → ℕ → ℕ → List ℕ → List Piece × List ℕ
  print_probes probes zero probe last = ([], last)
  print_probes probes (suc left) probe last =
      let (pieces, last') = print_probe last (probes probe) in
      let (more, last'') = print_probes probes left (probe + 1) last' in (pieces ++ more, last'')

  -- The line of a hop, and the state behind it.
  unfoldable pub print_hop : State → ℕ → (ℕ → Probe) → Line × State
  print_hop st ttl probes =
      let (pieces, last) = print_probes probes config.queries 0 st.last_hop_addr in
      (record { ttl = ttl; pieces = pieces }, record st { last_hop_addr = last })

  -- The lines of the loop over `ttl`: that of a hop is printed at the hop's end.
  unfoldable pub print_hops : State → ℕ → List Hop → List Line
  unfolding print_hop
  print_hops st ttl [] = []
  print_hops st ttl (hop ∷ hops) =
      let (st', probes) = run_hop config st ttl hop in
      let (line, st'') = print_hop st' ttl probes in
      let rest = print_hops st'' (u8 (ttl + 1)) hops in
      if leb ttl config.max_ttl && (hop.running && not st.target_reached) then line ∷ rest else []

  -- The lines of a run, behind its heading.
  unfoldable pub traceroute_run : ℕ → List Hop → List Line
  unfolding print_hops
  traceroute_run pid hops = print_hops (init_traceroute_state config pid) config.first_ttl hops
