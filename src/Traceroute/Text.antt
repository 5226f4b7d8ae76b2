-- ===== src/Traceroute/Text.antt =====
-- The text that src/traceroute.c prints for its lines.
use knetutils.Base.{none, some, List, [], ◌∷◌, ◌++◌}
use knetutils.Base.{ltb, if◌then◌else◌}
use knetutils.Base.{Text, codes}
use knetutils.Utils.{decimal}
use knetutils.Traceroute.Probe.{Config}
use knetutils.Traceroute.Print.{Piece, host, time, star, Line}

unfoldable pub piece_text : Piece → Text
piece_text (host ip none) = ip ++ codes "  "
piece_text (host ip (some name)) = name ++ (codes " (" ++ (ip ++ codes ")  "))
piece_text (time text) = text ++ codes "  "
piece_text star = codes "* "

abbrev pub pieces_text : List Piece → Text
pieces_text [] = []
pieces_text (piece ∷ pieces) = piece_text piece ++ pieces_text pieces

-- `%2u`.
unfoldable pub line_text : Line → Text
unfolding piece_text
line_text line =
    let number = if ltb line.ttl 10 then b' ' ∷ decimal line.ttl else decimal line.ttl in
    number ++ (codes "  " ++ (pieces_text line.pieces ++ codes "\n"))

unfoldable pub print_heading : Config → Text → Text
print_heading config target_str =
    codes "traceroute to "
    ++ (target_str ++ (codes ", " ++ (decimal config.max_ttl ++ codes " hops max\n")))
