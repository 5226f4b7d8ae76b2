-- ===== src/Sniff/Dump.antt =====
-- Reading the hex dump of src/sniff.c back.
use knetutils.Base.{ℕ, zero, suc, ◌+◌, ◌-◌, ◌*◌, ◌/◌, ◌%◌, ◌≤◌, ◌<◌}
use knetutils.Base.{◌≡◌, refl, ap, ap₂, ◌∙◌, arith}
use knetutils.Base.{false, List, [], ◌∷◌, ◌++◌}
use knetutils.Base.{leb, ◌==◌, if◌then◌else◌}
use knetutils.Base.{length, take, drop}
use knetutils.Base.{IsBytes}
use knetutils.Base.{Text, codes}
use mathlib.Core.List.{append_assoc}
use knetutils.Utils.{hex_two, hex_digit}
use knetutils.Sniff.Packet.{Row, print_hex_dump, row_bytes, row_bytes-print_hex_dump}
use knetutils.Sniff.Print.{hex_columns, shown_chars, print_hex_dump_line, dump_text}

abbrev pub digit_value : ℕ → ℕ
digit_value c = if leb c b'9' then c - b'0' else c - b'a' + 10

-- The bytes of the columns up to the first blank one, and what stands behind the columns.
abbrev pub read_columns : ℕ → Text → List ℕ × Text
read_columns zero text = ([], text)
read_columns (suc left) [] = ([], [])
read_columns (suc left) (a ∷ []) = ([], [])
read_columns (suc left) (a ∷ (b ∷ [])) = ([], [])
read_columns (suc left) (a ∷ (b ∷ (c ∷ text))) =
    let (bytes, rest) = read_columns left text in
    if a == b' ' then ([], rest) else ((digit_value a * 16 + digit_value b) ∷ bytes, rest)

-- The bytes of all rows: behind the offset, the columns, and behind the bar as many characters.
unfoldable pub read_dump : ℕ → Text → List ℕ
read_dump zero text = []
read_dump (suc fuel) [] = []
read_dump (suc fuel) (c ∷ text) =
    let (bytes, rest) = read_columns 16 (drop 16 text) in
    bytes ++ read_dump fuel (drop (13 + length bytes) rest)

blank_columns :
    (left : ℕ) (rest : Text) → read_columns left (hex_columns left [] ++ rest) ≡ ([], rest)
unfolding hex_columns
blank_columns zero rest = refl
blank_columns (suc left) rest = ap (λ r. ([], r.1)) (blank_columns left rest)

digit_back : (d : ℕ) → d < 16 → (digit_value (hex_digit d) ≡ d) × ((hex_digit d == b' ') ≡ false)
digit_back d h = (ground arith, ground arith)

read_columns-hex_columns :
    (left : ℕ) (bytes : List ℕ) (rest : Text)
    → IsBytes bytes
    → read_columns left (hex_columns left bytes ++ rest) ≡ (take left bytes, rest)
unfolding hex_columns hex_two
read_columns-hex_columns zero bytes rest small = refl
read_columns-hex_columns (suc left) [] rest small = blank_columns (suc left) rest
read_columns-hex_columns (suc left) (b ∷ bytes) rest (small, others) =
    let high = digit_back (b / 16) (omega arith) in
    let low = digit_back (b % 16) (omega arith) in
    let whole : digit_value (hex_digit (b / 16)) * 16 + digit_value (hex_digit (b % 16)) ≡ b =
      omega (arith, high.0, low.0) in
    rw (high.1)
      (ap₂ (λ x r. (x ∷ r.0, r.1)) whole (read_columns-hex_columns left bytes rest others))

drop-shown_chars :
    (bytes : List ℕ) (rest : Text)
    → drop (suc (length bytes)) (shown_chars bytes ++ (b'\n' ∷ rest)) ≡ rest
drop-shown_chars [] rest = refl
drop-shown_chars (b ∷ bytes) rest = drop-shown_chars bytes rest

-- Rows of at most 16 bytes.
abbrev pub AreRows : List Row → Type 0
AreRows [] = Unit
AreRows ((i, bytes) ∷ rows) = IsBytes bytes × (length bytes ≤ 16) × AreRows rows

take-whole : (k : ℕ) (bytes : List ℕ) → length bytes ≤ k → take k bytes ≡ bytes
take-whole zero [] h = refl
take-whole zero (b ∷ bytes) h = absurd (omega arith)
take-whole (suc k) [] h = refl
take-whole (suc k) (b ∷ bytes) h = ap (λ t. b ∷ t) (take-whole k bytes (omega arith))

read_dump-dump_text :
    (fuel : ℕ) (rows : List Row)
    → AreRows rows
    → length rows ≤ fuel
    → read_dump fuel (dump_text rows) ≡ row_bytes rows
unfolding read_dump dump_text print_hex_dump_line hex_two
read_dump-dump_text zero [] small enough = refl
read_dump-dump_text zero (row ∷ rows) small enough = absurd (omega arith)
read_dump-dump_text (suc fuel) [] small enough = refl
read_dump-dump_text (suc fuel) ((i, bytes) ∷ rows) (small, short, others) enough =
    let behind =
      codes " \u{1b}[90m|\u{1b}[0m " ++ (shown_chars bytes ++ (codes "\n" ++ dump_text rows)) in
    let columns =
      read_columns-hex_columns 16 bytes behind small
      ∙ ap (λ b. (b, behind)) (take-whole 16 bytes short) in
    let line : print_hex_dump_line bytes ++ dump_text rows ≡ hex_columns 16 bytes ++ behind =
      simp append_assoc refl in
    let cells : read_columns 16 (print_hex_dump_line bytes ++ dump_text rows) ≡ (bytes, behind) =
      ap (read_columns 16) line ∙ columns in
    let count : 13 + length bytes
        ≡ suc
            (suc (suc (suc (suc (suc (suc (suc (suc (suc (suc (suc (suc (length bytes))))))))))))) =
      omega arith in
    let next : drop (13 + length bytes) behind ≡ dump_text rows =
      ap (λ n. drop n behind) count ∙ drop-shown_chars bytes (dump_text rows) in
    rw (cells, next) (ap (λ t. bytes ++ t) (read_dump-dump_text fuel rows others (omega arith)))

IsBytes-split :
    (k : ℕ) (bytes : List ℕ) → IsBytes bytes → IsBytes (take k bytes) × IsBytes (drop k bytes)
IsBytes-split zero bytes small = (tt, small)
IsBytes-split (suc k) [] small = (tt, tt)
IsBytes-split (suc k) (b ∷ bytes) (low, small) =
    let (front, back) = IsBytes-split k bytes small in ((low, front), back)

length-take-le : (k : ℕ) (bytes : List ℕ) → length (take k bytes) ≤ k
length-take-le zero bytes = omega arith
length-take-le (suc k) [] = omega arith
length-take-le (suc k) (b ∷ bytes) = omega (arith, length-take-le k bytes)

rows-AreRows :
    (fuel i : ℕ) (bytes : List ℕ)
    → IsBytes bytes
    → AreRows (print_hex_dump fuel i bytes) × (length (print_hex_dump fuel i bytes) ≤ fuel)
unfolding print_hex_dump
rows-AreRows zero i bytes small = (tt, omega arith)
rows-AreRows (suc fuel) i [] small = (tt, omega arith)
rows-AreRows (suc fuel) i (b ∷ bytes) small =
    let (front, back) = IsBytes-split 16 (b ∷ bytes) small in
    let (rows, few) = rows-AreRows fuel (i + 16) (drop 16 (b ∷ bytes)) back in
    ((front, length-take-le 16 (b ∷ bytes), rows), omega (arith, few))

-- With one round for each byte the hex dump ends, and the text that is printed, read back column by
-- column, gives the bytes dumped.
pub read_dump-print_hex_dump :
    (fuel i : ℕ) (bytes : List ℕ)
    → IsBytes bytes
    → length bytes ≤ fuel
    → read_dump fuel (dump_text (print_hex_dump fuel i bytes)) ≡ bytes
read_dump-print_hex_dump fuel i bytes small enough =
    let (rows, few) = rows-AreRows fuel i bytes small in
    read_dump-dump_text fuel (print_hex_dump fuel i bytes) rows few
    ∙ row_bytes-print_hex_dump fuel i bytes enough
