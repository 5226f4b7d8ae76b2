-- ===== src/Pscan/Valid.antt =====
-- That the JSON report of src/pscan.c is JSON.
use knetutils.Base.{ℕ, zero, suc, ◌+◌, ◌/◌, ◌%◌, ◌≤◌, ◌<◌}
use knetutils.Base.{◌≡◌, refl, ap, ◌⊎◌, inl, inr, arith}
use knetutils.Base.{true, Option, none, some, List, [], ◌∷◌, ◌++◌}
use knetutils.Base.{ltb, Bool-cases}
use knetutils.Base.{Text, codes}
use mathlib.Core.Path.{subst}
use mathlib.Core.List.{append_assoc, append-nil}
use knetutils.Utils.{decimal, decimal_digits}
use knetutils.Pscan.Report.{Entry, tcp_open, udp_open}
use knetutils.Pscan.Json.{
  guess_text, banner_text, fields_text, entry_port, entry_text, more_text, entries_text,
}
use knetutils.Pscan.Grammar.{
  is_plain, is_space, checked, is_digit, All, quoted, IsWhole, digits, IsNumber, integer, value,
  members, elements, IsJson, number, string, object, array, empty_array, spaced, member,
  more_members, element, more_elements,
}

-- `rounds` divisions by ten make the number less than ten.
abbrev Enough : ℕ → ℕ → Type 0
Enough zero n = ⊥
Enough (suc rounds) n = (n < 10) ⊎ Enough rounds (n / 10)

decimal_digits-IsWhole :
    (rounds n : ℕ) (out : Text)
    → Enough rounds n
    → 1 ≤ n
    → All is_digit out
    → IsWhole (decimal_digits rounds n out)
unfolding decimal_digits
decimal_digits-IsWhole zero n out enough pos all = absurd enough
decimal_digits-IsWhole (suc rounds) n out (inl small) pos all =
    let here : ltb n 10 ≡ true = ground (arith, small) in
    rw here
      (digits (b'0' + n) out ((b'0' + n) ∷ out) (ground (arith, small)) (omega arith) all refl)
decimal_digits-IsWhole (suc rounds) n out (inr more) pos all = elim (Bool-cases (ltb n 10)) [
  | inl small ↦
      rw small
        (digits (b'0' + n) out ((b'0' + n) ∷ out) (ground (arith, small)) (omega arith) all refl)
  | inr large ↦ rw large (
      decimal_digits-IsWhole rounds (n / 10) ((b'0' + n % 10) ∷ out) more (ground (arith, large))
        (ground arith, all))
]

decimal-IsWhole : (n : ℕ) → 1 ≤ n → n < 65536 → IsWhole (decimal n)
unfolding decimal
decimal-IsWhole n pos small =
    let five : n / 10 / 10 / 10 / 10 < 10 = omega arith in
    decimal_digits-IsWhole 20 n [] (inr (inr (inr (inr (inl five))))) pos tt

-- What may follow the members of an object.
abbrev Follows : Text → Type 0
Follows rest = (m : Text) → IsJson members m → IsJson members (m ++ rest)

ending : (s : Text) → All is_space s → Follows s
ending s blank m j = spaced members [] m s (m ++ s) tt j blank refl

-- A further member, on a line of its own.
further :
    (key v rest : Text)
    → All is_plain key
    → IsJson value v
    → Follows rest
    → Follows (codes ",\n      " ++ (quoted key ++ (codes ": " ++ (v ++ rest))))
further key v rest plain jv more m j =
    let one = codes "\n      " ++ (quoted key ++ (b':' ∷ (codes " " ++ v))) in
    let next =
      member (codes "\n      ") key (codes " " ++ v) one (checked is_space (codes "\n      ") refl)
        plain
        (spaced value (codes " ") v [] (codes " " ++ v) (refl, tt) jv tt
          (ap (λ t. b' ' ∷ t) (simp append-nil refl)))
        refl in
    let both = more_members m one (m ++ (b',' ∷ one)) j next refl in
    subst (IsJson members) (simp append_assoc refl) (more (m ++ (b',' ∷ one)) both)

-- What an entry needs, so that its text is JSON.
abbrev pub IsPlain : Option Text → Type 0
IsPlain none = Unit
IsPlain (some text) = All is_plain text

abbrev pub HasPlain : Entry → Type 0
HasPlain (tcp_open port rtt guess banner) = IsPlain guess × IsPlain banner
HasPlain (udp_open port) = Unit

abbrev pub IsFit : Entry → Type 0
IsFit e = (1 ≤ entry_port e) × (entry_port e < 65536) × HasPlain e

abbrev pub AllFit : List Entry → Type 0
AllFit [] = Unit
AllFit (e ∷ es) = IsFit e × AllFit es

module _ (ratio : ℕ → ℕ → Text) (numbers : (n : ℕ) → IsNumber (ratio n 1_000_000)) where
  closing : Follows (codes "\n    ")
  closing = ending (codes "\n    ") (checked is_space (codes "\n    ") refl)

  banner-Follows :
      (banner : Option Text) → IsPlain banner → Follows (banner_text ratio banner ++ codes "    ")
  banner-Follows none plain = closing
  banner-Follows (some banner) plain =
      let more =
        further (codes "banner") (quoted banner) (codes "\n    ")
          (checked is_plain (codes "banner") refl) (string banner (quoted banner) plain refl)
          closing in
      subst Follows (simp append_assoc refl) more

  guess-Follows :
      (guess banner : Option Text)
      → IsPlain guess
      → IsPlain banner
      → Follows (guess_text ratio guess ++ (banner_text ratio banner ++ codes "    "))
  guess-Follows none banner plain plain' = banner-Follows banner plain'
  guess-Follows (some guess) banner plain plain' =
      let more =
        further (codes "os_guess") (quoted guess) (banner_text ratio banner ++ codes "    ")
          (checked is_plain (codes "os_guess") refl) (string guess (quoted guess) plain refl)
          (banner-Follows banner plain') in
      subst Follows (simp append_assoc refl) more

  fields-Follows : (e : Entry) → HasPlain e → Follows (fields_text ratio e ++ codes "    ")
  fields-Follows (tcp_open port none guess banner) fit = closing
  fields-Follows (tcp_open port (some rtt) guess banner) (plain, plain') =
      let more =
        further (codes "rtt_ms") (ratio rtt 1_000_000)
          (guess_text ratio guess ++ (banner_text ratio banner ++ codes "    "))
          (checked is_plain (codes "rtt_ms") refl) (number (ratio rtt 1_000_000) (numbers rtt))
          (guess-Follows guess banner plain plain') in
      subst Follows (simp append_assoc refl) more
  fields-Follows (udp_open port) fit =
      further (codes "state") (codes "\"open|filtered\"") (codes "\n    ")
        (checked is_plain (codes "state") refl)
        (string (codes "open|filtered") (codes "\"open|filtered\"")
          (checked is_plain (codes "open|filtered") refl) refl)
        closing

  entry_text-IsJson : (e : Entry) → IsFit e → IsJson value (entry_text ratio e)
  unfolding entry_text
  entry_text-IsJson e (low, high, plain) =
      let port = decimal (entry_port e) in
      let first = codes "\n      \"port\": " ++ port in
      let jp =
        member (codes "\n      ") (codes "port") (codes " " ++ port) first
          (checked is_space (codes "\n      ") refl) (checked is_plain (codes "port") refl)
          (spaced value (codes " ") port [] (codes " " ++ port) (checked is_space (codes " ") refl)
            (number port (integer port (decimal-IsWhole (entry_port e) low high))) tt
            (simp append-nil refl))
          refl in
      let rest = fields_text ratio e ++ codes "    " in
      let whole = b'{' ∷ ((first ++ rest) ++ (b'}' ∷ [])) in
      let j = object (first ++ rest) whole (fields-Follows e plain first jp) refl in
      spaced value (codes "    ") whole [] _ (checked is_space (codes "    ") refl) j tt
        (simp (append_assoc, append-nil) refl)

  more_text-IsJson :
      (es : List Entry)
      → AllFit es
      → (m : Text) → IsJson elements m
      → IsJson elements (m ++ more_text ratio es)
  unfolding more_text
  more_text-IsJson [] fit m j = subst (IsJson elements) (simp append-nil refl) j
  more_text-IsJson (e ∷ es) (here, fit) m j =
      let next = codes "\n" ++ entry_text ratio e in
      let jn =
        spaced elements (codes "\n") (entry_text ratio e) [] next
          (checked is_space (codes "\n") refl)
          (element (entry_text ratio e) (entry_text-IsJson e here)) tt (simp append-nil refl) in
      let both = more_elements m next (m ++ (b',' ∷ next)) j jn refl in
      subst (IsJson elements) (simp append_assoc refl)
        (more_text-IsJson es fit (m ++ (b',' ∷ next)) both)

  pub array-IsJson :
      (es : List Entry)
      → AllFit es
      → IsJson value (codes "[\n" ++ (entries_text ratio es ++ codes "\n  ]"))
  unfolding entries_text
  array-IsJson [] fit = empty_array (codes "\n\n  ") _ (checked is_space (codes "\n\n  ") refl) refl
  array-IsJson (e ∷ es) (here, fit) =
      let text = entry_text ratio e ++ more_text ratio es in
      let j =
        more_text-IsJson es fit (entry_text ratio e)
          (element (entry_text ratio e) (entry_text-IsJson e here)) in
      let inner =
        spaced elements (codes "\n") text (codes "\n  ") (codes "\n" ++ (text ++ codes "\n  "))
          (checked is_space (codes "\n") refl) j (checked is_space (codes "\n  ") refl) refl in
      array (codes "\n" ++ (text ++ codes "\n  ")) _ inner (simp append_assoc refl)
