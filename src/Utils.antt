-- ===== src/Utils.antt =====
-- The clock arithmetic and `format_time` of src/base/utils.c. How printf shows a double with three
-- decimals is an argument, `ratio`, of the dividend and the divisor.
use knetutils.Base.{ℕ, zero, suc, ◌+◌, ◌-◌, ◌*◌, ◌/◌, ◌%◌}
use knetutils.Base.{◌||◌, Option, none, some, [], ◌∷◌, ◌++◌}
use knetutils.Base.{◌^◌}
use knetutils.Base.{ltb, if◌then◌else◌}
use knetutils.Base.{take}
use knetutils.Base.{u64}
use knetutils.Base.{Text, codes, same_text}

-- `get_time_ns` of the seconds and nanoseconds that clock_gettime gives.
unfoldable pub get_time_ns : ℕ → ℕ → ℕ
get_time_ns sec nsec = u64 (u64 (sec * 1_000_000_000) + nsec)

unfoldable pub time_diff_ns : ℕ → ℕ → ℕ
time_diff_ns start end = if ltb end start then 0 else end - start

-- `%llu`: the decimal digits, by as many rounds as a u_int64_t has digits.
unfoldable pub decimal_digits : ℕ → ℕ → Text → Text
decimal_digits zero n out = out
decimal_digits (suc rounds) n out =
    let rest = decimal_digits rounds (n / 10) ((b'0' + n % 10) ∷ out) in
    if ltb n 10 then (b'0' + n) ∷ out else rest

unfoldable pub decimal : ℕ → Text
unfolding decimal_digits
decimal n = decimal_digits 20 n []

-- `%d` of a bit pattern.
unfoldable pub decimal_int : ℕ → Text
decimal_int x = if ltb x (2 ^ 31) then decimal x else b'-' ∷ decimal (2 ^ 32 - x)

abbrev pub hex_digit : ℕ → ℕ
hex_digit d = if ltb d 10 then b'0' + d else b'a' + (d - 10)

-- `%02x` of a byte.
unfoldable pub hex_two : ℕ → Text
hex_two b = hex_digit (b / 16) ∷ hex_digit (b % 16) ∷ []

-- The codes of a terminal, of src/include/utils.h.
abbrev pub bold : Text
bold = codes "\u{1b}[1m"

abbrev pub colour : ℕ → Text
colour n = codes "\u{1b}[3" ++ (decimal n ++ codes "m")

abbrev pub colour_reset : Text
colour_reset = codes "\u{1b}[0m"

-- `message` is what `vfprintf` makes of the format and its arguments.
unfoldable pub log_err : Text → Text
log_err message =
    bold ++ (colour 1 ++ (codes "[ERROR] " ++ (colour_reset ++ (message ++ codes "\n"))))

unfoldable pub log_warn : Text → Text
log_warn message =
    bold ++ (colour 3 ++ (codes "[WARN] " ++ (colour_reset ++ (message ++ codes "\n"))))

unfoldable pub log_info : Text → Text
log_info message =
    bold ++ (colour 6 ++ (codes "[INFO] " ++ (colour_reset ++ (message ++ codes "\n"))))

-- The text and the exit status.
unfoldable pub die : Text → Text × ℕ
die message =
    (bold ++ (colour 1 ++ (codes "[FATAL] " ++ (colour_reset ++ (message ++ codes "\n")))), 1)

module _ (ratio : ℕ → ℕ → Text) where
  -- What is printed, before `snprintf` cuts it to the buffer.
  unfoldable pub time_text : ℕ → Option Text → Text
  unfolding decimal same_text
  time_text time_ns unit_choice =
      let in_ns = decimal time_ns ++ codes " ns" in
      let in_us = ratio time_ns 1000 ++ codes " μs" in
      let in_ms = ratio time_ns 1_000_000 ++ codes " ms" in
      let auto =
        if ltb time_ns 1000 then in_ns else if ltb time_ns 1_000_000 then in_us else in_ms in
      elim unit_choice [
        | none ↦ auto
        | some unit ↦
            if same_text unit (codes "ns")
            then in_ns
            else if same_text unit (codes "us") || same_text unit (codes "μs")
            then in_us
            else if same_text unit (codes "ms")
            then in_ms
            else auto
      ]

  unfoldable pub format_time : ℕ → Option Text → ℕ → Text
  unfolding time_text
  format_time time_ns unit_choice buf_size = take (buf_size - 1) (time_text time_ns unit_choice)
