-- ===== src/Pscan/Os.antt =====
-- `guess_os_from_ttl` of pscan.c, and the copy of the guess into its 32 bytes.
use knetutils.Base.{ℕ}
use knetutils.Base.{◌||◌}
use knetutils.Base.{leb, ◌==◌, if◌then◌else◌}
use knetutils.Base.{take}
use knetutils.Base.{Text, codes}

unfoldable pub guess_os_from_ttl : ℕ → ℕ → Text
guess_os_from_ttl ttl win =
    if ttl == 0
    then codes "Unknown"
    else if leb ttl 64
    then if win == 5840 || (win == 29200 || win == 65535)
      then codes "Linux"
      else if win == 65535 || win == 4128
      then codes "macOS/iOS"
      else if win == 16384
      then codes "OpenBSD"
      else if win == 65228
      then codes "FreeBSD"
      else codes "Linux/Unix/macOS (Generic TTL=64)"
    else if leb ttl 128
    then if win == 8192 || (win == 64240 || win == 65535)
      then codes "Windows (Modern)"
      else if win == 16384 || win == 65535
      then codes "Windows (Legacy)"
      else codes "Windows (Generic TTL=128)"
    else if win == 4128 || win == 8760
    then codes "Cisco Router/Switch"
    else if win == 65535
    then codes "Solaris/AIX"
    else codes "Network Device/Legacy (Generic TTL=255)"

-- `strncpy` of `sizeof - 1` bytes into a zeroed slot of 32.
abbrev pub stored_guess : Text → Text
stored_guess guess = take 31 guess
