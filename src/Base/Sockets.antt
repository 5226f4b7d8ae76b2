-- ===== src/Base/Sockets.antt =====
-- Address families.
use mathlib.Core.Bool.{Bool, true, false}

-- AF_UNSPEC, AF_INET, AF_INET6.
pub data Family : Type 0 where
  unspec inet inet6 : Family

-- `family == AF_INET`.
abbrev pub is_inet : Family → Bool
is_inet inet = true
is_inet unspec = false
is_inet inet6 = false

-- `family == AF_INET6`.
abbrev pub is_inet6 : Family → Bool
is_inet6 inet6 = true
is_inet6 unspec = false
is_inet6 inet = false
