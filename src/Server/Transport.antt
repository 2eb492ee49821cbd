-- ===== src/Server/Transport.antt =====
-- cmd/ffstream/listener.go and `getGPRCDialParams` of pkg/ffstreamserver/client/client.go: where the
-- server listens and what the client dials, for the same address.
use ffstream.Base.{
  ◌≡◌, ◌↔◌, ◌⊎◌, ◌≢◌, refl, sym, subst, String, Bool, true, false, ◌||◌, Option, none, some, str_eq,
  eq_iff, cut_colon, if◌then◌else◌, arith,
}

-- What `getListener` asks for, its certificate made: `net.Listen` with a network and an address, or
-- `tls.Listen` on tcp with an address.
pub data Listening : Type 0 where
  plain : String → String → Listening
  tls : String → Listening

-- The networks of the first case.
unfoldable pub is_plain_network : String → Bool
is_plain_network s =
    str_eq s "tcp"
    || str_eq s "tcp4"
    || str_eq s "tcp6"
    || str_eq s "udp"
    || str_eq s "udp4"
    || str_eq s "udp6"
    || str_eq s "unix"
    || str_eq s "unixpacket"

-- The rest of both functions, on the parts of the address.
unfoldable pub listen_at : String → Option (String × String) → Listening
listen_at addr none = plain "unix" addr
listen_at addr (some (network, rest)) =
    if is_plain_network network then plain network rest else tls addr

unfoldable pub get_listener : String → Listening
unfolding cut_colon listen_at is_plain_network
get_listener addr = listen_at addr (cut_colon addr)

-- The target that the client dials, and whether with TLS.
unfoldable pub dial_at : String → Option (String × String) → String × Bool
dial_at target none = (target, false)
dial_at target (some (scheme, rest)) =
    if str_eq scheme "tcp+ssl" then (rest, true) else (target, false)

unfoldable pub get_dial_params : String → String × Bool
unfolding cut_colon dial_at
get_dial_params target = dial_at target (cut_colon target)

unfoldable pub uses_tls : Listening → Bool
uses_tls (plain network addr) = false
uses_tls (tls addr) = true

ssl_not_plain : is_plain_network "tcp+ssl" ≡ false
unfolding is_plain_network
ssl_not_plain = refl

plain_not_ssl : (network : String) → is_plain_network network ≡ true → network ≢ "tcp+ssl"
plain_not_ssl network h e = absurd (cc (h, e, ssl_not_plain))

parts_iff :
    (addr network rest : String)
    → (uses_tls (listen_at addr (some (network, rest))) ≡ (dial_at addr (some (network, rest))).1)
      ↔ ((is_plain_network network ≡ true) ⊎ (network ≡ "tcp+ssl"))
unfolding listen_at dial_at uses_tls
parts_iff addr network rest = ground (arith, eq_iff network "tcp+ssl", plain_not_ssl network)

-- For an address with a colon, server and client agree on the use of TLS exactly if what is in front
-- of it is one of the plain networks or `tcp+ssl`: for a host and a port alone they do not.
pub get_listener-get_dial_params_iff :
    (addr network rest : String)
    → cut_colon addr ≡ some (network, rest)
    → (uses_tls (get_listener addr) ≡ (get_dial_params addr).1)
      ↔ ((is_plain_network network ≡ true) ⊎ (network ≡ "tcp+ssl"))
unfolding get_listener get_dial_params
get_listener-get_dial_params_iff addr network rest h =
    subst
      (λ parts.
        (uses_tls (listen_at addr parts) ≡ (dial_at addr parts).1)
        ↔ ((is_plain_network network ≡ true) ⊎ (network ≡ "tcp+ssl")))
      (sym h) (parts_iff addr network rest)
