-- ===== src/Router/Proxy.antt =====
-- internal/router/proxy.go: the reverse proxy in front of the Pods. The calls that it makes of the
-- network are parameters.
use training_platform.Shared.{
  Bytes, codes, is_empty, ℕ, Bool, not, Option, none, some, ◌∷◌, ◌++◌, any, ◌==◌, if◌then◌else◌,
}
use training_platform.Shared.Decimal.{format_ℕ}
use training_platform.Router.{
  Target, Decoded, no_instance, octet_too_large, invalid_port, target, decode_host,
}

-- Target.Addr, by net.JoinHostPort.
unfoldable pub addr : Target → Bytes
addr t =
    let ip = if any (λ c. c == b':') t.ip then codes "[" ++ t.ip ++ codes "]" else t.ip in
    ip ++ b':' ∷ format_ℕ t.port

-- The request of a client, as far as the proxy reads it: `upgrade` is its Upgrade header.
pub record Inbound : Type 0 where
  pub host : Bytes
  pub upgrade : Bytes

-- What becomes of a request: an error of the proxy, an answer from an address, or a connection that
-- is spliced with an address, or given up behind the hijack.
pub data Proxied {ℓ} (Answer : Type ℓ) : Type ℓ where
  bad_host unreachable no_hijack : Proxied Answer
  answered : Bytes → Answer → Proxied Answer
  spliced dropped : Bytes → Proxied Answer

-- The network: the transport's round trip to an address, a dial of one, and whether a client's
-- connection can be hijacked, is, and whether the request is then written.
pub record Network {ℓ} (Answer : Type ℓ) : Type ℓ where
  pub round_trip : Bytes → Option Answer
  pub dials : Bytes → Bool
  pub can_hijack : Bool
  pub hijacks : Bool
  pub writes : Bool

module _ {ℓ} {Answer : Type ℓ} (net : Network Answer) where
  -- proxyUpgrade
  unfoldable pub proxy_upgrade : Target → Proxied Answer
  proxy_upgrade t =
      if not (net.dials (addr t))
      then unreachable
      else if not net.can_hijack
      then no_hijack
      else if not net.hijacks
      then dropped (addr t)
      else if not net.writes
      then dropped (addr t)
      else spliced (addr t)

  -- ServeHTTP, once the host is decoded.
  unfoldable pub proxy_target : Target → Inbound → Proxied Answer
  proxy_target t r =
      if not (is_empty r.upgrade) then proxy_upgrade t else elim (net.round_trip (addr t)) [
        | none ↦ unreachable
        | some answer ↦ answered (addr t) answer
      ]

  unfoldable pub proxy_decoded : Decoded → Inbound → Proxied Answer
  proxy_decoded no_instance r = bad_host
  proxy_decoded octet_too_large r = bad_host
  proxy_decoded invalid_port r = bad_host
  proxy_decoded (target t) r = proxy_target t r

  -- ServeHTTP
  unfoldable pub proxy_serve : ℕ → Inbound → Proxied Answer
  proxy_serve default_port r = proxy_decoded (decode_host r.host default_port) r
