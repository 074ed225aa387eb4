-- ===== src/Server/Hosts.antt =====
-- internal/server/server.go: the requests of the router's domain are proxied, and the others go to the
-- routes of the server.
pub mod LinkHosts
pub mod PodLinks
use training_platform.Shared.{
  Bytes, codes, is_empty, ℕ, ◌-◌, Bool, true, false, not, ◌&&◌, ◌||◌, Option, none, some, [], ◌∷◌,
  ◌++◌, any, length, ◌==◌, if◌then◌else◌, cut,
}
use training_platform.Router.{
  Decoded, no_instance, octet_too_large, invalid_port, target, decode_host,
}
use training_platform.Router.Proxy.{Inbound, Proxied, Network, proxy_serve}
use training_platform.Shared.Suffixes.{has_suffix}

unfoldable pub has_byte : ℕ → Bytes → Bool
has_byte c s = any (λ d. d == c) s

-- What stands before and behind the last colon.
unfoldable pub last_colon : Bytes → Option (Bytes × Bytes)
last_colon [] = none
last_colon (c ∷ s) = elim (last_colon s) [
  | some (host, port) ↦ some (c ∷ host, port)
  | none ↦ if c == b':' then some ([], s) else none
]

-- net.SplitHostPort behind an opening bracket: the host, or an error.
unfoldable pub bracketed : Bytes → Option Bytes
bracketed s =
    let (inner, behind) = cut b']' s in
    elim behind [
      | none ↦ none
      | some [] ↦ none
      | some (c ∷ port) ↦
          if not (c == b':')
            || has_byte b':' port
            || has_byte b'[' inner
            || has_byte b'[' port
            || has_byte b']' port
          then none
          else some inner
    ]

-- net.SplitHostPort: the host, or an error.
unfoldable pub split_host_port : Bytes → Option Bytes
split_host_port s = elim (last_colon s) [
  | none ↦ none
  | some ([], port) ↦ if has_byte b'[' port || has_byte b']' port then none else some []
  | some (c ∷ host, port) ↦
      if c == b'['
      then bracketed (host ++ b':' ∷ port)
      else if has_byte b':' (c ∷ host)
          || has_byte b'[' (c ∷ host ++ port)
          || has_byte b']' (c ∷ host ++ port)
      then none
      else some (c ∷ host)
]

-- stripPort
unfoldable pub strip_port : Bytes → Bytes
strip_port host = elim (split_host_port host) [ none ↦ host | some h ↦ h ]

-- Who answers a request.
pub data Served {ℓ} (Answer : Type ℓ) : Type ℓ where
  by_routes : Answer → Served Answer
  by_proxy : Proxied Answer → Served Answer

unfoldable pub is_target : Decoded → Bool
is_target no_instance = false
is_target octet_too_large = false
is_target invalid_port = false
is_target (target t) = true

-- The port of a host that encodes none.
abbrev pub proxy_port : ℕ
proxy_port = 80

-- The handler that New returns, behind the names of anonymous learners. `routes` is the answer of the
-- mux.
unfoldable pub serve_host {ℓ} :
    {Answer : Type ℓ} → Network Answer → Bytes → (Inbound → Answer) → Inbound → Served Answer
serve_host net router_host routes r =
    if is_empty router_host
    then by_routes (routes r)
    else if has_suffix (strip_port r.host) (b'.' ∷ strip_port router_host)
        && is_target (decode_host r.host proxy_port)
    then by_proxy (proxy_serve net proxy_port r)
    else by_routes (routes r)
