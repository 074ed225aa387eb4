-- ===== src/Content/Links.antt =====
-- internal/content/layout.go: the host that the page's script writes into the link of an exposed port.
use training_platform.Shared.{Bytes, codes, ℕ, [], ◌∷◌, ◌++◌, map, ◌==◌, is_empty, if◌then◌else◌}
use training_platform.Session.Pods.{keep_token_bytes}

-- node.ip.replace(/\./g,'-')
unfoldable pub dot_to_dash : ℕ → ℕ
dot_to_dash c = if c == b'.' then b'-' else c

unfoldable pub dots_to_dashes : Bytes → Bytes
dots_to_dashes ip = map dot_to_dash ip

-- token
unfoldable pub link_token : Bytes → Bytes
link_token pod = let token = keep_token_bytes pod in if is_empty token then codes "i0" else token

-- prefix
unfoldable pub link_prefix : Bytes → Bytes
link_prefix host_prefix = if is_empty host_prefix then [] else host_prefix ++ codes "-"

-- What stands behind the prefix and "ip".
unfoldable pub link_code : Bytes → Bytes → Bytes → Bytes → Bytes
link_code ip pod port router_host =
    dots_to_dashes ip ++ b'-' ∷ (link_token pod ++ b'-' ∷ (port ++ b'.' ∷ router_host))

-- host
unfoldable pub link_host : Bytes → Bytes → Bytes → Bytes → Bytes → Bytes
link_host host_prefix ip pod port router_host =
    link_prefix host_prefix ++ (b'i' ∷ b'p' ∷ link_code ip pod port router_host)
