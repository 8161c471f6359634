-- ===== src/HostPort.antt =====
-- net.SplitHostPort of the Go library, which clientip.go and health.go call.
use nitrokit.Prelude.{◌||◌, Option, none, some, [], ◌∷◌, ◌==◌, if◌then◌else◌, not}
use nitrokit.Text.{Text, cut, cut_last, has_byte}

-- "[host]:port": the first ']' stands right before the last ':'.
bracketed : Text → Option (Text × Text)
bracketed s = elim (cut b']' s) [
  | none ↦ none
  | some (host, []) ↦ none
  | some (host, c ∷ port) ↦
      if not (c == b':') || has_byte b':' port || has_byte b'[' s || has_byte b']' port
      then none
      else some (host, port)
]

-- "host:port", with no other colon and no bracket.
plain : Text → Option (Text × Text)
plain s = elim (cut_last b':' s) [
  | none ↦ none
  | some (host, port) ↦
      if has_byte b':' host || has_byte b'[' s || has_byte b']' s then none else some (host, port)
]

-- `none` is the error.
unfoldable pub split_host_port : Text → Option (Text × Text)
unfolding bracketed plain
split_host_port [] = none
split_host_port (c ∷ s) = if c == b'[' then bracketed s else plain (c ∷ s)
