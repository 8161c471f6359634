-- ===== src/Netip.antt =====
-- net/netip of the Go library, as clientip.go uses it: addresses, prefixes and their parsing.
mod Parse
pub mod Blocks
unfoldable pub use Parse.{parse_addr, parse_prefix}
unfoldable pub use Defs.*
mod Defs
