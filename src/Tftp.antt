-- ===== src/Tftp.antt =====
-- internal/tftp/server.go: what the TFTP server reads for a request. Opening a file that is there and
-- sending it are input and output.
pub mod Served
mod Tests
use unwedge.Base.{Bytes, Option, none, some, trim_space}
use unwedge.Images.{Store, Directory, Entry, base, on_disk_name, lookup_entry}

-- The name that a request stands for.
unfoldable pub requested_name : Bytes → Bytes
requested_name filename = base (trim_space filename)

unfoldable pub content_of : Option Entry → Option Bytes
content_of none = none
content_of (some e) = some e.content

-- readHandler: the bytes that are sent; none for a request that is rejected.
unfoldable pub read_handler : Store → Directory → Bytes → Option Bytes
unfolding requested_name content_of
read_handler s d filename = elim (on_disk_name s (requested_name filename)) [
  | none ↦ none
  | some path ↦ content_of (lookup_entry path d)
]
