-- ===== src/Tftp/Tests.antt =====
-- internal/tftp/server.go: requests as U-Boot makes them.
use unwedge.Base.{
  ℕ, ◌≡◌, refl, Bytes, codes, false, none, some, [], ◌∷◌, length, eqb, elem, has_prefix,
  contains_sub, find_sub, trim_left, trim_right, trim_space, is_space,
}
use unwedge.Base.Int.{is_positive}
use unwedge.Images.{
  Store, Directory, Info, base, after_slash, new_store, on_disk_name, sanitize, is_refused,
  namespaced, save, finish_save, io_copy, exists_entry, lookup_entry, put_entry, remove_entry,
}
use unwedge.Daemon.{
  Config, default, validate, is_invalid_name, matches_instance_name, is_alnum, is_name_byte,
  is_enabled, store_in, service_store,
}
use unwedge.Tftp.{requested_name, read_handler, content_of}
use unwedge.Tftp.Served.{read_handler-save}

abbrev raw : Store
raw = record { dir = codes "/var/lib/unwedge/images"; prefix = [] }

abbrev files : Directory
files = record { name = codes "k"; is_dir = false; content = codes "xyz"; mod_time = 1 } ∷ []

asks_by_path : read_handler raw files (codes "images/k") ≡ some (codes "xyz")
unfolding read_handler requested_name content_of on_disk_name sanitize is_refused base after_slash
    lookup_entry eqb elem trim_space trim_left trim_right is_space
asks_by_path = refl

climbs : read_handler raw files (codes "..") ≡ none
unfolding read_handler requested_name content_of on_disk_name sanitize is_refused base after_slash
    lookup_entry eqb elem trim_space trim_left trim_right is_space
climbs = refl

-- An image whose name ends in a space is stored, and not found by its name.
ends_in_space :
    read_handler raw
      (record { name = codes "k "; is_dir = false; content = []; mod_time = 1 } ∷ [])
      (codes "/k ")
    ≡ none
unfolding read_handler requested_name content_of on_disk_name sanitize is_refused base after_slash
    lookup_entry eqb elem trim_space trim_left trim_right is_space
ends_in_space = refl

abbrev dut : Config
dut = record default {
  name = codes "a";
  grpc = record {
    address = codes ":7777";
    tls = record { enabled = some false; cert_file = []; key_file = []; client_ca_file = [] };
  };
}

abbrev sized : Bytes → ℕ
sized b = length b

abbrev no_sha : Bytes → Bytes
no_sha b = []

abbrev saved_k : Info
saved_k = record { name = codes "k"; size = 3; mod_time = 60; crc = 3; sha = [] }

read_handler-save_example :
    let saved =
      save sized no_sha
        (record { dir = codes "/var/lib/unwedge/images"; prefix = codes "a--" })
        (record { create = false; write = none; close = false; rename = false; cleanup = false })
        (codes ".upload-1")
        (codes "k")
        (record { bytes = codes "abc"; fails = false })
        false
        60
        [] in
    read_handler raw saved.0 (codes "/a--k") ≡ some (codes "abc")
unfolding default validate is_invalid_name matches_instance_name is_alnum is_name_byte is_enabled
    eqb contains_sub find_sub has_prefix service_store store_in new_store namespaced on_disk_name
    sanitize is_refused base after_slash elem is_positive save finish_save io_copy exists_entry
    lookup_entry put_entry remove_entry trim_space trim_left trim_right is_space
read_handler-save_example =
    read_handler-save sized no_sha dut
      (record { dir = codes "/var/lib/unwedge/images"; prefix = codes "a--" }) raw
      (record { create = false; write = none; close = false; rename = false; cleanup = false })
      (codes ".upload-1") (codes "k") (record { bytes = codes "abc"; fails = false }) false 60 []
      saved_k (codes "a--k") refl refl refl refl refl refl refl
