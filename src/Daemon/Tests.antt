-- ===== src/Daemon/Tests.antt =====
-- internal/config/config.go: two instances on one controller.
use unwedge.Base.{
  ◌≡◌, refl, Bytes, codes, false, Option, some, [], eqb, elem, has_prefix, contains_sub, find_sub,
  trim_right,
}
use unwedge.Base.Int.{is_positive}
use unwedge.Power.Address.{last_index_byte}
use unwedge.Images.{
  Store, base, after_slash, new_store, on_disk_name, sanitize, is_refused, namespaced,
}
use unwedge.Daemon.{
  Config, default, validate, is_invalid_name, matches_instance_name, is_alnum, is_name_byte,
  is_enabled, default_instance_name, without_ext, store_in, service_store,
}
use unwedge.Daemon.Instances.{service_store-apart}

instance_of_file : default_instance_name (codes "/etc/unwedge/dut1.yaml") ≡ codes "dut1"
unfolding default_instance_name without_ext base after_slash last_index_byte eqb elem trim_right
instance_of_file = refl

unnamed_file : default_instance_name (codes "config.yaml") ≡ []
unfolding default_instance_name without_ext base after_slash last_index_byte eqb elem trim_right
unnamed_file = refl

trailing_dash : is_invalid_name (codes "a-") ≡ false
unfolding is_invalid_name matches_instance_name is_alnum is_name_byte eqb contains_sub find_sub
    has_prefix
trailing_dash = refl

abbrev dut : Bytes → Config
dut name = record default {
  name = name;
  grpc = record {
    address = codes ":7777";
    tls = record { enabled = some false; cert_file = []; key_file = []; client_ca_file = [] };
  };
}

abbrev store : Store
store = record { dir = codes "/var/lib/unwedge/images"; prefix = codes "a--" }

service_store-apart_example : (codes "a" ≡ codes "a") × (codes "k" ≡ codes "k")
unfolding default validate is_invalid_name matches_instance_name is_alnum is_name_byte is_enabled
    eqb contains_sub find_sub has_prefix service_store store_in new_store namespaced on_disk_name
    sanitize is_refused base after_slash elem trim_right is_positive
service_store-apart_example =
    service_store-apart (dut (codes "a")) (dut (codes "a")) store store (codes "k") (codes "k")
      (codes "a--k") refl refl (λ e. cc e) (λ e. cc e) refl refl refl refl refl refl

-- A file whose overlay names the instance and a power unit.
abbrev overlay : Bytes → Config → Option Config
overlay b c = some (record (dut (codes "a")) { power = record c.power { address = codes "pdu" } })

abbrev loaded : Config
loaded = record (dut (codes "a")) { power = record default.power { address = codes "pdu" } }
