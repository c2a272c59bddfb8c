-- ===== src/Udp.antt =====
-- session/udp.go: StartLocalUDPForward, which gives every source of packets an association with a
-- stream of its own. An association is known by its place in `channels`, also to the goroutine that
-- bridges it, and stays there when it leaves the map.
pub mod Packets
pub mod Reading
pub mod Order
mod Runs
use p2p_netcat_go_wrk.Common.{
  ℕ, Bool, true, false, Option, none, some, List, [], ◌∷◌, ◌++◌, ltb, leb, ◌==◌, if◌then◌else◌,
  Bytes, length, get_elem?, modify,
}
use p2p_netcat_go_wrk.Common.Maps.{find, delete, insert}

abbrev pub max_udp_associations : ℕ
max_udp_associations = 256

abbrev pub udp_packet_queue_depth : ℕ
udp_packet_queue_depth = 256

-- `packets` is the channel, `taken` what the bridging goroutine has taken off it for the stream, the
-- latest last; `source` is the address that its replies go to.
pub record Association : Type 0 where
  pub source : Bytes
  pub packets : List Bytes
  pub taken : List Bytes

pub data Report : Type 0 where
  limit_reached queue_full : Bytes → Report

-- The reports to `onError`, the latest first.
pub record Forward : Type 0 where
  pub associations : List (Bytes × ℕ)
  pub channels : List Association
  pub reports : List Report

abbrev pub no_associations : Forward
no_associations = record { associations = []; channels = []; reports = [] }

abbrev pub report : Report → Forward → Forward
report r f = record f { reports = r ∷ f.reports }

abbrev pub has_room : Option Association → Bool
has_room none = false
has_room (some a) = ltb (length a.packets) udp_packet_queue_depth

abbrev pub queue_packet : Bytes → Association → Association
queue_packet payload a = record a { packets = a.packets ++ payload ∷ [] }

-- The `select` that hands a packet to an association, or drops it.
abbrev pub offer : Bytes → Bytes → ℕ → Forward → Forward
offer key payload id f =
    if has_room (get_elem? f.channels id)
    then record f { channels = modify id (queue_packet payload) f.channels }
    else report (queue_full key) f

abbrev pub add_association : Bytes → Forward → Forward
add_association key f = record f {
  associations = insert key (length f.channels) f.associations;
  channels = f.channels ++ record { source = key; packets = []; taken = [] } ∷ [];
}

abbrev pub dispatch : Bytes → Bytes → Option ℕ → Forward → Forward
dispatch key payload (some id) f = offer key payload id f
dispatch key payload none f =
    if leb max_udp_associations (length f.associations)
    then report (limit_reached key) f
    else offer key payload (length f.channels) (add_association key f)

-- A packet from a source.
unfoldable pub packet_read : Bytes → Bytes → Forward → Forward
packet_read key payload f = dispatch key payload (find key f.associations) f

abbrev pub take_first : List Bytes → Association → Association
take_first [] a = a
take_first (payload ∷ rest) a = record a { packets = rest; taken = a.taken ++ payload ∷ [] }

abbrev pub take_packet_of : Association → Association
take_packet_of a = take_first a.packets a

-- The goroutine of an association takes a packet.
unfoldable pub take_packet : ℕ → Forward → Forward
take_packet id f = record f { channels = modify id take_packet_of f.channels }

abbrev pub is_association : Option ℕ → ℕ → Bool
is_association none id = false
is_association (some other) id = other == id

-- The goroutine of an association is over.
unfoldable pub association_over : Bytes → ℕ → Forward → Forward
association_over key id f =
    if is_association (find key f.associations) id
    then record f { associations = delete key f.associations }
    else f
