-- ===== src/Message.antt =====
-- The messages of the rendezvous protocol (hbb_common's rendezvous_proto), with the fields that the
-- servers read or write. `rest` stands for fields that are only passed through.
use kinbridge_server.Prelude.{ℕ, Bool, true, String, List, Option, ◌≡◌, ◌↔◌, ◌==◌, nat_eq, list_eq}
use kinbridge_server.Prelude.Equality.{list_beq_iff}
use kinbridge_server.Prelude.Int.{ℤ}

abbrev pub Bytes : Type 0
Bytes = List ℕ

-- The comparison of byte strings, for the tactics.
pub bytes_eq_iff : (a b : Bytes) → ((a == b) ≡ true) ↔ (a ≡ b)
bytes_eq_iff a b = list_beq_iff a b

pub data NatType : Type 0 where
  symmetric : NatType
  other_nat : ℕ → NatType

-- protobuf's EnumOrUnknown<NatType>; `enum_value` is Ok on the known values.
pub data NatTypeField : Type 0 where
  known : NatType → NatTypeField
  unknown : ℕ → NatTypeField

-- register_pk_response::Result.
pub data RegisterPkResult : Type 0 where
  pk_ok uuid_mismatch too_frequent not_support server_error : RegisterPkResult

-- punch_hole_response::Failure.
pub data Failure : Type 0 where
  id_not_exist offline license_mismatch : Failure

pub record RegisterPeer : Type 0 where
  pub id : String
  pub serial : ℤ

pub record RegisterPk : Type 0 where
  pub id : String
  pub uuid : Bytes
  pub pk : Bytes

pub record PunchHoleRequest : Type 0 where
  pub id : String
  pub nat_type : NatTypeField
  pub licence_key : String

pub record PunchHoleSent : Type 0 where
  pub socket_addr : Bytes
  pub id : String
  pub relay_server : String
  pub nat_type : NatTypeField
  pub version : String

pub record LocalAddr : Type 0 where
  pub socket_addr : Bytes
  pub local_addr : Bytes
  pub id : String
  pub relay_server : String
  pub version : String

pub record RequestRelay : Type 0 where
  pub id : String
  pub uuid : String
  pub socket_addr : Bytes
  pub licence_key : String
  pub rest : Bytes

-- The `oneof` of a RelayResponse.
pub data RelayUnion : Type 0 where
  unset : RelayUnion
  by_id : String → RelayUnion
  by_pk : Bytes → RelayUnion

pub record RelayResponse : Type 0 where
  pub socket_addr : Bytes
  pub relay_server : String
  pub union : RelayUnion
  pub version : String
  pub rest : Bytes

pub record ConfigUpdate : Type 0 where
  pub serial : ℤ
  pub rendezvous_servers : List String

-- `failure = none` is the default of the field, which the source leaves unset on success.
pub record PunchHoleResponse : Type 0 where
  pub socket_addr : Bytes
  pub pk : Bytes
  pub failure : Option Failure
  pub relay_server : String
  pub nat_type : Option NatType
  pub is_local : Bool

pub record PunchHole : Type 0 where
  pub socket_addr : Bytes
  pub nat_type : NatTypeField
  pub relay_server : String

pub record FetchLocalAddr : Type 0 where
  pub socket_addr : Bytes
  pub relay_server : String

pub record TestNatResponse : Type 0 where
  pub port : ℕ
  pub cu : Option ConfigUpdate

-- rendezvous_message::Union.
pub data Message : Type 0 where
  register_peer : RegisterPeer → Message
  register_pk : RegisterPk → Message
  punch_hole_request : PunchHoleRequest → Message
  punch_hole_sent : PunchHoleSent → Message
  local_addr : LocalAddr → Message
  request_relay : RequestRelay → Message
  relay_response : RelayResponse → Message
  test_nat_request : ℤ → Message
  configure_update : ConfigUpdate → Message
  software_update : String → Message
  online_request : List String → Message
  register_peer_response : Bool → Message
  register_pk_response : RegisterPkResult → Message
  punch_hole_response : PunchHoleResponse → Message
  punch_hole : PunchHole → Message
  fetch_local_addr : FetchLocalAddr → Message
  test_nat_response : TestNatResponse → Message
  online_response : Bytes → Message
  other_message : ℕ → Message
