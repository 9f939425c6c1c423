-- ===== src/Server/Registry.antt =====
-- Services and the dispatch of server.go: RegisterService, and the tests at the head of the loop of
-- `serve`. A method's handler belongs to the generated code: `H` and `S` stand for the two kinds.
-- That an implementation satisfies its interface is tested by reflection; the answer is an input.
pub mod Dispatch
use goat.Base.{
  Bool, true, false, Option, none, some, List, [], ◌∷◌, Map, lookup, insert, Bytes, Bytes_eq,
  if◌then◌else◌, is_some, ◌==◌,
}
use goat.Rpc.{RequestHeader, Rpc}
use goat.Chan.{Exec, done, panicked}
use goat.Encoding.Method.{parse_raw_method}

module _ (H S : Type 0) where
  pub record MethodDesc : Type 0 where
    pub method_name : Bytes
    pub handler : H

  pub record StreamDesc : Type 0 where
    pub stream_name : Bytes
    pub handler : S
    pub server_streams : Bool
    pub client_streams : Bool

  pub record ServiceDesc : Type 0 where
    pub service_name : Bytes
    pub methods : List MethodDesc
    pub streams : List StreamDesc

  pub record ServiceInfo : Type 0 where
    pub name : Bytes
    pub methods : Map Bytes MethodDesc
    pub streams : Map Bytes StreamDesc

  pub record Server : Type 0 where
    pub id : Bytes
    pub services : Map Bytes ServiceInfo

  -- NewServer
  unfoldable pub new_server : Bytes → Server
  new_server id = record { id = id; services = [] }

  -- The loops of RegisterService: of two methods with one name the later is kept.
  unfoldable pub method_map : Map Bytes MethodDesc → List MethodDesc → Map Bytes MethodDesc
  method_map m [] = m
  method_map m (d ∷ ds) = method_map (insert d.method_name d m) ds

  unfoldable pub stream_map : Map Bytes StreamDesc → List StreamDesc → Map Bytes StreamDesc
  stream_map m [] = m
  stream_map m (d ∷ ds) = stream_map (insert d.stream_name d m) ds

  unfoldable pub service_info : ServiceDesc → ServiceInfo
  unfolding method_map stream_map
  service_info sd = record {
    name = sd.service_name;
    methods = method_map [] sd.methods;
    streams = stream_map [] sd.streams;
  }

  -- RegisterService
  unfoldable pub register_service : Bool → ServiceDesc → Server → Exec Server
  unfolding service_info
  register_service implements sd s =
      if implements
      then (if is_some (lookup sd.service_name s.services)
          then panicked
          else done (record s { services = insert sd.service_name (service_info sd) s.services }))
      else panicked

  -- What the loop of `serve` does with an Rpc: every refusal is logged and the Rpc ignored.
  pub data Action : Type 0 where
    no_header bad_method wrong_destination unknown_service unhandled_method : Action
    unary : ServiceInfo → MethodDesc → Action
    streaming : ServiceInfo → StreamDesc → Action

  abbrev pub in_streams : ServiceInfo → Option StreamDesc → Action
  in_streams si none = unhandled_method
  in_streams si (some sd) = streaming si sd

  abbrev pub in_methods : ServiceInfo → Bytes → Option MethodDesc → Action
  in_methods si method none = in_streams si (lookup method si.streams)
  in_methods si method (some md) = unary si md

  abbrev in_services : Bytes → Option ServiceInfo → Action
  in_services method none = unknown_service
  in_services method (some si) = in_methods si method (lookup method si.methods)

  abbrev in_server : Server → RequestHeader → Option (Bytes × Bytes) → Action
  in_server s h none = bad_method
  in_server s h (some (service, method)) =
      if h.destination == s.id
      then in_services method (lookup service s.services)
      else wrong_destination

  abbrev by_header : Server → Option RequestHeader → Action
  by_header s none = no_header
  by_header s (some h) = in_server s h (parse_raw_method h.method)

  unfoldable pub dispatch : Server → Rpc → Action
  dispatch s rpc = by_header s rpc.header
