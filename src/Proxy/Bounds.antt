-- ===== src/Proxy/Bounds.antt =====
-- The queues of proxy.go are bounded, whatever its clients do.
use goat.Base.{◌≡◌, ◌≤◌, length, All, Bytes, Bytes_eq}
use goat.Rpc.{Rpc}
use goat.Chan.{done}
use goat.Proxy.{
  new_proxy, client_buffer_size, ProxyClient, Proxy, add_client, RpcIntercepter, Command,
  serve_command, fetch,
}

-- No queue holds more than 16 Rpcs.
abbrev pub HasRoom : Bytes × ProxyClient → Type 0
HasRoom c = length c.1.from_server ≤ client_buffer_size

abbrev pub IsBounded : Proxy → Type 0
IsBounded p = All HasRoom p.clients

-- The proxies that some sequence of steps reaches, with any interceptor at each of them.
pub data Reach : Proxy → Type 0 where
  starts : (id : Bytes) → Reach (new_proxy id)
  adds : (id : Bytes) (p : Proxy) → Reach p → Reach (add_client id p)
  serves :
      (ic : RpcIntercepter) (id : Bytes) (command : Command) (p p' : Proxy)
      → serve_command ic id command p ≡ done p'
      → Reach p
      → Reach p'
  fetches : (id : Bytes) (p : Proxy) → Reach p → Reach (fetch id p)
