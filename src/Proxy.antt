-- ===== src/Proxy.antt =====
-- proxy.go: the proxy between clients and servers. Each client is served by goroutines of its own,
-- which talk to `serveClients` by commands; the queue of a client holds what is to be written to it.
pub mod Route
pub mod Queues
pub mod Forward
pub mod Bounds
pub mod Clients
use goat.Base.{
  ℕ, Bool, true, false, Option, none, some, List, [], ◌∷◌, ◌++◌, last, init, length, ltb, Map,
  lookup, insert, delete, Bytes, Bytes_eq, ◌==◌, if◌then◌else◌,
}
use goat.Rpc.{RequestHeader, Rpc, Err, Result, ok, err}
use goat.Chan.{Exec, done, panicked, ◌>>=◌}

-- clientBufferSize
abbrev pub client_buffer_size : ℕ
client_buffer_size = 16

-- A client: whether its connection was given to AddClient or is dialled by the proxy, and the
-- channel fromServer.
pub record ProxyClient : Type 0 where
  pub was_added : Bool
  pub from_server : List Rpc

pub record Proxy : Type 0 where
  pub id : Bytes
  pub clients : Map Bytes ProxyClient

-- NewProxy
unfoldable pub new_proxy : Bytes → Proxy
new_proxy id = record { id = id; clients = [] }

-- AddClient: a client that is known under the id is replaced.
unfoldable pub add_client : Bytes → Proxy → Proxy
add_client id p = record p {
  clients = insert id (record { was_added = true; from_server = [] }) p.clients;
}

-- addOutgoingConnectionLocked
unfoldable pub add_outgoing_connection : Bytes → Proxy → Proxy × ProxyClient
add_outgoing_connection id p =
    let client : ProxyClient = record { was_added = false; from_server = [] } in
    (record p { clients = insert id client p.clients }, client)

-- RpcIntercepter, which may be nil: the header as it leaves it, or an error.
abbrev pub RpcIntercepter : Type 0
RpcIntercepter = Option (RequestHeader → Result RequestHeader)

abbrev pub intercept : RpcIntercepter → RequestHeader → Result RequestHeader
intercept none h = ok h
intercept (some f) h = f h

abbrev along : RequestHeader → Option Bytes → List Bytes → Exec (Bytes × RequestHeader)
along h none rest = panicked
along h (some next_) rest = done (next_, record h { proxy_next = some rest })

-- Where an Rpc goes that the proxy `id` got: its record grows, and a route that it carries has
-- precedence. The index of a route that is empty but not nil is out of range.
unfoldable pub next_hop : Bytes → RequestHeader → Exec (Bytes × RequestHeader)
next_hop id h =
    let recorded = record h { proxy_record = h.proxy_record ++ id ∷ [] } in
    elim h.proxy_next [
      | none ↦ done (h.destination, recorded)
      | some route ↦ along recorded (last route) (init route)
    ]

-- The `select` with a default: a client whose queue is full gets nothing.
unfoldable pub enqueue : Bytes → Rpc → ProxyClient → Proxy → Proxy
enqueue destination rpc client p =
    if ltb (length client.from_server) client_buffer_size
    then record p {
      clients =
          insert destination (record client { from_server = client.from_server ++ rpc ∷ [] })
            p.clients;
    }
    else p

-- The client that a destination names, dialled if it is new.
unfoldable pub client_for : Bytes → Proxy → Proxy × ProxyClient
unfolding add_outgoing_connection
client_for destination p = elim (lookup destination p.clients) [
  | some client ↦ (p, client)
  | none ↦ add_outgoing_connection destination p
]

unfoldable pub deliver : Rpc → Bytes × RequestHeader → Proxy → Proxy
unfolding enqueue client_for
deliver rpc (destination, h) p =
    let (p', client) = client_for destination p in
    enqueue destination (record rpc { header = some h }) client p'

abbrev pub forward_header : Rpc → Proxy → Result RequestHeader → Exec Proxy
forward_header rpc p (err e) = done p
forward_header rpc p (ok h) = next_hop p.id h >>= λ hop. done (deliver rpc hop p)

-- forwardRpc: it panics if the header is missing or names another source.
unfoldable pub forward_rpc : RpcIntercepter → Bytes → Rpc → Proxy → Exec Proxy
unfolding next_hop deliver
forward_rpc ic source rpc p = elim rpc.header [
  | none ↦ panicked
  | some h ↦ if h.source == source then forward_header rpc p (intercept ic h) else panicked
]

-- A command of a client's goroutines: an Rpc that was read, or the error that ends them.
pub data Command : Type 0 where
  forward : Rpc → Command
  disconnect : Err → Command

-- serveClients, one command from the client `id`.
unfoldable pub serve_command : RpcIntercepter → Bytes → Command → Proxy → Exec Proxy
unfolding forward_rpc
serve_command ic id (forward rpc) p = forward_rpc ic id rpc p
serve_command ic id (disconnect e) p = done (record p { clients = delete id p.clients })

abbrev fetched_from : Bytes → Proxy → ProxyClient → List Rpc → Proxy
fetched_from id p client [] = p
fetched_from id p client (rpc ∷ rest) = record p {
  clients = insert id (record client { from_server = rest }) p.clients;
}

-- writeLoop of the client `id` fetches the next Rpc of its queue.
unfoldable pub fetch : Bytes → Proxy → Proxy
fetch id p = elim (lookup id p.clients) [
  | none ↦ p
  | some client ↦ fetched_from id p client client.from_server
]
