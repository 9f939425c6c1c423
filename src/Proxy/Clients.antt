-- ===== src/Proxy/Clients.antt =====
-- The goroutines of a client of proxy.go: readLoop, writeLoop and connect, and what serveClients makes
-- of the commands of a readLoop.
use goat.Base.{
  ℕ, arith, ◌≡◌, ap, ◌∙◌, Option, none, some, List, [], ◌∷◌, ◌++◌, Bytes, Bytes_eq, codes, lookup,
  lookup-delete_self, delete, map, sym, subst,
}
use goat.Rpc.{Rpc, Err, wrapped, Result, ok, err}
use goat.Chan.{Exec, done, blocked, panicked, ◌>>=◌}
use goat.Proxy.{Proxy, RpcIntercepter, Command, forward, disconnect, serve_command, forward_rpc}

-- A turn of readLoop: what the connection reads, and the error of the context if that ends before
-- the command is taken.
pub record Reading : Type 0 where
  pub read : Result Rpc
  pub context_error : Option Err

-- The commands that a loop sends, and the error that it returns.
pub record LoopRun : Type 0 where
  pub commands : List Command
  pub error : Option Err

abbrev then_commands : List Command → LoopRun → LoopRun
then_commands cs l = record l { commands = cs ++ l.commands }

abbrev read_turn : Result Rpc → Option Err → LoopRun → LoopRun
read_turn (err e) ctx rest = record {
  commands = disconnect e ∷ [];
  error = some (wrapped (codes "failed to read from connection") e);
}
read_turn (ok rpc) (some e) rest = record {
  commands = [];
  error = some (wrapped (codes "context cancelled") e);
}
read_turn (ok rpc) none rest = then_commands (forward rpc ∷ []) rest

-- readLoop
unfoldable pub client_read_loop : List Reading → LoopRun
client_read_loop [] = record { commands = []; error = none }
client_read_loop (r ∷ rs) = let rest = client_read_loop rs in read_turn r.read r.context_error rest

-- A turn of writeLoop: the connection's answer to the write of what was fetched, or the end of the
-- context.
pub data Writing : Type 0 where
  wrote : Rpc → Option Err → Writing
  context_ends : Err → Writing

abbrev write_turn : Rpc → Option Err → List Rpc × LoopRun → List Rpc × LoopRun
write_turn rpc none (ws, l) = (rpc ∷ ws, l)
write_turn rpc (some e) (ws, l) = (
  rpc ∷ [],
  record {
    commands = disconnect e ∷ [];
    error = some (wrapped (codes "failed to write to connection") e);
  },
)

-- writeLoop: what is handed to the connection, and the commands.
unfoldable pub client_write_loop : List Writing → List Rpc × LoopRun
client_write_loop [] = ([], record { commands = []; error = none })
client_write_loop (context_ends e ∷ ws) =
    ([], record { commands = []; error = some (wrapped (codes "context cancelled") e) })
client_write_loop (wrote rpc w ∷ ws) = let rest = client_write_loop ws in write_turn rpc w rest

-- connect: a connection that cannot be made is reported like one that ends.
unfoldable pub connect : Option Err → List Command
connect none = []
connect (some e) = disconnect e ∷ []

-- serveClients for the commands of one client in a row.
unfoldable pub serve_commands : RpcIntercepter → Bytes → List Command → Proxy → Exec Proxy
unfolding serve_command
serve_commands ic id [] p = done p
serve_commands ic id (c ∷ cs) p = serve_command ic id c p >>= serve_commands ic id cs

abbrev read_failure : Err → Err
read_failure e = wrapped (codes "failed to read from connection") e

-- What is read before the connection fails.
abbrev read_before : Result Rpc → List Rpc → List Rpc
read_before (err e) rest = []
read_before (ok rpc) rest = rpc ∷ rest

abbrev pub forwards : List Reading → List Rpc
forwards [] = []
forwards (r ∷ rs) = read_before r.read (forwards rs)

-- The commands of a readLoop that ends as its connection fails with `e`.
abbrev pub Leaves : List Reading → Err → List Command → Type 0
Leaves rs e cs = cs ≡ map forward (forwards rs) ++ disconnect e ∷ []

abbrev first : Bytes → ℕ
first [] = 0
first (c ∷ cs) = c

read_turn-Leaves :
    (read_ : Result Rpc) (ctx : Option Err) (rest : LoopRun) (rpcs : List Rpc) (e : Err)
    → (rest.error ≡ some (read_failure e) → rest.commands ≡ map forward rpcs ++ disconnect e ∷ [])
    → (read_turn read_ ctx rest).error ≡ some (read_failure e)
    → (read_turn read_ ctx rest).commands
      ≡ map forward (read_before read_ rpcs) ++ disconnect e ∷ []
read_turn-Leaves (err e') ctx rest rpcs e ih h =
    let same : e' ≡ e = cc in ap (λ x. disconnect x ∷ []) same
read_turn-Leaves (ok rpc) none rest rpcs e ih h = ap (λ x. forward rpc ∷ x) (ih h)
read_turn-Leaves (ok rpc) (some e') rest rpcs e ih h =
    let texts : codes "context cancelled" ≡ codes "failed to read from connection" = cc in
    let heads : ◌≡◌ {A = ℕ} 99 102 = ap first texts in absurd (omega arith)

client_read_loop-Leaves :
    (rs : List Reading) (e : Err)
    → (client_read_loop rs).error ≡ some (read_failure e)
    → Leaves rs e (client_read_loop rs).commands
unfolding client_read_loop
client_read_loop-Leaves [] e h = cc
client_read_loop-Leaves (r ∷ rs) e h =
    read_turn-Leaves r.read r.context_error (client_read_loop rs) (forwards rs) e
      (client_read_loop-Leaves rs e) h

after_command :
    (ic : RpcIntercepter) (id : Bytes) (cs : List Command) (x : Exec Proxy) (p' : Proxy)
    → ((p : Proxy) → serve_commands ic id cs p ≡ done p' → lookup id p'.clients ≡ none)
    → (x >>= serve_commands ic id cs) ≡ done p'
    → lookup id p'.clients ≡ none
after_command ic id cs (done p) p' rest h = rest p h
after_command ic id cs blocked p' rest h = cc
after_command ic id cs panicked p' rest h = cc

serve_commands-gone :
    (ic : RpcIntercepter) (id : Bytes) (e : Err) (rpcs : List Rpc) (p p' : Proxy)
    → serve_commands ic id (map forward rpcs ++ disconnect e ∷ []) p ≡ done p'
    → lookup id p'.clients ≡ none
unfolding serve_commands serve_command
serve_commands-gone ic id e [] p p' h =
    let same : record p { clients = delete id p.clients } ≡ p' = cc in
    ap (λ x. lookup id x.clients) (sym same) ∙ lookup-delete_self id p.clients
serve_commands-gone ic id e (rpc ∷ rpcs) p p' h =
    after_command ic id (map forward rpcs ++ disconnect e ∷ []) (forward_rpc ic id rpc p) p'
      (λ q. serve_commands-gone ic id e rpcs q p') h

-- A readLoop that ends as its connection fails has sent the Rpcs that it read, in order, each once,
-- and then the failure. When the proxy has served these commands without a panic, it does not know
-- the client any more.
pub client_read_loop-gone :
    (ic : RpcIntercepter) (id : Bytes) (rs : List Reading) (e : Err) (p p' : Proxy)
    → (client_read_loop rs).error ≡ some (wrapped (codes "failed to read from connection") e)
    → serve_commands ic id (client_read_loop rs).commands p ≡ done p'
    → Leaves rs e (client_read_loop rs).commands × (lookup id p'.clients ≡ none)
client_read_loop-gone ic id rs e p p' failed served =
    let sent = client_read_loop-Leaves rs e failed in
    (
      sent,
      serve_commands-gone ic id e (forwards rs) p p'
          (subst (λ cs. serve_commands ic id cs p ≡ done p') sent served),
    )
