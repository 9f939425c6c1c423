-- ===== src/Server/Serve/Workers.antt =====
-- The workers of `serve` in server.go, which take the unary calls from an unbuffered channel, and the
-- writer, which takes their responses. `process` is processUnaryRpc.
pub mod Accounts
use Prim.Native.Nat.{zero}
use goat.Base.{
  Bytes, ℕ, suc, ◌≤◌, ◌≡◌, refl, sym, ap, subst, ◌∙◌, inl, inr, Bool, true, false, Option, none,
  some, List, [], ◌∷◌, ◌++◌, append_assoc, append-nil, ltb, length, length-append, get_elem?,
  if◌then◌else◌, Bool-cases, Option-cases, arith,
}
use goat.Rpc.{RequestHeader, Rpc, Err, Codec}
use goat.Grpc.{Grpc}
use goat.Server.Unary.{Handler, process_unary_rpc}
use goat.Server.Serve.{UnaryRpcArgs}
use goat.Chan.{Exec, done, blocked, panicked, ◌>>=◌}

-- numRpcWorkers
abbrev pub num_rpc_workers : ℕ
num_rpc_workers = 8

-- The calls that a worker is busy with, and what the writer was handed.
pub record Pool (A : Type 0) : Type 0 where
  pub busy : List A
  pub written : List Rpc
  pub stopped : Bool

pub data PoolEvent (A : Type 0) : Type 0 where
  submits : A → PoolEvent A
  finishes : ℕ → PoolEvent A
  stops : PoolEvent A

module _ {A : Type 0} where
  unfoldable pub new_pool : Pool A
  new_pool = record { busy = []; written = []; stopped = false }

  abbrev pub remove_at : List A → ℕ → List A
  remove_at [] i = []
  remove_at (x ∷ xs) zero = xs
  remove_at (x ∷ xs) (suc i) = x ∷ remove_at xs i

  -- The loop hands over a call when some worker is idle, and waits for one otherwise.
  unfoldable pub submit : A → Pool A → Exec (Pool A)
  submit a p =
      if ltb (length p.busy) num_rpc_workers
      then done (record p { busy = p.busy ++ a ∷ [] })
      else blocked

  -- The send on writeChan waits for the writer, for ever once that has stopped.
  unfoldable pub hand_to_writer : Rpc → ℕ → Pool A → Exec (Pool A)
  hand_to_writer r i p =
      if p.stopped
      then blocked
      else done (record p { busy = remove_at p.busy i; written = p.written ++ r ∷ [] })

  module _ (process : A → Exec Rpc) where
    abbrev pub finished_call : ℕ → Pool A → Option A → Exec (Pool A)
    finished_call i p none = blocked
    finished_call i p (some a) = process a >>= λ r. hand_to_writer r i p

    -- The worker of the i-th busy call is done with it.
    unfoldable pub finish : ℕ → Pool A → Exec (Pool A)
    unfolding hand_to_writer
    finish i p = finished_call i p (get_elem? p.busy i)

    unfoldable pub pool_step : PoolEvent A → Pool A → Exec (Pool A)
    unfolding submit finish
    pool_step (submits a) p = submit a p
    pool_step (finishes i) p = finish i p
    pool_step stops p = done (record p { stopped = true })

    unfoldable pub run_pool : List (PoolEvent A) → Pool A → Exec (Pool A)
    unfolding pool_step
    run_pool [] p = done p
    run_pool (e ∷ es) p = pool_step e p >>= run_pool es

module _ (g : Grpc) {M S : Type 0} (c : Codec M) (text : Err → Bytes) where
  abbrev pub answer_with : UnaryRpcArgs (Handler M) S → Option RequestHeader → Exec Rpc
  answer_with args none = panicked
  answer_with args (some h) =
      process_unary_rpc g c text args.info.name args.md.method_name args.md.handler args.rpc h

  -- What a worker does with its call; `dispatch` hands over none without a header.
  unfoldable pub answer_args : UnaryRpcArgs (Handler M) S → Exec Rpc
  answer_args args = answer_with args args.rpc.header
