-- ===== src/Server/Stream/Run.antt =====
-- What a handler may do with its stream of internal/server/stream.go, as a sequence of calls, each
-- with the transport's answer to its write.
use goat.Base.{Option, none, List, [], ◌∷◌, ◌++◌}
use goat.Rpc.{Rpc, Err, Codec}
use goat.Encoding.Metadata.{Md}
use goat.Grpc.{Grpc}
use goat.Server.Stream.{
  ServerStream, Outcome, set_header, send_header, set_trailer, send_msg, send_trailer,
}

pub data Op (M : Type 0) : Type 0 where
  set_header_op : Md → Op M
  send_header_op : Md → Op M
  set_trailer_op : Md → Op M
  send_msg_op : M → Op M
  send_trailer_op : Option Err → Op M

module _ (g : Grpc) {M : Type 0} (c : Codec M) where
  unfoldable pub apply : ServerStream → Op M → Option Err → Outcome
  apply s (set_header_op md) w = set_header g s md
  apply s (send_header_op md) w = send_header g s md w
  apply s (set_trailer_op md) w = set_trailer g s md
  apply s (send_msg_op m) w = send_msg g c s m w
  apply s (send_trailer_op e) w = send_trailer g s e w

  -- All that the calls write, in order.
  unfoldable pub written : ServerStream → List (Op M × Option Err) → List Rpc
  written s [] = []
  written s ((op, w) ∷ ops) = let o = apply s op w in o.writes ++ written o.next ops

-- The same calls over a transport that never fails.
abbrev pub reliable {ℓ} : {A : Type ℓ} → List A → List (A × Option Err)
reliable [] = []
reliable (op ∷ ops) = (op, none) ∷ reliable ops
