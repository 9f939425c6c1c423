-- ===== src/Grpc.antt =====
-- What the code uses of grpc-go's packages status and metadata, which are not in the repository: an
-- interface with the behaviour that they document, and a value that has it.
use goat.Base.{
  insert, ◌∷◌, ◌++◌, Bytes_eq, ℕ, ◌≡◌, ◌≢◌, refl, Bool, true, false, Option, none, some, List, [],
  arith, nat_eq, if◌then◌else◌,
}
use goat.Rpc.{ResponseStatus, Err, canceled, deadline_exceeded, status_err}
use goat.Encoding.Metadata.{Md, get}

pub record Grpc : Type 0 where
  -- metadata.Join
  pub join : List Md → Md
  -- status.FromError, with its flag
  pub from_error : Err → ResponseStatus × Bool
  -- status.FromContextError
  pub from_context_error : Err → ResponseStatus
  -- status.FromProto(s).Err()
  pub status_error : ResponseStatus → Option Err
  -- "If err was produced by this package, returns that status", and true.
  pub from_error-status : (s : ResponseStatus) → from_error (status_err s) ≡ (s, true)
  -- "Err returns an immutable error representing s; returns nil if s.Code() is OK."
  pub status_error-ok : (s : ResponseStatus) → s.code ≡ 0 → status_error s ≡ none
  pub status_error-err : (s : ResponseStatus) → s.code ≢ 0 → status_error s ≡ some (status_err s)

-- codes.Unknown, codes.Canceled and codes.DeadlineExceeded with a text.
abbrev status_of : ℕ → ResponseStatus
status_of c = record { code = c; message = []; details = [] }

abbrev plain_from_error : Err → ResponseStatus × Bool
plain_from_error (status_err s) = (s, true)
plain_from_error _ = (status_of 2, false)

abbrev plain_from_context : Err → ResponseStatus
plain_from_context canceled = status_of 1
plain_from_context deadline_exceeded = status_of 4
plain_from_context _ = status_of 2

abbrev plain_status_error : ResponseStatus → Option Err
plain_status_error s = if nat_eq s.code 0 then none else some (status_err s)

pub plain_status_error-ok : (s : ResponseStatus) → s.code ≡ 0 → plain_status_error s ≡ none
plain_status_error-ok s h = ground arith

pub plain_status_error-err :
    (s : ResponseStatus) → s.code ≢ 0 → plain_status_error s ≡ some (status_err s)
plain_status_error-err s h = ground arith

-- Joins as documented: the values of a key stand in the order of the maps that hold them.
abbrev merge : Md → Md → Md
merge acc [] = acc
merge acc ((k, vs) ∷ md) = merge (insert k (get k acc ++ vs) acc) md

abbrev plain_join : Md → List Md → Md
plain_join acc [] = acc
plain_join acc (md ∷ mds) = plain_join (merge acc md) mds

-- An implementation for examples.
abbrev pub plain_grpc : Grpc
plain_grpc = record {
  join = plain_join [];
  from_error = plain_from_error;
  from_context_error = plain_from_context;
  status_error = plain_status_error;
  from_error-status = λ s. refl;
  status_error-ok = plain_status_error-ok;
  status_error-err = plain_status_error-err;
}
