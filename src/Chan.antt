-- ===== src/Chan.antt =====
-- Go's buffered channels on a store, as internal/client/multiplexer.go uses them. The store maps
-- every address to a channel; an address that was not handed out yet is not read.
use goat.Base.{
  ℕ, ◌≡◌, ◌≢◌, Bool, true, false, List, [], ◌∷◌, ◌++◌, arith, ltb, nat_eq, length, if◌then◌else◌,
}

pub record Chan (A : Type 0) : Type 0 where
  pub buffer : List A
  pub capacity : ℕ
  pub closed : Bool

-- What an operation does: it ends, it waits, or the program panics.
pub data Exec (S : Type 0) : Type 0 where
  done : S → Exec S
  blocked panicked : Exec S

infixl 5 ◌>>=◌
abbrev pub ◌>>=◌ : {S T : Type 0} → Exec S → (S → Exec T) → Exec T
done s >>= f = f s
blocked >>= f = blocked
panicked >>= f = panicked

-- What a receive finds.
pub data Received (A : Type 0) : Type 0 where
  value : A → Received A
  nothing_closed : Received A

module _ {A : Type 0} where
  -- make(chan A, n)
  unfoldable pub make : ℕ → Chan A
  make n = record { buffer = []; capacity = n; closed = false }

  -- c <- a
  unfoldable pub send : Chan A → A → Exec (Chan A)
  send c a =
      if c.closed
      then panicked
      else if ltb (length c.buffer) c.capacity
      then done (record c { buffer = c.buffer ++ a ∷ [] })
      else blocked

  -- close(c)
  unfoldable pub close : Chan A → Exec (Chan A)
  close c = if c.closed then panicked else done (record c { closed = true })

  abbrev receive_from : List A → Chan A → Exec (Chan A × Received A)
  receive_from [] c = if c.closed then done (c, nothing_closed) else blocked
  receive_from (a ∷ rest) c = done (record c { buffer = rest }, value a)

  -- a, ok := <-c
  unfoldable pub receive : Chan A → Exec (Chan A × Received A)
  receive c = receive_from c.buffer c

abbrev pub Store : Type 0 → Type 0
Store A = ℕ → Chan A

abbrev pub update : {A : Type 0} → Store A → ℕ → Chan A → Store A
update chans a c b = if nat_eq a b then c else chans b

module _ {A : Type 0} (chans : Store A) where
  pub update_self : (a : ℕ) (c : Chan A) → update chans a c a ≡ c
  update_self a c = ground arith

  pub update_ne : (a b : ℕ) (c : Chan A) → a ≢ b → update chans a c b ≡ chans b
  update_ne a b c h = ground arith
