-- ===== src/Programs/Frames.antt =====
-- The frame of a Go function that opens resources and defers their closing: what it has done, the latest
-- first, and what it has deferred, the latest first.
use wb_orders.Base.{List, [], ◌∷◌, Result, ok, err}

-- What a program's `run` opens: the context of the signals, the clients, and its own context.
pub data Resource : Type 0 where
  signals pool consumer_client producer run_context : Resource

module _ (L : Type 0) where
  -- `launched` is the start of the program's goroutines, with their configuration.
  pub data Act : Type 0 where
    opened closed : Resource → Act
    launched : L → Act
    canceled : Act

  pub record Frame : Type 0 where
    pub acts : List Act
    pub deferred : List Resource

-- A part of a function, which may return early with an error.
abbrev pub M : Type 0 → Type 0 → Type 0 → Type 0
M L E A = Frame L → Result E A × Frame L

-- Go on after a part that returned, or return its error.
abbrev pub go_on : {L E A B : Type 0} → Result E A × Frame L → (A → M L E B) → Result E B × Frame L
go_on (ok a, f) k = k a f
go_on (err e, f) k = (err e, f)

infixl 5 ◌>>=◌ ◌>>◌
abbrev pub ◌>>=◌ : {L E A B : Type 0} → M L E A → (A → M L E B) → M L E B
◌>>=◌ m k f = go_on (m f) k

abbrev pub ◌>>◌ : {L E B : Type 0} → M L E (Unit {0}) → M L E B → M L E B
m >> k = m >>= λ _. k

module _ {L E : Type 0} where
  abbrev pub lift : {A : Type 0} → Result E A → M L E A
  lift r f = (r, f)

  -- A resource that is open, with its closing deferred.
  unfoldable pub acquire : Resource → M L E (Unit {0})
  acquire r f = (ok tt, record { acts = opened r ∷ f.acts; deferred = r ∷ f.deferred })

  unfoldable pub note : Act L → M L E (Unit {0})
  note a f = (ok tt, record f { acts = a ∷ f.acts })

-- The deferred calls, when the function returns.
unfoldable pub leave : {L : Type 0} → List Resource → List (Act L) → List (Act L)
leave [] acts = acts
leave (r ∷ rs) acts = leave rs (closed r ∷ acts)
