-- ===== src/Bundle/Lifecycle/Monad.antt =====
-- internal/bundle/lifecycle.go: a method that changes the disk and may return an error. What was
-- written before the error stays written.
use ssc_init.Base.{Bool, true, false, Option, none, some, if◌then◌else◌}
use ssc_init.Bundle.Disk.{World, Effect, is_cancelled}

-- `ctx.Err()`, `ErrInstall`, `ErrRollback`, `ErrActiveUnavailable`
pub data Error : Type 0 where
  cancelled install_failed rollback_refused active_unavailable : Error

pub data Result (A : Type 0) : Type 0 where
  ok : A → Result A
  err : Error → Result A

abbrev pub Io : Type 0 → Type 0
Io A = World → Result A × World

module _ {A : Type 0} where
  abbrev pub pure : A → Io A
  pure a w = (ok a, w)

  abbrev pub raise : Error → Io A
  raise e w = (err e, w)

  abbrev pub lift : Effect A → Io A
  lift m w = let (a, w') = m w in (ok a, w')

  abbrev pub some_or : Option A → Error → Io A
  some_or none e = raise e
  some_or (some a) e = pure a

-- What follows a result; an error ends the method.
unfoldable pub continue : {A B : Type 0} → (A → Io B) → Result A × World → Result B × World
continue f (ok a, w) = f a w
continue f (err e, w) = raise e w

infixl 5 ◌>>=◌ ◌>>◌
abbrev pub ◌>>=◌ : {A B : Type 0} → Io A → (A → Io B) → Io B
◌>>=◌ m f w = continue f (m w)

abbrev pub ◌>>◌ : {A B : Type 0} → Io A → Io B → Io B
m >> k = m >>= λ _. k

-- An early return where the condition does not hold.
abbrev pub require : Bool → Error → Io Unit
require true e = pure tt
require false e = raise e

abbrev pub must : Effect Bool → Error → Io Unit
must m e = lift m >>= λ good. require good e

-- `if err := ctx.Err(); err != nil { return … }`
abbrev pub check_context : Io Unit
check_context = lift is_cancelled >>= λ gone. if gone then raise cancelled else pure tt
