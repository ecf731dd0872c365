-- ===== src/Run.antt =====
-- How a run of the loader ends: with a result, in `panic` of src/misc.c, which prints its message
-- and never returns, or by a fault: an access to memory that is not mapped, or a text loop that
-- uses up its fuel.
use loli_loader.Base.{Option, none, some}
use Prim.Native.String.{String}

pub data Run {ℓ} (A : Type ℓ) : Type ℓ where
  done : A → Run A
  panicked : String → Run A
  fault : Run A

infixl 5 ◌>>=◌
abbrev pub ◌>>=◌ {ℓ κ} : {A : Type ℓ} {B : Type κ} → Run A → (A → Run B) → Run B
done a >>= f = f a
panicked s >>= f = panicked s
fault >>= f = fault

abbrev pub panic {ℓ} : {A : Type ℓ} → String → Run A
panic msg = panicked msg

-- The string functions fault as `none`.
abbrev pub checked {ℓ} : {A : Type ℓ} → Option A → Run A
checked none = fault
checked (some a) = done a
