-- ===== src/Exec/Results.antt =====
-- do blocks for results with no state, and what every successful result has.
use agents_router.Prelude.{Bool, true, false, Option, none, some}
use agents_router.Exec.{Result, ok, err}

infixl 10 ◌>>◌
abbrev pub ◌>>◌ {ℓ} : {B : Type ℓ} → Result (Unit {0}) → Result B → Result B
ok checked >> next = next
err e >> next = err e

-- `let Some(a) = option else { return Ok(answer) }`
abbrev pub or_return {ℓ κ} : {A : Type ℓ} {B : Type κ} → Option A → B → (A → Result B) → Result B
or_return none answer f = ok answer
or_return (some a) answer f = f a

-- `if !test { return Ok(answer) }`
abbrev pub return_unless {ℓ} : {B : Type ℓ} → Bool → B → (Unit {0} → Result B) → Result B
return_unless true answer f = f tt
return_unless false answer f = ok answer

-- The value of a `?`, handed to the rest of the function
infixl 10 ◌>>=◌
abbrev pub ◌>>=◌ {ℓ κ} : {B : Type κ} {A : Type ℓ} → Result A → (A → Result B) → Result B
err e >>= rest = err e
ok value >>= rest = rest value
