-- ===== src/Prelude/Outcome.antt =====
-- `anyhow::Result`, with the panics of `expect` and of indexing as a third outcome: a panic is not
-- caught by `?`, `if let Ok` or `unwrap_or`, and ends the task.
use mathlib.Core.Path.{◌≡◌}
use mathlib.Core.Option.{Option, none, some}
use read_rpc.Prelude.Words.{Text}

pub data Result {ℓ} (A : Type ℓ) : Type ℓ where
  ok : A → Result A
  err : Text → Result A
  panic : Text → Result A

infixl 5 ◌>>=◌ ◌>>◌
abbrev pub ◌>>=◌ {ℓ κ} : {A : Type ℓ} {B : Type κ} → Result A → (A → Result B) → Result B
ok a >>= f = f a
err e >>= f = err e
panic p >>= f = panic p

abbrev pub ◌>>◌ {ℓ κ} : {A : Type ℓ} {B : Type κ} → Result A → Result B → Result B
m >> k = m >>= λ _. k

-- `ok_or`
abbrev pub ok_or {ℓ} : {A : Type ℓ} → Option A → Text → Result A
ok_or none e = err e
ok_or (some a) e = ok a

-- `expect`
abbrev pub expect {ℓ} : {A : Type ℓ} → Option A → Text → Result A
expect none p = panic p
expect (some a) p = ok a

-- `unwrap_or`
abbrev pub unwrap_or {ℓ} : {A : Type ℓ} → Result A → A → Result A
unwrap_or (ok a) d = ok a
unwrap_or (err e) d = ok d
unwrap_or (panic p) d = panic p

-- `ok()`
abbrev pub to_option {ℓ} : {A : Type ℓ} → Result A → Option A
to_option (ok a) = some a
to_option (err e) = none
to_option (panic p) = none

pub ok-injective {ℓ} : {A : Type ℓ} {a b : A} → ok a ≡ ok b → a ≡ b
ok-injective h = cc
