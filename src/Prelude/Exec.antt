-- ===== src/Prelude/Exec.antt =====
-- Asynchronous methods over a shared state. What was written before an error stays written, so the
-- state comes back beside every result. Awaits are taken in program order, and the futures that
-- `join_all` drives in the order of their list: one of the schedules of the executor.
pub mod Budget
use mathlib.Core.Path.{◌≡◌, refl}
use mathlib.Core.List.{List, [], ◌∷◌}
use read_rpc.Prelude.Words.{Text}
use read_rpc.Prelude.Outcome.{Result, ok, err, panic}

abbrev pub Exec {ℓ} : Type ℓ → Type ℓ → Type ℓ
Exec S A = S → Result A × S

module _ {ℓ} {S A : Type ℓ} where
  abbrev pub pure : A → Exec S A
  pure a s = (ok a, s)

  abbrev pub fail : Text → Exec S A
  fail e s = (err e, s)

  abbrev pub lift : Result A → Exec S A
  lift r s = (r, s)

  abbrev pub gets : (S → A) → Exec S A
  gets f s = (ok (f s), s)

abbrev pub update {ℓ} : {S : Type ℓ} → (S → S) → Exec S (Unit {ℓ})
update f s = (ok tt, f s)

module _ {ℓ} {S A B : Type ℓ} where
  abbrev pub continue : Result A → (A → Exec S B) → Exec S B
  continue (ok a) f s = f a s
  continue (err e) f s = (err e, s)
  continue (panic p) f s = (panic p, s)

  infixl 10 ◌>>=◌ ◌>>◌
  abbrev pub ◌>>=◌ : Exec S A → (A → Exec S B) → Exec S B
  ◌>>=◌ m f s = let (r, s') = m s in continue r f s'

  abbrev pub ◌>>◌ : Exec S A → Exec S B → Exec S B
  m >> n = m >>= λ _. n

  -- `if let Ok(a) = m { f(a) } else { d }`, and `match m { Ok(a) => f(a), Err(e) => d }`
  abbrev pub on_ok : Result A → (A → Exec S B) → Exec S B → Exec S B
  on_ok (ok a) f d s = f a s
  on_ok (err e) f d s = d s
  on_ok (panic p) f d s = (panic p, s)

  abbrev pub if_ok : Exec S A → (A → Exec S B) → Exec S B → Exec S B
  if_ok m f d s = let (r, s') = m s in on_ok r f d s'

-- The first error in the list is the result, after all have run; a panic ends the task at once.
abbrev pub first_error {ℓ} : Text → Result (Unit {ℓ}) → Result (Unit {ℓ})
first_error e (ok _) = err e
first_error e (err _) = err e
first_error e (panic p) = panic p

module _ {ℓ} {S : Type ℓ} where
  abbrev pub join : Result (Unit {ℓ}) → Exec S (Unit {ℓ}) → Exec S (Unit {ℓ})
  join (ok _) rest s = rest s
  join (err e) rest s = let (r, s') = rest s in (first_error e r, s')
  join (panic p) rest s = (panic p, s)

  -- `join_all(futures).await.into_iter().collect::<anyhow::Result<_>>()`
  unfoldable pub join_all : List (Exec S (Unit {ℓ})) → Exec S (Unit {ℓ})
  join_all [] s = (ok tt, s)
  join_all (m ∷ ms) s = let (r, s') = m s in join r (join_all ms) s'

  -- `for x in xs { m(x)?; }`
  unfoldable pub each : {A : Type ℓ} → List A → (A → Exec S (Unit {ℓ})) → Exec S (Unit {ℓ})
  each [] m s = (ok tt, s)
  each (x ∷ xs) m s = let (r, s') = m x s in continue r (λ _. each xs m) s'
