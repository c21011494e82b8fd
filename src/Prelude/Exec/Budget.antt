-- ===== src/Prelude/Exec/Budget.antt =====
-- Invariants with a budget: `Holds b` is what holds after at most `b` units were spent. An action
-- that spends `n` units takes `Holds b` to `Holds (b + n)` as long as the total stays below the
-- limit, whatever its result. One rule for each way to build an action.
use Prim.Native.Nat.{ℕ, ◌+◌, ◌≤◌, ◌<◌}
use mathlib.Core.List.{List, [], ◌∷◌, map}
use native.Mathlib.Nat.{add_assoc}
use native.Mathlib.Omega.{arith}
use read_rpc.Prelude.Outcome.{Result, ok, err, panic}
use read_rpc.Prelude.Lists.{sum}
use read_rpc.Prelude.Exec.{Exec, continue, ◌>>=◌, on_ok, if_ok, join, join_all, each}

pub record Budget {ℓ} (S : Type ℓ) : Type (ℓ + 1) where
  pub Holds : ℕ → S → Type ℓ
  pub limit : ℕ
  pub grows : (a b : ℕ) (s : S) → a ≤ b → Holds a s → Holds b s

pub record Spends {ℓ} {S A : Type ℓ} (P : Budget S) (n : ℕ) (m : Exec S A) : Type ℓ where
  pub at : (b : ℕ) (s : S) → b + n < P.limit → P.Holds b s → P.Holds (b + n) (m s).1

module _ {ℓ} {S : Type ℓ} (P : Budget S) where
  module _ {A : Type ℓ} where
    pub Spends-more : (n k : ℕ) {m : Exec S A} → n ≤ k → Spends P n m → Spends P k m
    Spends-more n k le h = record {
      at = λ b s lt p. P.grows (b + n) (b + k) _ (omega arith) (h.at b s (omega arith) p);
    }

    -- An action that keeps the invariant at every budget.
    pub Spends-free :
        (n : ℕ) (m : Exec S A) → ((b : ℕ) (s : S) → P.Holds b s → P.Holds b (m s).1) → Spends P n m
    Spends-free n m h = record { at = λ b s lt p. P.grows b (b + n) _ (omega arith) (h b s p) }

  module _ {A B : Type ℓ} where
    Spends-continue :
        (k : ℕ) (r : Result A) (f : A → Exec S B)
        → ((a : A) → Spends P k (f a))
        → Spends P k (continue r f)
    Spends-continue k (ok a) f h = h a
    Spends-continue k (err e) f h = Spends-free k _ (λ b s p. p)
    Spends-continue k (panic e) f h = Spends-free k _ (λ b s p. p)

    Spends-on_ok :
        (k : ℕ) (r : Result A) (f : A → Exec S B) (d : Exec S B)
        → ((a : A) → Spends P k (f a))
        → Spends P k d
        → Spends P k (on_ok r f d)
    Spends-on_ok k (ok a) f d h g = h a
    Spends-on_ok k (err e) f d h g = g
    Spends-on_ok k (panic e) f d h g = Spends-free k _ (λ b s p. p)

    pub Spends-bind :
        (n k : ℕ) {m : Exec S A} {f : A → Exec S B}
        → Spends P n m
        → ((a : A) → Spends P k (f a))
        → Spends P (n + k) (m >>= f)
    Spends-bind n k {m} {f} hm hf = record {
      at = λ b s lt p.
          let (r, s') = m s in
          rw (← add_assoc)
            ((Spends-continue k r f hf).at (b + n) s' (omega arith) (hm.at b s (omega arith) p));
    }

    pub Spends-if_ok :
        (n k : ℕ) {m : Exec S A} {f : A → Exec S B} {d : Exec S B}
        → Spends P n m
        → ((a : A) → Spends P k (f a))
        → Spends P k d
        → Spends P (n + k) (if_ok m f d)
    Spends-if_ok n k {m} {f} {d} hm hf hd = record {
      at = λ b s lt p.
          let (r, s') = m s in
          rw (← add_assoc)
            ((Spends-on_ok k r f d hf hd).at (b + n) s' (omega arith) (hm.at b s (omega arith) p));
    }

  Spends-join :
      (k : ℕ) (r : Result (Unit {ℓ})) {rest : Exec S (Unit {ℓ})}
      → Spends P k rest
      → Spends P k (join r rest)
  Spends-join k (ok a) h = h
  Spends-join k (err e) h = record { at = λ b s lt p. h.at b s lt p }
  Spends-join k (panic e) h = Spends-free k _ (λ b s p. p)

  -- The futures of `join_all` are the images of a list, each with its own cost.
  pub Spends-join_all :
      {A : Type ℓ} (f : A → Exec S (Unit {ℓ})) (cost : A → ℕ)
      → ((a : A) → Spends P (cost a) (f a))
      → (xs : List A) → Spends P (sum (map cost xs)) (join_all (map f xs))
  unfolding join_all
  Spends-join_all f cost h [] = Spends-free 0 _ (λ b s p. p)
  Spends-join_all f cost h (x ∷ xs) = record {
    at = λ b s lt p.
        let (r, s') = f x s in
        rw (← add_assoc) (
          (Spends-join (sum (map cost xs)) r (Spends-join_all f cost h xs)).at (b + cost x) s'
            (omega arith) ((h x).at b s (omega arith) p));
  }

  pub Spends-each :
      {A : Type ℓ} (f : A → Exec S (Unit {ℓ})) (cost : A → ℕ)
      → ((a : A) → Spends P (cost a) (f a))
      → (xs : List A) → Spends P (sum (map cost xs)) (each xs f)
  unfolding each
  Spends-each f cost h [] = Spends-free 0 _ (λ b s p. p)
  Spends-each f cost h (x ∷ xs) = record {
    at = λ b s lt p.
        let (r, s') = f x s in
        rw (← add_assoc) (
          (Spends-continue (sum (map cost xs)) r (λ _. each xs f) (λ _. Spends-each f cost h xs)).at
            (b + cost x) s' (omega arith) ((h x).at b s (omega arith) p));
  }
