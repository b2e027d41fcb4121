-- ===== src/Database/Keeps.antt =====
-- A property of the state that the steps of a call keep is kept by the call.
use weasyl.Prelude.{◌≡◌, refl, sym, subst, Bool, true, false, List, arith, if◌then◌else◌}
use weasyl.Database.Actions.{
  ActionOn, Result, ok, err, ◌>>=◌, ◌>>◌, raise, transaction, Fault, serializable_retry,
  operational_error,
}
use weasyl.Database.Retry.{gets_through, serializable_retry_lem}

module _ {S : Type 0} (P : S → Type 0) where
  pub transaction-keeps :
      {A : Type 0} (action : ActionOn S A) (s : S)
      → P s
      → P (action s).1
      → P (transaction action s).1
  transaction-keeps action s before after = go (action s).0 (action s).1 before after
    where
      go :
          {A : Type 0} (r : Result A) (s' : S)
          → P s
          → P s'
          → P (elim r as (λ _. Result A × S) [ ok a ↦ (ok a, s') | err e ↦ (err e, s) ]).1
      go (ok a) s' before after = after
      go (err e) s' before after = before

  -- Any number of attempts.
  pub serializable_retry-keeps :
      (faults : List Fault) (action : ActionOn S Unit) (s : S)
      → P s
      → P (action s).1
      → P (serializable_retry faults action s).1
  serializable_retry-keeps faults action s before after =
      subst (λ x. P x.1) (sym (serializable_retry_lem faults action s)) (go (gets_through faults))
    where
      go : (b : Bool) → P (if b then transaction action s else (err operational_error, s)).1
      go true = transaction-keeps action s before after
      go false = before

  pub bind-keeps :
      {A B : Type 0} (m : ActionOn S A) (f : A → ActionOn S B) (s : S)
      → P (m s).1
      → ((a : A) (s : S) → P s → P (f a s).1)
      → P ((m >>= f) s).1
  bind-keeps m f s h step = go f (m s).0 (m s).1 h step
    where
      go :
          {A B : Type 0} (f : A → ActionOn S B) (r : Result A) (s : S)
          → P s
          → ((a : A) (s : S) → P s → P (f a s).1)
          → P (elim r as (λ _. Result B × S) [ ok a ↦ f a s | err e ↦ raise e s ]).1
      go f (ok a) s h step = step a s h
      go f (err e) s h step = h

  -- What is committed, where only an attempt that returns is known to keep the property.
  pub serializable_retry-commits :
      (faults : List Fault) (action : ActionOn S Unit) (s : S)
      → P s
      → ((action s).0 ≡ ok tt → P (action s).1)
      → P (serializable_retry faults action s).1
  serializable_retry-commits faults action s before after =
      subst (λ x. P x.1) (sym (serializable_retry_lem faults action s)) (go (gets_through faults))
    where
      commit :
          (r : Result Unit) (s' : S)
          → (r ≡ ok tt → P s')
          → P (elim r as (λ _. Result Unit × S) [ ok a ↦ (ok a, s') | err e ↦ (err e, s) ]).1
      commit (ok tt) s' after = after refl
      commit (err e) s' after = before

      go : (b : Bool) → P (if b then transaction action s else (err operational_error, s)).1
      go true = commit (action s).0 (action s).1 after
      go false = before

-- What holds after two calls in a row that both return.
pub then-ok :
    {S : Type 0} (M N : S → Type 0) (m k : ActionOn S Unit) (s : S)
    → ((m s).0 ≡ ok tt → M (m s).1)
    → ((s : S) → M s → (k s).0 ≡ ok tt → N (k s).1)
    → ((m >> k) s).0 ≡ ok tt
    → N ((m >> k) s).1
then-ok M N m k s first second = go M N k (m s).0 (m s).1 first second
  where
    go :
        {S : Type 0} (M N : S → Type 0) (k : ActionOn S Unit) (r : Result Unit) (s : S)
        → (r ≡ ok tt → M s)
        → ((s : S) → M s → (k s).0 ≡ ok tt → N (k s).1)
        → (elim r as (λ _. Result Unit × S) [ ok a ↦ k s | err e ↦ raise e s ]).0 ≡ ok tt
        → N (elim r as (λ _. Result Unit × S) [ ok a ↦ k s | err e ↦ raise e s ]).1
    go M N k (ok tt) s first second h = second s (first refl) h
    go M N k (err e) s first second h = absurd (ground (arith, h))

pub transaction-ok :
    {S : Type 0} (m : ActionOn S Unit) (db : S)
    → (m db).0 ≡ ok tt
    → transaction m db ≡ (ok tt, (m db).1)
transaction-ok m db h = rw (transaction, h) refl
