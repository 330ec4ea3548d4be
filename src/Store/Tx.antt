-- ===== src/Store/Tx.antt =====
-- A store transaction. Each call of the driver may fail: the faults say which calls do, and calls
-- behind the last of them succeed. A transaction that fails anywhere is rolled back.
use mulligan.Base.{
  ◌≡◌, refl, Bool, true, false, List, [], ◌∷◌, Result, ok, err, Result-cases, inl, inr, ◌⊎◌, arith,
  ap, sym, ◌∙◌,
}
use mulligan.Store.Schema.{Tables, StoreError, driver}

abbrev pub Faults : Type 0
Faults = List Bool

pub record Session : Type 0 where
  pub tables : Tables
  pub faults : Faults

abbrev pub session : Tables → Faults → Session
session t fs = record { tables = t; faults = fs }

abbrev pub Tx : Type 0 → Type 0
Tx A = Session → Result StoreError (A × Session)

infixl 5 ◌>>=◌ ◌>>◌
abbrev pub ◌>>=◌ : {A B : Type 0} → Tx A → (A → Tx B) → Tx B
◌>>=◌ m k s = elim (m s) [ ok p ↦ k p.0 p.1 | err e ↦ err e ]

abbrev pub ◌>>◌ : {B : Type 0} → Tx (Unit {0}) → Tx B → Tx B
◌>>◌ m k s = elim (m s) [ ok p ↦ k p.1 | err e ↦ err e ]

abbrev pub give : {A : Type 0} → A → Tx A
give a s = ok (a, s)

abbrev pub fail : {A : Type 0} → StoreError → Tx A
fail e s = err e

-- What needs no driver, such as encoding.
abbrev pub from_result : {A : Type 0} → Result StoreError A → Tx A
from_result (ok a) s = ok (a, s)
from_result (err e) s = err e

call_with : {A : Type 0} → Faults → (Tables → A × Tables) → Tables → Result StoreError (A × Session)
call_with [] op t = ok ((op t).0, session (op t).1 [])
call_with (true ∷ fs) op t = err driver
call_with (false ∷ fs) op t = ok ((op t).0, session (op t).1 fs)

-- One call of the driver.
unfoldable pub call : {A : Type 0} → (Tables → A × Tables) → Tx A
unfolding call_with
call op s = call_with s.faults op s.tables

abbrev pub query : {A : Type 0} → (Tables → A) → Tx A
query f = call (λ t. (f t, t))

abbrev pub exec : (Tables → Tables) → Tx (Unit {0})
exec f = call (λ t. (tt, f t))

abbrev pub settle :
    {A : Type 0} → Tables → Result StoreError (A × Session) → Tables × Result StoreError A
settle t (ok p) = (p.1.tables, ok p.0)
settle t (err e) = (t, err e)

-- `tx, err := db.Begin(); defer tx.Rollback(); …; tx.Commit()`
unfoldable pub transact : {A : Type 0} → Tx A → Tables → Faults → Tables × Result StoreError A
transact m t fs = settle t ((do exec (λ u. u); a ← m; exec (λ u. u); give a) (session t fs))

-- A transaction that only reads ends without a commit.
unfoldable pub read_only : {A : Type 0} → Tx A → Tables → Faults → Result StoreError A
read_only m t fs = (settle t ((exec (λ u. u) >> m) (session t fs))).1

-- Where a body succeeds, it does what it does when no call fails.
abbrev pub Steady : {A : Type 0} → Tx A → Type 0
Steady {A} m =
    (t : Tables) (fs : Faults) (a : A) (s : Session)
    → m (session t fs) ≡ ok (a, s)
    → m (session t []) ≡ ok (a, session s.tables [])

pub give-Steady : {A : Type 0} (a : A) → Steady (give a)
give-Steady a t fs a' s h = ground arith

pub fail-Steady : {A : Type 0} (e : StoreError) → Steady {A = A} (fail e)
fail-Steady e t fs a s h = absurd (cc)

pub from_result-Steady : {A : Type 0} (r : Result StoreError A) → Steady (from_result r)
from_result-Steady (ok a) t fs a' s h = ground arith
from_result-Steady (err e) t fs a s h = absurd (cc)

pub call-Steady : {A : Type 0} (op : Tables → A × Tables) → Steady (call op)
unfolding call
call-Steady op t [] a s h = ground arith
call-Steady op t (true ∷ fs) a s h = absurd (cc)
call-Steady op t (false ∷ fs) a s h = ground arith

pub >>=-Steady :
    {A B : Type 0} (m : Tx A) (k : A → Tx B)
    → Steady m
    → ((a : A) → Steady (k a))
    → Steady (m >>= k)
>>=-Steady m k hm hk t fs b s h = elim (Result-cases (m (session t fs))) [
  | inl ((a, s'), e) ↦
      rw (hm t fs a s' e, ◌>>=◌) (hk a s'.tables s'.faults b s (rw (e, ◌>>=◌) at h))
  | inr (x, e) ↦ absurd (ground arith)
]

pub >>-Steady : {B : Type 0} (m : Tx (Unit {0})) (k : Tx B) → Steady m → Steady k → Steady (m >> k)
>>-Steady m k hm hk t fs b s h = elim (Result-cases (m (session t fs))) [
  | inl ((a, s'), e) ↦ rw (hm t fs a s' e, ◌>>◌) (hk s'.tables s'.faults b s (rw (e, ◌>>◌) at h))
  | inr (x, e) ↦ absurd (ground arith)
]

-- A body that commits by itself.
pub settle-cases :
    {A : Type 0} (m : Tx A) (t : Tables) (fs : Faults)
    → Steady m
    → ((e : StoreError) × (settle t (m (session t fs)) ≡ (t, err e)))
      ⊎ (settle t (m (session t fs)) ≡ settle t (m (session t [])))
settle-cases {A} m t fs h = go _ refl
  where
    go :
        (r : Result StoreError (A × Session))
        → m (session t fs) ≡ r
        → ((e : StoreError) × (settle t (m (session t fs)) ≡ (t, err e)))
          ⊎ (settle t (m (session t fs)) ≡ settle t (m (session t [])))
    go (err e) p = inl (e, ap (settle t) p)
    go (ok (a, s)) p = inr (ap (settle t) p ∙ sym (ap (settle t) (h t fs a s p)))

-- A transaction does all or nothing: it fails and the tables are as before, or it does exactly what
-- it does when no call of the driver fails.
pub transact-cases :
    {A : Type 0} (m : Tx A) (t : Tables) (fs : Faults)
    → Steady m
    → ((e : StoreError) × (transact m t fs ≡ (t, err e))) ⊎ (transact m t fs ≡ transact m t [])
unfolding transact
transact-cases {A} m t fs h = settle-cases body t fs body-Steady
  where
    finish : A → Tx A
    finish a = do exec (λ u. u); give a

    body : Tx A
    body = do exec (λ u. u); a ← m; finish a

    body-Steady : Steady body
    body-Steady = >>-Steady (exec (λ u. u)) (m >>= finish) (call-Steady _) (
        >>=-Steady m finish h
          λ a. >>-Steady (exec (λ u. u)) (give a) (call-Steady _) (give-Steady a))
