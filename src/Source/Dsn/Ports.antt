-- ===== src/Source/Dsn/Ports.antt =====
-- The port of an address.
use mulligan.Base.{
  ℕ, zero, suc, ◌+◌, ◌-◌, ◌*◌, ◌/◌, ◌%◌, ◌^◌, ◌<◌, ◌≡◌, refl, ap, ◌∙◌, ◌||◌, Option, none, some, [],
  ◌∷◌, ◌++◌, ltb, All-append, arith, Bool-cases, inl, inr,
}
use mulligan.Base.Text.{Bytes, split_last, split_last-append, Lacks}
use mulligan.Base.Strings.{decimal, format_uint}
use mulligan.Source.Dsn.{host_of, port_of, port_after, port_or_default, port_digits}

abbrev pub IsPort : ℕ → Type 0
IsPort p = (0 < p) × (p < 2 ^ 16)

Below : Option ℕ → Type 0
Below none = Unit {0}
Below (some p) = p < 2 ^ 16

port_digits-Below : (s : Bytes) (p : ℕ) → p < 2 ^ 16 → Below (port_digits p s)
unfolding port_digits Below
port_digits-Below [] p h = h
port_digits-Below (c ∷ s) p h = elim (Bool-cases (ltb c b'0' || ltb b'9' c)) [
  | inl e ↦ rw (e) tt
  | inr e ↦ rw (e) (port_digits-Below s ((p * 10 + (c - b'0')) % 2 ^ 16) (omega arith))
]

port_or_default-IsPort : (o : Option ℕ) → Below o → IsPort (port_or_default o)
unfolding port_or_default Below
port_or_default-IsPort none h = (omega arith, omega arith)
port_or_default-IsPort (some p) h = ground arith

port_after-IsPort : (o : Option (Bytes × Bytes)) → IsPort (port_after o)
unfolding port_after
port_after-IsPort none = (omega arith, omega arith)
port_after-IsPort (some (host, port)) =
    port_or_default-IsPort (port_digits 0 port) (port_digits-Below port 0 (omega arith))

port_digits-snoc :
    (xs : Bytes) (p q d : ℕ)
    → d < 10
    → port_digits p xs ≡ some q
    → port_digits p (xs ++ (b'0' + d) ∷ []) ≡ some ((q * 10 + d) % 2 ^ 16)
unfolding port_digits
port_digits-snoc [] p q d h e = ground arith
port_digits-snoc (c ∷ xs) p q d h e = elim (Bool-cases (ltb c b'0' || ltb b'9' c)) [
  | inl x ↦ absurd (not_some (rw (x) at e))
  | inr x ↦ rw (x) (port_digits-snoc xs ((p * 10 + (c - b'0')) % 2 ^ 16) q d h (rw (x) at e))
]
  where
    not_some : {n : ℕ} → ◌≡◌ {A = Option ℕ} none (some n) → ⊥
    not_some q = cc

tenth : (k n : ℕ) → n < 10 ^ suc (suc k) → n / 10 < 10 ^ suc k
tenth k n h = omega arith

port_digits-decimal : (k n : ℕ) → n < 2 ^ 16 → n < 10 ^ suc k → port_digits 0 (decimal k n) ≡ some n
unfolding decimal port_digits
port_digits-decimal zero n h hk = ground arith
port_digits-decimal (suc k) n h hk = elim (Bool-cases (ltb n 10)) [
  | inl e ↦ rw (e) (ground arith)
  | inr e ↦ rw (e) (
      port_digits-snoc (decimal k (n / 10)) 0 (n / 10) (n % 10) (omega arith)
        (port_digits-decimal k (n / 10) (omega arith) (tenth k n hk))
      ∙ ap some (omega arith))
]

decimal-Lacks : (k n : ℕ) → Lacks b':' (decimal k n)
unfolding decimal
decimal-Lacks zero n = (ground arith, tt)
decimal-Lacks (suc k) n = elim (Bool-cases (ltb n 10)) [
  | inl e ↦ rw (e) (ground arith, tt)
  | inr e ↦
      rw (e) (All-append _ (decimal k (n / 10)) _ (decimal-Lacks k (n / 10)) (ground arith, tt))
]

-- Whatever the address is, its port is a number from 1 to 65535; and where the number of such a port
-- is written behind a host and a colon, the port is that number and the host that host.
pub port_of-IsPort :
    (addr host : Bytes) (n : ℕ)
    → IsPort n
    → IsPort (port_of addr)
      × (port_of (host ++ b':' ∷ format_uint n) ≡ n)
      × (host_of (host ++ b':' ∷ format_uint n) ≡ host)
unfolding port_of host_of port_after port_or_default format_uint
port_of-IsPort addr host n (h0, h) = (
  port_after-IsPort (split_last b':' addr),
  rw
      (
        split_last-append b':' host (decimal 19 n) (decimal-Lacks 19 n),
        port_digits-decimal 19 n h (omega arith),
      )
      (ground arith),
  rw (split_last-append b':' host (decimal 19 n) (decimal-Lacks 19 n)) refl,
)
