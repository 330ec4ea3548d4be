-- ===== src/Source/Preflight/Identity.antt =====
-- The names that serverIdentity of internal/source/mysql/source.go gives to servers.
use mulligan.Base.{ℕ, ◌≡◌, sym, ap, ◌∙◌, Option, some, [], ◌∷◌, ◌++◌, ok, arith}
use mulligan.Base.Text.{Bytes, codes, split_first, split_first-append, Lacks}
use mulligan.Base.Unicode.{Unicode}
use mulligan.Source.Preflight.{
  Flavor, mysql, mariadb, or_empty, identity_mysql, identity_mariadb, server_identity,
}

-- The variables that name a server.
abbrev pub uuid_of : (Bytes → Option Bytes) → Bytes
uuid_of vars = or_empty (vars (codes "server_uuid"))

abbrev pub domain_of : (Bytes → Option Bytes) → Bytes
domain_of vars = or_empty (vars (codes "gtid_domain_id"))

abbrev pub server_of : (Bytes → Option Bytes) → Bytes
server_of vars = or_empty (vars (codes "server_id"))

-- What the variables of two servers agree in where the servers are the same one.
abbrev pub SameServer : Flavor → (Bytes → Option Bytes) → Flavor → (Bytes → Option Bytes) → Type 0
SameServer mysql vars mysql others = uuid_of vars ≡ uuid_of others
SameServer mariadb vars mariadb others =
    (domain_of vars ≡ domain_of others) × (server_of vars ≡ server_of others)
SameServer mysql vars mariadb others = ⊥
SameServer mariadb vars mysql others = ⊥

parts_unique :
    (d e s t : Bytes)
    → Lacks b':' d
    → Lacks b':' e
    → d ++ b':' ∷ s ≡ e ++ b':' ∷ t
    → (d ≡ e) × (s ≡ t)
parts_unique d e s t hd he h = pair (
    sym (split_first-append b':' d s hd) ∙ ap (split_first b':') h ∙ split_first-append b':' e t he)
  where
    pair : ◌≡◌ {A = Option (Bytes × Bytes)} (some (d, s)) (some (e, t)) → (d ≡ e) × (s ≡ t)
    pair p = (cc, cc)

differ : {s t : Bytes} → codes "mysql:" ++ s ≡ codes "mariadb:" ++ t → ⊥
differ {s} {t} p = clash (ap second p)
  where
    second : Bytes → ℕ
    second (a ∷ b ∷ rest) = b
    second rest = 0

    clash : ◌≡◌ {A = ℕ} b'y' b'a' → ⊥
    clash h = omega arith

cut_mysql : {s t : Bytes} → codes "mysql:" ++ s ≡ codes "mysql:" ++ t → s ≡ t
cut_mysql p = cc

cut_mariadb : {s t : Bytes} → codes "mariadb:" ++ s ≡ codes "mariadb:" ++ t → s ≡ t
cut_mariadb p = cc

module _ (u : Unicode) where
  identity_mysql-shape :
      (uuid mode i g : Bytes) → identity_mysql u uuid mode ≡ ok (i, g) → i ≡ codes "mysql:" ++ uuid
  unfolding identity_mysql
  identity_mysql-shape [] mode i g h = cc
  identity_mysql-shape (c ∷ uuid) mode i g h = cc

  identity_mariadb-shape :
      (domain server i g : Bytes)
      → identity_mariadb u domain server ≡ ok (i, g)
      → i ≡ codes "mariadb:" ++ (domain ++ b':' ∷ server)
  unfolding identity_mariadb
  identity_mariadb-shape domain [] i g h = cc
  identity_mariadb-shape domain (c ∷ server) i g h = cc

  named_mysql :
      (vars : Bytes → Option Bytes) (i g : Bytes)
      → server_identity u mysql vars ≡ ok (i, g)
      → i ≡ codes "mysql:" ++ uuid_of vars
  unfolding server_identity
  named_mysql vars i g h =
      identity_mysql-shape (uuid_of vars) (or_empty (vars (codes "gtid_mode"))) i g h

  named_mariadb :
      (vars : Bytes → Option Bytes) (i g : Bytes)
      → server_identity u mariadb vars ≡ ok (i, g)
      → i ≡ codes "mariadb:" ++ (domain_of vars ++ b':' ∷ server_of vars)
  unfolding server_identity
  named_mariadb vars i g h = identity_mariadb-shape (domain_of vars) (server_of vars) i g h

  -- Where two servers get the same identity, they are of the same flavor, and report the same
  -- server_uuid (MySQL), or the same domain and the same server id (MariaDB), if neither domain has
  -- a colon.
  pub server_identity-SameServer :
      (f g : Flavor) (vars others : Bytes → Option Bytes) (i d e : Bytes)
      → Lacks b':' (domain_of vars)
      → Lacks b':' (domain_of others)
      → server_identity u f vars ≡ ok (i, d)
      → server_identity u g others ≡ ok (i, e)
      → SameServer f vars g others
  server_identity-SameServer mysql mysql vars others i d e hd he h k =
      cut_mysql (sym (named_mysql vars i d h) ∙ named_mysql others i e k)
  server_identity-SameServer mariadb mariadb vars others i d e hd he h k =
      parts_unique (domain_of vars) (domain_of others) (server_of vars) (server_of others) hd he
        (cut_mariadb (sym (named_mariadb vars i d h) ∙ named_mariadb others i e k))
  server_identity-SameServer mysql mariadb vars others i d e hd he h k =
      differ (sym (named_mysql vars i d h) ∙ named_mariadb others i e k)
  server_identity-SameServer mariadb mysql vars others i d e hd he h k =
      differ (sym (named_mysql others i e k) ∙ named_mariadb vars i d h)
