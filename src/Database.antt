-- ===== src/Database.antt =====
-- internal/platform/database/database.go: transactions over a store of tables.
--
-- The tables that a transaction reads and writes are one value of type `S`. A transaction that
-- fails is rolled back: the store that it started from is the one that stays. A lost connection, a
-- failed commit and a panic are not modelled.
use racetify_api.Base.{String, ◌==◌, if◌then◌else◌}
use racetify_api.Domain.{other, Result, ok, err}

-- What runs inside a transaction.
abbrev pub Tx : Type 0 → Type 0 → Type 0
Tx S A = S → Result (A × S)

module _ {S : Type 0} where
  -- WithTx: commit on success, roll back on an error.
  abbrev pub with_tx : {A : Type 0} → Tx S A → S → Result A × S
  with_tx m s = elim (m s) [ ok (a, s') ↦ (ok a, s') | err e ↦ (err e, s) ]

  -- WithTenantTx: the same, for a tenant that is named.
  abbrev pub with_tenant_tx : {A : Type 0} → String → Tx S A → S → Result A × S
  with_tenant_tx tenant_id m s =
      if tenant_id == ""
      then (err (other "database: WithTenantTx called with empty tenantID"), s)
      else with_tx m s
