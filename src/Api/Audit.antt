-- ===== src/Api/Audit.antt =====
-- crates/api/src/audit.rs: the append-only log of what was done.
use overlay_broadcast.Base.{ℕ, Option, List, [], ◌∷◌, ◌++◌}

pub record AuditEntry : Type 0 where
  pub timestamp : ℕ
  pub caller : List ℕ
  pub operation : List ℕ
  pub node_position : Option (List ℕ)
  pub outcome : List ℕ

pub record AuditLog : Type 0 where
  pub entries : List AuditEntry

unfoldable pub push_entry : AuditLog → ℕ → List ℕ → List ℕ → Option (List ℕ) → List ℕ → AuditLog
push_entry log timestamp caller operation node_position outcome = record {
  entries =
      log.entries
      ++ (record {
        timestamp = timestamp;
        caller = caller;
        operation = operation;
        node_position = node_position;
        outcome = outcome;
      }
          ∷ []);
}
