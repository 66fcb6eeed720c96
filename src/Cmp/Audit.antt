-- ===== src/Cmp/Audit.antt =====
-- crates/cmp/src/audit.rs: the hash-chained audit log. `digest` is `Sha256::digest`, and text is its
-- bytes.
use overlay_broadcast.Base.{
  ℕ, ◌≡◌, refl, sym, Bool, true, false, not, Option, none, some, List, [], ◌∷◌, ◌++◌, get_last?,
  get_last?-append, replicate, arith, if◌then◌else◌,
}
use overlay_broadcast.Base.Dict.{◌==◌, nat_eq, list_eq, list_beq, list_beq_iff}
use overlay_broadcast.Base.LittleEndian.{to_le_bytes}
use overlay_broadcast.Bsv.Hash.{double_sha256}
use mathlib.Core.List.{reverse}

pub record AuditRecord : Type 0 where
  pub timestamp : ℕ
  pub actor : List ℕ
  pub action : List ℕ
  pub prev_hash : List ℕ
  pub hash : List ℕ

pub record TamperEvidentAudit : Type 0 where
  pub records : List AuditRecord

abbrev no_hash : List ℕ
no_hash = replicate 32 0

unfoldable pub new : TamperEvidentAudit
new = record { records = [] }

last_hash : Option AuditRecord → List ℕ
last_hash none = no_hash
last_hash (some r) = r.hash

unfoldable pub head_hash : TamperEvidentAudit → List ℕ
unfolding last_hash
head_hash log = last_hash (get_last? log.records)

-- The hash that the next record has to name.
ends_with : List ℕ → List AuditRecord → List ℕ
ends_with prev [] = prev
ends_with prev (r ∷ rs) = ends_with r.hash rs

ends_with-append :
    (prev : List ℕ) (rs : List AuditRecord) (r : AuditRecord)
    → ends_with prev (rs ++ (r ∷ [])) ≡ r.hash
unfolding ends_with
ends_with-append prev [] r = refl
ends_with-append prev (x ∷ rs) r = ends_with-append x.hash rs r

module _ (digest : List ℕ → List ℕ) where
  unfoldable pub record_hash : ℕ → List ℕ → List ℕ → List ℕ → List ℕ
  record_hash timestamp actor action prev = double_sha256 digest (
      reverse (to_le_bytes 8 timestamp)
      ++ (0x1f ∷ [])
      ++ actor
      ++ (0x1f ∷ [])
      ++ action
      ++ (0x1f ∷ [])
      ++ prev)

  unfoldable pub append : TamperEvidentAudit → ℕ → List ℕ → List ℕ → TamperEvidentAudit
  unfolding head_hash
  append log timestamp actor action = record {
    records =
        log.records
        ++ (record {
          timestamp = timestamp;
          actor = actor;
          action = action;
          prev_hash = head_hash log;
          hash = record_hash timestamp actor action (head_hash log);
        }
            ∷ []);
  }

  -- The loop, with the hash of the record before.
  unfoldable pub verify_from : List ℕ → List AuditRecord → Bool
  verify_from prev [] = true
  verify_from prev (r ∷ rs) =
      let rest = verify_from r.hash rs in
      if not (r.prev_hash == prev)
      then false
      else if not (record_hash r.timestamp r.actor r.action r.prev_hash == r.hash)
      then false
      else rest

  unfoldable pub verify_audit_chain : List AuditRecord → Bool
  unfolding verify_from
  verify_audit_chain records = verify_from no_hash records

  verify_from-cons :
      (prev : List ℕ) (x : AuditRecord) (rs : List AuditRecord)
      → verify_from prev (x ∷ rs) ≡ true
      → (list_beq x.prev_hash prev ≡ true)
        × (list_beq (record_hash x.timestamp x.actor x.action x.prev_hash) x.hash ≡ true)
        × (verify_from x.hash rs ≡ true)
  unfolding verify_from
  verify_from-cons prev x rs h = (ground (arith, h), ground (arith, h), ground (arith, h))

  -- A log that verifies, then a record that links to its end.
  verify_from-append :
      (prev : List ℕ) (rs : List AuditRecord) (r : AuditRecord)
      → verify_from prev rs ≡ true
      → r.prev_hash ≡ ends_with prev rs
      → record_hash r.timestamp r.actor r.action r.prev_hash ≡ r.hash
      → verify_from prev (rs ++ (r ∷ [])) ≡ true
  unfolding verify_from ends_with
  verify_from-append prev [] r h link hash =
      rw
        (
          (list_beq_iff r.prev_hash prev).1 link,
          (list_beq_iff (record_hash r.timestamp r.actor r.action r.prev_hash) r.hash).1 hash,
        )
        refl
  verify_from-append prev (x ∷ rs) r h link hash =
      let p = verify_from-cons prev x rs h in
      rw (p.0, p.1) (verify_from-append x.hash rs r p.2 link hash)

  -- The entries of a log: a time, an actor and an action each.
  unfoldable pub append_all : TamperEvidentAudit → List (ℕ × List ℕ × List ℕ) → TamperEvidentAudit
  unfolding append
  append_all log [] = log
  append_all log ((t, actor, action) ∷ es) = append_all (append log t actor action) es

  -- A log that verifies, with its head.
  record IsLog (log : TamperEvidentAudit) : Type 0 where
    verifies : verify_from no_hash log.records ≡ true
    head : head_hash log ≡ ends_with no_hash log.records

  append-IsLog :
      (log : TamperEvidentAudit) (t : ℕ) (actor action : List ℕ)
      → IsLog log
      → IsLog (append log t actor action)
  unfolding append head_hash last_hash
  append-IsLog log t actor action h = record {
    verifies = verify_from-append no_hash log.records _ h.verifies h.head refl;
    head = rw (get_last?-append log.records) (sym (ends_with-append no_hash log.records _));
  }

  append_all-IsLog :
      (log : TamperEvidentAudit) (es : List (ℕ × List ℕ × List ℕ))
      → IsLog log
      → IsLog (append_all log es)
  unfolding append_all
  append_all-IsLog log [] h = h
  append_all-IsLog log ((t, actor, action) ∷ es) h =
      append_all-IsLog (append log t actor action) es (append-IsLog log t actor action h)

  IsLog-new : IsLog new
  unfolding new verify_from head_hash last_hash ends_with
  IsLog-new = record { verifies = refl; head = refl }

  -- Every log that is built by appending to an empty one verifies.
  pub verify_audit_chain-append_all :
      (es : List (ℕ × List ℕ × List ℕ)) → verify_audit_chain (append_all new es).records ≡ true
  unfolding verify_audit_chain
  verify_audit_chain-append_all es = (append_all-IsLog new es IsLog-new).verifies
