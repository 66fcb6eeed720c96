-- ===== src/Res/Recovery.antt =====
-- crates/res/src/recovery.rs: the session state that a snapshot of the ledger determines.
pub mod Statuses
use overlay_broadcast.Base.{
  ℕ, ◌≤◌, ◌≡◌, refl, Bool, List, [], ◌∷◌, map, arith, leb, ltb, if◌then◌else◌, ap, All, ◌≢◌,
  ℕ_discrete,
}
use mathlib.Core.Path.{sym, ap₂, ◌∙◌}

pub record MemberRecord : Type 0 where
  pub member_id : ℕ
  pub output_spent : Bool
  pub expiry : ℕ

pub record LedgerSnapshot : Type 0 where
  pub members : List MemberRecord
  pub graph_root : List ℕ
  pub now : ℕ

pub data MemberStatus : Type 0 where
  renewed active revoked : MemberStatus

pub record SessionState : Type 0 where
  pub statuses : List (ℕ × MemberStatus)
  pub graph_root : List ℕ

unfoldable pub status_of : MemberRecord → ℕ → MemberStatus
status_of m now = if m.output_spent then renewed else if ltb m.expiry now then revoked else active

-- `sort_by_key`, stable, on the first component.
unfoldable pub place : {A : Type 0} → ℕ × A → List (ℕ × A) → List (ℕ × A)
place x [] = x ∷ []
place x (y ∷ ys) = let rest = place x ys in if leb x.0 y.0 then x ∷ y ∷ ys else y ∷ rest

unfoldable pub sort_by_key : {A : Type 0} → List (ℕ × A) → List (ℕ × A)
unfolding place
sort_by_key [] = []
sort_by_key (x ∷ xs) = place x (sort_by_key xs)

unfoldable pub rebuild_from_chain : LedgerSnapshot → SessionState
unfolding sort_by_key status_of
rebuild_from_chain snapshot = record {
  statuses = sort_by_key (map (λ m. (m.member_id, status_of m snapshot.now)) snapshot.members);
  graph_root = snapshot.graph_root;
}

abbrev entry : ℕ → MemberRecord → ℕ × MemberStatus
entry now m = (m.member_id, status_of m now)

place_comm :
    {A : Type 0} (x y : ℕ × A) (l : List (ℕ × A))
    → x.0 ≢ y.0
    → place x (place y l) ≡ place y (place x l)
unfolding place
place_comm x y [] ne = ground arith
place_comm x y (z ∷ l) ne = ground (arith, place_comm x y l ne)

abbrev SameIfSameId : MemberRecord → MemberRecord → Type 0
SameIfSameId x y = x.member_id ≡ y.member_id → x ≡ y

-- Records of the ledger with one identifier are the same record.
abbrev pub Coherent : List MemberRecord → Type 0
Coherent [] = Unit
Coherent (x ∷ l) = All (SameIfSameId x) l × Coherent l

entry_comm :
    (now : ℕ) (x y : MemberRecord) (l : List (ℕ × MemberStatus))
    → (x.member_id ≡ y.member_id → x ≡ y)
    → place (entry now x) (place (entry now y) l) ≡ place (entry now y) (place (entry now x) l)
entry_comm now x y l h = elim (ℕ_discrete x.member_id y.member_id) [
  | yes e ↦ ap₂ (λ a b. place (entry now a) (place (entry now b) l)) (h e) (sym (h e))
  | no ne ↦ place_comm (entry now x) (entry now y) l ne
]

-- The same records, listed in another order.
pub data Reordered : List MemberRecord → List MemberRecord → Type 0 where
  nothing : Reordered [] []
  keep : (x : MemberRecord) {l m : List MemberRecord} → Reordered l m → Reordered (x ∷ l) (x ∷ m)
  swap : (x y : MemberRecord) (l : List MemberRecord) → Reordered (x ∷ y ∷ l) (y ∷ x ∷ l)
  again : {l m n : List MemberRecord} → Reordered l m → Reordered m n → Reordered l n

All-Reordered :
    (P : MemberRecord → Type 0) {l m : List MemberRecord} → Reordered l m → All P l → All P m
All-Reordered P nothing h = h
All-Reordered P (keep x r) h = (h.0, All-Reordered P r h.1)
All-Reordered P (swap x y l) h = (h.1.0, (h.0, h.1.1))
All-Reordered P (again r s) h = All-Reordered P s (All-Reordered P r h)

Coherent-Reordered : {l m : List MemberRecord} → Reordered l m → Coherent l → Coherent m
Coherent-Reordered nothing h = h
Coherent-Reordered (keep x r) h = (All-Reordered (SameIfSameId x) r h.0, Coherent-Reordered r h.1)
Coherent-Reordered (swap x y l) h = (((λ e. sym (h.0.0 (sym e))), h.1.0), (h.0.1, h.1.1))
Coherent-Reordered (again r s) h = Coherent-Reordered s (Coherent-Reordered r h)

sort-Reordered :
    (now : ℕ) {l m : List MemberRecord}
    → Reordered l m
    → Coherent l
    → sort_by_key (map (entry now) l) ≡ sort_by_key (map (entry now) m)
unfolding sort_by_key
sort-Reordered now nothing h = refl
sort-Reordered now (keep x {l} r) h = ap (place (entry now x)) (sort-Reordered now r h.1)
sort-Reordered now (swap x y l) h = entry_comm now x y (sort_by_key (map (entry now) l)) h.0.0
sort-Reordered now (again r s) h =
    sort-Reordered now r h ∙ sort-Reordered now s (Coherent-Reordered r h)

-- The state rebuilt from a snapshot is the same whatever order the snapshot lists its members
-- in, when no two different records of it have one identifier.
pub rebuild_from_chain-Reordered :
    (l m : List MemberRecord) (root : List ℕ) (now : ℕ)
    → Reordered l m
    → Coherent l
    → rebuild_from_chain (record { members = l; graph_root = root; now = now })
      ≡ rebuild_from_chain (record { members = m; graph_root = root; now = now })
unfolding rebuild_from_chain
rebuild_from_chain-Reordered l m root now r h =
    ap (λ s. record { statuses = s; graph_root = root }) (sort-Reordered now r h)
