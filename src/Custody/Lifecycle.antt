-- ===== src/Custody/Lifecycle.antt =====
-- crates/custody/src/lifecycle.rs: the hash-chained log of a key, and the error of
-- crates/custody/src/error.rs. `digest` is `Sha256::digest`.
pub mod Log
use overlay_broadcast.Base.{
  ℕ, Bool, true, false, not, ◌&&◌, ◌||◌, Option, none, some, List, [], ◌∷◌, ◌++◌, Result, ok, err,
  leb, get_last?, replicate, if◌then◌else◌,
}
use overlay_broadcast.Base.Dict.{◌==◌, nat_eq, list_eq}
use overlay_broadcast.Base.LittleEndian.{to_le_bytes}
use overlay_broadcast.Bsv.Hash.{double_sha256}
use mathlib.Core.List.{reverse}

pub data CustodyError : Type 0 where
  bad_params insufficient_shares bad_share bad_commitment signing revoked random : CustodyError

pub data EventKind : Type 0 where
  genesis rotation revocation : EventKind

unfoldable pub tag : EventKind → ℕ
tag genesis = 0
tag rotation = 1
tag revocation = 2

pub record LifecycleEvent : Type 0 where
  pub kind : EventKind
  pub public_key : List ℕ
  pub logical_time : ℕ
  pub prev_hash : List ℕ
  pub hash : List ℕ

abbrev pub zero_hash : List ℕ
zero_hash = replicate 32 0

abbrev pub is_genesis : EventKind → Bool
is_genesis genesis = true
is_genesis _ = false

abbrev pub is_revocation : EventKind → Bool
is_revocation revocation = true
is_revocation _ = false

-- `revoked` is spelled `is_revoked` here, as its getter is.
pub record KeyCustodian : Type 0 where
  pub public_key : List ℕ
  pub is_revoked : Bool
  pub events : List LifecycleEvent

hash_or_zero : Option LifecycleEvent → List ℕ
hash_or_zero none = zero_hash
hash_or_zero (some e) = e.hash

unfoldable pub head_hash : KeyCustodian → List ℕ
unfolding hash_or_zero
head_hash c = hash_or_zero (get_last? c.events)

module _ (digest : List ℕ → List ℕ) where
  unfoldable pub event_hash : EventKind → List ℕ → ℕ → List ℕ → List ℕ
  unfolding tag
  event_hash kind public_key logical_time prev =
      double_sha256 digest
        ((tag kind ∷ []) ++ public_key ++ reverse (to_le_bytes 8 logical_time) ++ prev)

  -- The event that the methods build.
  abbrev pub event_of : EventKind → List ℕ → ℕ → List ℕ → LifecycleEvent
  event_of kind public_key logical_time prev_hash = record {
    kind = kind;
    public_key = public_key;
    logical_time = logical_time;
    prev_hash = prev_hash;
    hash = event_hash kind public_key logical_time prev_hash;
  }

  unfoldable pub new : List ℕ → ℕ → KeyCustodian
  new public_key logical_time = record {
    public_key = public_key;
    is_revoked = false;
    events = event_of genesis public_key logical_time zero_hash ∷ [];
  }

  unfoldable pub rotate : KeyCustodian → List ℕ → ℕ → Result CustodyError KeyCustodian
  rotate c new_public_key logical_time =
      if c.is_revoked
      then err revoked
      else ok (record c {
        events = c.events ++ (event_of rotation new_public_key logical_time (head_hash c) ∷ []);
        public_key = new_public_key;
      })

  unfoldable pub revoke : KeyCustodian → ℕ → Result CustodyError KeyCustodian
  revoke c logical_time =
      if c.is_revoked
      then err revoked
      else ok (record c {
        events = c.events ++ (event_of revocation c.public_key logical_time (head_hash c) ∷ []);
        is_revoked = true;
      })

  -- The checks of one round on the event and on the one of the round before, which is
  -- `events.get(position - 1)`.
  unfoldable pub links : Option LifecycleEvent → LifecycleEvent → Bool
  links none e = is_genesis e.kind
  links (some previous) e = not (is_genesis e.kind) && previous.hash == e.prev_hash

  unfoldable pub accepts : Option LifecycleEvent → ℕ → Bool → LifecycleEvent → Bool
  unfolding links
  accepts previous last_time seen_revocation e =
      not seen_revocation
      && links previous e
      && event_hash e.kind e.public_key e.logical_time e.prev_hash == e.hash
      && leb last_time e.logical_time

  -- The loop of `verify_lifecycle`.
  unfoldable pub verify_from : Option LifecycleEvent → ℕ → Bool → List LifecycleEvent → Bool
  unfolding accepts
  verify_from previous last_time seen_revocation [] = true
  verify_from previous last_time seen_revocation (e ∷ es) =
      let rest = verify_from (some e) e.logical_time (seen_revocation || is_revocation e.kind) es in
      if accepts previous last_time seen_revocation e then rest else false

  unfoldable pub verify_lifecycle : List LifecycleEvent → Bool
  unfolding verify_from
  verify_lifecycle [] = false
  verify_lifecycle (e ∷ es) =
      if not (is_genesis e.kind) || not (e.prev_hash == zero_hash)
      then false
      else verify_from none 0 false (e ∷ es)
