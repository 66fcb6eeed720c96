-- ===== src/Session/Channel.antt =====
-- crates/session/src/channel.rs.
use overlay_broadcast.Base.{ℕ, Option, none, some, List, ◌∷◌, ◌++◌, if◌then◌else◌}
use overlay_broadcast.Base.Dict.{nat_eq, list_beq}
use overlay_broadcast.Bsv.Hash.{double_sha256}

pub record Envelope : Type 0 where
  pub component : List ℕ
  pub tag : List ℕ

module _ (digest : List ℕ → List ℕ) where
  unfoldable pub bind : List ℕ → List ℕ → List ℕ
  bind component session_binding = double_sha256 digest (component ++ (0x1f ∷ session_binding))

  unfoldable pub seal : List ℕ → List ℕ → Envelope
  unfolding bind
  seal component session_binding = record {
    component = component;
    tag = bind component session_binding;
  }

  unfoldable pub unseal : Envelope → List ℕ → Option (List ℕ)
  unfolding bind
  unseal envelope session_binding =
      if list_beq (bind envelope.component session_binding) envelope.tag
      then some envelope.component
      else none
