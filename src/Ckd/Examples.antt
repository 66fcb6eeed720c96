-- ===== src/Ckd/Examples.antt =====
-- Concrete runs on crates/ckd.
use overlay_broadcast.Base.{◌∷◌, ok, replicate, ◌≡◌, refl}
use overlay_broadcast.Ckd.Key.{XPriv, XPub, derive_child, to_xpub, derive_public_child}
use overlay_broadcast.Ckd.Public.{derive_public_child-to_xpub}
use overlay_broadcast.Ckd.Sample.{sample, sample-IsGroup}

abbrev parent : XPriv
parent = record {
  private_key = 5 ∷ replicate 31 0;
  chain_code = replicate 32 9;
  depth = 0;
  child_number = 0;
}

abbrev child : XPriv
child = record {
  private_key = 6 ∷ replicate 31 0;
  chain_code = replicate 32 1;
  depth = 1;
  child_number = 3;
}

abbrev parent_public : XPub
parent_public = record {
  public_key = 2 ∷ 5 ∷ replicate 31 0;
  chain_code = replicate 32 9;
  depth = 0;
  child_number = 0;
}

public_test : to_xpub sample parent ≡ ok parent_public
unfolding to_xpub
public_test = refl

child_test : derive_child sample parent 3 ≡ ok child
unfolding derive_child
child_test = refl

derive_public_child-to_xpub_example :
    (C : XPub) × (to_xpub sample child ≡ ok C) × (derive_public_child sample parent_public 3 ≡ ok C)
derive_public_child-to_xpub_example =
    derive_public_child-to_xpub sample sample-IsGroup parent child parent_public 3 refl public_test
      child_test
