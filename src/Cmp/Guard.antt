-- ===== src/Cmp/Guard.antt =====
-- crates/cmp/src/classify.rs and error.rs.
use overlay_broadcast.Base.{Result, ok, err}

pub data CmpError : Type 0 where
  cleartext_personal_data plaintext_on_chain : CmpError

pub data ContentClass : Type 0 where
  encrypted obfuscated cleartext : ContentClass

pub data Sensitivity : Type 0 where
  public_data personal_data : Sensitivity

unfoldable pub guard_on_chain_write : ContentClass → Sensitivity → Result CmpError (Unit {0})
guard_on_chain_write cleartext personal_data = err cleartext_personal_data
guard_on_chain_write cleartext public_data = err plaintext_on_chain
guard_on_chain_write encrypted sensitivity = ok tt
guard_on_chain_write obfuscated sensitivity = ok tt
