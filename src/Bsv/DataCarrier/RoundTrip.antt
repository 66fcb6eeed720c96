-- ===== src/Bsv/DataCarrier/RoundTrip.antt =====
-- Building and parsing a carrier of crates/bsv/src/datacarrier.rs.
use overlay_broadcast.Base.{
  ℕ, ◌^◌, ◌<◌, ◌≡◌, refl, List, [], ◌∷◌, arith, length, length-append, append-nil, ok, All, ◌∙◌,
}
use overlay_broadcast.Bsv.Script.{ScriptOp, op, push, op_false, op_return, push_data, parse_script}
use overlay_broadcast.Bsv.Script.Assembly.{
  Encodable, assemble, push_data-append, parse_script-assemble, length-push_data,
}
use overlay_broadcast.Bsv.DataCarrier.{build_data_carrier, carried, parse_data_carrier}

-- The operations of a carrier; an empty payload is the opcode 0.
abbrev carrier_ops : List ℕ → List ScriptOp
carrier_ops [] = op op_false ∷ op op_return ∷ op 0 ∷ []
carrier_ops (b ∷ bs) = op op_false ∷ op op_return ∷ push (b ∷ bs) ∷ []

carrier_ops-Encodable : (p : List ℕ) → length p < 2 ^ 32 → All Encodable (carrier_ops p)
carrier_ops-Encodable [] h = ground arith
carrier_ops-Encodable (b ∷ bs) h = ground arith

locking_script_lem :
    (p : List ℕ)
    → length p < 2 ^ 32
    → (build_data_carrier p).locking_script ≡ assemble (carrier_ops p)
unfolding build_data_carrier
locking_script_lem [] h = unfold push_data in refl
locking_script_lem (b ∷ bs) h =
    push_data-append (op_false ∷ op_return ∷ []) (b ∷ bs) h
    ∙ rw (append-nil (push_data [] (b ∷ bs)))

length-carrier_ops : (p : List ℕ) → length (carrier_ops p) ≡ 3
length-carrier_ops [] = refl
length-carrier_ops (b ∷ bs) = refl

length-carrier : (p : List ℕ) → length p < 2 ^ 32 → length (assemble (carrier_ops p)) < 2 ^ 64
length-carrier [] h = omega arith
length-carrier (b ∷ bs) h =
    omega (arith, length-push_data (b ∷ bs) h, length-append (push_data [] (b ∷ bs)) [])

parse_carrier :
    (p : List ℕ) → length p < 2 ^ 32 → parse_script (assemble (carrier_ops p)) ≡ ok (carrier_ops p)
parse_carrier p h =
    parse_script-assemble (carrier_ops p) (carrier_ops-Encodable p h)
      (omega (arith, length-carrier_ops p)) (length-carrier p h)

carried-carrier_ops : (p : List ℕ) → carried (carrier_ops p) ≡ ok p
unfolding carried
carried-carrier_ops [] = refl
carried-carrier_ops (b ∷ bs) = refl

-- `parse_data_carrier` returns the payload, also an empty one, from the output that
-- `build_data_carrier` makes of a payload of less than 2^32 bytes.
pub parse_data_carrier-build_data_carrier :
    (p : List ℕ)
    → length p < 2 ^ 32
    → parse_data_carrier (build_data_carrier p).locking_script ≡ ok p
unfolding parse_data_carrier
parse_data_carrier-build_data_carrier p h =
    rw (locking_script_lem p h) (rw (parse_carrier p h) (carried-carrier_ops p))
