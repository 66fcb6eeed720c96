-- ===== src/Bsv/Script/Total.antt =====
-- The rounds of the parser of crates/bsv/src/script.rs.
use overlay_broadcast.Base.{
  ℕ, zero, suc, ◌<◌, ◌≡◌, ◌≢◌, inl, inr, List, [], ◌∷◌, ◌++◌, none, some, arith, length, ap, ok,
  err, refl, ◌⊎◌, Option-cases,
}
use overlay_broadcast.Bsv.Error.{BsvError, BsvResult}
use overlay_broadcast.Bsv.Cursor.{Cursor, remaining, new, take, ◌>>=◌, pure}
use overlay_broadcast.Bsv.Cursor.Bounds.{
  InBounds, Forward, Advances, Advances-bind, Advances-take, Advances-lift, Advances-pure,
  Advances-if, Advances-u8, Advances-weaken,
}
use overlay_broadcast.Bsv.Script.{ScriptOp, push, push_n, op_of, parse_op, parse_ops, parse_script}

Advances-push_n : (n : ℕ) → Advances 0 (push_n n)
unfolding push_n
Advances-push_n n = Advances-bind {m = 0} (Advances-weaken (omega arith) (Advances-take n)) λ s.
    Advances-bind {m = 0} (Advances-lift _) λ l.
      Advances-bind {m = 0} (Advances-weaken (omega arith) (Advances-take l)) λ r. Advances-pure _

Advances-run : (n : ℕ) → Advances 0 (take n >>= λ r. pure (push r))
Advances-run n =
    Advances-bind {m = 0} (Advances-weaken (omega arith) (Advances-take n)) λ r. Advances-pure _

Advances-op_of : (opcode : ℕ) → Advances 0 (op_of opcode)
unfolding op_of
Advances-op_of c = Advances-if _ (Advances-run c) (
    Advances-if _ (Advances-push_n 1)
      (Advances-if _ (Advances-push_n 2) (Advances-if _ (Advances-push_n 4) (Advances-pure _))))

Advances-parse_op : Advances 1 parse_op
unfolding parse_op
Advances-parse_op = Advances-bind Advances-u8 Advances-op_of

Result-cases :
    {A : Type 0} (r : BsvResult A) → ((a : A) × (r ≡ ok a)) ⊎ ((e : BsvError) × (r ≡ err e))
Result-cases (ok a) = inl (a, refl)
Result-cases (err e) = inr (e, refl)

module _ (fuel : ℕ) (ops : List ScriptOp) (c : Cursor) where
  round_ok :
      {o : ScriptOp} {c' : Cursor}
      → parse_op c ≡ ok (o, c')
      → parse_ops fuel (ops ++ (o ∷ [])) c' ≢ none
      → parse_ops (suc fuel) ops c ≢ none
  unfolding parse_ops
  round_ok e ih = rw e (ground (arith, ih))

  round_err : {x : BsvError} → parse_op c ≡ err x → parse_ops (suc fuel) ops c ≢ none
  unfolding parse_ops
  round_err e = rw e (ground arith)

remaining-Forward : {c c' : Cursor} → Forward 1 c c' → remaining c' < remaining c
unfolding remaining
remaining-Forward f = omega (arith, f.moved, f.within, ap length f.same)

-- Fuel above what is left to read is enough.
parse_ops-ne-none :
    (fuel : ℕ) (ops : List ScriptOp) (c : Cursor)
    → InBounds c
    → remaining c < fuel
    → parse_ops fuel ops c ≢ none
parse_ops-ne-none zero ops c h hf = absurd (omega arith)
parse_ops-ne-none (suc fuel) ops c h hf = elim (Result-cases (parse_op c)) [
  | inl ((o, c'), e) ↦
      let f = Advances-parse_op.step c c' o h e in
      round_ok fuel ops c e
        (parse_ops-ne-none fuel (ops ++ (o ∷ [])) c' f.within (omega (arith, remaining-Forward f)))
  | inr (x, e) ↦ round_err fuel ops c e
]

InBounds-new : (xs : List ℕ) → InBounds (new xs)
unfolding new
InBounds-new xs = omega arith

remaining-new : (xs : List ℕ) → remaining (new xs) < suc (length xs)
unfolding new remaining
remaining-new xs = omega arith

-- On every input the loop ends within one round for each byte and one more, and `parse_script`
-- returns its result.
pub parse_script-returns :
    (script : List ℕ)
    → (r : BsvResult (List ScriptOp)) × (parse_ops (suc (length script)) [] (new script) ≡ some r)
      × (parse_script script ≡ r)
parse_script-returns script =
    elim (Option-cases (parse_ops (suc (length script)) [] (new script))) [
      | inl e ↦
          absurd
            (parse_ops-ne-none _ [] (new script) (InBounds-new script) (remaining-new script) e)
      | inr (r, e) ↦ (r, e, unfold parse_script in rw e refl)
    ]
