-- ===== src/Cmp/Examples.antt =====
-- Tests of the audit chain on small inputs, with a digest that keeps the sum of its input.
use overlay_broadcast.Base.{ℕ, ◌+◌, ◌≡◌, true, List, [], ◌∷◌}
use overlay_broadcast.Cmp.Audit.{new, append_all, verify_audit_chain, verify_audit_chain-append_all}

abbrev sum : List ℕ → ℕ
sum [] = 0
sum (x ∷ xs) = x + sum xs

abbrev digest : List ℕ → List ℕ
digest bytes = sum bytes ∷ []

abbrev entries : List (ℕ × List ℕ × List ℕ)
entries = (5, 1 ∷ [], 2 ∷ []) ∷ (6, 1 ∷ [], 3 ∷ []) ∷ []

chain_example : verify_audit_chain digest (append_all digest new entries).records ≡ true
chain_example = verify_audit_chain-append_all digest entries
