-- ===== src/Res/Resubmit.antt =====
-- crates/res/src/resubmit.rs: idempotent resubmission of transactions, by their txids.
use overlay_broadcast.Base.{
  ℕ, ◌≡◌, refl, ap₂, Bool, true, false, Option, none, some, List, [], ◌∷◌, arith, Bool-cases, inl,
  inr, if◌then◌else◌,
}
use overlay_broadcast.Base.Dict.{
  Set, insert, remove, get, contains, contains-insert, contains-remove, nat_eq, list_eq,
  list_beq_iff, ◌==◌,
}

pub data SubmitOutcome : Type 0 where
  broadcast already_known rebroadcast : SubmitOutcome

pub record Resubmitter : Type 0 where
  pub known : Set (List ℕ)
  pub evicted : Set (List ℕ)

unfoldable pub new : Resubmitter
new = record { known = []; evicted = [] }

unfoldable pub submit : Resubmitter → List ℕ → Resubmitter × SubmitOutcome
submit r txid =
    if contains txid r.known
    then (r, already_known)
    else (record r { known = insert txid tt r.known }, broadcast)

unfoldable pub mark_evicted : Resubmitter → List ℕ → Resubmitter
mark_evicted r txid =
    if contains txid r.known then record r { evicted = insert txid tt r.evicted } else r

unfoldable pub resubmit_evicted : Resubmitter → List ℕ → Resubmitter × SubmitOutcome
resubmit_evicted r txid =
    if contains txid r.evicted
    then (record r { evicted = remove txid r.evicted }, rebroadcast)
    else (r, already_known)

pub data Operation : Type 0 where
  submitting marking resubmitting : Operation

-- The resubmitter after a call, and the outcome of the call, where it has one.
unfoldable pub on : Resubmitter → Operation → List ℕ → Resubmitter × Option SubmitOutcome
unfolding submit mark_evicted resubmit_evicted
on r submitting x = ((submit r x).0, some (submit r x).1)
on r marking x = (mark_evicted r x, none)
on r resubmitting x = ((resubmit_evicted r x).0, some (resubmit_evicted r x).1)

abbrev cons_some : {A : Type 0} → Option A → List A → List A
cons_some none l = l
cons_some (some a) l = a ∷ l

-- The outcomes of the calls for one txid, among those for others.
unfoldable pub outcomes : List ℕ → Resubmitter → List (Operation × List ℕ) → List SubmitOutcome
unfolding on
outcomes x r [] = []
outcomes x r ((c, y) ∷ cs) =
    let rest = outcomes x (on r c y).0 cs in if y == x then cons_some (on r c y).1 rest else rest

-- What is promised for one txid: the life of its transaction.
pub data Phase : Type 0 where
  unknown pending dropped : Phase

abbrev pub phase_step : Phase → Operation → Phase × Option SubmitOutcome
phase_step unknown submitting = (pending, some broadcast)
phase_step p submitting = (p, some already_known)
phase_step unknown marking = (unknown, none)
phase_step _ marking = (dropped, none)
phase_step dropped resubmitting = (pending, some rebroadcast)
phase_step p resubmitting = (p, some already_known)

abbrev pub calls_of : List ℕ → List (Operation × List ℕ) → List Operation
calls_of x [] = []
calls_of x ((c, y) ∷ cs) = let rest = calls_of x cs in if y == x then c ∷ rest else rest

abbrev pub phase_outcomes : Phase → List Operation → List SubmitOutcome
phase_outcomes p [] = []
phase_outcomes p (c ∷ cs) = cons_some (phase_step p c).1 (phase_outcomes (phase_step p c).0 cs)

abbrev is_known : Phase → Bool
is_known unknown = false
is_known _ = true

abbrev is_dropped : Phase → Bool
is_dropped dropped = true
is_dropped _ = false

-- The phase of a txid that the two sets say.
record Sees (x : List ℕ) (p : Phase) (r : Resubmitter) : Type 0 where
  known : contains x r.known ≡ is_known p
  evicted : contains x r.evicted ≡ is_dropped p

Sees-submitting_other :
    (x y : List ℕ) (p : Phase) (r : Resubmitter)
    → (y == x) ≡ false
    → Sees x p r
    → Sees x p (submit r y).0
unfolding submit
Sees-submitting_other x y p r ne h = record {
  known = ground (arith, h.known, contains-insert x y r.known);
  evicted = ground (arith, h.evicted);
}

Sees-marking_other :
    (x y : List ℕ) (p : Phase) (r : Resubmitter)
    → (y == x) ≡ false
    → Sees x p r
    → Sees x p (mark_evicted r y)
unfolding mark_evicted
Sees-marking_other x y p r ne h = record {
  known = ground (arith, h.known);
  evicted = ground (arith, h.evicted, contains-insert x y r.evicted);
}

Sees-resubmitting_other :
    (x y : List ℕ) (p : Phase) (r : Resubmitter)
    → (y == x) ≡ false
    → Sees x p r
    → Sees x p (resubmit_evicted r y).0
unfolding resubmit_evicted
Sees-resubmitting_other x y p r ne h = record {
  known = ground (arith, h.known);
  evicted = ground (arith, h.evicted, contains-remove x y r.evicted);
}

Sees-other :
    (x y : List ℕ) (p : Phase) (r : Resubmitter) (c : Operation)
    → (y == x) ≡ false
    → Sees x p r
    → Sees x p (on r c y).0
unfolding on
Sees-other x y p r submitting ne h = Sees-submitting_other x y p r ne h
Sees-other x y p r marking ne h = Sees-marking_other x y p r ne h
Sees-other x y p r resubmitting ne h = Sees-resubmitting_other x y p r ne h

same : (x : List ℕ) → (x == x) ≡ true
same x = (list_beq_iff x x).1 refl

-- What a call for the txid does is what its phase promises.
Follows : List ℕ → Phase × Option SubmitOutcome → Resubmitter × Option SubmitOutcome → Type 0
Follows x p r = Sees x p.0 r.0 × (r.1 ≡ p.1)

Follows-submitting :
    (x : List ℕ) (p : Phase) (r : Resubmitter)
    → Sees x p r
    → Follows x (phase_step p submitting) (on r submitting x)
unfolding on submit Follows
Follows-submitting x unknown r h = (
  record {
    known = ground (arith, h.known, contains-insert x x r.known, same x);
    evicted = ground (arith, h.known, h.evicted);
  },
  ground (arith, h.known),
)
Follows-submitting x pending r h = (
  record { known = ground (arith, h.known); evicted = ground (arith, h.known, h.evicted) },
  ground (arith, h.known),
)
Follows-submitting x dropped r h = (
  record { known = ground (arith, h.known); evicted = ground (arith, h.known, h.evicted) },
  ground (arith, h.known),
)

Follows-marking :
    (x : List ℕ) (p : Phase) (r : Resubmitter)
    → Sees x p r
    → Follows x (phase_step p marking) (on r marking x)
unfolding on mark_evicted Follows
Follows-marking x unknown r h =
    (record { known = ground (arith, h.known); evicted = ground (arith, h.known, h.evicted) }, refl)
Follows-marking x pending r h = (
  record {
    known = ground (arith, h.known);
    evicted = ground (arith, h.known, contains-insert x x r.evicted, same x);
  },
  refl,
)
Follows-marking x dropped r h = (
  record {
    known = ground (arith, h.known);
    evicted = ground (arith, h.known, contains-insert x x r.evicted, same x);
  },
  refl,
)

Follows-resubmitting :
    (x : List ℕ) (p : Phase) (r : Resubmitter)
    → Sees x p r
    → Follows x (phase_step p resubmitting) (on r resubmitting x)
unfolding on resubmit_evicted Follows
Follows-resubmitting x unknown r h = (
  record { known = ground (arith, h.known, h.evicted); evicted = ground (arith, h.evicted) },
  ground (arith, h.evicted),
)
Follows-resubmitting x pending r h = (
  record { known = ground (arith, h.known, h.evicted); evicted = ground (arith, h.evicted) },
  ground (arith, h.evicted),
)
Follows-resubmitting x dropped r h = (
  record {
    known = ground (arith, h.known, h.evicted);
    evicted = ground (arith, h.evicted, contains-remove x x r.evicted, same x);
  },
  ground (arith, h.evicted),
)

follows :
    (x : List ℕ) (p : Phase) (r : Resubmitter) (c : Operation)
    → Sees x p r
    → Follows x (phase_step p c) (on r c x)
follows x p r submitting h = Follows-submitting x p r h
follows x p r marking h = Follows-marking x p r h
follows x p r resubmitting h = Follows-resubmitting x p r h

outcomes-Sees :
    (x : List ℕ) (p : Phase) (r : Resubmitter) (cs : List (Operation × List ℕ))
    → Sees x p r
    → outcomes x r cs ≡ phase_outcomes p (calls_of x cs)
unfolding outcomes Follows
outcomes-Sees x p r [] h = refl
outcomes-Sees x p r ((c, y) ∷ cs) h = elim (Bool-cases (y == x)) [
  | inl t ↦ rw t (
      rw ((list_beq_iff y x).0 t) (
        ap₂ cons_some (follows x p r c h).1
          (outcomes-Sees x (phase_step p c).0 (on r c x).0 cs (follows x p r c h).0)))
  | inr f ↦ rw f (outcomes-Sees x p (on r c y).0 cs (Sees-other x y p r c f h))
]

-- From an empty resubmitter, the outcomes of the calls for one txid, whatever calls for others
-- come between, are those of its own three phases: a submission broadcasts only while the txid is
-- unknown, and a resubmission re-broadcasts only if an eviction was noted since the last one.
pub outcomes-phase_outcomes :
    (x : List ℕ) (cs : List (Operation × List ℕ))
    → outcomes x new cs ≡ phase_outcomes unknown (calls_of x cs)
unfolding new contains get
outcomes-phase_outcomes x cs =
    outcomes-Sees x unknown new cs (record { known = refl; evicted = refl })
