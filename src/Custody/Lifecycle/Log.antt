-- ===== src/Custody/Lifecycle/Log.antt =====
-- The logs of a custodian of crates/custody/src/lifecycle.rs, and their verification.
use overlay_broadcast.Base.{
  ℕ, ◌≤◌, ◌≡◌, refl, sym, ap, ◌∙◌, Bool, true, false, ◌&&◌, ◌||◌, Option, none, some, List, [], ◌∷◌,
  ◌++◌, ok, err, Result, leb, get_last?-append, arith, Bool-cases, inl, inr,
}
use overlay_broadcast.Base.Dict.{nat_eq, list_beq, list_beq_iff}
use overlay_broadcast.Custody.Lifecycle.{
  CustodyError, LifecycleEvent, KeyCustodian, EventKind, genesis, rotation, revocation, is_genesis,
  is_revocation, event_hash, event_of, head_hash, new, rotate, revoke, links, accepts, verify_from,
  verify_lifecycle, zero_hash,
}

-- What the loop carries: the previous event, its time, and whether a revocation was seen.
abbrev Carried : Type 0
Carried = Option LifecycleEvent × ℕ × Bool

after : Carried → LifecycleEvent → Carried
after s e = (some e, e.logical_time, s.2 || is_revocation e.kind)

carried : Carried → List LifecycleEvent → Carried
carried s [] = s
carried s (e ∷ es) = carried (after s e) es

carried-append :
    (s : Carried) (es : List LifecycleEvent) (e : LifecycleEvent)
    → carried s (es ++ (e ∷ [])) ≡ after (carried s es) e
unfolding carried
carried-append s [] e = refl
carried-append s (x ∷ es) e = carried-append (after s x) es e

beq_refl : (xs : List ℕ) → list_beq xs xs ≡ true
beq_refl xs = (list_beq_iff xs xs).1 refl

lt_leb : (t u : ℕ) → t ≤ u → leb t u ≡ true
lt_leb t u h = ground arith

module _ (digest : List ℕ → List ℕ) where
  verify_from-append :
      (s : Carried) (es : List LifecycleEvent) (e : LifecycleEvent)
      → verify_from digest s.0 s.1 s.2 (es ++ (e ∷ [])) ≡ (
          verify_from digest s.0 s.1 s.2 es
          && accepts digest (carried s es).0 (carried s es).1 (carried s es).2 e)
  unfolding verify_from carried after
  verify_from-append s [] e = ground arith
  verify_from-append s (x ∷ es) e = elim (Bool-cases (accepts digest s.0 s.1 s.2 x)) [
    | inl good ↦ rw good (verify_from-append (after s x) es e)
    | inr bad ↦ rw bad refl
  ]

  -- A log that verifies, with its last event, its time and the head hash.
  record IsLog (t : ℕ) (c : KeyCustodian) : Type 0 where
    pub start : LifecycleEvent
    pub others : List LifecycleEvent
    pub listed : c.events ≡ start ∷ others
    pub starts_genesis : is_genesis start.kind ≡ true
    pub starts_zero : start.prev_hash ≡ zero_hash
    pub last : LifecycleEvent
    pub ends : carried (none, 0, false) c.events ≡ (some last, t, c.is_revoked)
    pub head : head_hash c ≡ last.hash
    pub verifies : verify_from digest none 0 false c.events ≡ true

  started :
      (events : List LifecycleEvent) (start : LifecycleEvent) (others : List LifecycleEvent)
      → events ≡ start ∷ others
      → is_genesis start.kind ≡ true
      → start.prev_hash ≡ zero_hash
      → verify_lifecycle digest events ≡ verify_from digest none 0 false events
  unfolding verify_lifecycle
  started events start others e kind prev =
      rw (e, kind, (list_beq_iff start.prev_hash zero_hash).1 prev) refl

  IsLog-verify : (t : ℕ) (c : KeyCustodian) → IsLog t c → verify_lifecycle digest c.events ≡ true
  IsLog-verify t c h =
      started c.events h.start h.others h.listed h.starts_genesis h.starts_zero ∙ h.verifies

  -- A rotation or revocation after the log verifies exactly when its time is not before the last.
  accepts-next :
      (t u : ℕ) (kind : EventKind) (key : List ℕ) (last : LifecycleEvent)
      → is_genesis kind ≡ false
      → accepts digest (some last) t false (event_of digest kind key u last.hash) ≡ leb t u
  unfolding accepts links
  accepts-next t u kind key last h =
      rw (h, beq_refl last.hash, beq_refl (event_hash digest kind key u last.hash)) refl

  abbrev pushed : EventKind → List ℕ → List ℕ → ℕ → KeyCustodian → KeyCustodian
  pushed kind key current u c = record {
    public_key = current;
    is_revoked = is_revocation kind;
    events = c.events ++ (event_of digest kind key u (head_hash c) ∷ []);
  }

  pushed-verify_from :
      (t u : ℕ) (kind : EventKind) (key : List ℕ) (c : KeyCustodian)
      → IsLog t c
      → c.is_revoked ≡ false
      → is_genesis kind ≡ false
      → verify_from digest none 0 false
          (c.events ++ (event_of digest kind key u (head_hash c) ∷ []))
        ≡ leb t u
  pushed-verify_from t u kind key c h unrevoked later =
      verify_from-append (none, 0, false) c.events (event_of digest kind key u (head_hash c))
      ∙ rw (h.verifies, h.ends, h.head, unrevoked) (accepts-next t u kind key h.last later)

  pushed-verify :
      (t u : ℕ) (kind : EventKind) (key current : List ℕ) (c : KeyCustodian)
      → IsLog t c
      → c.is_revoked ≡ false
      → is_genesis kind ≡ false
      → verify_lifecycle digest (pushed kind key current u c).events ≡ leb t u
  pushed-verify t u kind key current c h unrevoked later =
      let e = event_of digest kind key u (head_hash c) in
      started (c.events ++ (e ∷ [])) h.start (h.others ++ (e ∷ []))
        (ap (λ l. l ++ (e ∷ [])) h.listed) h.starts_genesis h.starts_zero
      ∙ pushed-verify_from t u kind key c h unrevoked later

  pushed-IsLog :
      (t u : ℕ) (kind : EventKind) (key current : List ℕ) (c : KeyCustodian)
      → IsLog t c
      → c.is_revoked ≡ false
      → is_genesis kind ≡ false
      → t ≤ u
      → IsLog u (pushed kind key current u c)
  unfolding carried after head_hash
  pushed-IsLog t u kind key current c h unrevoked later le = record {
    start = h.start;
    others = h.others ++ (event_of digest kind key u (head_hash c) ∷ []);
    listed = ap (λ l. l ++ (event_of digest kind key u (head_hash c) ∷ [])) h.listed;
    starts_genesis = h.starts_genesis;
    starts_zero = h.starts_zero;
    last = event_of digest kind key u (head_hash c);
    ends =
        carried-append (none, 0, false) c.events (event_of digest kind key u (head_hash c))
        ∙ rw (h.ends, unrevoked) refl;
    head = rw (get_last?-append c.events (event_of digest kind key u (head_hash c))) refl;
    verifies = pushed-verify_from t u kind key c h unrevoked later ∙ lt_leb t u le;
  }

  refuted :
      {e : CustodyError} {c : KeyCustodian}
      → ◌≡◌ {A = Result CustodyError KeyCustodian} (err e) (ok c)
      → ⊥
  refuted h = cc

  ok_inj : {a b : KeyCustodian} → ◌≡◌ {A = Result CustodyError KeyCustodian} (ok a) (ok b) → a ≡ b
  ok_inj h = cc

  unrevoked_of_rotate :
      (c c' : KeyCustodian) (key : List ℕ) (u : ℕ)
      → rotate digest c key u ≡ ok c'
      → (c.is_revoked ≡ false) × (pushed rotation key key u c ≡ c')
  unfolding rotate head_hash
  unrevoked_of_rotate c c' key u h = elim (Bool-cases c.is_revoked) [
    | inl yes_revoked ↦ absurd (refuted (rw yes_revoked at h))
    | inr unrevoked ↦ (unrevoked, ok_inj (rw unrevoked at h))
  ]

  unrevoked_of_revoke :
      (c c' : KeyCustodian) (u : ℕ)
      → revoke digest c u ≡ ok c'
      → (c.is_revoked ≡ false) × (pushed revocation c.public_key c.public_key u c ≡ c')
  unfolding revoke head_hash
  unrevoked_of_revoke c c' u h = elim (Bool-cases c.is_revoked) [
    | inl yes_revoked ↦ absurd (refuted (rw yes_revoked at h))
    | inr unrevoked ↦ (unrevoked, ok_inj (rw unrevoked at h))
  ]

  -- The custodians that the methods build, with the time of the last event. Times do not go back.
  pub data Grown : ℕ → KeyCustodian → Type 0 where
    established : (key : List ℕ) (t : ℕ) → Grown t (new digest key t)
    rotated :
        {t u : ℕ} {c c' : KeyCustodian} (key : List ℕ)
        → Grown t c
        → t ≤ u
        → rotate digest c key u ≡ ok c'
        → Grown u c'
    revoking :
        {t u : ℕ} {c c' : KeyCustodian} → Grown t c → t ≤ u → revoke digest c u ≡ ok c' → Grown u c'

  new-IsLog : (key : List ℕ) (t : ℕ) → IsLog t (new digest key t)
  unfolding new carried after head_hash verify_from accepts links
  new-IsLog key t = record {
    start = event_of digest genesis key t zero_hash;
    others = [];
    listed = refl;
    starts_genesis = refl;
    starts_zero = refl;
    last = event_of digest genesis key t zero_hash;
    ends = refl;
    head = refl;
    verifies = rw (beq_refl (event_hash digest genesis key t zero_hash)) (ground arith);
  }

  Grown-IsLog : {t : ℕ} {c : KeyCustodian} → Grown t c → IsLog t c
  Grown-IsLog (established key t) = new-IsLog key t
  Grown-IsLog (rotated {t} {u} {c} {c'} key g le h) =
      let k = unrevoked_of_rotate c c' key u h in
      rw (sym k.1) (pushed-IsLog t u rotation key key c (Grown-IsLog g) k.0 refl le)
  Grown-IsLog (revoking {t} {u} {c} {c'} g le h) =
      let k = unrevoked_of_revoke c c' u h in
      rw (sym k.1)
        (pushed-IsLog t u revocation c.public_key c.public_key c (Grown-IsLog g) k.0 refl le)

  -- The log of a custodian verifies, whatever its rotations and its revocation, when their times
  -- never went back.
  pub verify_lifecycle-Grown :
      (t : ℕ) (c : KeyCustodian) → Grown t c → verify_lifecycle digest c.events ≡ true
  verify_lifecycle-Grown t c g = IsLog-verify t c (Grown-IsLog g)

  -- A rotation that succeeds, of a custodian whose times never went back, leaves a log that
  -- verifies exactly when the time of the rotation is not before the last one.
  pub verify_lifecycle-rotate :
      (t u : ℕ) (c c' : KeyCustodian) (key : List ℕ)
      → Grown t c
      → rotate digest c key u ≡ ok c'
      → verify_lifecycle digest c'.events ≡ leb t u
  verify_lifecycle-rotate t u c c' key g h =
      let k = unrevoked_of_rotate c c' key u h in
      rw (sym k.1) (pushed-verify t u rotation key key c (Grown-IsLog g) k.0 refl)
