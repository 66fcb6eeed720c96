-- ===== src/Res/Quorum.antt =====
-- crates/res/src/quorum.rs and error.rs: availability of threshold signers.
use overlay_broadcast.Base.{
  ℕ, ◌+◌, ◌-◌, ◌≤◌, ◌<◌, ◌≡◌, ◌↔◌, ◌||◌, arith, Result, ok, err, ltb, ◌==◌, if◌then◌else◌,
}

pub data ResError : Type 0 where
  bad_params below_quorum node_unavailable : ResError

unfoldable pub check_quorum : ℕ → ℕ → ℕ → Result ResError (Unit {0})
check_quorum available threshold n =
    if threshold == 0 || ltb n threshold
    then err bad_params
    else if ltb available threshold
    then err below_quorum
    else ok tt

-- `saturating_sub`
unfoldable pub tolerable_unavailable : ℕ → ℕ → ℕ
tolerable_unavailable threshold n = n - threshold

-- With a threshold of 1 to `n` and `down` of `n` signers gone, signing has quorum exactly when
-- `down` is at most `tolerable_unavailable`; else the error is `below_quorum`.
pub check_quorum-tolerable_unavailable :
    (available down threshold n : ℕ)
    → 0 < threshold
    → threshold ≤ n
    → available + down ≡ n
    → ((check_quorum available threshold n ≡ ok tt) ↔ (down ≤ tolerable_unavailable threshold n))
      × ((check_quorum available threshold n ≡ err below_quorum)
          ↔ (tolerable_unavailable threshold n < down))
unfolding check_quorum tolerable_unavailable
check_quorum-tolerable_unavailable a d t n lo hi e =
    ((λ x. ground arith, λ x. ground arith), (λ x. ground arith, λ x. ground arith))
