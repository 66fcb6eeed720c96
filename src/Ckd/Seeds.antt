-- ===== src/Ckd/Seeds.antt =====
-- crates/ckd/src/seeds.rs. A `Position` is its coordinates.
use overlay_broadcast.Base.{
  ℕ, ◌<◌, Option, none, some, List, [], ◌∷◌, Result, ok, err, ok_or, ◌>>=◌, length, take, ltb, map,
  bit_and, bit_or, if◌then◌else◌,
}
use overlay_broadcast.Base
use overlay_broadcast.Ckd.Group.{Group}
use overlay_broadcast.Ckd.Key.{
  CkdResult, XPriv, derivation_failed, from_seed, derive_path, hardened,
}

-- `b"overlay-broadcast/seed/first/v1"`
abbrev first_domain : List ℕ
first_domain =
    111 ∷ 118 ∷ 101 ∷ 114 ∷ 108 ∷ 97 ∷ 121 ∷ 45 ∷ 98 ∷ 114 ∷ 111 ∷ 97 ∷ 100 ∷ 99 ∷ 97 ∷ 115 ∷ 116
    ∷ 47 ∷ 115 ∷ 101 ∷ 101 ∷ 100 ∷ 47 ∷ 102 ∷ 105 ∷ 114 ∷ 115 ∷ 116 ∷ 47 ∷ 118 ∷ 49 ∷ []

-- `b"overlay-broadcast/seed/second/v1"`
abbrev second_domain : List ℕ
second_domain =
    111 ∷ 118 ∷ 101 ∷ 114 ∷ 108 ∷ 97 ∷ 121 ∷ 45 ∷ 98 ∷ 114 ∷ 111 ∷ 97 ∷ 100 ∷ 99 ∷ 97 ∷ 115 ∷ 116
    ∷ 47 ∷ 115 ∷ 101 ∷ 101 ∷ 100 ∷ 47 ∷ 115 ∷ 101 ∷ 99 ∷ 111 ∷ 110 ∷ 100 ∷ 47 ∷ 118 ∷ 49 ∷ []

-- `b"overlay-broadcast/seed/third/v1"`
abbrev third_domain : List ℕ
third_domain =
    111 ∷ 118 ∷ 101 ∷ 114 ∷ 108 ∷ 97 ∷ 121 ∷ 45 ∷ 98 ∷ 114 ∷ 111 ∷ 97 ∷ 100 ∷ 99 ∷ 97 ∷ 115 ∷ 116
    ∷ 47 ∷ 115 ∷ 101 ∷ 101 ∷ 100 ∷ 47 ∷ 116 ∷ 104 ∷ 105 ∷ 114 ∷ 100 ∷ 47 ∷ 118 ∷ 49 ∷ []

unfoldable pub hardened_path : List ℕ → List ℕ
hardened_path coords = map (λ c. bit_or c hardened) coords

-- `!HARDENED` on 32 bits is 2147483647.
unfoldable pub path : List ℕ → List ℕ
path coords = map (λ c. bit_and c 2147483647) coords

pub record Seeds : Type 0 where
  pub first : List ℕ
  pub second : List ℕ
  pub third : List ℕ

module _ {Point : Type 0} (q : Group Point) where
  unfoldable pub derive_seed : List ℕ → List ℕ → CkdResult (List ℕ)
  derive_seed master domain =
      Base.◌>>=◌ (ok_or (q.hmac master domain) derivation_failed)
        λ out. if ltb (length out) 32 then err derivation_failed else ok (take 32 out)

  unfoldable pub from_master : List ℕ → CkdResult Seeds
  unfolding derive_seed
  from_master master = Base.◌>>=◌ (derive_seed master first_domain) λ first.
      Base.◌>>=◌ (derive_seed master second_domain) λ second.
        Base.◌>>=◌ (derive_seed master third_domain)
          λ third. ok (record { first = first; second = second; third = third })

  -- The key of a seed at a position.
  unfoldable pub key_at : List ℕ → List ℕ → CkdResult XPriv
  unfolding hardened_path
  key_at seed position = Base.◌>>=◌ (from_seed q seed) λ k. derive_path q k (hardened_path position)

  unfoldable pub writing_key : Seeds → List ℕ → CkdResult XPriv
  unfolding key_at
  writing_key s position = key_at s.first position

  unfoldable pub second_function_key : Seeds → List ℕ → CkdResult XPriv
  unfolding key_at
  second_function_key s position = key_at s.second position

  unfoldable pub third_function_key : Seeds → List ℕ → CkdResult XPriv
  unfolding key_at
  third_function_key s position = key_at s.third position
