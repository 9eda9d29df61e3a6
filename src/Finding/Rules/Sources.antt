-- ===== src/Finding/Rules/Sources.antt =====
-- internal/finding/decision.go: where the entries of the maps in `Decide` come from.
use ssc_init.Base.{
  ◌≡◌, ◌≢◌, refl, ◌⊎◌, inl, inr, true, false, Bool-cases, some, List, [], ◌∷◌, ◌++◌, arith, All,
  Any, is_empty, Text, text_eq, text_eq_iff, text_eq_refl, to_lower, Dict, get, put, get-put,
  get_all, add, get_all-add, Member,
}
use ssc_init.Model.{Asset, Finding}
use ssc_init.Finding.Bundle.{DenyRule, AllowRule}
use ssc_init.Finding.Rank.{equal_fold}
use ssc_init.Finding.Rules.{
  index_assets, outranks, index_findings, Allow, index_denies, index_allows,
}

-- An asset of the map is an asset of the inventory.
pub index_assets-Member :
    (d : Dict Asset) (assets : List Asset) (id : Text) (a : Asset)
    → get id (index_assets d assets) ≡ some a
    → (get id d ≡ some a) ⊎ Member a assets
unfolding index_assets
index_assets-Member d [] id a h = inl h
index_assets-Member d (x ∷ rest) id a h = elim (index_assets-Member (put x.id x d) rest id a h) [
  | inr m ↦ inr (inr m)
  | inl e ↦ elim (Bool-cases (text_eq x.id id)) [
    | inl t ↦ inr (inl (ground (arith, get-put x.id id x d)))
    | inr f ↦ inl (ground (arith, get-put x.id id x d))
  ]
]

-- What holds of every finding holds of those of the map.
pub index_findings-All :
    (P : Finding → Type 0) (d : Dict Finding) (items : List Finding) (id : Text)
    → All P items
    → ((c : Finding) → get id d ≡ some c → P c)
    → (c : Finding) → get id (index_findings d items) ≡ some c
    → P c
unfolding index_findings
index_findings-All P d [] id a h = h
index_findings-All P d (x ∷ rest) id a h = elim (Bool-cases (outranks x (get x.asset_id d))) [
  | inr f ↦ rw f (index_findings-All P d rest id a.1 h)
  | inl t ↦ rw t (index_findings-All P (put x.asset_id x d) rest id a.1 written)
]
  where
    written : (c : Finding) → get id (put x.asset_id x d) ≡ some c → P c
    written c e = elim (Bool-cases (text_eq x.asset_id id)) [
      | inl t ↦ let same : x ≡ c = ground (arith, get-put x.asset_id id x d) in rw (← same) a.0
      | inr f ↦ h c (ground (arith, get-put x.asset_id id x d))
    ]

snoc-ne : {A : Type 0} (xs : List A) (x : A) → is_empty (xs ++ x ∷ []) ≡ false
snoc-ne [] x = refl
snoc-ne (y ∷ ys) x = refl

-- An asset without deny rules in the map has none in the payload.
pub index_denies-empty :
    (d : Dict (List Text)) (rules : List DenyRule) (id : Text)
    → get_all id (index_denies d rules) ≡ []
    → (get_all id d ≡ []) × All (λ r. r.asset_id ≢ id) rules
unfolding index_denies
index_denies-empty d [] id h = (h, tt)
index_denies-empty d (r ∷ rest) id h =
    let (before, later) = index_denies-empty (add r.asset_id r.id d) rest id h in
    (unread before, (λ e. ground (arith, unread before, denied before e), later))
  where
    unread : get_all id (add r.asset_id r.id d) ≡ [] → get_all id d ≡ []
    unread before = elim (Bool-cases (text_eq r.asset_id id)) [
      | inr f ↦ ground (arith, get_all-add r.asset_id id r.id d)
      | inl t ↦
          ground (arith, get_all-add r.asset_id id r.id d, snoc-ne (get_all r.asset_id d) r.id)
    ]

    denied : get_all id (add r.asset_id r.id d) ≡ [] → r.asset_id ≡ id → ⊥
    denied before e = ground (
      arith,
      get_all-add r.asset_id id r.id d,
      snoc-ne (get_all r.asset_id d) r.id,
      text_eq_iff r.asset_id id,
    )

-- The allow rules of an asset with an equal digest, up to the case of letters.
abbrev pub Allows : Text → Text → AllowRule → Type 0
Allows id digest r = (r.asset_id ≡ id) × (equal_fold (to_lower r.sha256) digest ≡ true)

Any-snoc :
    {A : Type 0} (P : A → Type 0) (xs : List A) (x : A) → Any P (xs ++ x ∷ []) → Any P xs ⊎ P x
Any-snoc P [] x (inl p) = inr p
Any-snoc P [] x (inr m) = elim m [ ]
Any-snoc P (y ∷ ys) x (inl p) = inl (inl p)
Any-snoc P (y ∷ ys) x (inr m) = elim (Any-snoc P ys x m) [ inl n ↦ inl (inr n) | inr p ↦ inr p ]

-- What a map to slices holds under a key stood there before, or was written now.
pub add-Any :
    {V : Type 0} (P : V → Type 0) (key id : Text) (v : V) (d : Dict (List V))
    → Any P (get_all id (add key v d))
    → Any P (get_all id d) ⊎ ((key ≡ id) × P v)
add-Any P key id v d m = elim (Bool-cases (text_eq key id)) [
  | inr f ↦
      let same : get_all id (add key v d) ≡ get_all id d = ground (arith, get_all-add key id v d) in
      inl (rw same at m)
  | inl t ↦
      let e : key ≡ id = (text_eq_iff key id).0 t in
      let same : get_all id (add key v d) ≡ get_all id d ++ v ∷ [] =
        rw (← e) (ground (arith, get_all-add key key v d, text_eq_refl key)) in
      elim (Any-snoc P (get_all id d) v (rw same at m)) [ inl n ↦ inl n | inr p ↦ inr (e, p) ]
]

pub index_allows-Any :
    (d : Dict (List Allow)) (rules : List AllowRule) (id digest : Text)
    → Any (λ (a : Allow). equal_fold a.digest digest ≡ true) (get_all id (index_allows d rules))
    → Any (λ (a : Allow). equal_fold a.digest digest ≡ true) (get_all id d)
      ⊎ Any (Allows id digest) rules
unfolding index_allows
index_allows-Any d [] id digest m = inl m
index_allows-Any d (r ∷ rest) id digest m =
    let rule : Allow = record { id = r.id; digest = to_lower r.sha256 } in
    elim (index_allows-Any (add r.asset_id rule d) rest id digest m) [
      | inr later ↦ inr (inr later)
      | inl found ↦
          elim (add-Any (λ (a : Allow). equal_fold a.digest digest ≡ true) r.asset_id id rule d
            found) [ inl old ↦ inl old | inr new ↦ inr (inl new) ]
    ]
