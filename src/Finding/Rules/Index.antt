-- ===== src/Finding/Rules/Index.antt =====
-- internal/finding/decision.go: the keys of the maps in `Decide`.
use ssc_init.Base.{
  ◌≡◌, sym, inl, inr, Bool-cases, some, List, [], ◌∷◌, arith, Text, text_eq, text_eq→eq, Dict, get,
  put, keys, Member, IsKeyed, put-IsKeyed,
}
use ssc_init.Model.{Asset, Finding}
use ssc_init.Finding.Rules.{index_assets, outranks, index_findings}

module _ {V : Type 0} where
  -- A key that is read is one of the keys.
  pub get-keys : (key : Text) (d : Dict V) (v : V) → get key d ≡ some v → Member key (keys d)
  unfolding get
  get-keys key [] v h = cc
  get-keys key ((k, w) ∷ d) v h = elim (Bool-cases (text_eq k key)) [
    | inl t ↦ inl (sym (text_eq→eq k key t))
    | inr f ↦ inr (get-keys key d v (ground arith))
  ]

pub index_assets-IsKeyed :
    (d : Dict Asset) (assets : List Asset)
    → IsKeyed (λ a. a.id) d
    → IsKeyed (λ a. a.id) (index_assets d assets)
unfolding index_assets
index_assets-IsKeyed d [] h = h
index_assets-IsKeyed d (a ∷ rest) h =
    index_assets-IsKeyed (put a.id a d) rest (put-IsKeyed (λ (a : Asset). a.id) a d h)

pub index_findings-IsKeyed :
    (d : Dict Finding) (items : List Finding)
    → IsKeyed (λ f. f.asset_id) d
    → IsKeyed (λ f. f.asset_id) (index_findings d items)
unfolding index_findings
index_findings-IsKeyed d [] h = h
index_findings-IsKeyed d (x ∷ rest) h = elim (Bool-cases (outranks x (get x.asset_id d))) [
  | inl t ↦ rw t (
      index_findings-IsKeyed (put x.asset_id x d) rest
        (put-IsKeyed (λ (f : Finding). f.asset_id) x d h))
  | inr f ↦ rw f (index_findings-IsKeyed d rest h)
]
