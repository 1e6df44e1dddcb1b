-- ===== src/Db/Registered.antt =====
-- The families that Open and NewMockStore register: the default one and those listed.
use brewery_bitcoin.Stdlib.Sort.{occurs}
use brewery_bitcoin.Db.Base.{default_column_family}
use brewery_bitcoin.Db.Keys.{cf_prefix}
use brewery_bitcoin.Db.Mock.{register}
use brewery_bitcoin.Db.Pebble.{register_prefixes}
use brewery_bitcoin.Prelude.{
  ◌≡◌, refl, ◌∙◌, inl, inr, Bool, true, none, some, List, [], ◌∷◌, arith, if◌then◌else◌, Bool-cases,
  Bytes, same, same_iff, same_self, Dict, lookup, insert, lookup-insert,
}

-- whether a store made for the families `cfs` has the family
abbrev pub is_registered : List Bytes → Bytes → Bool
is_registered cfs cf = occurs cf (default_column_family ∷ cfs)

module _ {V : Type 0} (entry : Bytes → V) where
  -- one round of the loops, where the default family is already there
  round :
      (m : Dict V) (x cf : Bytes) (rest : Bool)
      → lookup default_column_family m ≡ some (entry default_column_family)
      → (if rest
          then some (entry cf)
          else lookup cf (if same x default_column_family then m else insert x (entry x) m))
        ≡ (if (if same x cf then true else rest) then some (entry cf) else lookup cf m)
  round m x cf rest h = elim (Bool-cases (same x default_column_family)) [
    | inl skip ↦ ground (arith, h, same_iff x default_column_family, same_iff x cf, skip)
    | inr fresh ↦ ground (arith, same_iff x cf, fresh, lookup-insert x cf (entry x) m)
  ]

  round_default :
      (m : Dict V) (x : Bytes)
      → lookup default_column_family m ≡ some (entry default_column_family)
      → lookup default_column_family
          (if same x default_column_family then m else insert x (entry x) m)
        ≡ some (entry default_column_family)
  round_default m x h = elim (Bool-cases (same x default_column_family)) [
    | inl skip ↦ ground (arith, h, skip)
    | inr fresh ↦ ground (arith, h, fresh, lookup-insert x default_column_family (entry x) m)
  ]

register_prefixes-from :
    (cfs : List Bytes) (m : Dict Bytes) (cf : Bytes)
    → lookup default_column_family m ≡ some (cf_prefix default_column_family)
    → lookup cf (register_prefixes m cfs)
      ≡ (if occurs cf cfs then some (cf_prefix cf) else lookup cf m)
unfolding register_prefixes
register_prefixes-from [] m cf h = refl
register_prefixes-from (x ∷ cfs) m cf h =
    register_prefixes-from cfs
      (if same x default_column_family then m else insert x (cf_prefix x) m) cf
      (round_default cf_prefix m x h)
    ∙ round cf_prefix m x cf (occurs cf cfs) h

register-from :
    (cfs : List Bytes) (m : Dict (Dict Bytes)) (cf : Bytes)
    → lookup default_column_family m ≡ some []
    → lookup cf (register m cfs) ≡ (if occurs cf cfs then some [] else lookup cf m)
unfolding register
register-from [] m cf h = refl
register-from (x ∷ cfs) m cf h =
    register-from cfs (if same x default_column_family then m else insert x [] m) cf
      (round_default (λ b. []) m x h)
    ∙ round (λ b. []) m x cf (occurs cf cfs) h

-- The map of prefixes that Open builds gives every registered family its own prefix, and no other
-- family is in it.
pub lookup-register_prefixes :
    (cfs : List Bytes) (cf : Bytes)
    → lookup cf
        (register_prefixes ((default_column_family, cf_prefix default_column_family) ∷ []) cfs)
      ≡ (if is_registered cfs cf then some (cf_prefix cf) else none)
unfolding lookup
lookup-register_prefixes cfs cf =
    register_prefixes-from cfs ((default_column_family, cf_prefix default_column_family) ∷ []) cf
      (rw (same_self default_column_family))
    ∙ ground (arith, same_iff default_column_family cf)

-- The map of buckets that NewMockStore builds gives every registered family an empty bucket, and no
-- other family is in it.
pub lookup-register :
    (cfs : List Bytes) (cf : Bytes)
    → lookup cf (register ((default_column_family, []) ∷ []) cfs)
      ≡ (if is_registered cfs cf then some [] else none)
unfolding lookup
lookup-register cfs cf =
    register-from cfs ((default_column_family, []) ∷ []) cf (rw (same_self default_column_family))
    ∙ ground (arith, same_iff default_column_family cf)
