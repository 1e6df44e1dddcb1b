-- ===== src/Db/Contract.antt =====
-- db/db.go: the point operations of the interface Store as a machine over functions: which families
-- are registered, and the value at each family and key. `Simulation` relates an implementation to it.
use brewery_bitcoin.Db.Base.{DbError, closed, column_family_not_found, key_not_found, nil_key}
use brewery_bitcoin.Prelude.{
  ◌≡◌, refl, Bool, true, ◌&&◌, Option, none, some, List, [], ◌∷◌, if◌then◌else◌, is_some, Bytes,
  same, Result, ok, err, ◌>>=◌,
}

pub data Request : Type 0 where
  get : Bytes → Option Bytes → Request
  put : Bytes → Option Bytes → Bytes → Request
  delete : Bytes → Option Bytes → Request
  has : Bytes → Option Bytes → Request
  flush : Request
  close : Request

pub data Reply : Type 0 where
  value : Result DbError Bytes → Reply
  flag : Result DbError Bool → Reply
  status : Option DbError → Reply

pub record Spec : Type 0 where
  pub is_closed : Bool
  pub registered : Bytes → Bool
  pub stored : Bytes → Bytes → Option Bytes

abbrev pub admitted : Spec → Bytes → Option Bytes → Result DbError Bytes
admitted s cf none = if s.is_closed then err closed else err nil_key
admitted s cf (some k) =
    if s.is_closed
    then err closed
    else if s.registered cf
    then ok k
    else err (column_family_not_found cf)

abbrev pub found : Option Bytes → Result DbError Bytes
found none = err key_not_found
found (some v) = ok v

-- The store with the value at one family and key replaced.
abbrev pub write : Spec → Bytes → Option Bytes → Result DbError Bytes → Spec × Reply
write s cf v (err e) = (s, status (some e))
write s cf v (ok k) = (
  record s { stored = λ cf' k'. if same cf cf' && same k k' then v else s.stored cf' k' },
  status none,
)

unfoldable pub step : Spec → Request → Spec × Reply
step s (get cf key) = (s, value (do k ← admitted s cf key; found (s.stored cf k)))
step s (put cf key v) = write s cf (some v) (admitted s cf key)
step s (delete cf key) = write s cf none (admitted s cf key)
step s (has cf key) = (s, flag (do k ← admitted s cf key; ok (is_some (s.stored cf k))))
step s flush = (s, status (if s.is_closed then some closed else none))
step s close =
    if s.is_closed then (s, status (some closed)) else (record s { is_closed = true }, status none)

-- The replies to a list of requests, for any machine.
unfoldable pub serve : {S : Type 0} → (S → Request → S × Reply) → S → List Request → List Reply
serve step s [] = []
serve step s (r ∷ rs) = let (s', reply) = step s r in reply ∷ serve step s' rs

-- An implementation with a relation that each request keeps, the replies being equal.
pub record Simulation (S : Type 0) : Type 1 where
  pub run : S → Request → S × Reply
  pub Represents : S → Spec → Type 0
  pub replies : (m : S) (s : Spec) (r : Request) → Represents m s → (run m r).1 ≡ (step s r).1
  pub keeps :
      (m : S) (s : Spec) (r : Request) → Represents m s → Represents (run m r).0 (step s r).0

module _ {S : Type 0} (sim : Simulation S) where
  pub serve-eq-spec :
      (rs : List Request) (m : S) (s : Spec)
      → sim.Represents m s
      → serve sim.run m rs ≡ serve step s rs
  unfolding serve
  serve-eq-spec [] m s h = refl
  serve-eq-spec (r ∷ rs) m s h =
      cc (sim.replies m s r h, serve-eq-spec rs (sim.run m r).0 (step s r).0 (sim.keeps m s r h))
