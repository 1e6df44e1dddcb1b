-- ===== src/Samples/Examples.antt =====
-- The sample programs' theorems at concrete chains: a header is its hash, and the hashes of a chain
-- are consecutive numbers behind that of the genesis block.
mod Programs
use brewery_bitcoin.Wire.{Wire, InvVect}
use brewery_bitcoin.Btcclient.Peer.{ManagedPeer, up, connected, attached}
use brewery_bitcoin.Indexer.Base.{Chaincfg}
use brewery_bitcoin.Samples.HeaderIndexer.{
  HeaderIndexer, height, on_peer_connected, on_inv, has_block,
}
use brewery_bitcoin.Samples.HeaderIndexer.Sync.{max_headers, tip_after, IsHonest, converse}
use brewery_bitcoin.Samples.HeaderIndexer.Sync.CatchUp.{caught_up, catch_up}
use brewery_bitcoin.Samples.HeaderIndexer.Sync.Announced.{on_inv_lem, first_exchange, stalls}
use brewery_bitcoin.Samples.HeaderIndexer.Sync.Race.{race, race_duplicates}
use mathlib.Core.Path.{ap₂}
use brewery_bitcoin.Prelude.{
  ℕ, zero, suc, ◌+◌, ◌-◌, ◌/◌, ◌%◌, ◌^◌, ◌≡◌, refl, sym, ap, ◌∙◌, subst, true, false, none, some,
  List, [], ◌∷◌, ◌++◌, arith, length, pos, codes, take, take_all,
}

abbrev networks : Chaincfg
networks = record {
  Params = ℕ;
  Hash = ℕ;
  default_port = λ p. codes "38333";
  dns_seeds = λ p. [];
  genesis_hash = λ p. p;
  main_net = 1;
  sig_net = 1;
  test_net3 = 1;
  regression_net = 1;
  sim_net = 1;
}

abbrev numbers : Wire ℕ
numbers = record {
  Header = ℕ;
  block_hash = λ h. h;
  zero_hash = 0;
  inv_type_block = 2;
  inv_type_witness_block = 2 ^ 30 + 2;
}

-- the headers a, a + 1, …, as many as the second number says
count_up : ℕ → ℕ → List ℕ
count_up a zero = []
count_up a (suc n) = a ∷ count_up (suc a) n

length-count_up : (a n : ℕ) → length (count_up a n) ≡ n
unfolding count_up
length-count_up a zero = refl
length-count_up a (suc n) = ap suc (length-count_up (suc a) n)

-- a peer whose chain ends with this header
serve_to : ℕ → List ℕ → ℕ → List ℕ
serve_to last [] stop = []
serve_to last (h ∷ locator) stop = take max_headers (count_up (suc h) (last - h))

count_split :
    (g n : ℕ) (pre suf : List ℕ)
    → count_up (suc g) n ≡ pre ++ suf
    → suf ≡ count_up (suc (tip_after numbers g pre)) (g + n - tip_after numbers g pre)
unfolding count_up
count_split g n [] suf e = sym e ∙ ap (count_up (suc g)) (omega arith)
count_split g zero (x ∷ pre) suf e = absurd (cc e)
count_split g (suc n) (x ∷ pre) suf e =
    let first : suc g ≡ x = cc e in
    let others : count_up (suc (suc g)) n ≡ pre ++ suf = cc e in
    subst
      (λ y. suf ≡ count_up (suc (tip_after numbers y pre)) (g + suc n - tip_after numbers y pre))
      first
      (count_split (suc g) n pre suf others
        ∙ ap (count_up (suc (tip_after numbers (suc g) pre))) (omega arith))

serve_to-IsHonest : (n : ℕ) → IsHonest numbers (serve_to (1 + n)) 1 (count_up 2 n)
unfolding serve_to
serve_to-IsHonest n = record {
  answers = λ pre suf e. ap (take max_headers) (sym (count_split 1 n pre suf e));
}

abbrev peer : ManagedPeer
peer = record {
  address = codes "203.0.113.7:38333";
  peer = some up;
  status = connected;
  failure_count = pos 0;
  cancelled = false;
  point = attached;
}

abbrev new_one : HeaderIndexer networks numbers
new_one = record { headers = []; tip_hash = 1; synced = false; params = 1 }

catch_up_example :
    (converse numbers peer (serve_to 3) 1 new_one (on_peer_connected numbers peer new_one)
      ≡ (caught_up numbers 1 (count_up 2 2) 2 new_one, none))
    × (height numbers (caught_up numbers 1 (count_up 2 2) 2 new_one) ≡ pos 2)
unfolding count_up
catch_up_example =
    catch_up numbers peer up refl (serve_to 3) 1 (count_up 2 2) (serve_to-IsHonest 2) []
      (count_up 2 2) new_one refl refl refl (omega arith)

-- The exchange ends with two headers, synced.
two_headers :
    converse numbers peer (serve_to 3) 1 new_one (on_peer_connected numbers peer new_one)
    ≡ (record { headers = 2 ∷ 3 ∷ []; tip_hash = 3; synced = true; params = 1 }, none)
unfolding count_up
two_headers =
    (catch_up numbers peer up refl (serve_to 3) 1 (count_up 2 2) (serve_to-IsHonest 2) []
      (count_up 2 2) new_one refl refl refl (omega arith)).0

abbrev synced_one : HeaderIndexer networks numbers
synced_one = record { headers = 2 ∷ 3 ∷ []; tip_hash = 3; synced = true; params = 1 }

abbrev new_block : List (InvVect ℕ)
new_block = record { kind = 1; hash = 9 } ∷ record { kind = 2; hash = 4 } ∷ []

on_inv_lem_example :
    converse numbers peer (serve_to 4) 1 synced_one (on_inv numbers peer new_block synced_one)
    ≡ (record { headers = 2 ∷ 3 ∷ 4 ∷ []; tip_hash = 4; synced = true; params = 1 }, none)
unfolding count_up has_block
on_inv_lem_example =
    on_inv_lem numbers peer up refl (serve_to 4) 1 (count_up 2 3) (serve_to-IsHonest 3) (2 ∷ 3 ∷ [])
      (4 ∷ []) synced_one new_block refl refl refl

-- 2000 headers
abbrev messages : ℕ
messages = length (count_up 2 2000) / max_headers + 1

stalls_example :
    ((first_exchange networks numbers peer (serve_to 2001) 1 messages).0.headers ≡ count_up 2 2000)
    × ((first_exchange networks numbers peer (serve_to 2001) 1 messages).1 ≡ none)
    × (on_inv numbers peer new_block
          (first_exchange networks numbers peer (serve_to 2001) 1 messages).0
        ≡ none)
stalls_example =
    stalls networks numbers peer up (serve_to 2001) 1 (count_up 2 2000) peer new_block refl
      (serve_to-IsHonest 2000) (ap (λ n. n % max_headers) (length-count_up 2 2000))

race_duplicates_example :
    (race numbers (serve_to 3) peer peer new_one).headers
    ≡ ([] ++ take max_headers (count_up 2 2)) ++ take max_headers (count_up 2 2)
race_duplicates_example =
    race_duplicates numbers (serve_to 3) peer peer up up 1 [] (count_up 2 2) new_one refl refl
      (serve_to-IsHonest 2) refl refl

-- The chain of two headers stands in the list twice.
stands_twice : (race numbers (serve_to 3) peer peer new_one).headers ≡ 2 ∷ 3 ∷ 2 ∷ 3 ∷ []
unfolding count_up
stands_twice =
    let all : take max_headers (count_up 2 2) ≡ 2 ∷ 3 ∷ [] =
      take_all max_headers (2 ∷ 3 ∷ []) (omega arith) in
    race_duplicates_lem ∙ ap₂ (λ (xs ys : List ℕ). xs ++ ys) all all
  where
    race_duplicates_lem :
        (race numbers (serve_to 3) peer peer new_one).headers
        ≡ take max_headers (count_up 2 2) ++ take max_headers (count_up 2 2)
    race_duplicates_lem =
        race_duplicates numbers (serve_to 3) peer peer up up 1 [] (count_up 2 2) new_one refl refl
          (serve_to-IsHonest 2) refl refl
