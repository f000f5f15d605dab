-- ===== src/Consensus/Committee.antt =====
-- consensus/src/user/cluster.rs and consensus/src/user/committee.rs: a committee with the credits of its
-- members, and the bit set that stands for the voters in a quorum certificate.
use rusk.Prelude.{
  ℕ, suc, ◌+◌, ◌/◌, ◌%◌, ◌^◌, Bool, Option, none, some, List, [], ◌∷◌, ◌==◌, if◌then◌else◌, length,
  unwrap_or,
}
use rusk.Vm.{PublicKey}
use rusk.Map.{Map, get, insert, contains_key}
use rusk.Map.Weight.{total}

-- `Cluster<PublicKey>`: the voters with their weights.
abbrev pub Cluster : Type 0
Cluster = Map ℕ

-- `Cluster::add`: the weight of a key is set once.
unfoldable pub add : PublicKey → ℕ → Cluster → Option ℕ × Cluster
add key weight a =
    if weight == 0
    then (none, a)
    else if contains_key key a
    then (none, a)
    else (some weight, insert key weight a)

-- `Cluster::total_occurrences`
unfoldable pub total_weight : Cluster → ℕ
total_weight a = total (λ w. w) a

pub record Committee : Type 0 where
  pub members : Map ℕ
  pub super_majority : ℕ
  pub majority : ℕ
  pub excluded : List PublicKey

unfoldable pub is_member : PublicKey → Committee → Bool
is_member key c = contains_key key c.members

unfoldable pub votes_for : PublicKey → Committee → Option ℕ
votes_for key c = get key c.members

unfoldable pub size : Committee → ℕ
size c = length c.members

-- The loop of `bits`, from the position `pos` on. Each position is met once, so the bit is added.
unfoldable pub bits_from : ℕ → Cluster → Map ℕ → ℕ
bits_from pos voters [] = 0
bits_from pos voters ((key, _) ∷ members) =
    let rest = bits_from (suc pos) voters members in
    if contains_key key voters then 2 ^ pos + rest else rest

-- A committee has at most 64 members, as `bits` asserts.
unfoldable pub bits : Committee → Cluster → ℕ
bits c voters = bits_from 0 voters c.members

-- The loop of `intersect`.
unfoldable pub intersect_from : ℕ → ℕ → Map ℕ → Cluster → Cluster
intersect_from pos bitset [] a = a
intersect_from pos bitset ((key, weight) ∷ members) a =
    intersect_from (suc pos) bitset members
      (if bitset / 2 ^ pos % 2 == 0 then a else (add key weight a).1)

unfoldable pub intersect : Committee → ℕ → Cluster
intersect c bitset = if bitset == 0 then [] else intersect_from 0 bitset c.members []

votes_of : Committee → Cluster → ℕ
votes_of c [] = 0
votes_of c ((key, _) ∷ voters) = unwrap_or (votes_for key c) 0 + votes_of c voters

unfoldable pub total_occurrences : Committee → Cluster → ℕ
unfolding votes_of
total_occurrences c voters = votes_of c voters
