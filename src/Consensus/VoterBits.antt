-- ===== src/Consensus/VoterBits.antt =====
-- The bit set of the voters and its reading (consensus/src/user/committee.rs).
use rusk.Prelude.{
  ℕ, suc, ◌+◌, ◌*◌, ◌/◌, ◌%◌, ◌^◌, ◌≤◌, ◌<◌, ◌≡◌, refl, sym, ◌∙◌, ap, inl, inr, true, none, some,
  [], ◌∷◌, ◌==◌, if◌then◌else◌, is_some, arith, length, Bool-cases,
}
use native.Mathlib.Nat.{
  add-mul-div_left, div-eq_of_lt, two-pow-succ, one-le-pow, mul-add, mul-one, zero-add, zero-div,
  one-mul, pow-le-pow_right,
}
use rusk.Vm.{PublicKey}
use rusk.Map.{Map, get, insert, contains_key, get-insert}
use rusk.Map.Sorted.{SortedFrom, IsSorted, get_below}
use rusk.Consensus.Committee.{Cluster, Committee, add, bits_from, bits, intersect_from, intersect}

-- Every member has a credit.
abbrev pub IsCredited : Map ℕ → Type 0
IsCredited [] = Unit
IsCredited ((_, w) ∷ m) = (0 < w) × IsCredited m

-- The bits of the members, the first one lowest.
code : Cluster → Map ℕ → ℕ
code voters [] = 0
code voters ((key, _) ∷ ms) =
    let rest = code voters ms in if contains_key key voters then 1 + 2 * rest else 2 * rest

pow_pos : (p : ℕ) → 0 < 2 ^ p
pow_pos p = one-le-pow p 2 (omega arith)

double : (p x : ℕ) → 2 ^ suc p * x ≡ 2 ^ p * (2 * x)
double p x = rw (two-pow-succ p) (grind arith)

bits_from-code : (p : ℕ) (v : Cluster) (ms : Map ℕ) → bits_from p v ms ≡ 2 ^ p * code v ms
unfolding bits_from code
bits_from-code p v [] = grind arith
bits_from-code p v ((k, w) ∷ ms) = ground (
  arith,
  bits_from-code (suc p) v ms,
  double p (code v ms),
  mul-add (2 ^ p) 1 (2 * code v ms),
  mul-one (2 ^ p),
)

read_bit : (p low high : ℕ) → low < 2 ^ p → (low + 2 ^ p * high) / 2 ^ p ≡ high
read_bit p low high h =
    let sum : (low + 2 ^ p * high) / 2 ^ p ≡ low / 2 ^ p + high =
      add-mul-div_left low high (pow_pos p) in
    let none_low : low / 2 ^ p ≡ 0 = div-eq_of_lt h in
    sum ∙ (ap (λ q. q + high) none_low ∙ zero-add high)

get-add :
    (j k w : ℕ) (a : Cluster)
    → 0 < w
    → get k (add j w a).1 ≡ (if is_some (get k a) then get k a else if k == j then some w else none)
unfolding add contains_key
get-add j k w a h = ground (arith, get-insert j k w a)

is_some-insert :
    (k j w : ℕ) (a : Cluster) → is_some (get k a) ≡ true → is_some (get k (insert j w a)) ≡ true
is_some-insert k j w a h = ground (arith, get-insert j k w a)

intersect_from-bits :
    (v : Cluster) (ms : Map ℕ) (lo p low bitset : ℕ) (a : Cluster) (k : PublicKey)
    → SortedFrom lo ms
    → IsCredited ms
    → low < 2 ^ p
    → bitset ≡ low + 2 ^ p * code v ms
    → get k (intersect_from p bitset ms a)
      ≡ (if is_some (get k a) then get k a else if contains_key k v then get k ms else none)
unfolding intersect_from get code
intersect_from-bits v [] lo p low bitset a k s c h e = ground arith
intersect_from-bits v ((j, w) ∷ ms) lo p low bitset a k s c h e =
    let high : ℕ = code v ((j, w) ∷ ms) in
    let quotient : bitset / 2 ^ p ≡ high = rw e (read_bit p low high h) in
    let twice = two-pow-succ p in
    elim (Bool-cases (contains_key j v)) [
      | inl voted ↦
          (let odd : high ≡ 1 + 2 * code v ms = rw voted refl in
            let bit : bitset / 2 ^ p % 2 ≡ 1 = omega (arith, quotient, odd) in
            let split : bitset ≡ (low + 2 ^ p) + 2 ^ suc p * code v ms = omega (
              arith,
              e,
              ap (λ x. 2 ^ p * x) odd,
              double p (code v ms),
              mul-add (2 ^ p) 1 (2 * code v ms),
              mul-one (2 ^ p),
            ) in
            let rest =
              intersect_from-bits v ms (suc j) (suc p) (low + 2 ^ p) bitset (add j w a).1 k s.1 c.1
                (omega (arith, h, twice)) split in
            ground (arith, bit, rest, voted, get-add j k w a c.0, get_below k (suc j) ms s.1))
      | inr silent ↦
          (let even : high ≡ 2 * code v ms = rw silent refl in
            let bit : bitset / 2 ^ p % 2 ≡ 0 = omega (arith, quotient, even) in
            let split : bitset ≡ low + 2 ^ suc p * code v ms =
              omega (arith, e, ap (λ x. 2 ^ p * x) even, double p (code v ms)) in
            let rest =
              intersect_from-bits v ms (suc j) (suc p) low bitset a k s.1 c.1
                (omega (arith, h, twice)) split in
            ground (arith, bit, rest, silent, get_below k (suc j) ms s.1))
    ]

intersect_from-zero : (ms : Map ℕ) (p : ℕ) (a : Cluster) → intersect_from p 0 ms a ≡ a
unfolding intersect_from
intersect_from-zero [] p a = refl
intersect_from-zero ((j, w) ∷ ms) p a =
    let none_read : 0 / 2 ^ p % 2 ≡ 0 = rw (zero-div (2 ^ p)) refl in
    ground (
      arith,
      none_read,
      intersect_from-zero ms (suc p) a,
      intersect_from-zero ms (suc p) (add j w a).1,
    )

intersect-loop :
    (c : Committee) (bitset : ℕ) → intersect c bitset ≡ intersect_from 0 bitset c.members []
unfolding intersect
intersect-loop c bitset = ground (arith, intersect_from-zero c.members 0 [])

-- The bit set of a committee gives its voters back: where the members stand in the order of their
-- keys, each with a credit, the intersection with the bits of the voters has, for each key, the
-- credits of the member if it is a voter, and no entry else.
pub intersect-bits :
    (c : Committee) (v : Cluster) (k : PublicKey)
    → IsSorted c.members
    → IsCredited c.members
    → get k (intersect c (bits c v)) ≡ (if contains_key k v then get k c.members else none)
unfolding bits
intersect-bits c v k s credited =
    let coded : bits_from 0 v c.members ≡ 0 + 2 ^ 0 * code v c.members =
      bits_from-code 0 v c.members ∙ sym (zero-add (2 ^ 0 * code v c.members)) in
    let back =
      intersect_from-bits v c.members 0 0 0 (bits_from 0 v c.members) [] k s credited (omega arith)
        coded in
    rw (intersect-loop c (bits_from 0 v c.members)) (back ∙ (unfold get in refl))

code-lt : (v : Cluster) (ms : Map ℕ) → code v ms < 2 ^ length ms
unfolding code
code-lt v [] = omega arith
code-lt v ((k, w) ∷ ms) = ground (arith, code-lt v ms, two-pow-succ (length ms))

-- The bits of a committee of at most 64 members fit in 64 bits.
pub bits-lt : (c : Committee) (v : Cluster) → length c.members ≤ 64 → bits c v < 2 ^ 64
unfolding bits
bits-lt c v few =
    let most : 2 ^ length c.members ≤ 2 ^ 64 = pow-le-pow_right (omega arith) few in
    omega
      (arith, bits_from-code 0 v c.members, code-lt v c.members, one-mul (code v c.members), most)
