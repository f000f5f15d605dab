-- ===== src/Consensus/Sortition.antt =====
-- consensus/src/user/sortition.rs, stake.rs and provisioners.rs: the extraction of a committee, credit by
-- credit, each with a chance in proportion to the stake that is left.
use rusk.Prelude.{
  ℕ, zero, suc, ◌+◌, ◌-◌, ◌*◌, ◌/◌, ◌%◌, ◌^◌, Bool, true, false, ◌&&◌, ◌||◌, List, [], ◌∷◌, ◌++◌,
  ◌==◌, leb, ltb, if◌then◌else◌, unwrap_or,
}
use rusk.Vm.{PublicKey, Bytes}
use rusk.Bytes.{to_le_bytes}
use rusk.Map.{Map, get, insert}
use rusk.Stake.Types.{default_minimum_stake}
use rusk.Map.Weight.{total}
use rusk.Consensus.Committee.{Committee}
use rusk.NodeData.Votes.{StepName, to_step}

pub record Stake : Type 0 where
  pub value : ℕ
  pub eligible_since : ℕ

abbrev pub dusk : ℕ
dusk = 1000000000

unfoldable pub is_eligible : ℕ → Stake → Bool
is_eligible round s = leb s.eligible_since round

-- `Stake::subtract`: what was taken, and the stake that is left.
unfoldable pub subtract : ℕ → Stake → ℕ × Stake
subtract sub s =
    if leb s.value sub
    then (s.value, record s { value = 0 })
    else (sub, record s { value = s.value - sub })

pub record Config : Type 0 where
  pub seed : Bytes
  pub round : ℕ
  pub step : ℕ
  pub committee_credits : ℕ
  pub exclusion : List PublicKey

abbrev pub credits_of : StepName → ℕ
credits_of StepName.proposal = 1
credits_of StepName.validation = 64
credits_of StepName.ratification = 64

-- `Config::new`
unfoldable pub new_config : Bytes → ℕ → ℕ → StepName → List PublicKey → Config
new_config seed round iteration step exclusion = record {
  seed = seed;
  round = round;
  step = to_step step iteration;
  committee_credits = credits_of step;
  exclusion = exclusion;
}

-- `create_sortition_hash`, as the number that its bytes spell; `sha3` is SHA3-256 to that number.
unfoldable pub create_sortition_hash : (Bytes → ℕ) → Config → ℕ → ℕ
create_sortition_hash sha3 cfg counter =
    sha3 (cfg.seed ++ (cfg.step ∷ to_le_bytes 4 (counter % 2 ^ 32)))

-- `Provisioners::eligibles`
unfoldable pub eligibles : ℕ → Map Stake → Map Stake
eligibles round [] = []
eligibles round ((pk, s) ∷ members) =
    if is_eligible round s && leb default_minimum_stake s.value
    then (pk, s) ∷ eligibles round members
    else eligibles round members

unfoldable pub is_excluded : List PublicKey → PublicKey → Bool
is_excluded [] pk = false
is_excluded (excluded ∷ exclusion) pk = excluded == pk || is_excluded exclusion pk

unfoldable pub without : List PublicKey → Map Stake → Map Stake
without exclusion [] = []
without exclusion ((pk, s) ∷ members) =
    if is_excluded exclusion pk
    then without exclusion members
    else (pk, s) ∷ without exclusion members

abbrev pub or_all : Map Stake → Map Stake → Map Stake
or_all [] all = all
or_all (m ∷ members) all = m ∷ members

-- `CommitteeGenerator::from_provisioners`: all the eligible ones if none is left.
unfoldable pub from_provisioners : Map Stake → ℕ → List PublicKey → Map Stake
unfolding without eligibles
from_provisioners provisioners round exclusion =
    or_all (without exclusion (eligibles round provisioners)) (eligibles round provisioners)

abbrev pub stake_value : Stake → ℕ
stake_value s = s.value

-- `total_weight`, a sum on 64 bits.
unfoldable pub generator_weight : Map Stake → ℕ
generator_weight members = total stake_value members % 2 ^ 64

-- One `for` over the members: the one that is drawn, what its stake loses and the members then; or
-- what is left of the score.
pub data Pass : Type 0 where
  drawn : PublicKey → ℕ → Map Stake → Pass
  passed : ℕ → Pass

abbrev pub behind : PublicKey × Stake → Pass → Pass
behind m (drawn pk taken members) = drawn pk taken (m ∷ members)
behind m (passed score) = passed score

unfoldable pub pass : Map Stake → ℕ → Pass
unfolding subtract
pass [] score = passed score
pass ((pk, s) ∷ members) score =
    let later = pass members (score - s.value) in
    if leb score s.value
    then drawn pk (subtract dusk s).0 ((pk, (subtract dusk s).1) ∷ members)
    else behind (pk, s) later

-- What stops an extraction: a panic, or no fuel, which the source knows nothing of.
pub data Stuck : Type 0 where
  empty_committee division_by_zero no_fuel : Stuck

pub data Extraction {ℓ} (A : Type ℓ) : Type ℓ where
  done : A → Extraction A
  stuck : Stuck → Extraction A

-- The `loop` of `extract_and_subtract_member`.
unfoldable pub extract_loop : ℕ → Map Stake → ℕ → Extraction (PublicKey × ℕ × Map Stake)
extract_loop zero members score = stuck no_fuel
extract_loop (suc fuel) members score = elim (pass members score) [
  | drawn pk taken members' ↦ done (pk, taken, members')
  | passed score' ↦ extract_loop fuel members score'
]

unfoldable pub extract_and_subtract_member :
    ℕ → Map Stake → ℕ → Extraction (PublicKey × ℕ × Map Stake)
unfolding extract_loop
extract_and_subtract_member fuel [] score = stuck empty_committee
extract_and_subtract_member fuel (m ∷ members) score = extract_loop fuel (m ∷ members) score

abbrev pub and_then : Extraction (List PublicKey) → PublicKey → Extraction (List PublicKey)
and_then (done pks) pk = done (pk ∷ pks)
and_then (stuck e) pk = stuck e

-- The `while` of `create_committee` on the credits that are left; `n` maps a counter to its hash.
unfoldable pub draw : ℕ → (ℕ → ℕ) → ℕ → ℕ → Map Stake → ℕ → Extraction (List PublicKey)
draw fuel n zero counter members weight = done []
draw fuel n (suc credits) counter members weight = elim (weight == 0) [
  | true ↦ stuck division_by_zero
  | false ↦ elim (extract_and_subtract_member fuel members (n counter % weight)) [
    | stuck e ↦ stuck e
    | done (pk, taken, members') ↦ elim (ltb taken weight) [
      | true ↦ and_then (draw fuel n credits (suc counter) members' (weight - taken)) pk
      | false ↦ done (pk ∷ [])
    ]
  ]
]

-- `Provisioners::create_committee`
unfoldable pub create_committee : ℕ → (Bytes → ℕ) → Map Stake → Config → Extraction (List PublicKey)
unfolding draw from_provisioners generator_weight create_sortition_hash
create_committee fuel sha3 provisioners cfg =
    let members = from_provisioners provisioners cfg.round cfg.exclusion in
    draw fuel (create_sortition_hash sha3 cfg) cfg.committee_credits 0 members
      (generator_weight members)

-- `majority` of config.rs.
unfoldable pub majority_of : ℕ → ℕ
majority_of value = value / 2 + 1

-- `supermajority`: two thirds, rounded up. The source computes with `f32`, which gives the same on the
-- sizes that committees have.
unfoldable pub supermajority_of : ℕ → ℕ
supermajority_of value = (value * 2 + 2) / 3

-- `*members.entry(key).or_insert(0) += 1` for each key.
unfoldable pub tally : List PublicKey → Map ℕ → Map ℕ
tally [] members = members
tally (pk ∷ pks) members = tally pks (insert pk (unwrap_or (get pk members) 0 + 1) members)

unfoldable pub committee_of : Config → Extraction (List PublicKey) → Extraction Committee
unfolding tally majority_of supermajority_of
committee_of cfg (stuck e) = stuck e
committee_of cfg (done extracted) = done (record {
  members = tally extracted [];
  super_majority = supermajority_of cfg.committee_credits;
  majority = majority_of cfg.committee_credits;
  excluded = cfg.exclusion;
})

-- `Committee::new`
unfoldable pub new_committee : ℕ → (Bytes → ℕ) → Map Stake → Config → Extraction Committee
unfolding committee_of create_committee
new_committee fuel sha3 provisioners cfg =
    committee_of cfg (create_committee fuel sha3 provisioners cfg)
