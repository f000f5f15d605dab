-- ===== src/Consensus/OneVote.antt =====
-- Outside of emergency mode nobody is counted for two votes of a step.
use rusk.Prelude.{
  ℕ, ◌≡◌, refl, sym, ap, ◌∙◌, Bool, true, false, Option, none, some, List, [], ◌∷◌, All, arith,
  Bool-cases, Option-cases, inl, inr, ◌==◌, ◌&&◌,
}
use rusk.Vm.{PublicKey, Bytes}
use rusk.Bytes.{bytes_eq→eq}
use rusk.Map.{get, insert, contains_key, get-insert}
use rusk.NodeData.Votes.{Vote, no_candidate, valid, invalid, no_quorum}
use rusk.Consensus.Committee.{Cluster, add, Committee, votes_for}
use rusk.Consensus.Aggregator.{
  StepVote, Entry, Aggregator, new_aggregator, vote_eq, set_entry, set_voters, count_vote, add_vote,
  register_vote, collect_vote, collect_all, is_emergency_iter,
}

pub vote_eq→eq : (v w : Vote) → vote_eq v w ≡ true → v ≡ w
unfolding vote_eq
vote_eq→eq no_candidate no_candidate h = refl
vote_eq→eq (valid x) (valid y) h = ap valid (bytes_eq→eq x y h)
vote_eq→eq (invalid x) (invalid y) h = ap invalid (bytes_eq→eq x y h)
vote_eq→eq no_quorum no_quorum h = refl
vote_eq→eq no_candidate (valid y) h = cc
vote_eq→eq no_candidate (invalid y) h = cc
vote_eq→eq no_candidate no_quorum h = cc
vote_eq→eq (valid x) no_candidate h = cc
vote_eq→eq (valid x) (invalid y) h = cc
vote_eq→eq (valid x) no_quorum h = cc
vote_eq→eq (invalid x) no_candidate h = cc
vote_eq→eq (invalid x) (valid y) h = cc
vote_eq→eq (invalid x) no_quorum h = cc
vote_eq→eq no_quorum no_candidate h = cc
vote_eq→eq no_quorum (valid y) h = cc
vote_eq→eq no_quorum (invalid y) h = cc

-- Who is counted for a vote is put down as its voter.
pub record IsPutDown (a : Aggregator) : Type 0 where
  pub put_down :
      (step : ℕ) (vote : Vote) (k : PublicKey)
      → contains_key k (a.votes step vote).cluster ≡ true
      → (prev : StepVote) × (get k (a.uniqueness step) ≡ some prev) × (prev.vote ≡ vote)

contains-add :
    (k key : PublicKey) (weight : ℕ) (cluster : Cluster)
    → contains_key k (add key weight cluster).1 ≡ true
    → contains_key k cluster ≡ false
    → k ≡ key
unfolding add contains_key
contains-add k key weight cluster h new = ground (arith, get-insert key k weight cluster)

module _ (v : StepVote) (a : Aggregator) (inv : IsPutDown a)
    (new : get v.signer (a.uniqueness v.step) ≡ none) where
  abbrev with_voter : Aggregator
  with_voter = record a {
    uniqueness = set_voters v.step (insert v.signer v (a.uniqueness v.step)) a.uniqueness;
  }

  still_there :
      (step : ℕ) (k : PublicKey) (prev : StepVote)
      → get k (a.uniqueness step) ≡ some prev
      → get k (with_voter.uniqueness step) ≡ some prev
  unfolding set_voters
  still_there step k prev e = ground (arith, get-insert v.signer k v (a.uniqueness v.step))

  with_voter-IsPutDown : IsPutDown with_voter
  with_voter-IsPutDown = record {
    put_down = λ step vote k h.
        let (prev, e, q) = inv.put_down step vote k h in (prev, still_there step k prev e, q);
  }

  is_there : get v.signer (with_voter.uniqueness v.step) ≡ some v
  unfolding set_voters
  is_there = ground (arith, get-insert v.signer v.signer v (a.uniqueness v.step))

both : (b c : Bool) → b && c ≡ true → (b ≡ true) × (c ≡ true)
both b c h = (ground arith, ground arith)

module _ (v : StepVote) (a : Aggregator) (inv : IsPutDown a)
    (there : get v.signer (a.uniqueness v.step) ≡ some v) where
  -- Of the cluster that replaces the one of the vote.
  put_down_in :
      (cluster : Cluster) (k : PublicKey)
      → (contains_key k cluster ≡ true
          → contains_key k (a.votes v.step v.vote).cluster ≡ false
          → k ≡ v.signer)
      → contains_key k cluster ≡ true
      → (prev : StepVote) × (get k (a.uniqueness v.step) ≡ some prev) × (prev.vote ≡ v.vote)
  put_down_in cluster k only h =
      elim (Bool-cases (contains_key k (a.votes v.step v.vote).cluster)) [
        | inl old ↦ inv.put_down v.step v.vote k old
        | inr new ↦ (v, rw (only h new) there, refl)
      ]

  set_entry-IsPutDown :
      (e : Entry)
      → ((k : PublicKey)
          → contains_key k e.cluster ≡ true
          → contains_key k (a.votes v.step v.vote).cluster ≡ false
          → k ≡ v.signer)
      → IsPutDown (record a { votes = set_entry v.step v.vote e a.votes })
  unfolding set_entry
  set_entry-IsPutDown e only = record {
    put_down = λ step vote k h. elim (Bool-cases (step == v.step && vote_eq vote v.vote)) [
      | inl here ↦
          let (p, q) = both (step == v.step) (vote_eq vote v.vote) here in
          let same_step : step ≡ v.step = ground arith in
          let same_vote : vote ≡ v.vote = vote_eq→eq vote v.vote q in
          rw (same_step, same_vote) (put_down_in e.cluster k (only k) (rw here at h))
      | inr other ↦ inv.put_down step vote k (rw other at h)
    ];
  }

-- To count a voter that is put down for its vote keeps the invariant.
count_vote-IsPutDown :
    (aggregate : Option Bytes → Bytes → Option Bytes) (c : Committee) (v : StepVote)
    (a : Aggregator) (signature : Bytes) (r : Option ℕ × Cluster)
    → ((k : PublicKey)
        → contains_key k r.1 ≡ true
        → contains_key k (a.votes v.step v.vote).cluster ≡ false
        → k ≡ v.signer)
    → IsPutDown a
    → get v.signer (a.uniqueness v.step) ≡ some v
    → IsPutDown (count_vote aggregate c v a signature r).0
unfolding count_vote
count_vote-IsPutDown aggregate c v a signature (none, cluster) only inv there = inv
count_vote-IsPutDown aggregate c v a signature (some added, cluster) only inv there =
    set_entry-IsPutDown v a inv there (record { signature = some signature; cluster = cluster })
      only

module _ (aggregate : Option Bytes → Bytes → Option Bytes) where
  add_vote-IsPutDown :
      (c : Committee) (v : StepVote) (weight : ℕ) (a : Aggregator)
      → IsPutDown a
      → get v.signer (a.uniqueness v.step) ≡ some v
      → IsPutDown (add_vote aggregate c v weight a).0
  unfolding add_vote
  add_vote-IsPutDown c v weight a inv there =
      elim (Option-cases (aggregate (a.votes v.step v.vote).signature v.signature)) [
        | inl none_e ↦ rw (none_e, add_vote) inv
        | inr (sig, e) ↦
            rw (e, add_vote)
              (count_vote-IsPutDown aggregate c v a sig
                (add v.signer weight (a.votes v.step v.vote).cluster)
                (λ k. contains-add k v.signer weight (a.votes v.step v.vote).cluster) inv there)
      ]

  register_vote-IsPutDown :
      (c : Committee) (v : StepVote) (weight : ℕ) (a : Aggregator)
      → IsPutDown a
      → IsPutDown (register_vote aggregate c v weight a).0
  unfolding register_vote
  register_vote-IsPutDown c v weight a inv =
      elim (Option-cases (get v.signer (a.uniqueness v.step))) [
        | inl new ↦
            rw (new, register_vote)
              (add_vote-IsPutDown c v weight (with_voter v a inv new)
                (with_voter-IsPutDown v a inv new) (is_there v a inv new))
        | inr (prev, e) ↦ rw (e, register_vote) inv
      ]

  collect_vote-IsPutDown :
      (c : Committee) (v : StepVote) (a : Aggregator)
      → is_emergency_iter v.iteration ≡ false
      → IsPutDown a
      → IsPutDown (collect_vote aggregate c v a).0
  unfolding collect_vote
  collect_vote-IsPutDown c v a calm inv = elim (Option-cases (votes_for v.signer c)) [
    | inl outside ↦ rw (calm, outside, collect_vote) inv
    | inr (weight, e) ↦ elim (Bool-cases (contains_key v.signer (a.votes v.step v.vote).cluster)) [
      | inl again ↦ rw (calm, e, again, collect_vote) inv
      | inr new ↦ rw (calm, e, new, calm, collect_vote) (register_vote-IsPutDown c v weight a inv)
    ]
  ]

  collect_all-IsPutDown :
      (msgs : List (Committee × StepVote)) (a : Aggregator)
      → All (λ m. is_emergency_iter m.1.iteration ≡ false) msgs
      → IsPutDown a
      → IsPutDown (collect_all aggregate msgs a)
  unfolding collect_all
  collect_all-IsPutDown [] a calm inv = inv
  collect_all-IsPutDown ((c, v) ∷ msgs) a (calm, later) inv =
      collect_all-IsPutDown msgs (collect_vote aggregate c v a).0 later
        (collect_vote-IsPutDown c v a calm inv)

  new_aggregator-IsPutDown : IsPutDown new_aggregator
  unfolding new_aggregator contains_key get
  new_aggregator-IsPutDown = record { put_down = λ step vote k h. cc }

  -- Whatever messages are collected, of whatever committees, none of them in emergency mode: a voter that is
  -- counted for two votes of the same step, the same iteration or not, is counted for one vote only.
  pub one_vote :
      (msgs : List (Committee × StepVote))
      → All (λ m. is_emergency_iter m.1.iteration ≡ false) msgs
      → (step : ℕ) (vote vote' : Vote) (k : PublicKey)
      → contains_key k ((collect_all aggregate msgs new_aggregator).votes step vote).cluster ≡ true
      → contains_key k ((collect_all aggregate msgs new_aggregator).votes step vote').cluster ≡ true
      → vote ≡ vote'
  one_vote msgs calm step vote vote' k h h' =
      let inv = collect_all-IsPutDown msgs new_aggregator calm new_aggregator-IsPutDown in
      let (prev, e, q) = inv.put_down step vote k h in
      let (prev', e', q') = inv.put_down step vote' k h' in
      let same : prev ≡ prev' = cc in sym q ∙ ap (λ (v : StepVote). v.vote) same ∙ q'
