-- ===== src/Consensus/Extraction.antt =====
-- The extraction of a committee ends on its own, on members that were there.
use rusk.Prelude.{
  ℕ, zero, suc, ◌+◌, ◌-◌, ◌*◌, ◌%◌, ◌≤◌, ◌<◌, ◌≡◌, refl, sym, ap, ◌∙◌, true, false, List, [], ◌∷◌,
  length, All, arith, ltb, leb, ◌==◌, ltb→lt, Bool-cases, inl, inr,
}
use rusk.Vm.{PublicKey}
use rusk.Map.{Map}
use rusk.Map.Weight.{total}
use rusk.Consensus.Sortition.{
  Stake, dusk, subtract, stake_value, drawn, pass, Extraction, done, extract_loop,
  extract_and_subtract_member, and_then, draw,
}
use native.Mathlib.Nat.{mod-lt}

-- Of each member: a property of its key.
abbrev pub Keys : (PublicKey → Type 0) → Map Stake → Type 0
Keys P = All (λ m. P m.0)

not_zero : (weight : ℕ) → 0 < weight → (weight == 0) ≡ false
not_zero weight h = ground arith

-- Where a draw takes all that is left, no credit is left to draw.
all_taken :
    (weight taken credits : ℕ)
    → ltb taken weight ≡ false
    → taken ≤ dusk
    → suc credits * dusk < weight + dusk
    → 1 ≡ suc credits
all_taken weight taken credits last few big = let all : weight ≤ taken = ground arith in omega arith

extract_first :
    (fuel : ℕ) (m : PublicKey × Stake) (members : Map Stake) (score : ℕ) {pk : PublicKey}
    {taken : ℕ} {rest : Map Stake}
    → pass (m ∷ members) score ≡ drawn pk taken rest
    → extract_and_subtract_member (suc fuel) (m ∷ members) score ≡ done (pk, taken, rest)
unfolding extract_and_subtract_member
extract_first fuel m members score e = rw (e, extract_loop)

module _ (fuel : ℕ) (n : ℕ → ℕ) (credits counter : ℕ) (members : Map Stake) (weight : ℕ)
    (pk : PublicKey) (taken : ℕ) (rest : Map Stake) (some_weight : 0 < weight)
    (e : extract_and_subtract_member fuel members (n counter % weight)
      ≡ done (pk, taken, rest)) where
  draw_more :
      ltb taken weight ≡ true
      → draw fuel n (suc credits) counter members weight
        ≡ and_then (draw fuel n credits (suc counter) rest (weight - taken)) pk
  unfolding draw
  draw_more more = rw (not_zero weight some_weight, e, more, draw)

  draw_last :
      ltb taken weight ≡ false → draw fuel n (suc credits) counter members weight ≡ done (pk ∷ [])
  unfolding draw
  draw_last last = rw (not_zero weight some_weight, e, last, draw)

module _ (P : PublicKey → Type 0) where
  -- What a draw does: a member loses at most 1 Dusk of its stake.
  pub record IsDraw (members : Map Stake) (pk : PublicKey) (taken : ℕ) (members' : Map Stake)
      : Type 0 where
    pub member : P pk
    pub members_kept : Keys P members'
    pub at_most_dusk : taken ≤ dusk
    pub taken_away : total stake_value members' + taken ≡ total stake_value members

  subtract_value :
      (s : Stake)
      → ((subtract dusk s).0 ≤ dusk) × ((subtract dusk s).1.value + (subtract dusk s).0 ≡ s.value)
  unfolding subtract
  subtract_value s = ground arith

  pass-IsDraw :
      (members : Map Stake) (score : ℕ)
      → Keys P members
      → 0 < total stake_value members
      → score ≤ total stake_value members
      → (pk : PublicKey) × (taken : ℕ) × (members' : Map Stake) × (pass members score
          ≡ drawn pk taken members')
        × IsDraw members pk taken members'
  unfolding pass total
  pass-IsDraw [] score h some_stake below = absurd (omega arith)
  pass-IsDraw ((pk, s) ∷ members) score (hpk, h) some_stake below =
      elim (Bool-cases (leb score s.value)) [
        | inl here ↦ (
          pk,
          (subtract dusk s).0,
          (pk, (subtract dusk s).1) ∷ members,
          rw here refl,
          record {
            member = hpk;
            members_kept = (hpk, h);
            at_most_dusk = (subtract_value s).0;
            taken_away = omega (arith, (subtract_value s).1);
          },
        )
        | inr later ↦
            let (q, taken, rest, e, d) =
              pass-IsDraw members (score - s.value) h (ground arith) (ground arith) in
            (
              q,
              taken,
              (pk, s) ∷ rest,
              rw (later, e) refl,
              record {
                member = d.member;
                members_kept = (hpk, d.members_kept);
                at_most_dusk = d.at_most_dusk;
                taken_away = omega (arith, d.taken_away);
              },
            )
      ]

  -- With a score below the total, the loop returns in its first round.
  extract-IsDraw :
      (fuel : ℕ) (members : Map Stake) (score : ℕ)
      → Keys P members
      → score < total stake_value members
      → (pk : PublicKey) × (taken : ℕ) × (members' : Map Stake) × (extract_and_subtract_member
            (suc fuel)
            members
            score
          ≡ done (pk, taken, members'))
        × IsDraw members pk taken members'
  unfolding extract_and_subtract_member extract_loop total
  extract-IsDraw fuel [] score h below = absurd (omega arith)
  extract-IsDraw fuel (m ∷ members) score h below =
      let (pk, taken, rest, e, d) = pass-IsDraw (m ∷ members) score h (omega arith) (omega arith) in
      (pk, taken, rest, extract_first fuel m members score e, d)

  -- The keys that are drawn: all of members, and one for each credit unless the stakes run out.
  pub record IsDrawn (credits weight : ℕ) (pks : List PublicKey) : Type 0 where
    pub drawn_members : All P pks
    pub within : length pks ≤ credits
    pub enough : credits * dusk < weight + dusk → length pks ≡ credits

  pub draw-IsDrawn :
      (fuel : ℕ) (n : ℕ → ℕ) (credits counter : ℕ) (members : Map Stake)
      → Keys P members
      → 0 < total stake_value members
      → (pks : List PublicKey) × (draw
            (suc fuel)
            n
            credits
            counter
            members
            (total stake_value members)
          ≡ done pks)
        × IsDrawn credits (total stake_value members) pks
  unfolding draw
  draw-IsDrawn fuel n zero counter members h some_stake =
      ([], refl, record { drawn_members = tt; within = omega arith; enough = λ e. refl })
  draw-IsDrawn fuel n (suc credits) counter members h some_stake =
      let weight = total stake_value members in
      let (pk, taken, rest, e, d) =
        extract-IsDraw fuel members (n counter % weight) h (mod-lt _ some_stake) in
      elim (Bool-cases (ltb taken weight)) [
        | inl more ↦
            let left : total stake_value rest ≡ weight - taken = omega (arith, d.taken_away) in
            let some_left : 0 < total stake_value rest =
              omega (arith, d.taken_away, ltb→lt _ _ more) in
            let (pks, e', all) =
              draw-IsDrawn fuel n credits (suc counter) rest d.members_kept some_left in
            (
              pk ∷ pks,
              draw_more (suc fuel) n credits counter members weight pk taken rest some_stake e more
                  ∙ ap (λ (x : Extraction (List PublicKey)). and_then x pk)
                      (ap (λ (w : ℕ). draw (suc fuel) n credits (suc counter) rest w) (sym left)
                        ∙ e'),
              record {
                drawn_members = (d.member, all.drawn_members);
                within = omega (arith, all.within);
                enough =
                    λ big. ap suc (all.enough (omega (arith, d.taken_away, d.at_most_dusk, big)));
              },
            )
        | inr last ↦ (
          pk ∷ [],
          draw_last (suc fuel) n credits counter members weight pk taken rest some_stake e last,
          record {
            drawn_members = (d.member, tt);
            within = omega arith;
            enough = λ big. all_taken weight taken credits last d.at_most_dusk big;
          },
        )
      ]
