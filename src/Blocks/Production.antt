-- ===== src/Blocks/Production.antt =====
-- rusk/src/lib/node/rusk.rs: the making of a block out of the transactions at hand, and the check of a block.
use rusk.Prelude.{
  ℕ, ◌+◌, ◌-◌, ◌*◌, ◌%◌, ◌^◌, Bool, Option, none, some, List, [], ◌∷◌, ◌++◌, leb, if◌then◌else◌,
}
use rusk.Vm.{PublicKey, Bytes}
use rusk.Bytes.{bytes_eq}
use rusk.TxBytes.HashInput.{gas_price_of}
use rusk.NodeData.Ledger.{Transaction, SpentTransaction}
use rusk.NodeData.Slashes.{Slash}
use rusk.Blocks.Machine.{
  Machine, Receipt, Answer, answered, failed, Called, returned, refused, Event, Bloom, new_bloom,
  add_events,
}
use rusk.Blocks.Execute.{Executed, executed, discarded, aborted, Prices, execute}
use rusk.Blocks.Rewards.{Voter, block_rewards, has_no_credits}

abbrev pub max_number_of_transactions : ℕ
max_number_of_transactions = 1000

-- `DUSK_CONSENSUS_KEY` and what the node is configured with; `out_of_time` says of the rounds of the loop
-- whether the time for the block is over by then.
pub record Config : Type 0 where
  pub prices : Prices
  pub block_gas_limit : ℕ
  pub dusk_key : PublicKey
  pub out_of_time : ℕ → Bool

-- What a block is made with.
pub record CallParams : Type 0 where
  pub round : ℕ
  pub generator_pubkey : PublicKey
  pub to_slash : List Slash
  pub voters_pubkey : List Voter
  pub max_txs_bytes : ℕ
  pub prev_state_root : Bytes

pub record VerificationOutput : Type 0 where
  pub state_root : Bytes
  pub event_bloom : Bloom

pub data BlockError (X : Type 0) : Type 0 where
  vm : X → BlockError X
  tip_changed out_of_gas : BlockError X
  invalid_credits_count : ℕ → BlockError X
  inconsistent_state : VerificationOutput → BlockError X
  -- A panic of an `expect`.
  panicked : BlockError X

pub data Attempt (X A : Type 0) : Type 0 where
  done : A → Attempt X A
  fault : BlockError X → Attempt X A

infixl 5 ◌>>=◌
unfoldable pub ◌>>=◌ : {X A B : Type 0} → Attempt X A → (A → Attempt X B) → Attempt X B
done a >>= f = f a
fault e >>= f = fault e

-- What both loops carry.
pub record Progress (Skeleton Session : Type 0) : Type 0 where
  pub session : Session
  pub block_gas_left : ℕ
  pub spent_txs : List (SpentTransaction Skeleton)
  pub dusk_spent : ℕ
  pub event_bloom : Bloom

module _ {Skeleton Session F X : Type 0} (m : Machine Skeleton Session F X) (config : Config) where
  session_after : Session × Called X (Unit {0}) → Attempt X Session
  session_after (s, returned _) = done s
  session_after (s, refused e) = fault panicked

  from_tip : Bytes → Called X Session → Attempt X Session
  unfolding session_after
  from_tip commit (refused e) = fault (vm e)
  from_tip commit (returned s) =
      if bytes_eq (m.root s) commit
      then session_after (m.before_state_transition s)
      else fault tip_changed

  unfoldable pub new_block_session : ℕ → Bytes → Attempt X Session
  unfolding from_tip
  new_block_session block_height commit = from_tip commit (m.session block_height)

  called : {A : Type 0} → Session × Called X A → Attempt X (Session × A)
  called (s, returned a) = done (s, a)
  called (s, refused e) = fault (vm e)

  -- Every slash is a soft one for now.
  unfoldable pub slash : Session → List Slash → Attempt X (Session × List Event)
  unfolding called ◌>>=◌
  slash s [] = done (s, [])
  slash s (sl ∷ slashing) =
      called (m.slash s (sl.provisioner, none)) >>= (λ (r : Session × List Event).
        slash r.0 slashing >>= (λ (later : Session × List Event). done (later.0, r.1 ++ later.1)))

  unfoldable pub reward_slash_and_update_root :
      Session → ℕ → ℕ → PublicKey → List Slash → List Voter → Attempt X (Session × List Event)
  unfolding slash called ◌>>=◌
  reward_slash_and_update_root s block_height dusk_spent generator slashing voters =
      if has_no_credits block_height voters
      then fault (invalid_credits_count block_height)
      else called
          (m.reward s (block_rewards config.dusk_key block_height dusk_spent generator voters))
        >>= (λ (rewarded : Session × List Event).
            slash rewarded.0 slashing >>= (λ (slashed : Session × List Event).
              called (m.update_root slashed.0) >>= (λ (updated : Session × List Event).
                done (updated.0, rewarded.1 ++ (slashed.1 ++ updated.1)))))

  text_of_error : Answer F → Option Bytes
  text_of_error (answered b) = none
  text_of_error (failed e) = some (m.failure_text e)

  unfoldable pub spent_tx : Transaction Skeleton → ℕ → Receipt F → SpentTransaction Skeleton
  unfolding text_of_error
  spent_tx tx block_height r = record {
    inner = tx;
    block_height = block_height;
    gas_spent = r.gas_spent;
    error_text = text_of_error r.answer;
  }

  -- A transaction that was executed is taken into the block. The sum is on 64 bits.
  unfoldable pub take_in :
      ℕ
      → Transaction Skeleton
      → Session
      → Receipt F
      → Progress Skeleton Session
      → Progress Skeleton Session
  unfolding spent_tx
  take_in block_height tx s r p = record {
    session = s;
    block_gas_left = p.block_gas_left - r.gas_spent;
    spent_txs = p.spent_txs ++ (spent_tx tx block_height r ∷ []);
    dusk_spent = (p.dusk_spent + r.gas_spent * gas_price_of tx.inner) % 2 ^ 64;
    event_bloom = add_events m.blake3 r.events p.event_bloom;
  }

  unfoldable pub started : Session → ℕ → Progress Skeleton Session
  started s gas = record {
    session = s;
    block_gas_left = gas;
    spent_txs = [];
    dusk_spent = 0;
    event_bloom = new_bloom;
  }

  -- A round of the loop of `accept`.
  unfoldable pub accept_executed :
      ℕ
      → Transaction Skeleton
      → Progress Skeleton Session
      → Session × Executed F X
      → Attempt X (Progress Skeleton Session)
  accept_executed block_height tx p (s, executed r) =
      if leb r.gas_spent p.block_gas_left
      then done (take_in block_height tx s r p)
      else fault out_of_gas
  accept_executed block_height tx p (s, discarded e) = fault (vm e)
  accept_executed block_height tx p (s, aborted) = fault panicked

  unfoldable pub accept_txs :
      ℕ
      → List (Transaction Skeleton)
      → Progress Skeleton Session
      → Attempt X (Progress Skeleton Session)
  unfolding accept_executed ◌>>=◌
  accept_txs block_height [] p = done p
  accept_txs block_height (tx ∷ txs) p =
      accept_executed block_height tx p (execute m config.prices p.session tx.inner)
      >>= accept_txs block_height txs

  -- The end of both, given the generator, the slashes and the voters.
  unfoldable pub close_block :
      ℕ
      → PublicKey
      → List Slash
      → List Voter
      → Progress Skeleton Session
      → Attempt X (Session × VerificationOutput)
  unfolding ◌>>=◌
  close_block block_height generator slashing voters p =
      reward_slash_and_update_root p.session block_height p.dusk_spent generator slashing voters
      >>= (λ (r : Session × List Event). done (
        r.0,
        record { state_root = m.root r.0; event_bloom = add_events m.blake3 r.1 p.event_bloom },
      ))
