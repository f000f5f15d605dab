-- ===== src/TxBytes/Transactions.antt =====
-- `Transaction` of transfer.rs, moonlight.rs and phoenix.rs.
use rusk.Prelude.{ℕ, ◌∷◌, ◌++◌, ◌==◌, if◌then◌else◌, length}
use rusk.Vm.{Bytes}
use rusk.Reader.{Reader, Error, Result, ok, err, pure, fail, ◌>>=◌, read_exact}
use rusk.TxBytes.Slices.{Crates, read_u64, read_byte, write_vec, run, keep, peek, checked}
use rusk.TxBytes.Payloads.{
  MoonlightPayload, write_moonlight_payload, read_moonlight_payload, PhoenixPayload,
  write_phoenix_payload, read_phoenix_payload,
}

pub record MoonlightTransaction : Type 0 where
  pub payload : MoonlightPayload
  pub signature : Bytes

pub record PhoenixTransaction (Skeleton : Type 0) : Type 0 where
  pub payload : PhoenixPayload Skeleton
  pub proof : Bytes

pub data Transaction (Skeleton : Type 0) : Type 0 where
  phoenix : PhoenixTransaction Skeleton → Transaction Skeleton
  moonlight : MoonlightTransaction → Transaction Skeleton

unfoldable pub moonlight_to_var_bytes : MoonlightTransaction → Bytes
moonlight_to_var_bytes tx = write_vec (write_moonlight_payload tx.payload) ++ tx.signature

-- `buf.try_into()`: the buffer has exactly `n` bytes.
unfoldable pub exactly : ℕ → Bytes → Result Bytes
exactly n buf = if length buf == n then ok buf else err Error.invalid_data

module _ {Skeleton : Type 0} (c : Crates Skeleton) where
  unfoldable pub read_moonlight : Reader MoonlightTransaction
  unfolding exactly
  read_moonlight = do
    payload_len ← read_u64
    payload_buf ← read_exact Error.invalid_data payload_len
    payload ← keep (run (read_moonlight_payload c) payload_buf)
    bytes ← peek (exactly 48)
    signature ← checked c.is_signature bytes
    pure (record { payload = payload; signature = signature })

  unfoldable pub moonlight_from_slice : Bytes → Result MoonlightTransaction
  unfolding read_moonlight
  moonlight_from_slice = run read_moonlight

  unfoldable pub phoenix_to_var_bytes : PhoenixTransaction Skeleton → Bytes
  phoenix_to_var_bytes tx = write_vec (write_phoenix_payload c tx.payload) ++ write_vec tx.proof

  -- `buf[..proof_len]` panics if the buffer is shorter.
  unfoldable pub read_phoenix : Reader (PhoenixTransaction Skeleton)
  read_phoenix = do
    payload_len ← read_u64
    payload_buf ← read_exact Error.invalid_data payload_len
    payload ← keep (run (read_phoenix_payload c) payload_buf)
    proof_len ← read_u64
    proof ← read_exact Error.panicked proof_len
    pure (record { payload = payload; proof = proof })

  unfoldable pub phoenix_from_slice : Bytes → Result (PhoenixTransaction Skeleton)
  unfolding read_phoenix
  phoenix_from_slice = run read_phoenix

  unfoldable pub to_var_bytes : Transaction Skeleton → Bytes
  unfolding moonlight_to_var_bytes phoenix_to_var_bytes
  to_var_bytes (phoenix tx) = 0 ∷ phoenix_to_var_bytes tx
  to_var_bytes (moonlight tx) = 1 ∷ moonlight_to_var_bytes tx

  unfoldable pub read_phoenix_tx : Reader (Transaction Skeleton)
  read_phoenix_tx = do tx ← peek phoenix_from_slice; pure (phoenix tx)

  unfoldable pub read_moonlight_tx : Reader (Transaction Skeleton)
  read_moonlight_tx = do tx ← peek moonlight_from_slice; pure (moonlight tx)

  unfoldable pub read_transaction : Reader (Transaction Skeleton)
  unfolding read_phoenix_tx read_moonlight_tx
  read_transaction = do
    tag ← read_byte
    if tag == 0
        then read_phoenix_tx
        else if tag == 1
        then read_moonlight_tx
        else fail Error.invalid_data

  unfoldable pub from_slice : Bytes → Result (Transaction Skeleton)
  unfolding read_transaction
  from_slice = run read_transaction
