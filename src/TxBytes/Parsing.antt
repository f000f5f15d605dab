-- ===== src/TxBytes/Parsing.antt =====
-- What `from_slice` makes of a transaction, and of bytes that are none.
use rusk.Prelude.{◌≡◌, ◌++◌, [], refl, true, length}
use rusk.Vm.{Bytes}
use rusk.Bytes.{to_le_bytes}
use rusk.Reader.{Reader, Error, Result, ok, pure, ◌>>=◌, read_exact}
use rusk.Reader.RoundTrip.{ReadsBack, ReadsBack-bind, ReadsBack-exact, ReadsBack-last}
use rusk.TxBytes.Slices.{
  Crates, CratesLaws, read_u64, write_vec, run, peek, keep, checked, RunsTo, RunsTo-bind,
  RunsTo-tag, RunsTo-peek, ReadsBack-RunsTo, ReadsBack-u64_slice,
}
use rusk.TxBytes.Payloads.{
  write_moonlight_payload, read_moonlight_payload, write_phoenix_payload, read_phoenix_payload,
}
use rusk.TxBytes.Transactions.{
  MoonlightTransaction, moonlight_to_var_bytes, read_moonlight, moonlight_from_slice,
  PhoenixTransaction, phoenix_to_var_bytes, read_phoenix, phoenix_from_slice, Transaction, phoenix,
  moonlight, to_var_bytes, from_slice, read_transaction, exactly,
}
use rusk.TxBytes.WellFormed.{IsMoonlight, IsPhoenix, IsTransaction, IsVec}
use rusk.TxBytes.RoundTrip.{RunsTo-moonlight_payload, RunsTo-phoenix_payload}
use mathlib.Core.List.{append_assoc}

pub ReadsBack-keep : {A : Type 0} (m : Result A) (a : A) → m ≡ ok a → ReadsBack (keep m) [] a
unfolding keep
ReadsBack-keep m a h = record { then_rest = λ rest. rw h }

-- A payload behind its length, read by a reader of its own.
pub RunsTo-payload :
    {A B : Type 0} {cs : Bytes} {x : Result B} (read : Reader A) (bs : Bytes) (a : A)
    (k : A → Reader B)
    → IsVec bs
    → RunsTo read bs (ok a)
    → RunsTo (k a) cs x
    → RunsTo
        (read_u64 >>= λ len. read_exact Error.invalid_data len >>= λ buf. keep (run read buf) >>= k)
        (write_vec bs ++ cs)
        x
unfolding write_vec
RunsTo-payload {A} {B} {cs} read bs a k fits h rest =
    rw (append_assoc (to_le_bytes 8 (length bs)) bs cs) (
      RunsTo-bind _ (ReadsBack-u64_slice (length bs) fits) (
        RunsTo-bind _ (ReadsBack-exact Error.invalid_data (length bs) bs refl)
          (RunsTo-bind k (ReadsBack-keep (run read bs) a h.result) rest)))

module _ {Skeleton : Type 0} (c : Crates Skeleton) where
  RunsTo-signature :
      {B : Type 0} (sig : Bytes) (f : Bytes → B)
      → length sig ≡ 48
      → c.is_signature sig ≡ true
      → RunsTo
          (peek (exactly 48) >>= λ bytes. checked c.is_signature bytes >>= λ s. pure (f s))
          sig
          (ok (f sig))
  unfolding run ◌>>=◌ peek exactly checked pure
  RunsTo-signature sig f size valid = record { result = rw (size, valid) }

  moonlight_back :
      (tx : MoonlightTransaction)
      → IsMoonlight c tx
      → moonlight_from_slice c (moonlight_to_var_bytes tx) ≡ ok tx
  unfolding moonlight_from_slice moonlight_to_var_bytes read_moonlight
  moonlight_back tx v =
      (RunsTo-payload (read_moonlight_payload c) (write_moonlight_payload tx.payload) tx.payload _
        v.payload_fits (RunsTo-moonlight_payload c tx.payload v.payload_valid)
        (RunsTo-signature tx.signature _ v.signature_size v.signature_valid)).result

  phoenix_back :
      (laws : CratesLaws c) (tx : PhoenixTransaction Skeleton)
      → IsPhoenix c tx
      → phoenix_from_slice c (phoenix_to_var_bytes c tx) ≡ ok tx
  unfolding phoenix_from_slice phoenix_to_var_bytes read_phoenix write_vec
  phoenix_back laws tx v =
      (RunsTo-payload (read_phoenix_payload c) (write_phoenix_payload c tx.payload) tx.payload _
        v.payload_fits (RunsTo-phoenix_payload c laws tx.payload v.payload_valid)
        (ReadsBack-RunsTo (
          ReadsBack-bind _ (ReadsBack-u64_slice (length tx.proof) v.proof_fits) (
            ReadsBack-last _
              (ReadsBack-exact Error.panicked (length tx.proof) tx.proof refl))))).result

  -- Where skeletons are read back from the front of a buffer, a well-formed transaction is read back
  -- from the bytes that were written for it.
  pub from_slice-to_var_bytes :
      (laws : CratesLaws c) (tx : Transaction Skeleton)
      → IsTransaction c tx
      → from_slice c (to_var_bytes c tx) ≡ ok tx
  unfolding from_slice to_var_bytes read_transaction
  from_slice-to_var_bytes laws (phoenix tx) v =
      (RunsTo-tag _ 0 (RunsTo-peek _ _ (phoenix_back laws tx v))).result
  from_slice-to_var_bytes laws (moonlight tx) v =
      (RunsTo-tag _ 1 (RunsTo-peek _ _ (moonlight_back tx v))).result
