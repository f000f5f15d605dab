-- ===== src/TxBytes/Malformed.antt =====
-- Bytes that are no transaction: where `from_slice` answers with an error, and where it panics.
use rusk.Prelude.{ℕ, ◌≡◌, ◌≢◌, ◌<◌, ◌++◌, ◌∷◌, Bool, length, ◌==◌, arith, lt→ltb}
use rusk.Vm.{Bytes}
use rusk.Bytes.{to_le_bytes}
use rusk.Reader.{Reader, Error, Result, ok, err, pure, ◌>>=◌, read_exact, IsU64}
use rusk.Reader.Panics.{
  NeverPanics, NeverPanics-pure, NeverPanics-fail, NeverPanics-bind, NeverPanics-if,
  NeverPanics-exact, NeverPanics-first, NeverPanics-le,
}
use rusk.TxBytes.Slices.{
  Crates, CratesLaws, read_u64, read_byte, read_vec, read_str, read_arr, read_checked, write_vec,
  run, value_of, peek, keep, checked, RunsTo, RunsTo-bind, RunsTo-tag, ReadsBack-u64_slice,
}
use rusk.TxBytes.Payloads.{
  read_bytecode, read_init_args, read_deploy, read_call, read_data, whole_buffer, read_other_key,
  read_moonlight_payload, PhoenixPayload, write_phoenix_payload, read_phoenix_payload,
}
use rusk.TxBytes.Transactions.{
  read_moonlight, moonlight_from_slice, exactly, read_phoenix, phoenix_from_slice, from_slice,
  read_transaction,
}
use rusk.TxBytes.WellFormed.{IsPhoenixPayload, IsVec}
use rusk.TxBytes.RoundTrip.{RunsTo-phoenix_payload}
use rusk.TxBytes.Parsing.{RunsTo-payload}

invalid : Error.invalid_data ≢ Error.panicked
invalid h = cc

too_short : Error.bad_length ≢ Error.panicked
too_short h = cc

module _ {A : Type 0} where
  run_no_panic : {r : Reader A} → NeverPanics r → (bs : Bytes) → run r bs ≢ err Error.panicked
  unfolding run
  run_no_panic {r} h bs = step (r bs) (h.on bs)
    where
      step : (m : Result (A × Bytes)) → m ≢ err Error.panicked → value_of m ≢ err Error.panicked
      step (ok (a, rest)) p q = cc
      step (err e) p q = p (cc)

  NeverPanics-keep : (m : Result A) → m ≢ err Error.panicked → NeverPanics (keep m)
  unfolding keep
  NeverPanics-keep (ok a) h = record { on = λ bs q. cc }
  NeverPanics-keep (err e) h = record { on = λ bs q. h (cc) }

  NeverPanics-peek :
      {f : Bytes → Result A} → ((bs : Bytes) → f bs ≢ err Error.panicked) → NeverPanics (peek f)
  unfolding peek
  NeverPanics-peek {f} h = record { on = λ bs. (NeverPanics-keep (f bs) (h bs)).on bs }

RunsTo-peek_err :
    {A B : Type 0} {bs : Bytes} {e : Error} (slice : Bytes → Result A) (f : A → Reader B)
    → slice bs ≡ err e
    → RunsTo (peek slice >>= f) bs (err e)
unfolding run ◌>>=◌ peek
RunsTo-peek_err slice f h = record { result = rw h }

u64_safe : NeverPanics read_u64
unfolding read_u64
u64_safe = NeverPanics-le _ 8 too_short

byte_safe : NeverPanics read_byte
unfolding read_byte
byte_safe = NeverPanics-first _ too_short

vec_safe : NeverPanics read_vec
unfolding read_vec
vec_safe = NeverPanics-bind _ u64_safe λ len. NeverPanics-exact _ len invalid

checked_safe : (test : Bytes → Bool) (bs : Bytes) → NeverPanics (checked test bs)
unfolding checked
checked_safe test bs = record {
  on = (NeverPanics-if (test bs) _ _ (NeverPanics-pure bs) (NeverPanics-fail _ invalid)).on;
}

str_safe : (is_utf8 : Bytes → Bool) → NeverPanics (read_str is_utf8)
unfolding read_str
str_safe is_utf8 = NeverPanics-bind _ vec_safe (checked_safe is_utf8)

arr_safe : (n : ℕ) → NeverPanics (read_arr n)
unfolding read_arr
arr_safe n = NeverPanics-exact _ n invalid

read_checked_safe : (n : ℕ) (test : Bytes → Bool) → NeverPanics (read_checked n test)
unfolding read_checked
read_checked_safe n test = NeverPanics-bind _ (NeverPanics-exact _ n too_short) (checked_safe test)

deploy_safe : NeverPanics read_deploy
unfolding read_deploy read_bytecode read_init_args
deploy_safe =
    NeverPanics-bind _
      (NeverPanics-bind _ (arr_safe 32)
        λ hash. NeverPanics-bind _ vec_safe λ bytes. NeverPanics-pure _)
      λ bytecode. NeverPanics-bind _ vec_safe λ owner.
        NeverPanics-bind _
          (NeverPanics-bind _ byte_safe λ tag. NeverPanics-if (tag == 0) _ _ (NeverPanics-pure _) (
            NeverPanics-if (tag == 1) _ _ (NeverPanics-bind _ vec_safe λ args. NeverPanics-pure _)
              (NeverPanics-fail _ invalid)))
          λ args. NeverPanics-bind _ u64_safe λ nonce. NeverPanics-pure _

call_safe : (is_utf8 : Bytes → Bool) → NeverPanics (read_call is_utf8)
unfolding read_call
call_safe is_utf8 = NeverPanics-bind _ (arr_safe 32) λ contract.
    NeverPanics-bind _ (str_safe is_utf8)
      λ fn_name. NeverPanics-bind _ vec_safe λ fn_args. NeverPanics-pure _

memo_safe : (size : ℕ) (bs : Bytes) → whole_buffer size bs ≢ err Error.panicked
unfolding whole_buffer
memo_safe size bs h = ground arith

data_safe : (is_utf8 : Bytes → Bool) → NeverPanics (read_data is_utf8)
unfolding read_data
data_safe is_utf8 = NeverPanics-bind _ byte_safe λ tag.
    NeverPanics-if (tag == 0) _ _ (NeverPanics-pure _) (
      NeverPanics-if (tag == 1) _ _
        (NeverPanics-bind _ (NeverPanics-peek (run_no_panic (call_safe is_utf8)))
          λ c. NeverPanics-pure _)
        (NeverPanics-if (tag == 2) _ _
          (NeverPanics-bind _ (NeverPanics-peek (run_no_panic deploy_safe)) λ d. NeverPanics-pure _)
          (NeverPanics-if (tag == 3) _ _
            (NeverPanics-bind _ u64_safe λ size.
              NeverPanics-bind _ (NeverPanics-peek (memo_safe size)) λ m. NeverPanics-pure _)
            (NeverPanics-fail _ invalid))))

other_key_safe :
    (is_key : Bytes → Bool) (sender : Bytes) → NeverPanics (read_other_key is_key sender)
unfolding read_other_key
other_key_safe is_key sender = NeverPanics-bind _ byte_safe λ tag.
    NeverPanics-if (tag == 0) _ _ (NeverPanics-pure _)
      (NeverPanics-if (tag == 1) _ _ (read_checked_safe 96 is_key) (NeverPanics-fail _ invalid))

module _ {Skeleton : Type 0} (c : Crates Skeleton) where
  payload_safe : NeverPanics (read_moonlight_payload c)
  unfolding read_moonlight_payload
  payload_safe = NeverPanics-bind _ byte_safe λ chain_id.
      NeverPanics-bind _ (read_checked_safe 96 c.is_key) λ sender.
        NeverPanics-bind _ (other_key_safe c.is_key sender) λ receiver.
          NeverPanics-bind _ u64_safe λ value. NeverPanics-bind _ u64_safe λ deposit.
            NeverPanics-bind _ u64_safe λ gas_limit. NeverPanics-bind _ u64_safe λ gas_price.
              NeverPanics-bind _ (other_key_safe c.is_key sender) λ refund_address.
                NeverPanics-bind _ u64_safe
                  λ nonce. NeverPanics-bind _ (data_safe c.is_utf8) λ content. NeverPanics-pure _

  exactly_safe : (bs : Bytes) → exactly 48 bs ≢ err Error.panicked
  unfolding exactly
  exactly_safe bs h = ground arith

  -- Whatever the bytes, reading a Moonlight transaction ends with a transaction or an error, and does
  -- not panic.
  pub moonlight_from_slice_no_panic : (bs : Bytes) → moonlight_from_slice c bs ≢ err Error.panicked
  unfolding moonlight_from_slice read_moonlight
  moonlight_from_slice_no_panic = run_no_panic (
      NeverPanics-bind _ u64_safe λ len. NeverPanics-bind _ (NeverPanics-exact _ len invalid) λ buf.
        NeverPanics-bind _ (NeverPanics-keep _ (run_no_panic payload_safe buf)) λ payload.
          NeverPanics-bind _ (NeverPanics-peek exactly_safe) λ bytes.
            NeverPanics-bind _ (checked_safe c.is_signature bytes) λ sig. NeverPanics-pure _)

  RunsTo-short_proof :
      {B : Type 0} (n : ℕ) (proof : Bytes) (f : Bytes → B)
      → length proof < n
      → RunsTo (read_exact Error.panicked n >>= λ x. pure (f x)) proof (err Error.panicked)
  unfolding run ◌>>=◌ read_exact
  RunsTo-short_proof n proof f h = record { result = rw (lt→ltb (length proof) n h) }

  -- Where skeletons are read back, reading a Phoenix transaction panics if its payload is in order and
  -- the length before its proof is more than what follows.
  pub from_slice_short_proof :
      (laws : CratesLaws c) (p : PhoenixPayload Skeleton) (n : ℕ) (proof : Bytes)
      → IsPhoenixPayload c p
      → IsVec (write_phoenix_payload c p)
      → IsU64 n
      → length proof < n
      → from_slice c (0 ∷ (write_vec (write_phoenix_payload c p) ++ (to_le_bytes 8 n ++ proof)))
        ≡ err Error.panicked
  unfolding from_slice read_transaction phoenix_from_slice read_phoenix
  from_slice_short_proof laws p n proof valid fits hn short =
      let inner =
        RunsTo-payload (read_phoenix_payload c) (write_phoenix_payload c p) p _ fits
          (RunsTo-phoenix_payload c laws p valid)
          (RunsTo-bind _ (ReadsBack-u64_slice n hn) (RunsTo-short_proof n proof _ short)) in
      (RunsTo-tag _ 0 (RunsTo-peek_err _ _ inner.result)).result
