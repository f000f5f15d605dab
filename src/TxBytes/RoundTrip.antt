-- ===== src/TxBytes/RoundTrip.antt =====
-- `from_slice` after `to_var_bytes`.
use rusk.Prelude.{
  ℕ, ◌≡◌, ◌≤◌, ◌++◌, ◌∷◌, [], refl, ap, Bool, Option, none, some, length, arith, Bool-cases, inl,
  inr, take,
}
use rusk.Vm.{Bytes}
use rusk.Bytes.{to_le_bytes, bytes_eq, bytes_eq→eq}
use rusk.Reader.{Reader, Error, Result, ok, ◌>>=◌, read_exact}
use rusk.Reader.RoundTrip.{
  ReadsBack, ReadsBack-pure, ReadsBack-bind, ReadsBack-last, ReadsBack-exact,
}
use rusk.TxBytes.Slices.{
  Crates, CratesLaws, read_byte, write_vec, run, peek, RunsTo, RunsTo-bind, RunsTo-tag, RunsTo-peek,
  RunsTo-last, ReadsBack-RunsTo, ReadsBack-u64_slice, ReadsBack-byte, ReadsBack-vec, ReadsBack-str,
  ReadsBack-arr, ReadsBack-checked,
}
use rusk.TxBytes.Payloads.{
  ContractBytecode, write_bytecode, read_bytecode, ContractDeploy, write_deploy, read_deploy,
  write_init_args, read_init_args, ContractCall, write_call, read_call, TransactionData, write_data,
  read_data, MoonlightPayload, write_moonlight_payload, read_moonlight_payload, write_other_key,
  read_other_key, write_phoenix_fee, read_phoenix_fee, PhoenixPayload, write_phoenix_payload,
  read_phoenix_payload, whole_buffer,
}
use rusk.TxBytes.WellFormed.{
  IsArgs, IsDeploy, IsCall, IsData, IsKey, IsMoonlightPayload, IsPhoenixPayload, IsVec,
}
use mathlib.Core.List.{append_assoc}

-- A tag byte in front of what is read back.
ReadsBack-byte_tag :
    {A : Type 0} {cs : Bytes} {a : A} (f : ℕ → Reader A) (n : ℕ)
    → ReadsBack (f n) cs a
    → ReadsBack (read_byte >>= f) (n ∷ cs) a
ReadsBack-byte_tag f n h = ReadsBack-bind f (ReadsBack-byte n) h

ReadsBack-init_args :
    (args : Option Bytes) → IsArgs args → ReadsBack read_init_args (write_init_args args) args
unfolding read_init_args write_init_args
ReadsBack-init_args none h = ReadsBack-byte_tag _ 0 (ReadsBack-pure _)
ReadsBack-init_args (some args) h = ReadsBack-byte_tag _ 1 (ReadsBack-last _ (ReadsBack-vec args h))

ReadsBack-bytecode :
    (b : ContractBytecode)
    → length b.hash ≡ 32
    → IsVec b.bytes
    → ReadsBack read_bytecode (write_bytecode b) b
unfolding read_bytecode write_bytecode
ReadsBack-bytecode b h k =
    ReadsBack-bind _ (ReadsBack-arr 32 b.hash h) (ReadsBack-last _ (ReadsBack-vec b.bytes k))

ReadsBack-deploy : (d : ContractDeploy) → IsDeploy d → ReadsBack read_deploy (write_deploy d) d
unfolding read_deploy write_deploy
ReadsBack-deploy d v = ReadsBack-bind _ (ReadsBack-bytecode d.bytecode v.hash_size v.bytes_fit) (
    ReadsBack-bind _ (ReadsBack-vec d.owner v.owner_fits) (
      ReadsBack-bind _ (ReadsBack-init_args d.init_args v.init_args_fit)
        (ReadsBack-last _ (ReadsBack-u64_slice d.nonce v.nonce_fits))))

ReadsBack-call :
    (is_utf8 : Bytes → Bool) (call : ContractCall)
    → IsCall is_utf8 call
    → ReadsBack (read_call is_utf8) (write_call call) call
unfolding read_call write_call
ReadsBack-call is_utf8 call v = ReadsBack-bind _ (ReadsBack-arr 32 call.contract v.contract_size) (
    ReadsBack-bind _ (ReadsBack-str is_utf8 call.fn_name v.fn_name_fits v.fn_name_text)
      (ReadsBack-last _ (ReadsBack-vec call.fn_args v.fn_args_fit)))

take-length : (bs : Bytes) → take (length bs) bs ≡ bs
take-length [] = refl
take-length (b ∷ bs) = ap (λ (cs : Bytes). b ∷ cs) (take-length bs)

whole_buffer-length : (m : Bytes) → length m ≤ 512 → whole_buffer (length m) m ≡ ok m
unfolding whole_buffer
whole_buffer-length m h = ground (arith, take-length m)

RunsTo-data :
    (is_utf8 : Bytes → Bool) (content : Option TransactionData)
    → IsData is_utf8 content
    → RunsTo (read_data is_utf8) (write_data content) (ok content)
unfolding read_data write_data write_vec
RunsTo-data is_utf8 none v = RunsTo-tag _ 0 (ReadsBack-RunsTo (ReadsBack-pure _))
RunsTo-data is_utf8 (some (TransactionData.call call)) v =
    RunsTo-tag _ 1 (RunsTo-peek _ _ (ReadsBack-RunsTo (ReadsBack-call is_utf8 call v)).result)
RunsTo-data is_utf8 (some (TransactionData.deploy d)) v =
    RunsTo-tag _ 2 (RunsTo-peek _ _ (ReadsBack-RunsTo (ReadsBack-deploy d v)).result)
RunsTo-data is_utf8 (some (TransactionData.memo m)) v = RunsTo-tag _ 3 (
    RunsTo-bind _ (ReadsBack-u64_slice (length m) (omega arith))
      (RunsTo-peek _ _ (whole_buffer-length m v)))

ReadsBack-other_key :
    (is_key : Bytes → Bool) (sender key : Bytes)
    → IsKey is_key key
    → ReadsBack (read_other_key is_key sender) (write_other_key sender key) key
unfolding read_other_key write_other_key
ReadsBack-other_key is_key sender key v = elim (Bool-cases (bytes_eq sender key)) [
  | inl same ↦ rw (same, bytes_eq→eq sender key same) (ReadsBack-byte_tag _ 0 (ReadsBack-pure key))
  | inr other ↦ rw other (ReadsBack-byte_tag _ 1 (ReadsBack-checked 96 is_key key v.size v.point))
]

module _ {Skeleton : Type 0} (c : Crates Skeleton) where
  pub RunsTo-moonlight_payload :
      (p : MoonlightPayload)
      → IsMoonlightPayload c p
      → RunsTo (read_moonlight_payload c) (write_moonlight_payload p) (ok p)
  unfolding read_moonlight_payload write_moonlight_payload
  RunsTo-moonlight_payload p v =
      let key = λ (k : Bytes) (h : IsKey c.is_key k). ReadsBack-other_key c.is_key p.sender k h in
      RunsTo-tag _ p.chain_id (
        RunsTo-bind _
          (ReadsBack-checked 96 c.is_key p.sender v.sender_valid.size v.sender_valid.point)
          (RunsTo-bind _ (key p.receiver v.receiver_valid) (
            RunsTo-bind _ (ReadsBack-u64_slice p.value v.value_fits) (
              RunsTo-bind _ (ReadsBack-u64_slice p.deposit v.deposit_fits) (
                RunsTo-bind _ (ReadsBack-u64_slice p.fee.gas_limit v.gas_limit_fits) (
                  RunsTo-bind _ (ReadsBack-u64_slice p.fee.gas_price v.gas_price_fits) (
                    RunsTo-bind _ (key p.fee.refund_address v.refund_address_valid) (
                      RunsTo-bind _ (ReadsBack-u64_slice p.nonce v.nonce_fits)
                        (RunsTo-last _ (RunsTo-data c.is_utf8 p.tx_data v.data_valid))))))))))

  ReadsBack-phoenix_fee :
      (p : PhoenixPayload Skeleton)
      → IsPhoenixPayload c p
      → ReadsBack (read_phoenix_fee c) (write_phoenix_fee p.fee) p.fee
  unfolding read_phoenix_fee write_phoenix_fee
  ReadsBack-phoenix_fee p v =
      ReadsBack-bind _ (ReadsBack-u64_slice p.fee.gas_limit v.gas_limit_fits) (
        ReadsBack-bind _ (ReadsBack-u64_slice p.fee.gas_price v.gas_price_fits) (
          ReadsBack-bind _
            (ReadsBack-checked _ _ p.fee.stealth_address v.stealth_address_size
              v.stealth_address_valid)
            (ReadsBack-last _ (ReadsBack-checked _ _ p.fee.sender v.sender_size v.sender_valid))))

  RunsTo-skeleton :
      {B : Type 0} {cs : Bytes} {x : Result B} (laws : CratesLaws c) (s : Skeleton)
      (k : Skeleton → Reader B)
      → RunsTo (k s) cs x
      → RunsTo
          (peek c.skeleton_from_slice >>= λ t.
            read_exact Error.panicked (length (c.skeleton_to_var_bytes s)) >>= λ _. k t)
          (c.skeleton_to_var_bytes s ++ cs)
          x
  unfolding run ◌>>=◌ peek
  RunsTo-skeleton {B} {cs} {x} laws s k h =
      let bs = c.skeleton_to_var_bytes s in
      record {
        result =
            rw (laws.from_slice-to_var_bytes s cs)
              (rw ((ReadsBack-exact Error.panicked (length bs) bs refl).then_rest cs) h.result);
      }

  pub RunsTo-phoenix_payload :
      (laws : CratesLaws c) (p : PhoenixPayload Skeleton)
      → IsPhoenixPayload c p
      → RunsTo (read_phoenix_payload c) (write_phoenix_payload c p) (ok p)
  unfolding read_phoenix_payload write_phoenix_payload write_vec
  RunsTo-phoenix_payload laws p v =
      let bs = c.skeleton_to_var_bytes p.tx_skeleton in
      let after_skeleton =
        RunsTo-bind _ (ReadsBack-phoenix_fee p v)
          (RunsTo-last _ (RunsTo-data c.is_utf8 p.tx_data v.data_valid)) in
      RunsTo-tag _ p.chain_id (
        rw
          (append_assoc (to_le_bytes 8 (length bs)) bs
            (write_phoenix_fee p.fee ++ write_data p.tx_data))
          (RunsTo-bind _ (ReadsBack-u64_slice (length bs) v.skeleton_fits)
            (RunsTo-skeleton laws p.tx_skeleton _ after_skeleton)))
