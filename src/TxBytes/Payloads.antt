-- ===== src/TxBytes/Payloads.antt =====
-- The payloads: data.rs, and `Payload` of moonlight.rs and phoenix.rs.
use rusk.Prelude.{
  ℕ, Bool, not, ◌||◌, Option, none, some, [], ◌∷◌, ◌++◌, ◌==◌, ltb, if◌then◌else◌, length, take,
}
use rusk.Vm.{Bytes}
use rusk.Bytes.{to_le_bytes, bytes_eq}
use rusk.Reader.{Reader, Error, Result, ok, err, pure, fail, ◌>>=◌, read_exact}
use rusk.TxBytes.Slices.{
  Crates, read_u64, read_byte, read_vec, read_str, read_arr, read_checked, write_vec, run, peek,
}

abbrev pub max_memo_size : ℕ
max_memo_size = 512

pub record ContractBytecode : Type 0 where
  pub hash : Bytes
  pub bytes : Bytes

pub record ContractDeploy : Type 0 where
  pub bytecode : ContractBytecode
  pub owner : Bytes
  pub init_args : Option Bytes
  pub nonce : ℕ

pub record ContractCall : Type 0 where
  pub contract : Bytes
  pub fn_name : Bytes
  pub fn_args : Bytes

pub data TransactionData : Type 0 where
  call : ContractCall → TransactionData
  deploy : ContractDeploy → TransactionData
  memo : Bytes → TransactionData

unfoldable pub write_bytecode : ContractBytecode → Bytes
write_bytecode b = b.hash ++ write_vec b.bytes

-- `ContractBytecode::from_buf`
unfoldable pub read_bytecode : Reader ContractBytecode
read_bytecode = do
  hash ← read_arr 32
  bytes ← read_vec
  pure (record { hash = hash; bytes = bytes })

unfoldable pub write_init_args : Option Bytes → Bytes
write_init_args (some args) = 1 ∷ write_vec args
write_init_args none = 0 ∷ []

read_some_args : Reader (Option Bytes)
read_some_args = do args ← read_vec; pure (some args)

unfoldable pub read_init_args : Reader (Option Bytes)
unfolding read_some_args
read_init_args = do
  tag ← read_byte
  if tag == 0 then pure none else if tag == 1 then read_some_args else fail Error.invalid_data

unfoldable pub write_deploy : ContractDeploy → Bytes
unfolding write_bytecode write_init_args
write_deploy d =
    write_bytecode d.bytecode
    ++ (write_vec d.owner ++ (write_init_args d.init_args ++ to_le_bytes 8 d.nonce))

unfoldable pub read_deploy : Reader ContractDeploy
unfolding read_bytecode read_init_args
read_deploy = do
  bytecode ← read_bytecode
  owner ← read_vec
  init_args ← read_init_args
  nonce ← read_u64
  pure (record { bytecode = bytecode; owner = owner; init_args = init_args; nonce = nonce })

unfoldable pub write_call : ContractCall → Bytes
write_call c = c.contract ++ (write_vec c.fn_name ++ write_vec c.fn_args)

unfoldable pub read_call : (Bytes → Bool) → Reader ContractCall
read_call is_utf8 = do
  contract ← read_arr 32
  fn_name ← read_str is_utf8
  fn_args ← read_vec
  pure (record { contract = contract; fn_name = fn_name; fn_args = fn_args })

unfoldable pub write_data : Option TransactionData → Bytes
unfolding write_call write_deploy
write_data (some (call c)) = 1 ∷ write_call c
write_data (some (deploy d)) = 2 ∷ write_deploy d
write_data (some (memo m)) = 3 ∷ write_vec m
write_data none = 0 ∷ []

-- `buf[..size]`, with the panic of an index out of range.
abbrev pub slice_to : ℕ → Bytes → Result Bytes
slice_to size buf = if ltb (length buf) size then err Error.panicked else ok (take size buf)

-- The memo has to fill the buffer, which is tested before `buf[..size]` is taken.
unfoldable pub whole_buffer : ℕ → Bytes → Result Bytes
whole_buffer size buf =
    if not (length buf == size) || ltb max_memo_size size
    then err Error.invalid_data
    else slice_to size buf

read_call_data : (Bytes → Bool) → Reader (Option TransactionData)
read_call_data is_utf8 = do c ← peek (run (read_call is_utf8)); pure (some (call c))

read_deploy_data : Reader (Option TransactionData)
read_deploy_data = do d ← peek (run read_deploy); pure (some (deploy d))

read_memo_data : Reader (Option TransactionData)
unfolding whole_buffer
read_memo_data = do size ← read_u64; m ← peek (whole_buffer size); pure (some (memo m))

unfoldable pub read_data : (Bytes → Bool) → Reader (Option TransactionData)
unfolding read_call_data read_deploy_data read_memo_data
read_data is_utf8 = do
  tag ← read_byte
  if tag == 0
      then pure none
      else if tag == 1
      then read_call_data is_utf8
      else if tag == 2
      then read_deploy_data
      else if tag == 3
      then read_memo_data
      else fail Error.invalid_data

pub record MoonlightFee : Type 0 where
  pub gas_limit : ℕ
  pub gas_price : ℕ
  pub refund_address : Bytes

pub record MoonlightPayload : Type 0 where
  pub chain_id : ℕ
  pub sender : Bytes
  pub receiver : Bytes
  pub value : ℕ
  pub deposit : ℕ
  pub fee : MoonlightFee
  pub nonce : ℕ
  pub tx_data : Option TransactionData

-- A key is written only where it differs from the sender.
unfoldable pub write_other_key : Bytes → Bytes → Bytes
write_other_key sender key = if bytes_eq sender key then 0 ∷ [] else 1 ∷ key

unfoldable pub write_moonlight_payload : MoonlightPayload → Bytes
unfolding write_other_key
write_moonlight_payload p =
    p.chain_id
    ∷ (p.sender
        ++ (write_other_key p.sender p.receiver
            ++ (to_le_bytes 8 p.value
                ++ (to_le_bytes 8 p.deposit
                    ++ (to_le_bytes 8 p.fee.gas_limit
                        ++ (to_le_bytes 8 p.fee.gas_price
                            ++ (write_other_key p.sender p.fee.refund_address
                                ++ (to_le_bytes 8 p.nonce ++ write_data p.tx_data))))))))

unfoldable pub read_other_key : (Bytes → Bool) → Bytes → Reader Bytes
read_other_key is_key sender = do
  tag ← read_byte
  if tag == 0
      then pure sender
      else if tag == 1
      then read_checked 96 is_key
      else fail Error.invalid_data

module _ {Skeleton : Type 0} (c : Crates Skeleton) where
  unfoldable pub read_moonlight_payload : Reader MoonlightPayload
  unfolding read_other_key
  read_moonlight_payload = do
    chain_id ← read_byte
    sender ← read_checked 96 c.is_key
    receiver ← read_other_key c.is_key sender
    value ← read_u64
    deposit ← read_u64
    gas_limit ← read_u64
    gas_price ← read_u64
    refund_address ← read_other_key c.is_key sender
    nonce ← read_u64
    tx_data ← read_data c.is_utf8
    pure (record {
      chain_id = chain_id;
      sender = sender;
      receiver = receiver;
      value = value;
      deposit = deposit;
      fee = record {
        gas_limit = gas_limit;
        gas_price = gas_price;
        refund_address = refund_address;
      };
      nonce = nonce;
      tx_data = tx_data;
    })

pub record PhoenixFee : Type 0 where
  pub gas_limit : ℕ
  pub gas_price : ℕ
  pub stealth_address : Bytes
  pub sender : Bytes

unfoldable pub write_phoenix_fee : PhoenixFee → Bytes
write_phoenix_fee fee =
    to_le_bytes 8 fee.gas_limit
    ++ (to_le_bytes 8 fee.gas_price ++ (fee.stealth_address ++ fee.sender))

pub record PhoenixPayload (Skeleton : Type 0) : Type 0 where
  pub chain_id : ℕ
  pub tx_skeleton : Skeleton
  pub fee : PhoenixFee
  pub tx_data : Option TransactionData

module _ {Skeleton : Type 0} (c : Crates Skeleton) where
  unfoldable pub read_phoenix_fee : Reader PhoenixFee
  read_phoenix_fee = do
    gas_limit ← read_u64
    gas_price ← read_u64
    stealth_address ← read_checked c.stealth_address_size c.is_stealth_address
    sender ← read_checked c.sender_size c.is_sender
    pure (record {
      gas_limit = gas_limit;
      gas_price = gas_price;
      stealth_address = stealth_address;
      sender = sender;
    })

  unfoldable pub write_phoenix_payload : PhoenixPayload Skeleton → Bytes
  write_phoenix_payload p =
      p.chain_id
      ∷ (write_vec (c.skeleton_to_var_bytes p.tx_skeleton)
          ++ (write_phoenix_fee p.fee ++ write_data p.tx_data))

  -- `&buf[skeleton_len..]` panics if the buffer is shorter.
  unfoldable pub read_phoenix_payload : Reader (PhoenixPayload Skeleton)
  unfolding read_phoenix_fee
  read_phoenix_payload = do
    chain_id ← read_byte
    skeleton_len ← read_u64
    tx_skeleton ← peek c.skeleton_from_slice
    skipped ← read_exact Error.panicked skeleton_len
    fee ← read_phoenix_fee
    tx_data ← read_data c.is_utf8
    pure (record { chain_id = chain_id; tx_skeleton = tx_skeleton; fee = fee; tx_data = tx_data })
