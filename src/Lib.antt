-- ===== src/Lib.antt =====
-- The two genesis contracts of the Dusk network, transfer and stake, as state machines, and the
-- theorems that make them correct; the bytes of transactions, blocks and messages as nodes exchange
-- them; and of the consensus the sortition of committees, the bit sets that stand for their voters in a
-- certificate, and the votes that are collected; and the making and the check of blocks in a node.
--
-- The transfer contract holds all Dusk: the Moonlight accounts with their nonces, the balance of each
-- contract, the Phoenix notes with their nullifiers and roots. It also keeps the transaction that is
-- being executed, with a deposit that the called contract may pick up. The stake contract keeps for
-- each provisioner a stake, a reward and fault counters. It holds no Dusk of its own: its funds are the
-- balance that the transfer contract keeps for it, which it moves by calls of that contract.
--
-- The consensus draws for each step a committee from the provisioners, by hashes, in proportion to their
-- stakes, and collects the votes of its members, weighed by their credits, until a quorum is reached.
--
-- A node reads messages from its peers. A message is a version, a topic and a payload, such as a
-- vote, a block or a request. A block has a header, transactions and faults; each transaction holds,
-- behind its length, the bytes that core gives it.
--
-- A node makes a block by executing the transactions at hand in a session of the virtual machine, within
-- the limits of a block, and then pays the rewards to the generator, the voters and Dusk. The other nodes
-- execute the transactions of the block again and compare the state and the bloom of the events.
--
-- Files:
--   Prelude, Map, Bytes: tests on numbers, lists, the ordered map of the standard library, integers as
--     bytes.
--   Vm: what the virtual machine gives a contract (core/src/abi.rs): the caller, the block height, the
--     checks of keys and signatures. `Outcome` is the answer of a call or its panic. Vm.Ensures has the
--     rules for what a call ensures when it returns, Vm.Succeeds those for calls that do not panic.
--   Transfer.Withdrawal, Transfer.Types: core/src/transfer.rs and core/src/transfer/*.rs.
--   Transfer.State: the state and its small operations (contracts/transfer/src/state.rs, tree.rs and
--     transitory.rs). Transfer.Settlement: mint_withdrawal, mint, withdraw, convert.
--     Transfer.Contracts: deposit, contract_to_contract, contract_to_account, mint_to_contract.
--     Transfer.Spending: spend_and_execute with spend_phoenix and spend_moonlight, refund.
--   Transfer.ForStake: the transfer contract as the stake contract calls it
--     (contracts/transfer/src/lib.rs).
--   Transfer.Supply, Balances, Circulation, Receipt, Pickup, Gas, Refund, Later, Replay: the proofs about these, and
--     Transfer.Guarantees the statements for the calls.
--   Stake.Types: core/src/stake.rs. Stake.State, Funding, Payout, Penalty:
--     contracts/stake/src/state.rs. Stake.Calls: the exported functions (contracts/stake/src/lib.rs).
--   Stake.Interface: what the stake contract relies on in the transfer contract. Stake.Effects,
--     Funds, Accounting, Invariant, BlockStart, Solvency, History, OnTransfer, Ledger, Permission,
--     Opening: the proofs, and Stake.Guarantees the statements for single calls.
--   Reader: a buffer that is read from the front (node-data/src/lib.rs). Reader.RoundTrip has the rules
--     for reading back what was written, Reader.Extension those for cut-off bytes, Reader.Panics those
--     for readers that do not panic.
--   TxBytes.Slices, Payloads, Transactions: the bytes of transactions (core/src/lib.rs,
--     core/src/transfer.rs, core/src/transfer/{data,moonlight,phoenix}.rs). TxBytes.WellFormed: what the
--     types of the source say of them. TxBytes.RoundTrip, Parsing, Malformed: the proofs.
--     TxBytes.HashInput: what is hashed and signed, and transactions without their bytecode (the same
--     files); TxBytes.Unsigned: the proofs.
--   NodeData.Votes, Steps, Inventory, Messages: node-data/src/message.rs. NodeData.Attestations,
--     Headers, Ledger, Faults: node-data/src/ledger/*.rs. Their encodings are in
--     node-data/src/encoding.rs. NodeData.RoundTrip, Truncation, FaultChecks: the proofs, and
--     NodeData.Guarantees the statements on messages.
--   Consensus.Committee: a committee of the consensus and the bit set of its voters
--     (consensus/src/user/committee.rs and cluster.rs). Consensus.VoterBits: the proofs.
--   Consensus.Sortition: how a committee is drawn from the provisioners
--     (consensus/src/user/{sortition,provisioners,stake,committee}.rs, consensus/src/config.rs).
--     Consensus.Extraction, Committees: the proofs.
--   Consensus.Aggregator: the votes of a step as they come in (consensus/src/aggregator.rs).
--     Consensus.OneVote, OneQuorum, Counted: the proofs.
--   NodeData.Slashes: the slashes of a block (node-data/src/ledger/faults.rs).
--   Blocks.Machine: the virtual machine as a node calls it, and rusk/src/lib/bloom.rs. Blocks.Execute: a
--     transaction (vm/src/execute.rs). Blocks.Emission, Rewards: rusk/src/lib/node.rs and the rewards of
--     rusk/src/lib/node/rusk.rs. Blocks.Production, Generation: the rest of that file, from the rounds of
--     the loops to the entry points. Blocks.Charges, Deployments, Payment, Steps, Replay, Agreement,
--     Verification, Limits: the proofs.
--   Blocks.Examples, Consensus.Examples, NodeData.Examples, Stake.Examples, Stake.TransferExamples,
--     Transfer.Examples, TxBytes.Examples: runs on concrete states.
--
-- How the source is modelled:
--   * A public key, a contract id, a signature is the number that its bytes spell, most significant
--     first, so that the order of the maps is that of the source.
--   * The contracts are built with overflow checks (Cargo.toml), so their sums panic on overflow.
--     Functions of core, which is built without, wrap, and this is written out.
--   * A panic carries no state: the virtual machine drops what the call has written.
--   * A reference into a map that is written through is a read and an insert at the same key. What the
--     source writes step by step through references is written at once where nothing reads it between.
--   * `abi::emit` appends to a list of events. The transaction that is being executed, a static of
--     the contract, is part of the state.
--   * A call of another contract is a parameter: `receive` for the calls of a receiver, `call_raw` for
--     the call of a transaction, `decode` for the rkyv encoding of a stake. Where a theorem needs that
--     the called contract behaves, a named hypothesis says so: `KeepsStake` that it does not spend what
--     the stake contract holds, `Keeps` that it keeps what circulates and the open transaction.
--   * A payment of a contract by the stake contract runs that contract's code, which may call the stake
--     contract back. The two functions that pay act on both states, `unstake_from_contract` and
--     `withdraw_from_contract` follow their reference to the entry again after it, and `CallsNotBack`
--     says that no such call is made. `Transfer.ForStake` is the transfer contract with receivers that
--     make none, since `receive` acts on the state of the transfer contract alone. Where the call has
--     removed the entry, the reference of the source dangles; the model panics.
--   * Notes, Poseidon hashes, Schnorr signatures, the merkle tree and the proofs come from other crates:
--     `NoteOps` is the parameter for them.
--   * `bits` adds the power of two of each position where the source sets the bit by `|=`: a position
--     is met once. The source asserts that a committee has at most 64 members, the width of the bits.
--   * In TxBytes and NodeData a key, a signature, a hash or any fixed array is the list of its bytes, and
--     a predicate says that it has the length of its type. `Crates` and `Crypto` are the parameters for
--     the tests and functions of other crates; `CratesLaws` says that a transaction skeleton is read
--     back from the front of a longer buffer. A panic of a reader is the error `panicked`.
--   * In Blocks the session of the virtual machine and its errors are those of the piecrust crate: `Machine`
--     is the parameter for its calls, `KeepsGas` and `KeepsSession` say what is relied on in them. The
--     clock is a parameter, asked in each round. The sums of a node are on 64 bits and wrap.
--   * `extract_loop` is the one function on fuel, a round of the loop each. The theorem on it shows
--     that one round is enough. Every other loop of the source goes through a list or counts down.
--   * SHA3-256 is the parameter `sha3` of the sortition, to the number that the hash spells; `aggregate`
--     is the aggregation of BLS signatures. The supermajority is two thirds rounded up in integers; the
--     source computes it with `f32`. The node is built without overflow checks: its sum of weights wraps.
--
-- Not modelled: the rest of the consensus, the rest of the node with its database and network, the events
-- that the execution of a block hands on, the commits of the state, the wallets and the
-- provers, and the queries that page through a map of the transfer contract. Of node-data the archive
-- events, the key files and the queues, which are tasks, files and channels.
pub mod Prelude
pub mod Map
pub mod Vm
pub mod Bytes
pub mod Reader
pub mod TxBytes
pub mod NodeData
pub mod Transfer
pub mod Stake
pub mod Consensus
pub mod Blocks
