-- ===== src/Redt/Types.antt =====
-- The data of redt/redt.go, and the libraries that it calls.
use signers.Base.{ℕ, Bool, List}
use signers.Base.Int.{ℤ, pos, int64}
use signers.Base.Text.{Text}
use signers.Base.Exec.{Result}
use signers.Base.{Option}

-- go-ethereum's common.Address, twenty bytes read as one number. Addresses are only compared, and
-- printed and read by go-ethereum, so nothing depends on the bound of the number.
abbrev pub Address : Type 0
Address = ℕ

-- The fields of go-ethereum's types.Header that the program reads; `extra` is the extra-data.
pub record Header : Type 0 where
  pub number : ℕ  -- *big.Int
  pub time : ℕ  -- uint64
  pub gas_limit : ℕ  -- uint64
  pub gas_used : ℕ  -- uint64
  pub parent_hash : Text
  pub tx_hash : Text
  pub receipt_hash : Text
  pub extra : Text

-- header.Number.Int64()
abbrev pub block_number : Header → ℤ
block_number h = int64 (pos h.number)

-- go-ethereum's types.IstanbulExtra, as far as it is read.
pub record IstanbulExtra : Type 0 where
  pub seal : Text
  pub committed_seal : List Text

pub record ValInfo : Type 0 where
  pub operator : Text
  pub enode : Text
  pub address : Address
  pub signatures : ℕ
  pub proposals : ℕ

pub record SignerData : Type 0 where
  pub proposer : Text
  pub signers : List Text

-- What CallContext leaves: the result decoded; JSON null; an error with a nil result, or with a
-- header whose number is still nil; an error with a result that is filled in from its number on,
-- where the decoding ends early.
pub data Reply (A : Type 0) : Type 0 where
  value : A → Reply A
  null : Reply A
  failed : Reply A
  partial : A → Reply A

-- The code that redt.go calls and this repository does not hold: the LRU cache of headers, the
-- JSON-RPC methods of the node (the first argument counts the calls made before, so an answer may
-- change from call to call), and the functions of go-ethereum. No law is assumed here.
pub record Geth : Type 1 where
  pub Cache : Type 0
  pub cache_new : Cache
  pub cache_get : Cache → ℤ → Option Header × Cache
  pub cache_add : Cache → ℤ → Header → Cache
  pub get_block : ℕ → Text → Reply Header
  pub get_validators : ℕ → Text → Reply (List Text)
  pub hex_to_address : Text → Address
  pub address_hex : Address → Text
  pub enode_address : Text → Option Address
  pub extract_extra : Header → Result IstanbulExtra
  pub filtered_header : Header → Bool → Header
  pub rlp_encode : Header → Text
  pub keccak256 : Text → Text
  pub signature_address : Text → Text → Result Address
  pub prepare_committed_seal : Text → Text
  pub header_hash : Header → Text
  pub NodeInfo : Type 0
  pub PeerInfo : Type 0
  pub get_node_info : ℕ → Reply NodeInfo
  pub get_peers : ℕ → Reply (List PeerInfo)
  pub indent_node_info : NodeInfo → Result Text
  pub indent_peers : List PeerInfo → Result Text
