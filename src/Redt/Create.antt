-- ===== src/Redt/Create.antt =====
-- redt/redt.go: the list of validators known by name, the validator set in force, and a new node.
pub mod Fresh
pub mod Order
use signers.Base.{
  ℕ, ◌+◌, Bool, true, false, List, [], ◌∷◌, ◌++◌, map, Option, none, some, ◌==◌, if◌then◌else◌,
}
use signers.Base.Int.{pos, negsuc}
use signers.Base.Text.{Text, codes}
use signers.Base.Sort.{sort_strings}
use signers.Base.Exec.{
  Result, ok, err, failed, Outcome, returned, exited, panicked, blocked, Exec, pure, ◌>>=◌,
}
use signers.Redt.Types.{Address, ValInfo, Reply, Geth}
use signers.Redt.Node.{RedTNode, Node, to_block_num_arg}

-- Operator and enode of each validator.
enodes : List (Text × Text)
enodes =
    (
      codes "AST",
      codes "enode://367354e3bb59d015fce31967f5dda5c17cb3b9acc5b571695f94a13f89d2a2"
          ++ codes "c64c3bca28da05b6751a7384c38152752de35787d97e9b8d6062b3371b7a9305c4@188"
          ++ codes ".244.90.2:21000?discport=0",
    )
    ∷ (
      codes "Alisys",
      codes "enode://3905f943ba5446eba164c07ab5f53a84ce17d74ec4d7591f6ec54b9d7608f5"
          ++ codes "7cae7cfdf946616385f59cfb5b910161a1f8520cb6f992bcc0d1ab932601205e91@154"
          ++ codes ".62.228.6:21000?discport=0",
    )
    ∷ (
      codes "Blocknitive",
      codes "enode://6ee5504399ba5a6cbca15d7dd19c652017af0223f12af875044d103307cca8"
          ++ codes "2a8105cfb72455836bd52ba11cdbf5a752007af6000d59d146dade7f3738a4d148@185"
          ++ codes ".170.96.121:21000?discport=0",
    )
    ∷ (
      codes "COUNCILBOX",
      codes "enode://a7e28844702e519f504802a0b45638049db8bf08e18d12e0713c9e5c5707bf"
          ++ codes "abb029583a87e94f8985f9584bee9257a7efe5e057ea61e6b5a16f1eb0b9b3623a@52."
          ++ codes "232.74.132:21000?discport=0",
    )
    ∷ (
      codes "DigitelTS",
      codes "enode://32ed5766ac0c482bd7f950087c389710e31b75bf6a06628820f224ddd2fce2"
          ++ codes "16b26b113836a456832bbb62a9521d768923dcb8c1c6cbddd06071fa27e1688a1c@176"
          ++ codes ".34.235.103:21000?discport=0",
    )
    ∷ (
      codes "IN2",
      codes "enode://0ede782b7ce6c7398f100ef33aef6c266972dac19910b5aac1c1eededccd7b"
          ++ codes "4769e7df69e4314927417bbdd9592fc9f583c36274976af29e432b8e64059adc03@15."
          ++ codes "236.56.133:21000?discport=0",
    )
    ∷ (
      codes "Izertis",
      codes "enode://51bff825ab4169bc94035fb733a2613018e012460d683a032a20a2a8d305b5"
          ++ codes "eb9462ad7f84ea0e7ce8eec1e0ba0647d5212912016917033c20939719397247a5@3.2"
          ++ codes "48.201.125:21000?discport=0",
    )
    ∷ (
      codes "SERES",
      codes "enode://b9992efd63318b9f41028ec3390abb21bb8fe8f99b0acc30bfccf6d033828b"
          ++ codes "65f65971c1e4975bf41ea9910c879ec9d5df52f24b6bec9058c2cbdb70774b732a@141"
          ++ codes ".144.251.87:21000?discport=0",
    )
    ∷ (
      codes "Indra",
      codes "enode://7adf7393d3d75978b3d9bf2f78436bb070e1c19eff20eb2eef07dc8293293c"
          ++ codes "4ecbbbcca5a2f84ee6ca9331e8efe7d7d5662ed1f92bb96a6bd0e850715b45ed6d@20."
          ++ codes "107.215.166:21000?discport=0",
    )
    ∷ []

-- `m[k] = v`
abbrev pub assign {ℓ} : {V : Type ℓ} → (Address → V) → Address → V → Address → V
assign m k v j = if j == k then v else m j

-- `for _, addr := range addrs { m[addr] = 0 }`
unfoldable pub zero_all : List Address → (Address → ℕ) → Address → ℕ
zero_all [] m = m
zero_all (a ∷ addrs) m = zero_all addrs (assign m a 0)

module _ (g : Geth) where
  open g use {cache_new, get_validators, hex_to_address, address_hex, enode_address}

  call_get_validators : Exec (Node g) (Reply (List Text))
  unfolding to_block_num_arg
  call_get_validators s = (
    returned (get_validators s.calls (to_block_num_arg (negsuc 0))),
    record s { calls = s.calls + 1 },
  )

  -- The strings are brought to the checksummed form, sorted, and turned into addresses again.
  unfoldable pub sorted_val_set : List Text → List Address
  unfolding sort_strings
  sorted_val_set vals =
      let val_set = map hex_to_address vals in
      let texts = sort_strings (map address_hex val_set) in map hex_to_address texts

  val_set_result : Reply (List Text) → Result (List Address)
  unfolding sorted_val_set
  val_set_result Reply.failed = err failed
  val_set_result (Reply.partial vals) = err failed
  val_set_result Reply.null = ok []
  val_set_result (Reply.value vals) = ok (sorted_val_set vals)

  unfoldable pub get_val_set : Exec (Node g) (Result (List Address))
  unfolding call_get_validators val_set_result
  get_val_set = do reply ← call_get_validators; pure (val_set_result reply)

  -- The loop over `enodes`; enode.MustParse panics on a text that is no enode.
  load_enodes : List (Text × Text) → (Address → Option ValInfo) → Outcome (Address → Option ValInfo)
  load_enodes [] m = returned m
  load_enodes ((operator, enode) ∷ rest) m = elim (enode_address enode) [
    | none ↦ panicked
    | some address ↦ load_enodes rest (
        assign m address (
          some (record {
            operator = operator;
            enode = enode;
            address = address;
            signatures = 0;
            proposals = 0;
          })))
  ]

  -- The node while its fields are still the zero values.
  abbrev blank : Node g
  blank = record {
    locked = false;
    readers = 0;
    header_cache = cache_new;
    val_set = [];
    all_validators = λ a. none;
    as_proposer = λ a. 0;
    as_signer = λ a. 0;
    last_block_processed = pos 0;
    calls = 0;
    screen = [];
    printed = [];
  }

  with_validators : Node g → Outcome (Address → Option ValInfo) → Outcome (Result (Node g))
  unfolding zero_all
  with_validators s (returned m) = returned (
      ok (record s {
        all_validators = m;
        as_proposer = zero_all s.val_set (λ a. 0);
        as_signer = zero_all s.val_set (λ a. 0);
      }))
  with_validators s exited = exited
  with_validators s panicked = panicked
  with_validators s blocked = blocked

  with_val_set : Outcome (Result (List Address)) → Node g → Outcome (Result (Node g))
  unfolding load_enodes with_validators enodes
  with_val_set (returned (ok vals)) s =
      with_validators (record s { val_set = vals }) (load_enodes enodes (λ a. none))
  with_val_set (returned (err e)) s = panicked
  with_val_set exited s = exited
  with_val_set panicked s = panicked
  with_val_set blocked s = blocked

  -- `dialed` is whether rpc.Dial succeeded; lrucache.New fails only for a size that is not positive.
  unfoldable pub new_redt_node : Bool → Outcome (Result (Node g))
  unfolding get_val_set with_val_set
  new_redt_node false = returned (err failed)
  new_redt_node true = let (o, s) = get_val_set blank in with_val_set o s
