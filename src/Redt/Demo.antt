-- ===== src/Redt/Demo.antt =====
-- A node with a small chain, for the tests of redt/redt.go and history/history.go.
use signers.Base.{
  ℕ, ◌+◌, ◌%◌, ◌^◌, ◌≤◌, ◌<◌, ◌≡◌, ◌≢◌, ◌⊎◌, inl, inr, refl, sym, ap, ◌∙◌, true, false, [], ◌∷◌,
  Option, none, some, arith, ltb, if◌then◌else◌, ◌==◌, Bool-cases,
}
use mathlib.Core.Option.{some-injective}
use signers.Base.Int.{ℤ, pos, negsuc, eqb_ℤ, eqb_ℤ-eq, eqb_ℤ-refl}
use signers.Base.Text.{Text, codes, text_eq}
use signers.Base.Exec.{Result, ok, err, failed, returned}
use signers.Redt.Types.{Address, Header, ValInfo, Reply, value, partial, Geth}
use signers.Redt.Node.{Node, to_block_num_arg}
use signers.Redt.Node.Cache.{CacheLaws}
use signers.Redt.Node.Chain.{Chain, Coherent}
use signers.Redt.Node.Numbers.{read_block_num, to_block_num_arg-read}
use signers.Redt.Stats.{signers_from_block}
use signers.Redt.Monitor.Steady.{Story, Steady, Ready}

abbrev pub block : ℕ → Header
block n = record {
  number = n;
  time = 100 + n;
  gas_limit = 30;
  gas_used = 20;
  parent_hash = [];
  tx_hash = [];
  receipt_hash = [];
  extra = [];
}

-- The newest block moves from 2 to 6.
abbrev pub newest_at : ℕ → ℕ
newest_at c = if ltb c 4 then 2 + c else 6

abbrev Entries : Type 0
Entries = ℤ → Option Header

abbrev added : Entries → ℤ → Header → Entries
added c k h j = if eqb_ℤ j k then some h else c j

-- Two validators take turns and both sign every block.
abbrev pub first_byte : Text → Result Address
first_byte [] = err failed
first_byte (a ∷ s) = ok a

abbrev pub address_of : Text → Address
address_of [] = 0
address_of (a ∷ s) = a

unfoldable pub reply_for : ℕ → Text → Reply Header
unfolding text_eq read_block_num
reply_for c t =
    if text_eq t (codes "latest")
    then value (block (newest_at c))
    else value (block (read_block_num t))

abbrev pub demo_geth : Geth
demo_geth = record {
  Cache = Entries;
  cache_new = λ k. none;
  cache_get = λ c k. (c k, c);
  cache_add = added;
  get_block = reply_for;
  get_validators = λ c t. value ((9 ∷ []) ∷ (1 ∷ []) ∷ (0 ∷ []) ∷ []);
  hex_to_address = address_of;
  address_hex = λ a. a ∷ [];
  enode_address = λ t. some 7;
  extract_extra = λ h.
      if h.number == 0
      then err failed
      else ok (record { seal = h.number % 2 ∷ []; committed_seal = (0 ∷ []) ∷ (1 ∷ []) ∷ [] });
  filtered_header = λ h b. h;
  rlp_encode = λ h. h.extra;
  keccak256 = λ t. t;
  signature_address = λ t s. first_byte s;
  prepare_committed_seal = λ t. t;
  header_hash = λ h. h.parent_hash;
  NodeInfo = Text;
  PeerInfo = Text;
  get_node_info = λ c. value (codes "me");
  get_peers = λ c. value (codes "peer" ∷ []);
  indent_node_info = ok;
  indent_peers = λ ps. ok (codes "[]");
}

some_eq : (h x : Header) → some h ≡ some x → x ≡ h
some_eq h x e = sym (some-injective h x e)

if_taken :
    (c : Entries) (i j : ℤ) (h x : Header)
    → eqb_ℤ j i ≡ true
    → added c i h j ≡ some x
    → some h ≡ some x
if_taken c i j h x same found = rw⁻¹ found (rw same refl)

if_left :
    (c : Entries) (i j : ℤ) (h x : Header)
    → eqb_ℤ j i ≡ false
    → added c i h j ≡ some x
    → c j ≡ some x
if_left c i j h x differ found = rw⁻¹ found (rw differ refl)

added_sound :
    (c : Entries) (i j : ℤ) (h x : Header)
    → added c i h j ≡ some x
    → ((j ≡ i) × (x ≡ h)) ⊎ (c j ≡ some x)
added_sound c i j h x found = elim (Bool-cases (eqb_ℤ j i)) [
  | inl same ↦ inl (eqb_ℤ-eq j i same, some_eq h x (if_taken c i j h x same found))
  | inr differ ↦ inr (if_left c i j h x differ found)
]

pub demo_cache : CacheLaws demo_geth
demo_cache = record {
  get_keeps = λ c i j. refl;
  add_found = λ c i h. rw (eqb_ℤ-refl i);
  add_sound = added_sound;
}

abbrev pub demo_author : ℕ → Address
demo_author n = n % 2

abbrev pub demo_story : Story
demo_story = record {
  chain = block;
  author = demo_author;
  signers = λ n. 0 ∷ 1 ∷ [];
  newest = newest_at;
}

reply_for-block : (c n : ℕ) → n < 2 ^ 64 → reply_for c (to_block_num_arg (pos n)) ≡ value (block n)
unfolding reply_for to_block_num_arg
reply_for-block c n low = ap (λ m. value (block m)) (to_block_num_arg-read n low)

reply_for-newest : (c : ℕ) → reply_for c (to_block_num_arg (negsuc 0)) ≡ value (block (newest_at c))
unfolding reply_for to_block_num_arg
reply_for-newest c = refl

value_eq : (h x : Header) → value h ≡ value x → x ≡ h
value_eq h x e = cc

newest_at-low : (c : ℕ) → newest_at c + 1 < 2 ^ 63
newest_at-low c = ground arith

newest_at-grows : (c d : ℕ) → c ≤ d → newest_at c ≤ newest_at d
newest_at-grows c d h = ground arith

reply_for_complete : (c : ℕ) (t : Text) (h : Header) → reply_for c t ≢ partial h
unfolding reply_for
reply_for_complete c t h e = elim (Bool-cases (text_eq t (codes "latest"))) [
  | inl newest ↦ (let e' : value (block (newest_at c)) ≡ partial h = rw⁻¹ e (rw newest refl) in cc)
  | inr numbered ↦
      (let e' : value (block (read_block_num t)) ≡ partial h = rw⁻¹ e (rw numbered refl) in cc)
]

pub demo-Chain : Chain demo_geth block
demo-Chain = record {
  numbered = λ n. refl;
  by_number = λ c n h low e. value_eq (block n) h (sym (reply_for-block c n (omega arith)) ∙ e);
  complete = λ c t h e. reply_for_complete c t h e;
  newest = λ c h e. (
    newest_at c,
    omega (arith, newest_at-low c),
    value_eq (block (newest_at c)) h (sym (reply_for-newest c) ∙ e),
  );
}

-- Every block but the genesis block has seals.
recovered_demo :
    (n : ℕ) → 0 < n → signers_from_block demo_geth (block n) ≡ returned (demo_author n, 0 ∷ 1 ∷ [])
unfolding signers_from_block
recovered_demo n some_block =
    let later : (n == 0) ≡ false = ground arith in rw (later, signers_from_block) refl

pub demo_steady : Steady demo_geth demo_story
demo_steady = record {
  laws = demo_cache;
  world = demo-Chain;
  served = λ c n low. reply_for-block c n (omega arith);
  top = reply_for-newest;
  grows = newest_at-grows;
  low = newest_at-low;
  recovered = recovered_demo;
}

abbrev named : Address → ValInfo
named a = record { operator = codes "op"; enode = []; address = a; signatures = 0; proposals = 0 }

abbrev pub info_of : Address → Option ValInfo
info_of a = if ltb a 2 then some (named a) else none

-- A node that has read the validators 0 and 1 and counted nothing.
abbrev pub demo_node : Node demo_geth
demo_node = record {
  locked = false;
  readers = 0;
  header_cache = λ k. none;
  val_set = 0 ∷ 1 ∷ [];
  all_validators = info_of;
  as_proposer = λ a. 0;
  as_signer = λ a. 0;
  last_block_processed = pos 0;
  calls = 0;
  screen = [];
  printed = [];
}

pub demo-Coherent : Coherent demo_geth block demo_node.header_cache
demo-Coherent k h e = absurd (cc)

author_known : (n : ℕ) → (info : ValInfo) × (info_of (demo_author n) ≡ some info)
author_known n = (named (demo_author n), rw (small n) refl)
  where
    small : (n : ℕ) → ltb (n % 2) 2 ≡ true
    small n = ground arith

pub demo-Ready : Ready demo_geth demo_story demo_node
demo-Ready = record {
  free = (refl, refl);
  coherent = demo-Coherent;
  inhabited = omega arith;
  members_known = ((named 0, refl), ((named 1, refl), tt));
  authors_known = author_known;
  counting = refl;
}
