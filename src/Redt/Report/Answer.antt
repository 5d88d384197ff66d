-- ===== src/Redt/Report/Answer.antt =====
-- What SignersForHeader (redt/redt.go) returns when every validator is known.
use signers.Base.{
  ℕ, ◌+◌, ◌%◌, ◌^◌, ◌-◌, ◌<◌, ◌≡◌, refl, ap, List, [], ◌∷◌, map, some, arith, length, All, false,
}
use signers.Base.Int.{◌<ℤ◌, pos, int64}
use signers.Base.Text.{Text}
use signers.Base.Exec.{returned}
use signers.Redt.Types.{Address, Header, block_number, ValInfo, Geth}
use signers.Redt.Node.{Node, validators}
use signers.Redt.Stats.{signers_from_block, update_statistics_for_block}
use signers.Redt.Stats.Counting.{
  IsFree, Counts, Keeps, counted, increment_self, update_fresh, counted-Counts, counted-Keeps,
}
use signers.Redt.Report.{
  Row, Report, report_row, elapsed_since, next_operator, next_proposer, signers_for_header,
}
use signers.Redt.Report.RoundRobin.{next_proposer-member}
use signers.Redt.Report.Display.{Known, infos, All-elem, for_validators-map}

-- The operators of the rows, one for each validator and in the order of the set.
rows_of_operators :
    (g : Geth) (author : Address) (signers : List Address) (s : Node g) (items : List ValInfo)
    → map (λ (row : Row). row.operator) (map (report_row g author signers s) items)
      ≡ map (λ (item : ValInfo). item.operator) items
unfolding report_row
rows_of_operators g author signers s [] = refl
rows_of_operators g author signers s (item ∷ items) =
    ap (◌∷◌ item.operator) (rows_of_operators g author signers s items)

one_reader : (n : ℕ) → n + 1 - 1 ≡ n
one_reader n = omega arith

module _ (g : Geth) (h : Header) (latest : ℕ) (s : Node g) where
  -- The data for the web page: the block, its author with the count that includes this block, the
  -- operator whose turn is next, and the validators in the order of the set.
  pub record Answer (author : Address) (known : All (Known s) s.val_set) (r : Report) : Type 0 where
    pub numbered : r.number ≡ h.number
    pub timed : r.elapsed ≡ elapsed_since h.time latest
    pub authored : r.author_address ≡ author
    pub counted_once : r.author_count % 2 ^ 64 ≡ (s.as_proposer author + 1) % 2 ^ 64
    pub turn :
        (b : Address) × (info : ValInfo) × (next_proposer author s.val_set ≡ returned b)
        × (s.all_validators b ≡ some info)
        × (r.next_proposer_operator ≡ info.operator)
    pub rows :
        map (λ row. row.operator) r.signers
        ≡ map (λ i. i.operator) (infos s.all_validators s.val_set known)

  pub next_operator-eq :
      (t : Node g) (author b : Address) (info : ValInfo)
      → next_proposer author t.val_set ≡ returned b
      → t.all_validators b ≡ some info
      → next_operator g author t ≡ (returned info.operator, t)
  unfolding next_operator validators
  next_operator-eq t author b info next listed = rw next (rw listed refl)

  -- The node while it reads under the lock.
  abbrev pub reading : Node g → Node g
  reading t = record t { locked = false; readers = t.readers + 1 }

  abbrev pub answer_of : Address → List Address → Text → ValInfo → List ValInfo → Node g → Report
  answer_of author signers text info items t = record {
    number = h.number;
    elapsed = elapsed_since h.time latest;
    timestamp = int64 (pos h.time);
    operator = info.operator;
    author_count = t.as_proposer author;
    author_address = author;
    next_proposer_operator = text;
    gas_limit = h.gas_limit;
    gas_used = h.gas_used;
    signers = map (report_row g author signers (reading t)) items;
  }

  pub signers_for_header-eq :
      (author : Address) (signers : List Address) (t : Node g) (text : Text) (info : ValInfo)
      (known : All (Known t) t.val_set)
      → t.locked ≡ false
      → update_statistics_for_block g h s ≡ (returned (author, signers), t)
      → next_operator g author t ≡ (returned text, t)
      → t.all_validators author ≡ some info
      → signers_for_header g h latest s ≡ (
        returned
            (answer_of author signers text info (infos t.all_validators t.val_set known) t, h.time),
        t,
      )
  unfolding signers_for_header validators
  signers_for_header-eq author signers t text info known unlocked updated next listed =
      let items = infos t.all_validators t.val_set known in
      let r = answer_of author signers text info items t in
      let rows =
        for_validators-map g (reading t) (report_row g author signers (reading t)) t.val_set
          known in
      rw updated (
        rw next (
          rw unlocked (
            rw listed (
              rw rows (
                ap (λ n. (returned (r, h.time), record t { locked = false; readers = n }))
                  (one_reader t.readers))))))

  -- On a node without a held lock, for a block above the last one processed whose seals are
  -- recovered, where the author and every validator are known by name: SignersForHeader returns
  -- the block's number, the seconds since the block before it, its author with a count that
  -- includes this block, the operator whose turn is next, a row for each validator in the order of
  -- the set, and the block's timestamp; and the block is counted once.
  pub signers_for_header-Answer :
      {author : Address} {signers : List Address}
      (recovered : signers_from_block g h ≡ returned (author, signers))
      → IsFree s
      → s.last_block_processed <ℤ block_number h
      → 0 < length s.val_set
      → (known : All (Known s) s.val_set) → Known s author
      → (r : Report) × (t : Node g) × (signers_for_header g h latest s ≡ (returned (r, h.time), t))
        × Answer author known r
        × Counts author signers s t
        × Keeps s t
  signers_for_header-Answer {author} {signers} recovered free fresh some_one known (info, listed) =
      let t : Node g = counted g h s recovered in
      let (i, b, found, next) = next_proposer-member s.val_set author some_one in
      let (info', listed') = All-elem s s.val_set i b known found in
      let items = infos s.all_validators s.val_set known in
      (
        answer_of author signers info'.operator info items t,
        t,
        signers_for_header-eq author signers t info'.operator info known free.0
            (update_fresh g h s recovered free fresh)
            (next_operator-eq t author b info' next listed') listed,
        record {
          numbered = refl;
          timed = refl;
          authored = refl;
          counted_once = omega (arith, increment_self s.as_proposer author);
          turn = (b, info', next, listed', refl);
          rows = rows_of_operators g author signers (reading t) items;
        },
        counted-Counts g h s recovered,
        counted-Keeps g h s recovered,
      )
