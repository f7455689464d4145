-- ===== src/Kv/RoundTrip.antt =====
-- CREATE and then READ of the same key in lab_nw/kv-server*/server.c.
use cs.Base.{ℕ, ◌+◌, ◌<◌, ◌≡◌, ◌≢◌, ap, ◌∙◌, Option, none, some, List, arith, length}
use cs.Kv.Memory.{null, Buffer, Server, fault, chain, c_string}
use cs.Kv.Store.{Payload, Input, single, pool, create, read}
use cs.Kv.Cells.{Cells, Returns, returns, after}
use cs.Kv.Create.{answered}
use cs.Kv.Values.{NoZero, stored-single, stored_endless}
use cs.Kv.Read.{read-overrun}
use cs.Kv.Refine.{Represents, TailOk, create-Represents, reply, read-bound, find-some}
use cs.Kv.Tail.{then_fault}

module _ (fuel : ℕ) (p q : Payload) (i : Input) (block : List ℕ) {s : Server} {cs : Cells}
    {m : ℕ → Option Buffer} (r : Represents s cs m) (enough : length cs + 1 < fuel)
    (ends : TailOk s cs) (new : m p.key ≡ none) (same : q.key ≡ p.key) (ne : i.fresh ≢ null)
    (unused : s.heap i.fresh ≡ none) (held : i.block ≡ some block) (zeroes : NoZero i.body) where
  -- In kv-server, on a list that represents the map m, with the tail pointer at its last cell,
  -- two units of fuel more than cells, a key that m does not bind, a fresh address that is not
  -- null and not in use, and a value with no zero byte, as long as announced and shorter than its
  -- block, CREATE and then READ of the same key return, and READ answers the value.
  create-read-single :
      length i.body ≡ p.value_size
      → length i.body < length block
      → Returns
          (λ _ t. t.log ≡ reply (some i.body) (answered single s).log)
          (chain (create single fuel p i s) (λ _. read single fuel q))
  create-read-single size short =
      let (b, kept, value) = stored-single p i block held size short zeroes in
      after _ (create-Represents single fuel p r (omega arith) i b ends new ne unused kept)
        λ _ t (ds, r', _, few, log).
          rw (read-bound single fuel q r' (omega arith) i.body (ground arith) value)
            (returns (ap (reply (some i.body)) log))

  -- In kv-server-pool, under the conditions of the round trip but for the length of the value,
  -- which needs none, when neither the value nor the new block holds a zero, READ after CREATE
  -- runs beyond the end of the block.
  create-read-pool : NoZero block → chain (create pool fuel p i s) (λ _. read pool fuel q) ≡ fault
  create-read-pool full =
      let (b, kept, value) = stored_endless p i block held zeroes full in
      then_fault _ (create-Represents pool fuel p r (omega arith) i b ends new ne unused kept)
        λ _ t (ds, r', _, few, log).
          let (c, hit, e) = find-some q.key ds (r'.agrees q.key ∙ ground arith) in
          read-overrun pool fuel q t c ds r'.linked (omega arith) hit (ap c_string e ∙ value)
