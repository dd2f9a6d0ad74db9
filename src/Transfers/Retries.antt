-- ===== src/Transfers/Retries.antt =====
-- services/background_transfers.rs: what a client that asks again is told after the transfer ended,
-- and what a lease that outlives its transfer does.
use teatro.Prelude.{ℕ, ◌+◌, ◌≤◌, ◌<◌, ◌≡◌, refl, ◌∙◌, true, some, Eq, arith, length}
use teatro.Table.{lookup, insert, Unique}
use teatro.Table.Laws.{lookup-insert, insert-Unique}
use teatro.Retention.{terminals, terminal_capacity, terminal_retention, is_recent}
use teatro.Retention.Capacity.{length-prune}
use teatro.Retention.Kept.{prune-Unique, lookup-prune_within, length-prune_within}
use teatro.Transfers.{
  TransferKey, TransferEntry, complete_entry, cancelled_entry, TransferLease, complete, cancelled,
  cancel_done, Transfers, transfer_key_eq, same_key_iff, terminal_at, ended_by, valid_id, prune,
  claim, cancel, complete_key, release, drop_lease, complete_lease,
}
use teatro.Transfers.Calls.{length-terminals-insert}
use teatro.Transfers.Ownership.{Works, prune-Works}

module _ {Method Response : Type 0} ⦃eq : Eq Method⦄ where
  pub insert_found :
      (key : TransferKey Method) (new : TransferEntry Response)
      (entries : Transfers Method Response)
      → lookup key (insert key new entries) ≡ some new
  insert_found key new entries =
      lookup-insert key key new entries ∙ ground (arith, same_key_iff key key)

  -- A transfer that ended within the hour, while at most 64 have ended, is found after a pruning.
  prune_within :
      (now : ℕ) (key : TransferKey Method) (entry : TransferEntry Response) (at : ℕ)
      (entries : Transfers Method Response)
      → Unique entries
      → length (terminals terminal_at entries) ≤ terminal_capacity
      → lookup key entries ≡ some entry
      → terminal_at entry ≡ some at
      → now < at + terminal_retention
      → lookup key (prune now entries) ≡ some entry
  unfolding prune is_recent
  prune_within now key entry at entries u small l e soon =
      lookup-prune_within ended_by terminal_at now key entry entries u small l
        (rw (e, is_recent) (ground arith))

  pub prune-Unique_lem :
      (now : ℕ) (entries : Transfers Method Response) → Unique entries → Unique (prune now entries)
  unfolding prune
  prune-Unique_lem now entries u = prune-Unique ended_by terminal_at now entries u

  length-prune_lem :
      (now : ℕ) (entries : Transfers Method Response)
      → length (terminals terminal_at (prune now entries)) ≤ terminal_capacity
  unfolding prune
  length-prune_lem now entries = length-prune ended_by terminal_at now entries

  length-prune-few :
      (now : ℕ) (entries : Transfers Method Response)
      → length (terminals terminal_at entries) < terminal_capacity
      → length (terminals terminal_at (prune now entries)) < terminal_capacity
  unfolding prune
  length-prune-few now entries few =
      omega (arith, length-prune_within ended_by terminal_at now entries)

  complete_lease_found :
      (lease : TransferLease Method) (response : Response) (now token : ℕ)
      (entries : Transfers Method Response)
      → Works lease.key token entries
      → complete_lease lease response now entries
        ≡ prune now (insert lease.key (complete_entry response now) entries)
  unfolding complete_lease complete_key drop_lease
  complete_lease_found lease response now token entries w = rw (w, complete_key) refl

  -- After the owner of a transfer that runs completed it, a claim within the hour is given the
  -- response that was cached, where fewer than 64 transfers had ended before.
  pub claim_replays :
      (lease : TransferLease Method) (response : Response) (now later token fresh : ℕ)
      (entries : Transfers Method Response)
      → Unique entries
      → length (terminals terminal_at entries) < terminal_capacity
      → valid_id lease.key.id ≡ true
      → Works lease.key token entries
      → later < now + terminal_retention
      → (claim lease.key later fresh (complete_lease lease response now entries)).0
        ≡ some (complete response)
  unfolding claim
  claim_replays lease response now later token fresh entries u few valid w soon =
      let entry : TransferEntry Response = complete_entry response now in
      let after = insert lease.key entry entries in
      let u1 = insert-Unique lease.key entry entries u in
      let few1 : length (terminals terminal_at after) ≤ terminal_capacity =
        omega (arith, length-terminals-insert lease.key entry entries) in
      let found1 =
        prune_within now lease.key entry now after u1 few1 (insert_found lease.key entry entries)
          refl (omega arith) in
      let found2 =
        prune_within later lease.key entry now (prune now after) (prune-Unique_lem now after u1)
          (length-prune_lem now after) found1 refl soon in
      rw (complete_lease_found lease response now token entries w, valid, claim, found2) refl

  pub cancel_working :
      (key : TransferKey Method) (now token : ℕ) (entries : Transfers Method Response)
      → Unique entries
      → Works key token entries
      → cancel key now entries
        ≡ (cancel_done (some token), insert key (cancelled_entry now) (prune now entries))
  unfolding cancel
  cancel_working key now token entries u w = rw (cancel, prune-Works now key token entries u w) refl

  lease_over :
      (lease : TransferLease Method) (response : Response) (now at : ℕ)
      (entries : Transfers Method Response)
      → lookup lease.key entries ≡ some (cancelled_entry at)
      → (complete_lease lease response now entries ≡ entries) × (drop_lease lease entries ≡ entries)
  unfolding complete_lease complete_key drop_lease release
  lease_over lease response now at entries l = ground arith

  -- A transfer that is cancelled at work has its owner's token cancelled; then the owner's lease,
  -- completed or dropped, changes nothing in the table that the cancellation leaves, and a claim
  -- within the hour is told of the cancellation, where fewer than 64 transfers had ended before.
  pub cancel_wins :
      (lease : TransferLease Method) (response : Response) (now later token fresh : ℕ)
      (entries : Transfers Method Response)
      → Unique entries
      → length (terminals terminal_at entries) < terminal_capacity
      → valid_id lease.key.id ≡ true
      → Works lease.key token entries
      → later < now + terminal_retention
      → ((cancel lease.key now entries).0 ≡ cancel_done (some token))
        × (complete_lease lease response later (cancel lease.key now entries).1
            ≡ (cancel lease.key now entries).1)
        × (drop_lease lease (cancel lease.key now entries).1 ≡ (cancel lease.key now entries).1)
        × ((claim lease.key later fresh (cancel lease.key now entries).1).0 ≡ some cancelled)
  unfolding claim
  cancel_wins lease response now later token fresh entries u few valid w soon =
      let key = lease.key in
      let pruned = prune now entries in
      let after = insert key (cancelled_entry now) pruned in
      let found = insert_found key (cancelled_entry now) pruned in
      let over = lease_over lease response later now after found in
      let few1 : length (terminals terminal_at after) ≤ terminal_capacity = omega (
        arith,
        length-terminals-insert key (cancelled_entry now) pruned,
        length-prune-few now entries few,
      ) in
      let found1 =
        prune_within later key (cancelled_entry now) now after
          (insert-Unique key _ pruned (prune-Unique_lem now entries u)) few1 found refl soon in
      rw (cancel_working key now token entries u w)
        (refl, over.0, over.1, rw (valid, claim, found1) refl)
