-- ===== src/Transfers/Stale.antt =====
-- services/background_transfers.rs: a lease holds its key, and no sign of which owner it was made
-- for. What the drop of a lease does after its transfer was cancelled and forgotten.
use teatro.Prelude.{
  ℕ, ◌+◌, ◌≤◌, ◌≡◌, refl, sym, ◌∙◌, inl, inr, true, false, none, some, Eq, arith, Option-cases,
}
use mathlib.Core.Option.{some-injective}
use teatro.Table.{lookup, insert, remove, Unique}
use teatro.Table.Laws.{lookup-remove, insert-Unique, remove-Unique}
use teatro.Retention.{terminal_retention, is_recent}
use teatro.Retention.Kept.{lookup-prune-some, lookup-prune-none}
use teatro.Transfers.{
  TransferKey, running_entry, cancelled_entry, TransferLease, owner, Transfers, transfer_key_eq,
  same_key_iff, terminal_at, ended_by, valid_id, prune, claim, cancel, release, drop_lease,
}
use teatro.Transfers.Ownership.{Works}
use teatro.Transfers.Retries.{insert_found, prune-Unique_lem, cancel_working}

-- The lease that a claim makes.
abbrev pub lease_of : {Method : Type 0} → TransferKey Method → ℕ → TransferLease Method
lease_of key token = record { key = key; completed = false; cancellation = token }

module _ {Method Response : Type 0} ⦃eq : Eq Method⦄ where
  -- An hour after its end a transfer is forgotten.
  prune_forgets :
      (now at : ℕ) (key : TransferKey Method) (entries : Transfers Method Response)
      → Unique entries
      → lookup key entries ≡ some (cancelled_entry at)
      → at + terminal_retention ≤ now
      → lookup key (prune now entries) ≡ none
  unfolding prune is_recent
  prune_forgets now at key entries u l late = elim (Option-cases (lookup key (prune now entries))) [
    | inl e ↦ e
    | inr (entry, e) ↦
        let found = lookup-prune-some ended_by terminal_at now key entry entries u e in
        let same = some-injective _ _ (sym l ∙ found.0) in ground (arith, found.1, same)
  ]

  claim_free :
      (key : TransferKey Method) (now token : ℕ) (entries : Transfers Method Response)
      → valid_id key.id ≡ true
      → lookup key (prune now entries) ≡ none
      → claim key now token entries
        ≡ (some (owner (lease_of key token)), insert key (running_entry token) (prune now entries))
  unfolding claim
  claim_free key now token entries valid l = rw (valid, claim, l) refl

  drop_lease_at :
      (lease : TransferLease Method) (token : ℕ) (entries : Transfers Method Response)
      → lease.completed ≡ false
      → Works lease.key token entries
      → drop_lease lease entries ≡ remove lease.key entries
  unfolding drop_lease release
  drop_lease_at lease token entries open_still w = rw (open_still, w) refl

  gone :
      (key : TransferKey Method) (now : ℕ) (entries : Transfers Method Response)
      → Unique entries
      → lookup key (prune now (remove key entries)) ≡ none
  unfolding prune
  gone key now entries u =
      lookup-prune-none ended_by terminal_at now key (remove key entries)
        (remove-Unique key entries u)
        (lookup-remove key key entries ∙ ground (arith, same_key_iff key key))

  -- A transfer at work is cancelled, and its owner goes on for the hour until it is forgotten; then
  -- a second claim makes an owner, and when the first one's lease is dropped a third claim makes an
  -- owner too, while the second still holds its lease.
  pub two_owners :
      (key : TransferKey Method) (cancelled_at second_at third_at first second third : ℕ)
      (entries : Transfers Method Response)
      → Unique entries
      → valid_id key.id ≡ true
      → Works key first entries
      → cancelled_at + terminal_retention ≤ second_at
      → ((claim key second_at second (cancel key cancelled_at entries).1).0
          ≡ some (owner (lease_of key second)))
        × ((claim key third_at third (
              drop_lease
                (lease_of key first)
                (claim key second_at second (cancel key cancelled_at entries).1).1)).0
            ≡ some (owner (lease_of key third)))
  two_owners key cancelled_at second_at third_at first second third entries u valid w late =
      let pruned = prune cancelled_at entries in
      let u1 = prune-Unique_lem cancelled_at entries u in
      let after = insert key (cancelled_entry cancelled_at) pruned in
      let u2 = insert-Unique key (cancelled_entry cancelled_at) pruned u1 in
      let forgotten =
        prune_forgets second_at cancelled_at key after u2
          (insert_found key (cancelled_entry cancelled_at) pruned) late in
      let claimed2 = claim_free key second_at second after valid forgotten in
      let with_second = insert key (running_entry second) (prune second_at after) in
      let u3 = insert-Unique key (running_entry second) _ (prune-Unique_lem second_at after u2) in
      let dropped =
        drop_lease_at (lease_of key first) second with_second refl
          (insert_found key (running_entry second) (prune second_at after)) in
      let claimed3 =
        claim_free key third_at third (remove key with_second) valid
          (gone key third_at with_second u3) in
      rw (cancel_working key cancelled_at first entries u w, claimed2, dropped, claimed3)
        (refl, refl)
