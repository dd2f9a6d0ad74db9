-- ===== src/Transfers/Ownership.antt =====
-- services/background_transfers.rs: who works on a transfer.
use teatro.Prelude.{
  ℕ, ◌≡◌, ◌≢◌, refl, ◌∙◌, inl, inr, true, Option, none, some, List, [], ◌∷◌, Eq, All, arith,
  Bool-cases,
}
use mathlib.Core.Option.{some-injective}
use teatro.Table.{lookup, insert, remove, Unique}
use teatro.Table.Laws.{lookup-insert, lookup-remove, insert-Unique}
use teatro.Retention.Kept.{prune-Unique, lookup-prune_active}
use teatro.Transfers.{
  TransferKey, TransferEntry, running_entry, complete_entry, cancelled_entry, TransferLease, owner,
  running, Transfers, transfer_key_eq, same_key_iff, terminal_at, ended_by, valid_id, prune,
  claimed, claim, cancel_found, cancel, is_running, complete_key, release, drop_lease,
  complete_lease,
}
use teatro.Transfers.Calls.{
  Call, claims, cancels, completes, drops, perform, performs, IsSound, perform-IsSound,
  performs_keeps_bound,
}

module _ {Method Response : Type 0} ⦃eq : Eq Method⦄ where
  -- A call that ends no transfer of the key.
  abbrev pub Spares : TransferKey Method → Call Method Response → Type 0
  Spares key (claims other now token) = Unit
  Spares key (cancels other now) = other ≢ key
  Spares key (completes lease response now) = lease.key ≢ key
  Spares key (drops lease) = lease.key ≢ key

  -- The key is being worked on under the token.
  abbrev pub Works : TransferKey Method → ℕ → Transfers Method Response → Type 0
  Works key token entries = lookup key entries ≡ some (running_entry token)

  pub prune-Works :
      (now : ℕ) (key : TransferKey Method) (token : ℕ) (entries : Transfers Method Response)
      → Unique entries
      → Works key token entries
      → Works key token (prune now entries)
  unfolding prune
  prune-Works now key token entries u w =
      lookup-prune_active ended_by terminal_at now key (running_entry token) entries u w refl

  insert-Works :
      (other key : TransferKey Method) (new : TransferEntry Response) (token : ℕ)
      (entries : Transfers Method Response)
      → other ≢ key
      → Works key token entries
      → Works key token (insert other new entries)
  insert-Works other key new token entries differ w =
      lookup-insert other key new entries ∙ ground (arith, same_key_iff other key)

  claimed-Works :
      (other key : TransferKey Method) (fresh token : ℕ) (entries : Transfers Method Response)
      (found : Option (TransferEntry Response))
      → lookup other entries ≡ found
      → Works key token entries
      → Works key token (claimed other fresh entries found).1
  claimed-Works other key fresh token entries none l w =
      insert-Works other key (running_entry fresh) token entries (λ e. cc) w
  claimed-Works other key fresh token entries (some (running_entry c)) l w = w
  claimed-Works other key fresh token entries (some (complete_entry r at)) l w = w
  claimed-Works other key fresh token entries (some (cancelled_entry at)) l w = w

  cancel_found-Works :
      (other key : TransferKey Method) (now token : ℕ) (entries : Transfers Method Response)
      (found : Option (TransferEntry Response))
      → other ≢ key
      → Works key token entries
      → Works key token (cancel_found other now entries found).1
  cancel_found-Works other key now token entries none differ w = w
  cancel_found-Works other key now token entries (some (running_entry c)) differ w =
      insert-Works other key (cancelled_entry now) token entries differ w
  cancel_found-Works other key now token entries (some (complete_entry r at)) differ w = w
  cancel_found-Works other key now token entries (some (cancelled_entry at)) differ w = w

  drop_lease-Works :
      (lease : TransferLease Method) (key : TransferKey Method) (token : ℕ)
      (entries : Transfers Method Response)
      → lease.key ≢ key
      → Works key token entries
      → Works key token (drop_lease lease entries)
  unfolding drop_lease release
  drop_lease-Works lease key token entries differ w =
      let removed : Works key token (remove lease.key entries) =
        lookup-remove lease.key key entries ∙ ground (arith, same_key_iff lease.key key) in
      ground (arith, removed)

  complete_key-Works :
      (other key : TransferKey Method) (response : Response) (now token : ℕ)
      (entries : Transfers Method Response)
      → Unique entries
      → other ≢ key
      → Works key token entries
      → Works key token (complete_key other response now entries)
  unfolding complete_key
  complete_key-Works other key response now token entries u differ w =
      elim (Bool-cases (is_running (lookup other entries))) [
        | inl going ↦ rw going (
            prune-Works now key token _ (insert-Unique other _ entries u)
              (insert-Works other key _ token entries differ w))
        | inr over ↦ rw over w
      ]

  prune-Unique_lem :
      (now : ℕ) (entries : Transfers Method Response) → Unique entries → Unique (prune now entries)
  unfolding prune
  prune-Unique_lem now entries u = prune-Unique ended_by terminal_at now entries u

  claim-Works :
      (other key : TransferKey Method) (now fresh token : ℕ) (entries : Transfers Method Response)
      → Unique entries
      → Works key token entries
      → Works key token (claim other now fresh entries).1
  unfolding claim
  claim-Works other key now fresh token entries u w = elim (Bool-cases (valid_id other.id)) [
    | inl valid ↦
        rw (valid, claim)
          (claimed-Works other key fresh token (prune now entries)
            (lookup other (prune now entries)) refl (prune-Works now key token entries u w))
    | inr invalid ↦ rw (invalid, claim) w
  ]

  perform-Works :
      (c : Call Method Response) (key : TransferKey Method) (token : ℕ)
      (entries : Transfers Method Response)
      → Spares key c
      → Unique entries
      → Works key token entries
      → Works key token (perform c entries)
  unfolding cancel complete_lease
  perform-Works (claims other now fresh) key token entries sp u w =
      claim-Works other key now fresh token entries u w
  perform-Works (cancels other now) key token entries sp u w =
      cancel_found-Works other key now token (prune now entries) (lookup other (prune now entries))
        sp (prune-Works now key token entries u w)
  perform-Works (completes lease response now) key token entries sp u w =
      drop_lease-Works (record lease { completed = true }) key token _ sp
        (complete_key-Works lease.key key response now token entries u sp w)
  perform-Works (drops lease) key token entries sp u w =
      drop_lease-Works lease key token entries sp w

  pub performs-Works :
      (cs : List (Call Method Response)) (key : TransferKey Method) (token : ℕ)
      (entries : Transfers Method Response)
      → All (Spares key) cs
      → IsSound entries
      → Works key token entries
      → Works key token (performs cs entries)
  unfolding performs
  performs-Works [] key token entries sp s w = w
  performs-Works (c ∷ cs) key token entries sp s w =
      performs-Works cs key token (perform c entries) sp.1 (perform-IsSound c entries s)
        (perform-Works c key token entries sp.0 s.unique w)

  claimed-owner :
      (key : TransferKey Method) (token : ℕ) (entries : Transfers Method Response)
      (found : Option (TransferEntry Response)) (lease : TransferLease Method)
      → (claimed key token entries found).0 ≡ owner lease
      → Works key token (claimed key token entries found).1
  claimed-owner key token entries none lease e =
      lookup-insert key key _ entries ∙ ground (arith, same_key_iff key key)
  claimed-owner key token entries (some (running_entry c)) lease e = cc
  claimed-owner key token entries (some (complete_entry r at)) lease e = cc
  claimed-owner key token entries (some (cancelled_entry at)) lease e = cc

  -- The claim of an owner leaves the key at work under its token.
  claim-owner :
      (key : TransferKey Method) (now token : ℕ) (entries : Transfers Method Response)
      (lease : TransferLease Method)
      → (claim key now token entries).0 ≡ some (owner lease)
      → (valid_id key.id ≡ true) × Works key token (claim key now token entries).1
  unfolding claim
  claim-owner key now token entries lease e = elim (Bool-cases (valid_id key.id)) [
    | inl valid ↦ (
      valid,
      rw (valid, claim)
          (claimed-owner key token (prune now entries) (lookup key (prune now entries)) lease
            (some-injective _ _ (rw valid at e))),
    )
    | inr invalid ↦ cc (rw invalid at e)
  ]

  pub claim_working :
      (key : TransferKey Method) (now fresh token : ℕ) (entries : Transfers Method Response)
      → valid_id key.id ≡ true
      → Unique entries
      → Works key token entries
      → (claim key now fresh entries).0 ≡ some running
  unfolding claim
  claim_working key now fresh token entries valid u w =
      rw (valid, claim, prune-Works now key token entries u w) refl

  -- Once a claim made an owner in a sound table, every later claim of that key is told that the
  -- transfer runs, through any calls between them that do not cancel it and do not complete or drop
  -- a lease of it; they may claim it, and do anything to other keys.
  pub claim_excludes :
      (key : TransferKey Method) (now token : ℕ) (entries : Transfers Method Response)
      (lease : TransferLease Method) (cs : List (Call Method Response)) (later fresh : ℕ)
      → IsSound entries
      → (claim key now token entries).0 ≡ some (owner lease)
      → All (Spares key) cs
      → (claim key later fresh (performs cs (claim key now token entries).1)).0 ≡ some running
  claim_excludes key now token entries lease cs later fresh s e sp =
      let (valid, w) = claim-owner key now token entries lease e in
      let s' = perform-IsSound (claims key now token) entries s in
      claim_working key later fresh token _ valid (performs_keeps_bound cs _ s').unique
        (performs-Works cs key token _ sp s' w)
