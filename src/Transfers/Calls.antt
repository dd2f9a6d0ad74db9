-- ===== src/Transfers/Calls.antt =====
-- The calls of services/background_transfers.rs, one after the other, and what always holds of the
-- table that they leave.
use teatro.Prelude.{
  ℕ, suc, length-retain-le, ◌+◌, ◌≤◌, ap, inl, inr, true, not, Option, none, some, List, [], ◌∷◌,
  Eq, ◌==◌, arith, length, is_some, Bool-cases, if◌then◌else◌,
}
use teatro.Table.{lookup, insert, remove, Unique}
use teatro.Table.Laws.{insert-Unique, remove-Unique}
use teatro.Retention.{terminals, terminal_capacity}
use teatro.Retention.Capacity.{length-prune, terminals-remove}
use teatro.Retention.Kept.{prune-Unique}
use teatro.Transfers.{
  TransferKey, TransferEntry, running_entry, complete_entry, cancelled_entry, TransferLease,
  Transfers, transfer_key_eq, terminal_at, ended_by, valid_id, prune, claimed, claim, cancel_found,
  cancel, is_running, complete_key, release, drop_lease, complete_lease,
}

pub data Call (Method Response : Type 0) : Type 0 where
  claims : TransferKey Method → (now token : ℕ) → Call Method Response
  cancels : TransferKey Method → (now : ℕ) → Call Method Response
  completes : TransferLease Method → Response → (now : ℕ) → Call Method Response
  drops : TransferLease Method → Call Method Response

module _ {Method Response : Type 0} ⦃eq : Eq Method⦄ where
  abbrev pub perform : Call Method Response → Transfers Method Response → Transfers Method Response
  perform (claims key now token) entries = (claim key now token entries).1
  perform (cancels key now) entries = (cancel key now entries).1
  perform (completes lease response now) entries = complete_lease lease response now entries
  perform (drops lease) entries = drop_lease lease entries

  unfoldable pub performs :
      List (Call Method Response) → Transfers Method Response → Transfers Method Response
  performs [] entries = entries
  performs (c ∷ cs) entries = performs cs (perform c entries)

  -- Every key stands once, and at most 65 transfers that have ended are kept: the capacity, and the
  -- one that `cancel` marks after its pruning.
  pub record IsSound (entries : Transfers Method Response) : Type 0 where
    pub unique : Unique entries
    pub bounded : length (terminals terminal_at entries) ≤ suc terminal_capacity

  pub length-terminals-insert :
      (key : TransferKey Method) (new : TransferEntry Response)
      (entries : Transfers Method Response)
      → length (terminals terminal_at (insert key new entries))
        ≤ length (terminals terminal_at entries) + (if is_some (terminal_at new) then 1 else 0)
  unfolding terminals insert
  length-terminals-insert key new [] = ground arith
  length-terminals-insert key new ((j, old) ∷ entries) =
      ground (arith, length-terminals-insert key new entries)

  length-terminals-remove :
      (key : TransferKey Method) (entries : Transfers Method Response)
      → length (terminals terminal_at (remove key entries)) ≤ length (terminals terminal_at entries)
  length-terminals-remove key entries = omega (
    arith,
    ap length (terminals-remove terminal_at key entries),
    length-retain-le (λ x. not (x.1 == key)) (terminals terminal_at entries),
  )

  pub insert-IsSound :
      (key : TransferKey Method) (new : TransferEntry Response) (now : ℕ)
      (entries : Transfers Method Response)
      → Unique entries
      → IsSound (insert key new (prune now entries))
  unfolding prune
  insert-IsSound key new now entries u = record {
    unique = insert-Unique key new _ (prune-Unique ended_by terminal_at now entries u);
    bounded = ground (
      arith,
      length-terminals-insert key new (prune now entries),
      length-prune ended_by terminal_at now entries,
    );
  }

  pub prune-IsSound :
      (now : ℕ) (entries : Transfers Method Response) → Unique entries → IsSound (prune now entries)
  unfolding prune
  prune-IsSound now entries u = record {
    unique = prune-Unique ended_by terminal_at now entries u;
    bounded = omega (arith, length-prune ended_by terminal_at now entries);
  }

  claimed-IsSound :
      (key : TransferKey Method) (now token : ℕ) (entries : Transfers Method Response)
      (found : Option (TransferEntry Response))
      → Unique entries
      → IsSound (claimed key token (prune now entries) found).1
  claimed-IsSound key now token entries none u =
      insert-IsSound key (running_entry token) now entries u
  claimed-IsSound key now token entries (some (running_entry c)) u = prune-IsSound now entries u
  claimed-IsSound key now token entries (some (complete_entry r at)) u = prune-IsSound now entries u
  claimed-IsSound key now token entries (some (cancelled_entry at)) u = prune-IsSound now entries u

  cancel_found-IsSound :
      (key : TransferKey Method) (now : ℕ) (entries : Transfers Method Response)
      (found : Option (TransferEntry Response))
      → Unique entries
      → IsSound (cancel_found key now (prune now entries) found).1
  cancel_found-IsSound key now entries none u = prune-IsSound now entries u
  cancel_found-IsSound key now entries (some (running_entry c)) u =
      insert-IsSound key (cancelled_entry now) now entries u
  cancel_found-IsSound key now entries (some (complete_entry r at)) u = prune-IsSound now entries u
  cancel_found-IsSound key now entries (some (cancelled_entry at)) u = prune-IsSound now entries u

  complete_key-IsSound :
      (key : TransferKey Method) (response : Response) (now : ℕ)
      (entries : Transfers Method Response)
      → IsSound entries
      → IsSound (complete_key key response now entries)
  unfolding complete_key
  complete_key-IsSound key response now entries s =
      elim (Bool-cases (is_running (lookup key entries))) [
        | inl going ↦ rw going (prune-IsSound now _ (insert-Unique key _ entries s.unique))
        | inr over ↦ rw over s
      ]

  drop_lease-IsSound :
      (lease : TransferLease Method) (entries : Transfers Method Response)
      → IsSound entries
      → IsSound (drop_lease lease entries)
  unfolding drop_lease release
  drop_lease-IsSound lease entries s =
      let removed : IsSound (remove lease.key entries) = record {
        unique = remove-Unique lease.key entries s.unique;
        bounded = omega (arith, s.bounded, length-terminals-remove lease.key entries);
      } in
      ground (arith, removed)

  claim-IsSound :
      (key : TransferKey Method) (now token : ℕ) (entries : Transfers Method Response)
      → IsSound entries
      → IsSound (claim key now token entries).1
  unfolding claim
  claim-IsSound key now token entries s = elim (Bool-cases (valid_id key.id)) [
    | inl valid ↦
        rw (valid, claim)
          (claimed-IsSound key now token entries (lookup key (prune now entries)) s.unique)
    | inr invalid ↦ rw (invalid, claim) s
  ]

  pub perform-IsSound :
      (c : Call Method Response) (entries : Transfers Method Response)
      → IsSound entries
      → IsSound (perform c entries)
  unfolding cancel complete_lease
  perform-IsSound (claims key now token) entries s = claim-IsSound key now token entries s
  perform-IsSound (cancels key now) entries s =
      cancel_found-IsSound key now entries (lookup key (prune now entries)) s.unique
  perform-IsSound (completes lease response now) entries s =
      drop_lease-IsSound (record lease { completed = true }) _
        (complete_key-IsSound lease.key response now entries s)
  perform-IsSound (drops lease) entries s = drop_lease-IsSound lease entries s

  -- Any calls lead from a sound table, as the empty one is, to a sound one: every key stands once,
  -- and at most 65 transfers that have ended are kept, the 64 that docs/api.md names and one that
  -- `cancel` ends after its pruning.
  pub performs_keeps_bound :
      (cs : List (Call Method Response)) (entries : Transfers Method Response)
      → IsSound entries
      → IsSound (performs cs entries)
  unfolding performs
  performs_keeps_bound [] entries s = s
  performs_keeps_bound (c ∷ cs) entries s =
      performs_keeps_bound cs (perform c entries) (perform-IsSound c entries s)
