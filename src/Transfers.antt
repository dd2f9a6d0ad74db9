-- ===== src/Transfers.antt =====
-- services/background_transfers.rs: the registry of uploads and imports that go on in the
-- background, a table under a mutex. `Method` is the HTTP method of the `http` crate and `Response`
-- a cached response. Each operation takes the clock reading that it makes and returns its answer
-- with the table that it leaves. A cancellation token is a number that tells it from the others;
-- `cancel` says which token it cancels.
pub mod Calls
pub mod Ownership
pub mod Retries
pub mod Stale
use teatro.Prelude.{
  ℕ, ◌≡◌, ◌↔◌, Bool, true, false, not, ◌&&◌, ◌||◌, Option, none, some, List, [], ◌∷◌, Eq, ◌==◌,
  arith, nat_eq, list_eq, nat_beq, nat_beq_iff, list_beq_iff, ltb, leb, all, any, if◌then◌else◌,
}
use teatro.Prelude.Int.{ℤ, int_beq, int_beq_iff}
use teatro.Prelude.Text.{Text, codes, byte_len, strip_prefix, is_empty, is_ascii_alphanumeric}
use teatro.Table.{Table, lookup, insert, remove}
use teatro.Retention

pub record TransferKey (Method : Type 0) : Type 0 where
  pub user_id : ℤ
  pub method : Method
  pub endpoint : Text
  pub id : Text

module _ {Method : Type 0} ⦃eq : Eq Method⦄ where
  abbrev pub same_key : TransferKey Method → TransferKey Method → Bool
  same_key a b =
      int_beq a.user_id b.user_id
      && a.method == b.method
      && a.endpoint == b.endpoint
      && a.id == b.id

  pub same_key_iff : (a b : TransferKey Method) → (same_key a b ≡ true) ↔ (a ≡ b)
  same_key_iff a b = ground (
    arith,
    int_beq_iff a.user_id b.user_id,
    eq.same_iff a.method b.method,
    list_beq_iff a.endpoint b.endpoint,
    list_beq_iff a.id b.id,
  )

  instance abbrev pub transfer_key_eq : Eq (TransferKey Method)
  transfer_key_eq = record { same = same_key; same_iff = same_key_iff }

pub data TransferEntry (Response : Type 0) : Type 0 where
  running_entry : (cancellation : ℕ) → TransferEntry Response
  complete_entry : (response : Response) (completed_at : ℕ) → TransferEntry Response
  cancelled_entry : (cancelled_at : ℕ) → TransferEntry Response

pub record TransferLease (Method : Type 0) : Type 0 where
  pub key : TransferKey Method
  pub completed : Bool
  pub cancellation : ℕ

pub data TransferClaim (Method Response : Type 0) : Type 0 where
  owner : TransferLease Method → TransferClaim Method Response
  running : TransferClaim Method Response
  complete : Response → TransferClaim Method Response
  cancelled : TransferClaim Method Response

-- The token is the one that `cancel` cancels after it gave up the lock.
pub data CancelTransferResult : Type 0 where
  cancel_done : (cancels : Option ℕ) → CancelTransferResult
  already_complete not_found : CancelTransferResult

abbrev pub max_id_bytes : ℕ
max_id_bytes = 128

-- `id.strip_prefix(prefix).is_some_and(|suffix| !suffix.is_empty())`.
abbrev pub has_suffix : Text → Text → Bool
has_suffix value start = elim (strip_prefix start value) [
  | none ↦ false
  | some suffix ↦ not (is_empty suffix)
]

unfoldable pub valid_id : Text → Bool
valid_id id =
    leb (byte_len id) max_id_bytes
    && any (has_suffix id) (codes "upload_" ∷ codes "gog_" ∷ [])
    && all (λ byte. is_ascii_alphanumeric byte || nat_beq byte b'_') id

-- The order of `terminal.sort_by_key(|(at, _)| *at)`, which is stable.
unfoldable pub ended_by : {K : Type 0} → ℕ × K → ℕ × K → Bool
ended_by (a, k) (b, j) = leb a b

abbrev pub terminal_at : {Response : Type 0} → TransferEntry Response → Option ℕ
terminal_at (running_entry cancellation) = none
terminal_at (complete_entry response completed_at) = some completed_at
terminal_at (cancelled_entry cancelled_at) = some cancelled_at

-- `matches!(entries.get(key), Some(TransferEntry::Running { .. }))`.
abbrev pub is_running : {Response : Type 0} → Option (TransferEntry Response) → Bool
is_running (some (running_entry cancellation)) = true
is_running _ = false

abbrev pub Transfers : Type 0 → Type 0 → Type 0
Transfers Method Response = Table (TransferKey Method) (TransferEntry Response)

module _ {Method Response : Type 0} ⦃eq : Eq Method⦄ where
  unfoldable pub prune : ℕ → Transfers Method Response → Transfers Method Response
  prune now entries = Retention.prune ended_by terminal_at now entries

  -- What `claim` answers for the entry that it finds; `token` is the one that it makes for a new
  -- owner.
  abbrev pub claimed :
      TransferKey Method
      → ℕ
      → Transfers Method Response
      → Option (TransferEntry Response)
      → TransferClaim Method Response × Transfers Method Response
  claimed key token entries (some (running_entry cancellation)) = (running, entries)
  claimed key token entries (some (complete_entry response completed_at)) =
      (complete response, entries)
  claimed key token entries (some (cancelled_entry cancelled_at)) = (cancelled, entries)
  claimed key token entries none = (
    owner (record { key = key; completed = false; cancellation = token }),
    insert key (running_entry token) entries,
  )

  -- `None` where the id is not valid: then nothing is locked or pruned.
  unfoldable pub claim :
      TransferKey Method
      → ℕ
      → ℕ
      → Transfers Method Response
      → Option (TransferClaim Method Response) × Transfers Method Response
  claim key now token entries =
      if not (valid_id key.id)
      then (none, entries)
      else (let pruned = prune now entries in
          let answer = claimed key token pruned (lookup key pruned) in (some answer.0, answer.1))

  abbrev pub cancel_found :
      TransferKey Method
      → ℕ
      → Transfers Method Response
      → Option (TransferEntry Response)
      → CancelTransferResult × Transfers Method Response
  cancel_found key now entries none = (not_found, entries)
  cancel_found key now entries (some (complete_entry response completed_at)) =
      (already_complete, entries)
  cancel_found key now entries (some (cancelled_entry cancelled_at)) = (cancel_done none, entries)
  cancel_found key now entries (some (running_entry cancellation)) =
      (cancel_done (some cancellation), insert key (cancelled_entry now) entries)

  unfoldable pub cancel :
      TransferKey Method
      → ℕ
      → Transfers Method Response
      → CancelTransferResult × Transfers Method Response
  cancel key now entries =
      let pruned = prune now entries in cancel_found key now pruned (lookup key pruned)

  unfoldable pub complete_key :
      TransferKey Method → Response → ℕ → Transfers Method Response → Transfers Method Response
  complete_key key response now entries =
      if is_running (lookup key entries)
      then prune now (insert key (complete_entry response now) entries)
      else entries

  unfoldable pub release :
      TransferKey Method → Transfers Method Response → Transfers Method Response
  release key entries = if is_running (lookup key entries) then remove key entries else entries

  -- `Drop for TransferLease`.
  unfoldable pub drop_lease :
      TransferLease Method → Transfers Method Response → Transfers Method Response
  drop_lease lease entries = if not lease.completed then release lease.key entries else entries

  -- `TransferLease::complete`, which takes the lease: at its end the lease is dropped.
  unfoldable pub complete_lease :
      TransferLease Method → Response → ℕ → Transfers Method Response → Transfers Method Response
  complete_lease lease response now entries =
      drop_lease (record lease { completed = true }) (complete_key lease.key response now entries)
