-- ===== src/Examples/TransferCalls.antt =====
-- services/background_transfers.rs with the keys of its unit tests.
use teatro.Prelude.{ℕ, ◌+◌, ◌*◌, ◌≡◌, refl, true, some, List, [], ◌∷◌, arith, nat_eq, list_eq}
use teatro.Prelude.Int.{pos}
use teatro.Prelude.Text.{Text, codes}
use teatro.Table.{lookup}
use teatro.Chrono.{nanos}
use teatro.Retention.{terminals, terminal_capacity, is_recent, evict, remove_all}
use teatro.Retention
use teatro.Transfers.{
  TransferKey, running_entry, owner, running, complete, cancelled, cancel_done, Transfers,
  transfer_key_eq, valid_id, prune, claim, cancel, drop_lease, complete_lease,
}
use teatro.Transfers.Calls.{
  Call, claims, cancels, completes, performs, IsSound, performs_keeps_bound,
}
use teatro.Transfers.Ownership.{claim_excludes}
use teatro.Transfers.Retries.{claim_replays, cancel_wins}
use teatro.Transfers.Stale.{lease_of, two_owners}

-- A method is its text, a response its status.
abbrev key : Text → TransferKey Text
key id = record {
  user_id = pos 1;
  method = codes "POST";
  endpoint = codes "/api/admin/upload-batches";
  id = id;
}

abbrev upload_1 : TransferKey Text
upload_1 = key (codes "upload_test_1")

abbrev gog_1 : TransferKey Text
gog_1 = key (codes "gog_1")

abbrev hour : ℕ
hour = 3_600 * nanos

-- The upload is at work under token 7.
abbrev at_work : Transfers Text ℕ
at_work = (upload_1, running_entry 7) ∷ []

nothing-IsSound : IsSound {Method = Text} {Response = ℕ} []
unfolding terminals
nothing-IsSound = record { unique = tt; bounded = omega arith }

upload_valid : valid_id upload_1.id ≡ true
unfolding valid_id
upload_valid = refl

abbrev some_calls : List (Call Text ℕ)
some_calls =
    claims upload_1 5 7
    ∷ claims gog_1 6 8
    ∷ cancels gog_1 7
    ∷ completes (lease_of upload_1 7) 200 8
    ∷ []

performs_keeps_bound_example : IsSound (performs some_calls [])
performs_keeps_bound_example = performs_keeps_bound some_calls [] nothing-IsSound

claims_upload : (claim {Response = ℕ} upload_1 5 7 []).0 ≡ some (owner (lease_of upload_1 7))
unfolding claim valid_id prune lookup Retention.prune evict terminals
claims_upload = refl

other_key : gog_1 ≡ upload_1 → ⊥
other_key h = cc

claim_excludes_example :
    (claim upload_1 10 9 (
      performs
        (cancels gog_1 6 ∷ claims upload_1 7 8 ∷ [])
        (claim {Response = ℕ} upload_1 5 7 []).1)).0
    ≡ some running
claim_excludes_example =
    claim_excludes upload_1 5 7 [] (lease_of upload_1 7)
      (cancels gog_1 6 ∷ claims upload_1 7 8 ∷ []) 10 9 nothing-IsSound claims_upload
      (other_key, (tt, tt))

claim_replays_example :
    (claim upload_1 hour 9 (complete_lease (lease_of upload_1 7) 200 10 at_work)).0
    ≡ some (complete 200)
unfolding terminals lookup
claim_replays_example =
    claim_replays (lease_of upload_1 7) 200 10 hour 7 9 at_work (refl, tt) (omega arith)
      upload_valid refl (omega arith)

cancel_wins_example :
    ((cancel upload_1 10 at_work).0 ≡ cancel_done (some 7))
    × (complete_lease (lease_of upload_1 7) 200 hour (cancel upload_1 10 at_work).1
        ≡ (cancel upload_1 10 at_work).1)
    × (drop_lease (lease_of upload_1 7) (cancel upload_1 10 at_work).1
        ≡ (cancel upload_1 10 at_work).1)
    × ((claim upload_1 hour 9 (cancel upload_1 10 at_work).1).0 ≡ some cancelled)
unfolding terminals lookup
cancel_wins_example =
    cancel_wins (lease_of upload_1 7) 200 10 hour 7 9 at_work (refl, tt) (omega arith) upload_valid
      refl (omega arith)

two_owners_example :
    ((claim upload_1 (10 + hour) 8 (cancel upload_1 10 at_work).1).0
      ≡ some (owner (lease_of upload_1 8)))
    × ((claim upload_1 (11 + hour) 9 (
          drop_lease
            (lease_of upload_1 7)
            (claim upload_1 (10 + hour) 8 (cancel upload_1 10 at_work).1).1)).0
        ≡ some (owner (lease_of upload_1 9)))
unfolding lookup
two_owners_example =
    two_owners upload_1 10 (10 + hour) (11 + hour) 7 8 9 at_work (refl, tt) upload_valid refl
      (omega arith)
