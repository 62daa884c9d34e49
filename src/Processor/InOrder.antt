-- ===== src/Processor/InOrder.antt =====
-- processor/processor.go: the responses of Execute, and what its transactions have read.
use go_pevm.Shared.{
  ℕ, suc, true, ◌≡◌, refl, ap, ◌∙◌, ◌⊎◌, inl, inr, Option, some, List, [], ◌∷◌, bytes_eq, ℤ_eq,
}
use go_pevm.External.Kaia.{Kaia}
use go_pevm.External.BTree.{BTree}
use go_pevm.External.Evm.{Evm}
use go_pevm.External.Chain.{Chain}
use go_pevm.Versions.{less}
use go_pevm.Keys.RoundTrip.{HasTexts}
use go_pevm.Store.Flush.Accounts.{HasViews, IsSound}
use go_pevm.Tracer.Uses.{HasOwnKeys}
use go_pevm.Scheduler.{Response, DeliverTxTask}
use go_pevm.Scheduler.Rounds.{DeliverTxFunc, World}
use go_pevm.Scheduler.Processing.{Schedule, process_all}
use go_pevm.Scheduler.Serial.{WritesHeld, IsAt}
use go_pevm.Scheduler.Serial.Phases.{IsShuffle, transactions}
use go_pevm.Scheduler.Serial.Entries.{AreCounted, entry_txs}
use go_pevm.Scheduler.Serial.Results.{IsProcessed, process_all_serial}
use go_pevm.Processor.{Processor, IsDeliveryOf, entries_from, process_txs, execute}
use go_pevm.Processor.Deliveries.{delivery-IsHonest}
use go_pevm.Processor.Values.{ReadsNoCode, delivery-UsesValues}

module _ ⦃k : Kaia⦄ ⦃e : Evm k⦄ ⦃b : BTree less⦄ ⦃c : Chain⦄ where
  entries-AreCounted : (n : ℕ) (l : List e.Message) → AreCounted n (entries_from n l)
  unfolding entries_from
  entries-AreCounted n [] = tt
  entries-AreCounted n (tx ∷ l) = (refl, entries-AreCounted (suc n) l)

  entry_txs-entries_from : (n : ℕ) (l : List e.Message) → entry_txs (entries_from n l) ≡ l
  unfolding entries_from
  entry_txs-entries_from n [] = refl
  entry_txs-entries_from n (tx ∷ l) = ap (λ m. tx ∷ m) (entry_txs-entries_from (suc n) l)

  -- ProcessAll has returned these responses, and its scheduler has turned synchronous, or has a task
  -- for each transaction, that was processed as if they took turns.
  pub record IsSerialBlock (p : Processor) (deliver : DeliverTxFunc) (sched : Schedule)
      (rs : List (Option Response)) (p' : Processor) : Type 0 where
    pub left : World
    pub processed : process_all deliver sched (entries_from 0 p.txs) p.own_state ≡ some (rs, left)
    pub same_state : p'.own_state ≡ left.store.parent_store
    pub outcome :
        (left.synchronous ≡ true)
        ⊎ ((transactions left.tasks ≡ p.txs)
            × ((i : ℕ) (t : DeliverTxTask)
                → IsAt i left t
                → IsProcessed deliver p.own_state rs left i t))

  module _ (texts : HasTexts k) (views : HasViews k) (own : HasOwnKeys) (p : Processor)
      (deliver : DeliverTxFunc) (delivery : IsDeliveryOf p deliver) (plain : ReadsNoCode p)
      (sound : IsSound p.own_state) (held : WritesHeld p.own_state deliver) (sched : Schedule)
      (shuffle : IsShuffle sched) where
    abbrev IsNothingOrSerial : List e.Message → List (Option Response) → Processor → Type 0
    IsNothingOrSerial [] rs p' = (rs ≡ []) × (p' ≡ p)
    IsNothingOrSerial (tx ∷ l) rs p' = IsSerialBlock (record p { txs = tx ∷ l }) deliver sched rs p'

    process_txs_serial :
        (l : List e.Message)
        → (rs : List (Option Response)) × (p' : Processor) × (process_txs p deliver sched l
            ≡ some (rs, p'))
          × IsNothingOrSerial l rs p'
    unfolding process_txs
    process_txs_serial [] = ([], p, refl, (refl, refl))
    process_txs_serial (tx ∷ l) =
        let (rs, w, x, r) =
          process_all_serial deliver p.own_state (delivery-IsHonest p deliver delivery)
            (delivery-UsesValues texts own p deliver delivery plain) views sound held sched shuffle
            (entries_from 0 (tx ∷ l)) (entries-AreCounted 0 (tx ∷ l)) in
        (
          rs,
          record p { own_state = w.store.parent_store },
          rw x refl,
          record {
            left = w;
            processed = x;
            same_state = refl;
            outcome = elim r [
              | inl y ↦ inl y
              | inr (txs, each) ↦ inr (txs ∙ entry_txs-entries_from 0 (tx ∷ l), each)
            ];
          },
        )

    -- Execute returns. With no transactions it does nothing; else it returns what ProcessAll does for
    -- them, with the state that ProcessAll leaves, and unless ProcessAll has turned synchronous, the
    -- block is serialisable: each transaction has the response, the versions and the readset of one
    -- delivery of deliverTx, in which every key was read with one value, that of the nearest
    -- transaction before it that has written the key, or the value in the processor's state if none
    -- has. The deliveries are what deliverTx returns for prepared tasks, without a panic; no
    -- transaction looks at the code of an account, or writes a slot of an account that has none in the
    -- processor's state; in that state no account is marked as self-destructed, and accounts with no
    -- code have nothing in their slots; the schedule of a round orders what it was given; the state
    -- keeps apart what is written to it, and of accounts with code all of it when it is finalised;
    -- the texts of addresses and hashes can be read back; and the constants for balances and nonces
    -- are none of those for code.
    pub execute_serial :
        (rs : List (Option Response)) × (p' : Processor) × (execute p deliver sched ≡ some (rs, p'))
        × IsNothingOrSerial p.txs rs p'
    unfolding execute
    execute_serial = process_txs_serial p.txs
