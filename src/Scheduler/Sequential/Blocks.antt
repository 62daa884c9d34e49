-- ===== src/Scheduler/Sequential/Blocks.antt =====
-- scheduler/scheduler.go: a block with disjoint transactions, beside its transactions in order.
use go_pevm.Shared.{◌≡◌, ap, sym, ◌∙◌, inl, inr, false, Option, some, List, bytes_eq, ℤ_eq, ℕ}
use mathlib.Core.Path.{subst}
use go_pevm.External.Kaia.{Kaia}
use go_pevm.External.BTree.{BTree}
use go_pevm.External.Evm.{Evm}
use go_pevm.Versions.{less}
use go_pevm.Keys.{StorageKey, get_value}
use go_pevm.Keys.RoundTrip.{HasTexts}
use go_pevm.Store.Flush.Accounts.{HasViews, IsSound}
use go_pevm.Scheduler.{Response, DeliverTxEntry}
use go_pevm.Scheduler.Rounds.{DeliverTxFunc, World}
use go_pevm.Scheduler.Processing.{Schedule, process_all}
use go_pevm.Scheduler.Steps.{IsHonest}
use go_pevm.Scheduler.Serial.{UsesValues, WritesHeld}
use go_pevm.Scheduler.Serial.Entries.{AreCounted, entry_txs}
use go_pevm.Scheduler.Disjoint.{IsDisjoint}
use go_pevm.Scheduler.Disjoint.Rounds.{IsComplete}
use go_pevm.Scheduler.Disjoint.Blocks.{IsOneRoundOf, process_all-IsOnce}
use go_pevm.Scheduler.Sequential.{Meaning, HasMeaning, answers_in_order, view_in_order}
use go_pevm.Tracer.Uses.{HasOwnKeys}
use go_pevm.Scheduler.Sequential.Ends.{HasHashes, HoldsValues}
use go_pevm.Scheduler.Sequential.Results.{process_all_in_order}

module _ ⦃k : Kaia⦄ ⦃e : Evm k⦄ ⦃b : BTree less⦄ (Writes : ℕ → StorageKey → Type 0)
    (deliver : DeliverTxFunc) (honest : IsHonest deliver) (disjoint : IsDisjoint Writes deliver)
    (uses : UsesValues deliver) (meaning : Meaning) (means : HasMeaning deliver meaning)
    (texts : HasTexts k) (views : HasViews k) (hashes : HasHashes) (own : HasOwnKeys)
    (sched : Schedule) (complete : IsComplete sched) (st : k.StateDb) (sound : IsSound st)
    (held : WritesHeld st deliver) where
  -- A block in which no transaction reads what an earlier one may write ends as its transactions in
  -- order do, in one round without the synchronous mode, and no task has a second incarnation: what
  -- ProcessAll leaves is what one executeAll of all tasks, one validateAll and the last flush leave,
  -- or, if there is nothing to execute, the last flush alone. It returns their responses, and leaves their values in every balance and in every storage slot of the state,
  -- but for slots that stand for a balance, a nonce, code or self-destruction. The entries have their positions as indices;
  -- deliveries are honest, answer and do not abort, read each key once and from the state, write only
  -- what their transactions may write, use balances, nonces and slots only, and do what their
  -- transactions mean as functions of the values that they read, and write slots only of accounts that
  -- have code in the state before the block; in that state no account is marked as self-destructed,
  -- and accounts with no code have nothing in their slots; the schedule of a round leaves out no task
  -- and adds none; the state keeps apart what is written to it, and of accounts with code all of it
  -- when it is finalised; texts and numbers of
  -- hashes and addresses can be read back; and the constants for balances and nonces are none of
  -- those for code.
  pub process_all_disjoint_in_order :
      (reqs : List DeliverTxEntry)
      → AreCounted 0 reqs
      → (rs : List (Option Response)) × (w : World) × (process_all deliver sched reqs st
          ≡ some (rs, w))
        × (w.synchronous ≡ false)
        × (w.max_incarnation ≡ 0)
        × IsOneRoundOf deliver sched reqs st w
        × (rs ≡ answers_in_order meaning (entry_txs reqs) (λ q. get_value q st))
        × HoldsValues
            (view_in_order meaning (entry_txs reqs) (λ q. get_value q st))
            w.store.parent_store
  process_all_disjoint_in_order reqs h =
      let (rs, w, x, once, _, round) =
        process_all-IsOnce Writes deliver honest disjoint sched complete st reqs h in
      let (rs', w', x', r) =
        process_all_in_order deliver honest uses meaning means texts views hashes own sched
          complete.shuffle st sound held reqs h in
      let same : rs' ≡ rs = cc (x, x') in
      let same' : w' ≡ w = cc (x, x') in
      elim r [
        | inl par ↦ absurd (cc (par, once.parallel, ap (λ y. y.synchronous) same'))
        | inr (answers, held) ↦ (
          rs,
          w,
          x,
          once.parallel,
          once.once,
          round,
          sym same ∙ answers,
          subst
              (λ y.
                HoldsValues (view_in_order meaning (entry_txs reqs) (λ q. get_value q st))
                  y.store.parent_store)
              same' held,
        )
      ]
