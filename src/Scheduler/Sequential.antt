-- ===== src/Scheduler/Sequential.antt =====
-- scheduler/scheduler.go: a block of transactions that run one after the other, as the reference for
-- ProcessAll. This file has the reference; the children relate a run to it.
pub mod Views
pub mod Ends
pub mod Results
pub mod Blocks
use go_pevm.Shared.{◌≡◌, Option, none, some, List, [], ◌∷◌, get, bytes_eq}
use go_pevm.External.Kaia.{Kaia}
use go_pevm.External.BTree.{BTree}
use go_pevm.External.Evm.{Evm}
use go_pevm.Versions.{less}
use go_pevm.Keys.{StorageKey}
use go_pevm.Store.{Store, WriteSet}
use go_pevm.Tracer.Reference.{View, updated}
use go_pevm.Scheduler.{Response, DeliverTxTask}
use go_pevm.Scheduler.Rounds.{DeliverTxFunc}
use go_pevm.Scheduler.Steps.{IsPrepared}

module _ ⦃k : Kaia⦄ ⦃e : Evm k⦄ where
  pub record Effect : Type 0 where
    pub answer : Response
    pub writes : WriteSet

  -- What a transaction does, as a function of the values that it finds.
  abbrev pub Meaning : Type 0
  Meaning = e.Message → View → Effect

  -- The answers of transactions that run one after the other.
  unfoldable pub answers_in_order : Meaning → List e.Message → View → List (Option Response)
  unfolding updated
  answers_in_order meaning [] f = []
  answers_in_order meaning (tx ∷ l) f =
      some (meaning tx f).answer ∷ answers_in_order meaning l (updated (meaning tx f).writes f)

  -- The values that they leave.
  unfoldable pub view_in_order : Meaning → List e.Message → View → View
  unfolding updated
  view_in_order meaning [] f = f
  view_in_order meaning (tx ∷ l) f = view_in_order meaning l (updated (meaning tx f).writes f)

module _ ⦃k : Kaia⦄ ⦃e : Evm k⦄ ⦃b : BTree less⦄ where
  -- A delivery that has a response does what its transaction means, wherever the values that it has
  -- read are found; so it depends on nothing but the values that it reads.
  pub record HasMeaning (deliver : DeliverTxFunc) (meaning : Meaning) : Type 0 where
    pub answers :
        (t : DeliverTxTask) (s : Store) (f : View) (r : Response)
        → IsPrepared t s
        → ((q : StorageKey) (vs : List k.Hash)
            → get q (deliver t s).traced.readset ≡ some vs
            → vs ≡ f q ∷ [])
        → (deliver t s).result ≡ some r
        → r ≡ (meaning t.tx f).answer
    pub writes :
        (t : DeliverTxTask) (s : Store) (f : View) (r : Response) (q : StorageKey)
        → IsPrepared t s
        → ((q : StorageKey) (vs : List k.Hash)
            → get q (deliver t s).traced.readset ≡ some vs
            → vs ≡ f q ∷ [])
        → (deliver t s).result ≡ some r
        → get q (deliver t s).traced.writeset ≡ get q (meaning t.tx f).writes
