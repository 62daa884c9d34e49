-- ===== src/Examples/SerialRuns.antt =====
-- The theorems on sequences of calls of the store, and on blocks in parallel, at concrete inputs.
use go_pevm.Shared.{
  Bytes, arith, ℕ, ◌≡◌, ◌≢◌, refl, ap, ◌∙◌, sym, ◌⊎◌, inr, pos, true, Option, some, List, [], ◌∷◌,
  ◌++◌, ℤ_eq, bytes_eq, get, Bytes-discrete,
}
use mathlib.Core.Path.{subst}
use go_pevm.Keys.{StorageKey, to_storage_key, address, slot}
use go_pevm.Keys.RoundTrip.{address-slot-to_storage_key}
use go_pevm.Store.{new_multi_version_store, get_latest_before_index}
use go_pevm.Store.Validation.{validate_transaction_state}
use go_pevm.Versions.Order.{IsLatestBelow}
use go_pevm.Tracer.{new_access_list_tracer}
use go_pevm.Store.Flush.Accounts.{IsHeld}
use go_pevm.Store.Flush.Views.{IsMade}
use go_pevm.Store.Refinement.{
  Op, write, invalidate, record_reads, forget_reads, empty_spec, replay, run, Refines,
  run-new-Refines,
}
use go_pevm.Store.Orders.{swapped_calls}
use go_pevm.Scheduler.{Response}
use go_pevm.Scheduler.Rounds.{World}
use go_pevm.Scheduler.Processing.{process_all}
use go_pevm.Scheduler.Serial.{UsesValues, WritesHeld, IsAt}
use go_pevm.Scheduler.Serial.Phases.{IsShuffle, transactions}
use go_pevm.Scheduler.Serial.Entries.{entry_txs}
use go_pevm.Scheduler.Serial.Results.{IsProcessed, process_all_serial}
use go_pevm.Scheduler.{DeliverTxTask}
use go_pevm.Scheduler.Rounds.{DeliverTxFunc}
use go_pevm.Scheduler.Steps.{IsHonest}
use go_pevm.Scheduler.Results.{all_answered}
use go_pevm.Keys.{get_value}
use go_pevm.Scheduler.Disjoint.{IsDisjoint}
use go_pevm.Scheduler.Disjoint.Rounds.{IsComplete, IsOnce}
use go_pevm.Scheduler.Disjoint.Blocks.{IsOneRoundOf, process_all-IsOnce}
use go_pevm.Examples.Trees.{list_tree}
use go_pevm.Examples.Packages.{small, small_evm, small_texts, small_views, cells, cells-IsSound}
use go_pevm.Examples.StoreRuns.{key, other_key, writes, writes-IsMap}
use go_pevm.Examples.SchedulerRuns.{deliver, deliver-IsHonest, in_order, entries}

-- Transaction 0 writes two keys, transaction 1 reads one of them, and is then invalidated.
abbrev calls : List Op
calls = write (pos 0) 0 writes ∷ []

abbrev later_calls : List Op
later_calls = forget_reads (pos 0) ∷ []

abbrev reading : Op
reading = record_reads (pos 1) ((key, 6 ∷ []) ∷ [])

abbrev invalidation : Op
invalidation = invalidate (pos 0) 0

run-new-Refines_example :
    Refines
      (run (calls ++ reading ∷ invalidation ∷ later_calls) (new_multi_version_store cells))
      (replay (calls ++ reading ∷ invalidation ∷ later_calls) empty_spec)
    × ((n : ℕ) (q : StorageKey)
        → IsLatestBelow
            ((replay (calls ++ reading ∷ invalidation ∷ later_calls) empty_spec).versions q)
            (pos n)
            (get_latest_before_index (pos n) q (
              run (calls ++ reading ∷ invalidation ∷ later_calls) (new_multi_version_store cells))))
run-new-Refines_example =
    run-new-Refines (calls ++ reading ∷ invalidation ∷ later_calls) cells
      (writes-IsMap, (tt, (tt, (tt, tt))))

apart : pos 1 ≢ pos 0
apart e = cc

swapped_calls_example :
    ((n : ℕ) (q : StorageKey)
      → get_latest_before_index
          (pos n)
          q
          (run (calls ++ reading ∷ invalidation ∷ later_calls) (new_multi_version_store cells))
        ≡ get_latest_before_index
            (pos n)
            q
            (run (calls ++ invalidation ∷ reading ∷ later_calls) (new_multi_version_store cells)))
    × ((n : ℕ)
        → validate_transaction_state
            (pos n)
            (run (calls ++ reading ∷ invalidation ∷ later_calls) (new_multi_version_store cells))
          ≡ validate_transaction_state
              (pos n)
              (run (calls ++ invalidation ∷ reading ∷ later_calls) (new_multi_version_store cells)))
swapped_calls_example =
    swapped_calls calls later_calls reading invalidation cells (writes-IsMap, (tt, (tt, (tt, tt))))
      apart

pub key_text : to_storage_key 7 3 ≡ key
unfolding to_storage_key
key_text = refl

pub key-IsMade : IsMade key
key-IsMade =
    let (a, s) = address-slot-to_storage_key small_texts 7 3 in
    subst IsMade key_text
      (sym (ap (λ x. to_storage_key x (slot (to_storage_key 7 3))) a ∙ ap (to_storage_key 7) s))

pub deliver-UsesValues : UsesValues deliver
unfolding new_access_list_tracer get
deliver-UsesValues = record {
  reads = λ t s q vs h r. cc;
  writes = λ t s q v h r. elim (Bytes-discrete key q) [
    | yes d ↦ subst IsMade d key-IsMade
    | no d ↦ absurd (ground (arith, d, r))
  ];
}

pub in_order-IsShuffle : IsShuffle in_order
in_order-IsShuffle = record {
  executes = λ n P l h. h;
  validates = λ n P l h. h;
  validates_all = λ n P l h. h;
}

-- Account 7 has code.
pub key-IsHeld : IsHeld cells key
key-IsHeld =
    let (a, s) = address-slot-to_storage_key small_texts 7 3 in
    let there : address key ≡ 7 = ap address (sym key_text) ∙ a in
    inr (inr (λ h. ground (arith, h, there)))

deliver-WritesHeld : WritesHeld cells deliver
unfolding new_access_list_tracer get
deliver-WritesHeld = record {
  held = λ t s q v h r. elim (Bytes-discrete key q) [
    | yes d ↦ subst (IsHeld cells) d key-IsHeld
    | no d ↦ absurd (ground (arith, d, r))
  ];
}

process_all_serial_example :
    (rs : List (Option Response)) × (w : World) × (process_all deliver in_order entries cells
      ≡ some (rs, w))
    × ((w.synchronous ≡ true)
        ⊎ ((transactions w.tasks ≡ entry_txs entries)
            × ((p : ℕ) (t : DeliverTxTask) → IsAt p w t → IsProcessed deliver cells rs w p t)))
process_all_serial_example =
    process_all_serial deliver cells deliver-IsHonest deliver-UsesValues small_views cells-IsSound
      deliver-WritesHeld in_order in_order-IsShuffle entries (refl, (refl, tt))

-- A delivery that answers the value of one key in the state, and writes another key.
abbrev pub reader : DeliverTxFunc
reader t s = record {
  traced =
      record (new_access_list_tracer t.tx t.absolute_index t.incarnation
        (record { buffered = []; capacity = 1 })) {
          readset = (other_key, get_value other_key s.parent_store ∷ []) ∷ [];
          writeset = (key, t.tx) ∷ [];
        };
  left_state = s.parent_store;
  gas_used = 21000;
  result = some (record { receipt = get_value other_key s.parent_store; trace = 0 });
}

abbrev pub Writes : ℕ → StorageKey → Type 0
Writes i q = q ≡ key

pub reader-IsHonest : IsHonest reader
unfolding new_access_list_tracer get
reader-IsHonest = record {
  own_index = λ t s h. refl;
  writes = λ t s h. (refl, tt);
  aborts = λ t s a l h p. cc;
}

abbrev last_of : Bytes → ℕ
last_of [] = 0
last_of (c ∷ []) = c
last_of (c ∷ x ∷ l) = last_of (x ∷ l)

other_key_apart : other_key ≢ key
other_key_apart e = let h = ap last_of e in omega (arith, h)

pub reader-IsDisjoint : IsDisjoint Writes reader
unfolding new_access_list_tracer get
reader-IsDisjoint = record {
  answers = λ i t s h g c. refl;
  no_abort = λ i t s h g c. refl;
  writes = λ i t s q v h g c r. elim (Bytes-discrete key q) [
    | yes d ↦ sym d
    | no d ↦ absurd (ground (arith, d, r))
  ];
  reads = λ i t s h g c. record {
    is_map = (refl, tt);
    single = λ q vs r. elim (Bytes-discrete other_key q) [
      | yes d ↦ ground (arith, d, r, ap (λ x. get_value x s.parent_store) d)
      | no d ↦ absurd (ground (arith, d, r))
    ];
    free = λ q vs j r below w. ground (arith, r, w, other_key_apart);
  };
}

pub in_order-IsComplete : IsComplete in_order
in_order-IsComplete = record { shuffle = in_order-IsShuffle; executes_all = λ n P l h. h }

process_all-IsOnce_example :
    (rs : List (Option Response)) × (w : World) × (process_all reader in_order entries cells
      ≡ some (rs, w))
    × IsOnce w
    × (all_answered rs ≡ true)
    × IsOneRoundOf reader in_order entries cells w
process_all-IsOnce_example =
    process_all-IsOnce Writes reader reader-IsHonest reader-IsDisjoint in_order in_order-IsComplete
      cells entries (refl, (refl, tt))
