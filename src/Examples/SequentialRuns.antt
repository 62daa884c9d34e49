-- ===== src/Examples/SequentialRuns.antt =====
-- A block whose transactions read what the ones before them have written, at concrete inputs.
use go_pevm.Shared.{
  ℕ, ◌+◌, ltb, ◌≡◌, ◌≢◌, refl, ap, ◌⊎◌, true, false, Option, some, List, [], ◌∷◌, arith, get,
  head_or, ℕ_discrete, set_bytes_from, bytes_eq, Bytes-discrete,
}
use mathlib.Core.Path.{subst}
use go_pevm.Keys.{
  to_storage_key, get_value, code_copy_key, code_hash_key, code_size_key, balance_key, nonce_key,
  self_destruct_key,
}
use go_pevm.Scheduler.Disjoint.Blocks.{IsOneRoundOf}
use go_pevm.Store.Flush.Accounts.{IsHeld}
use go_pevm.Store.Flush.Views.{IsMade, IsValueKey}
use go_pevm.Tracer.{new_access_list_tracer}
use go_pevm.Tracer.Uses.{HasOwnKeys}
use go_pevm.Scheduler.{Response}
use go_pevm.Scheduler.Rounds.{DeliverTxFunc, World}
use go_pevm.Scheduler.Steps.{IsHonest}
use go_pevm.Scheduler.Processing.{process_all}
use go_pevm.Scheduler.Serial.{UsesValues, WritesHeld}
use go_pevm.Scheduler.Serial.Entries.{entry_txs}
use go_pevm.Scheduler.Sequential.{Meaning, HasMeaning, answers_in_order, view_in_order}
use go_pevm.Scheduler.Sequential.Ends.{HoldsValues, IsPlainSlot, slot-IsValueKey}
use go_pevm.Scheduler.Sequential.Results.{process_all_in_order}
use go_pevm.Examples.Packages.{
  small, small_evm, small_texts, small_views, small_hashes, cells, cells-IsSound,
}
use go_pevm.Examples.Trees.{list_tree}
use go_pevm.Examples.StoreRuns.{key, other_key}
use go_pevm.Scheduler.Sequential.Blocks.{process_all_disjoint_in_order}
use go_pevm.Examples.SchedulerRuns.{in_order, entries}
use go_pevm.Examples.SerialRuns.{
  key_text, key-IsMade, key-IsHeld, in_order-IsShuffle, in_order-IsComplete, Writes, reader,
  reader-IsHonest, reader-IsDisjoint,
}

-- A delivery that counts a key up by the number of the transaction, and answers what it has found.
abbrev counter : DeliverTxFunc
counter t s = record {
  traced =
      record (new_access_list_tracer t.tx t.absolute_index t.incarnation
        (record { buffered = []; capacity = 1 })) {
          readset = (key, get_value key s.parent_store ∷ []) ∷ [];
          writeset = (key, get_value key s.parent_store + t.tx) ∷ [];
        };
  left_state = s.parent_store;
  gas_used = 21000;
  result = some (record { receipt = get_value key s.parent_store; trace = 0 });
}

abbrev counting : Meaning
counting tx f = record {
  answer = record { receipt = f key; trace = 0 };
  writes = (key, f key + tx) ∷ [];
}

counter-IsHonest : IsHonest counter
unfolding new_access_list_tracer get
counter-IsHonest = record {
  own_index = λ t s h. refl;
  writes = λ t s h. (refl, tt);
  aborts = λ t s a l h p. cc;
}

below_apart : (n m : ℕ) → ltb n m ≡ true → n ≢ m
below_apart n m h e = ground (arith, h, e)

pub slot_three : IsPlainSlot 3
unfolding set_bytes_from
slot_three = record {
  no_copy = below_apart 3 code_copy_key refl;
  no_hash = below_apart 3 code_hash_key refl;
  no_size = below_apart 3 code_size_key refl;
  no_balance = below_apart 3 balance_key refl;
  no_nonce = below_apart 3 nonce_key refl;
  no_self_destruct = below_apart 3 self_destruct_key refl;
}

key-IsValueKey : IsValueKey key
key-IsValueKey = subst IsValueKey key_text (slot-IsValueKey small_texts 7 3 slot_three)

counter-UsesValues : UsesValues counter
unfolding new_access_list_tracer get
counter-UsesValues = record {
  reads = λ t s q vs h r. elim (Bytes-discrete key q) [
    | yes d ↦ subst IsValueKey d key-IsValueKey
    | no d ↦ absurd (ground (arith, d, r))
  ];
  writes = λ t s q v h r. elim (Bytes-discrete key q) [
    | yes d ↦ subst IsMade d key-IsMade
    | no d ↦ absurd (ground (arith, d, r))
  ];
}

counter-HasMeaning : HasMeaning counter counting
unfolding new_access_list_tracer get Bytes-discrete ℕ_discrete
counter-HasMeaning = record {
  answers = λ t s f r h read g.
      let found : get_value key s.parent_store ∷ [] ≡ f key ∷ [] =
        read key (get_value key s.parent_store ∷ []) refl in
      cc (g, found);
  writes = λ t s f r q h read g.
      let found : get_value key s.parent_store ∷ [] ≡ f key ∷ [] =
        read key (get_value key s.parent_store ∷ []) refl in
      let value : get_value key s.parent_store ≡ f key = ap (head_or 0) found in
      ap (λ x. get q ((key, x + t.tx) ∷ [])) value;
}

pub own_keys : HasOwnKeys
unfolding set_bytes_from
own_keys = record {
  balances = record {
    no_copy = λ h. ground (arith, h);
    no_hash = λ h. ground (arith, h);
    no_size = λ h. ground (arith, h);
  };
  nonces = record {
    no_copy = λ h. ground (arith, h);
    no_hash = λ h. ground (arith, h);
    no_size = λ h. ground (arith, h);
  };
}

counter-WritesHeld : WritesHeld cells counter
unfolding new_access_list_tracer get
counter-WritesHeld = record {
  held = λ t s q v h r. elim (Bytes-discrete key q) [
    | yes d ↦ subst (IsHeld cells) d key-IsHeld
    | no d ↦ absurd (ground (arith, d, r))
  ];
}

process_all_in_order_example :
    (rs : List (Option Response)) × (w : World) × (process_all counter in_order entries cells
      ≡ some (rs, w))
    × ((w.synchronous ≡ true)
        ⊎ ((rs ≡ answers_in_order counting (entry_txs entries) (λ q. get_value q cells))
            × HoldsValues
                (view_in_order counting (entry_txs entries) (λ q. get_value q cells))
                w.store.parent_store))
process_all_in_order_example =
    process_all_in_order counter counter-IsHonest counter-UsesValues counting counter-HasMeaning
      small_texts small_views small_hashes own_keys in_order in_order-IsShuffle cells cells-IsSound
      counter-WritesHeld entries (refl, (refl, tt))

other_text : to_storage_key 7 4 ≡ other_key
unfolding to_storage_key
other_text = refl

slot_four : IsPlainSlot 4
unfolding set_bytes_from
slot_four = record {
  no_copy = below_apart 4 code_copy_key refl;
  no_hash = below_apart 4 code_hash_key refl;
  no_size = below_apart 4 code_size_key refl;
  no_balance = below_apart 4 balance_key refl;
  no_nonce = below_apart 4 nonce_key refl;
  no_self_destruct = below_apart 4 self_destruct_key refl;
}

other_key-IsValueKey : IsValueKey other_key
other_key-IsValueKey = subst IsValueKey other_text (slot-IsValueKey small_texts 7 4 slot_four)

reader-UsesValues : UsesValues reader
unfolding new_access_list_tracer get
reader-UsesValues = record {
  reads = λ t s q vs h r. elim (Bytes-discrete other_key q) [
    | yes d ↦ subst IsValueKey d other_key-IsValueKey
    | no d ↦ absurd (ground (arith, d, r))
  ];
  writes = λ t s q v h r. elim (Bytes-discrete key q) [
    | yes d ↦ subst IsMade d key-IsMade
    | no d ↦ absurd (ground (arith, d, r))
  ];
}

abbrev reading : Meaning
reading tx f = record {
  answer = record { receipt = f other_key; trace = 0 };
  writes = (key, tx) ∷ [];
}

reader-HasMeaning : HasMeaning reader reading
unfolding new_access_list_tracer get Bytes-discrete ℕ_discrete
reader-HasMeaning = record {
  answers = λ t s f r h read g.
      let found : get_value other_key s.parent_store ∷ [] ≡ f other_key ∷ [] =
        read other_key (get_value other_key s.parent_store ∷ []) refl in
      cc (g, found);
  writes = λ t s f r q h read g. refl;
}

reader-WritesHeld : WritesHeld cells reader
unfolding new_access_list_tracer get
reader-WritesHeld = record {
  held = λ t s q v h r. elim (Bytes-discrete key q) [
    | yes d ↦ subst (IsHeld cells) d key-IsHeld
    | no d ↦ absurd (ground (arith, d, r))
  ];
}

process_all_disjoint_in_order_example :
    (rs : List (Option Response)) × (w : World) × (process_all reader in_order entries cells
      ≡ some (rs, w))
    × (w.synchronous ≡ false)
    × (w.max_incarnation ≡ 0)
    × IsOneRoundOf reader in_order entries cells w
    × (rs ≡ answers_in_order reading (entry_txs entries) (λ q. get_value q cells))
    × HoldsValues
        (view_in_order reading (entry_txs entries) (λ q. get_value q cells))
        w.store.parent_store
process_all_disjoint_in_order_example =
    process_all_disjoint_in_order Writes reader reader-IsHonest reader-IsDisjoint reader-UsesValues
      reading reader-HasMeaning small_texts small_views small_hashes own_keys in_order
      in_order-IsComplete cells cells-IsSound reader-WritesHeld entries (refl, (refl, tt))
