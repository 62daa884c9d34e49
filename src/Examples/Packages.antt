-- ===== src/Examples/Packages.antt =====
-- Small stand-ins for the packages of kaia: hashes, addresses and words are numbers, and the state
-- is three functions.
use go_pevm.Shared.{
  ℕ, suc, ◌+◌, ◌-◌, ◌≢◌, refl, ap, zero, ◌≡◌, ℤ, pos, negsuc, Bool, true, ◌&&◌, if◌then◌else◌,
  false, [], ◌∷◌, arith, ite, ℕ_discrete, Bytes, set_bytes, set_bytes_from,
}
use go_pevm.External.Kaia.{Kaia}
use go_pevm.External.Evm.{Evm}
use go_pevm.Keys.{colon}
use go_pevm.Keys.RoundTrip.{HasTexts}
use go_pevm.Scheduler.Sequential.Ends.{HasHashes}
use go_pevm.Store.Flush.States.{HasCells}
use go_pevm.Store.Flush.Accounts.{HasAccounts, HasViews, IsSound}
use go_pevm.Tracer.Transfers.{HasAmounts}

pub record Cells : Type 0 where
  pub balances : ℕ → ℤ
  pub nonces : ℕ → ℕ
  pub slots : ℕ → ℕ → ℕ
  pub codes : ℕ → ℤ
  pub marks : ℕ → Bool

abbrev pub update : {A : Type 0} → (ℕ → A) → ℕ → A → ℕ → A
update f a v c = ite (ℕ_discrete a c) v (f c)

-- One character stands for a number; it is no colon.
abbrev pub text_of : ℕ → Bytes
text_of n = (n + 59) ∷ []

abbrev pub of_text : Bytes → ℕ
of_text [] = 0
of_text (c ∷ l) = c - 59

abbrev is_zero : ℤ → Bool
is_zero (pos zero) = true
is_zero _ = false

is_zero-pos : (n : ℤ) → n ≢ pos 0 → is_zero n ≡ false
is_zero-pos (pos zero) h = absurd (h refl)
is_zero-pos (pos (suc n)) h = refl
is_zero-pos (negsuc n) h = refl

abbrev pub magnitude : ℤ → ℕ
magnitude (pos n) = n
magnitude (negsuc n) = suc n

abbrev is_empty : Cells → ℕ → Bool
is_empty st a = is_zero (st.balances a) && (is_zero (pos (st.nonces a)) && is_zero (st.codes a))

-- Marked accounts and empty ones are dropped.
abbrev finalised : Cells → Cells
finalised st = record {
  balances = λ a. if st.marks a then pos 0 else st.balances a;
  nonces = λ a. if st.marks a then 0 else st.nonces a;
  slots = λ a s. if st.marks a then 0 else if is_empty st a then 0 else st.slots a s;
  codes = λ a. if st.marks a then pos 0 else st.codes a;
  marks = λ a. false;
}

instance abbrev pub small : Kaia
small = record {
  Hash = ℕ;
  Address = ℕ;
  StateDb = Cells;
  hash_discrete = ℕ_discrete;
  address_discrete = ℕ_discrete;
  zero_hash = 0;
  zero_address = 0;
  hash_string = text_of;
  address_string = text_of;
  hex_to_hash = of_text;
  hex_to_address = of_text;
  bytes_to_hash = set_bytes_from 0;
  big_to_hash = magnitude;
  hash_bytes = λ h. h ∷ [];
  hash_big = pos;
  get_code_hash = λ st a. 0;
  get_code_size = λ st a. st.codes a;
  get_balance = λ st a. st.balances a;
  get_nonce = λ st a. st.nonces a;
  has_self_destructed = λ st a. st.marks a;
  get_state = λ st a s. st.slots a s;
  set_balance = λ a v st. record st { balances = update st.balances a v };
  set_nonce = λ a v st. record st { nonces = update st.nonces a v };
  set_state = λ a s v st. record st { slots = update st.slots a (update (st.slots a) s v) };
  finalise = λ delete_empty keep st. if delete_empty then finalised st else st;
}

instance abbrev pub small_evm : Evm small
small_evm = record {
  Message = ℕ;
  FeeRatio = ℕ;
  Word = ℕ;
  Receipt = ℕ;
  Trace = ℕ;
  validated_fee_payer = λ m. m;
  validated_sender = λ m. m;
  fee_ratio = λ m. (0, false);
  gas = λ m. 2;
  calc_fee_with_ratio = λ r fee. (fee, pos 0);
  bytes32 = λ w. w;
  bytes20 = λ w. w;
  word_bytes = λ w. w ∷ [];
  precompiled = 1 ∷ 2 ∷ [];
  right_pad_bytes = λ l n. l;
}

no_colon : (n : ℕ) → n + 59 ≢ colon
no_colon n h = omega arith

pub small_texts : HasTexts small
small_texts = record {
  address_plain = λ a. (no_colon a, tt);
  hash_plain = λ a. (no_colon a, tt);
  address_back = λ a. omega arith;
  hash_back = λ a. omega arith;
}

pub small_amounts : HasAmounts small
unfolding set_bytes
small_amounts = record { amount_back = λ n h. ap pos (omega arith) }

pub small_hashes : HasHashes
unfolding set_bytes set_bytes_from
small_hashes = record { hash_back = λ h. omega arith }

pub small_cells : HasCells small
small_cells = record {
  get_state-set_state = λ st a a' s s' v. ground arith;
  get_state-set_balance = λ st a a' s' n. refl;
  get_state-set_nonce = λ st a a' s' n. refl;
  get_balance-set_balance = λ st a a' n. refl;
  get_balance-set_state = λ st a a' s v. refl;
  get_balance-set_nonce = λ st a a' n. refl;
}

pub small_accounts : HasAccounts small
small_accounts = record {
  cells = small_cells;
  get_nonce-set_nonce = λ st a a' n. refl;
  get_nonce-set_balance = λ st a a' n. refl;
  get_nonce-set_state = λ st a a' s v. refl;
}

pub small_views : HasViews small
small_views = record {
  accounts = small_accounts;
  alive-set_balance = λ st a a' n h. h;
  alive-set_nonce = λ st a a' n h. h;
  alive-set_state = λ st a a' s v h. h;
  alive-finalise = λ st a h. refl;
  get_code_size-set_balance = λ st a a' n. refl;
  get_code_size-set_nonce = λ st a a' n. refl;
  get_code_size-set_state = λ st a a' s v. refl;
  get_code_size-finalise = λ st a h. rw h refl;
  get_balance-finalise = λ st a h. rw h refl;
  get_nonce-finalise = λ st a h. rw h refl;
  get_state-finalise = λ st a s h c. ground (arith, h, is_zero-pos (st.codes a) c);
  get_state-finalise_zero = λ st a s h. ground (arith, h);
}

-- Account 7 has 100, account 8 has 5, and both have code; slot 3 of account 7 holds 4.
abbrev pub cells : Cells
cells = record {
  balances = update (update (λ a. pos 0) 7 (pos 100)) 8 (pos 5);
  nonces = λ a. 0;
  slots = update (λ a s. 0) 7 (update (λ s. 0) 3 4);
  codes = update (update (λ a. pos 0) 7 (pos 1)) 8 (pos 1);
  marks = λ a. false;
}

pub cells-IsSound : IsSound cells
cells-IsSound = record { alive = λ a. refl; bare = λ a s h. ground (arith, h) }
