-- ===== src/Scheduler/Pool/Runs.antt =====
-- scheduler/scheduler.go: what a step of the workers keeps.
use go_pevm.Shared.{
  ℕ, zero, suc, ◌+◌, ◌-◌, ◌*◌, ◌≡◌, refl, inl, inr, arith, Bool-cases, Option, some, Option-cases,
  List, [], ◌∷◌, ◌++◌, ltb,
}
use mathlib.Core.Path.{subst}
use go_pevm.Scheduler.Positions.{size}
use go_pevm.Scheduler.Pool.{
  Pool, send_work, take_work, taken_out, finish_work, Step, sends, takes, finishes,
}

-- The sum of a weight over a list.
unfoldable pub weigh : (ℕ → ℕ) → List ℕ → ℕ
weigh c [] = 0
weigh c (p ∷ l) = c p + weigh c l

pub weigh-append : (c : ℕ → ℕ) (l m : List ℕ) → weigh c (l ++ m) ≡ weigh c l + weigh c m
unfolding weigh
weigh-append c [] m = omega arith
weigh-append c (p ∷ l) m = let h = weigh-append c l m in omega (arith, h)

weigh-taken_out :
    (c : ℕ → ℕ) (i p : ℕ) (l m : List ℕ) → taken_out i l ≡ some (p, m) → weigh c l ≡ c p + weigh c m
unfolding weigh taken_out
weigh-taken_out c i p [] m h = cc
weigh-taken_out c zero p (q ∷ l) m h = ground (arith, h)
weigh-taken_out c (suc i) p (q ∷ l) m h = elim (Option-cases (taken_out i l)) [
  | inl e ↦ absurd (cc (rw e at h))
  | inr (r, e) ↦
      let sum = weigh-taken_out c i r.0 l r.1 e in
      let same : ◌≡◌ {A = Option (ℕ × List ℕ)} (some (r.0, q ∷ r.1)) (some (p, m)) = rw e at h in
      let first : r.0 ≡ p = cc in
      let rest : q ∷ r.1 ≡ m = cc in
      subst (λ n. c q + weigh c l ≡ c p + weigh c n) rest (ground (arith, sum, first))
]

abbrev pub one : ℕ → ℕ
one p = 1

-- All tasks of a pool, wherever they are.
abbrev pub total : (ℕ → ℕ) → Pool → ℕ
total c w = weigh c w.unsent + weigh c w.channel + weigh c w.busy + weigh c w.finished

-- The steps that are left: each task is sent, taken and finished.
abbrev pub steps_left : Pool → ℕ
steps_left w = 3 * weigh one w.unsent + 2 * weigh one w.channel + weigh one w.busy

abbrev pub left : Pool → ℕ
left w = weigh one w.unsent + weigh one w.channel + weigh one w.busy

-- A step loses no task and adds none, and is one of those that were left.
pub record Moves (w w' : Pool) : Type 0 where
  pub same_total : (c : ℕ → ℕ) → total c w' ≡ total c w
  pub counted : w.waited ≡ left w → w'.waited ≡ left w'
  pub hands : w'.idle + weigh one w'.busy ≡ w.idle + weigh one w.busy
  pub room : w'.capacity ≡ w.capacity
  pub fewer : suc (steps_left w') ≡ steps_left w

sends-Moves : (w w' : Pool) → send_work w ≡ some w' → Moves w w'
unfolding send_work weigh
sends-Moves w w' x = by_list w.unsent refl
  where
    by_list : (l : List ℕ) → w.unsent ≡ l → Moves w w'
    by_list [] e = absurd (cc (rw e at x))
    by_list (p ∷ l) e = elim (Bool-cases (ltb (size w.channel) w.capacity)) [
      | inr b ↦ absurd (cc (rw (e, b) at x))
      | inl b ↦
          let done : Pool = record w { unsent = l; channel = w.channel ++ p ∷ [] } in
          let same : done ≡ w' = cc (rw (e, b) at x) in
          subst (Moves w) same (record {
            same_total = λ c. let h = weigh-append c w.channel (p ∷ []) in ground (arith, h, e);
            counted = λ g. let h = weigh-append one w.channel (p ∷ []) in ground (arith, h, e, g);
            hands = refl;
            room = refl;
            fewer = let h = weigh-append one w.channel (p ∷ []) in ground (arith, h, e);
          })
    ]

takes-Moves : (w w' : Pool) → take_work w ≡ some w' → Moves w w'
unfolding take_work weigh
takes-Moves w w' x = by_list w.channel w.idle refl refl
  where
    by_list : (l : List ℕ) (n : ℕ) → w.channel ≡ l → w.idle ≡ n → Moves w w'
    by_list [] n e f = absurd (cc (rw e at x))
    by_list (p ∷ l) zero e f = absurd (cc (rw (e, f) at x))
    by_list (p ∷ l) (suc n) e f =
        let done : Pool = record w { channel = l; idle = n; busy = p ∷ w.busy } in
        let same : done ≡ w' = cc (rw (e, f) at x) in
        subst (Moves w) same (record {
          same_total = λ c. ground (arith, e);
          counted = λ g. ground (arith, e, g);
          hands = ground (arith, f);
          room = refl;
          fewer = ground (arith, e);
        })

finishes-Moves : (i : ℕ) (w w' : Pool) → finish_work i w ≡ some w' → Moves w w'
unfolding finish_work weigh
finishes-Moves i w w' x = elim (Option-cases (taken_out i w.busy)) [
  | inl e ↦ absurd (cc (rw (e, finish_work) at x))
  | inr (r, e) ↦
      let done : Pool = record w {
        busy = r.1;
        idle = suc w.idle;
        finished = w.finished ++ r.0 ∷ [];
        waited = w.waited - 1;
      } in
      let same : done ≡ w' = cc (rw (e, finish_work) at x) in
      subst (Moves w) same (record {
        same_total = λ c.
            let h = weigh-append c w.finished (r.0 ∷ []) in
            let g = weigh-taken_out c i r.0 w.busy r.1 e in ground (arith, h, g);
        counted = λ g. let h = weigh-taken_out one i r.0 w.busy r.1 e in ground (arith, h, g);
        hands = let h = weigh-taken_out one i r.0 w.busy r.1 e in ground (arith, h);
        room = refl;
        fewer = let h = weigh-taken_out one i r.0 w.busy r.1 e in ground (arith, h);
      })
]

pub Step-Moves : (w w' : Pool) → Step w w' → Moves w w'
Step-Moves w w' (sends _ _ x) = sends-Moves w w' x
Step-Moves w w' (takes _ _ x) = takes-Moves w w' x
Step-Moves w w' (finishes i _ _ x) = finishes-Moves i w w' x
