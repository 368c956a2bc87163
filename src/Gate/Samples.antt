-- ===== src/Gate/Samples.antt =====
-- What the tracker measures, and what it collects.
use native.Mathlib.Nat.{mod-eq_of_lt}
use zhenyi.Prelude.{
  ℕ, zero, suc, ◌+◌, ◌-◌, ◌%◌, ◌^◌, ◌≤◌, ◌<◌, ◌≡◌, refl, ap, sym, ◌∙◌, List, [], ◌∷◌, ◌++◌, Option,
  none, some, length, set, take, ltb, leb, ◌==◌, arith, Bool-cases, ◌⊎◌, subst, inl, inr,
  length-set, length-append, ltb→lt, ge_of_ltb, append-nil, append_assoc,
}
use zhenyi.Gate.Tracker.{
  Tracker, key_of, slot_of, record_send, complete, store_sample, get_and_reset_samples, max_rtt,
}

pub data Call : Type 0 where
  sends completes : ℕ → ℕ → ℕ → Call

unfoldable pub perform : Call → Tracker → Tracker
perform (sends session_id seq_id now) t = record_send t session_id seq_id now
perform (completes session_id seq_id now) t = (complete t session_id seq_id now).0

unfoldable pub cost_list : Option ℕ → List ℕ
cost_list none = []
cost_list (some cost) = cost ∷ []

unfoldable pub measured : Call → Tracker → List ℕ
measured (sends session_id seq_id now) t = []
measured (completes session_id seq_id now) t = cost_list (complete t session_id seq_id now).1

-- The tracker after some calls, with what the calls returned.
unfoldable pub perform_all : List Call → Tracker → Tracker × List ℕ
perform_all [] t = (t, [])
perform_all (c ∷ cs) t = let rest = perform_all cs (perform c t) in (rest.0, measured c t ++ rest.1)

-- The samples are the first measurements since the last reset.
pub record Collects (t : Tracker) (costs : List ℕ) : Type 0 where
  pub counted : t.sample_idx ≡ length costs
  pub stored : take (length costs) t.samples ≡ take t.max_samples costs
  pub room : length t.samples ≡ t.max_samples

take-set :
    (xs : List ℕ) (i v : ℕ) → i < length xs → take (i + 1) (set xs i v) ≡ take i xs ++ (v ∷ [])
take-set [] i v h = absurd (omega arith)
take-set (x ∷ xs) zero v h = refl
take-set (x ∷ xs) (suc i) v h =
    let e : suc i + 1 ≡ suc (i + 1) = omega arith in
    rw e (ap (λ ys. x ∷ ys) (take-set xs i v (omega arith)))

take_all : (n : ℕ) (xs : List ℕ) → length xs ≤ n → take n xs ≡ xs
take_all zero [] h = refl
take_all (suc n) [] h = refl
take_all zero (x ∷ xs) h = absurd (omega arith)
take_all (suc n) (x ∷ xs) h = ap (λ ys. x ∷ ys) (take_all n xs (omega arith))

take_more : (n : ℕ) (xs ys : List ℕ) → n ≤ length xs → take n (xs ++ ys) ≡ take n xs
take_more zero xs ys h = refl
take_more (suc n) [] ys h = absurd (omega arith)
take_more (suc n) (x ∷ xs) ys h = ap (λ zs. x ∷ zs) (take_more n xs ys (omega arith))

store_sample-Collects :
    (t : Tracker) (costs : List ℕ) (cost : ℕ)
    → length costs + 1 < 2 ^ 32
    → Collects t costs
    → Collects (store_sample t cost) (costs ++ (cost ∷ []))
unfolding store_sample
store_sample-Collects t costs cost small c =
    let n : length (costs ++ (cost ∷ [])) ≡ length costs + 1 = length-append costs (cost ∷ []) in
    let i = c.counted in
    let bump : (t.sample_idx + 1) % 2 ^ 32 ≡ length (costs ++ (cost ∷ [])) =
      rw (i, n) (mod-eq_of_lt small) in
    elim (Bool-cases (ltb t.sample_idx t.max_samples)) [
      | inl e ↦
          let lt : t.sample_idx < t.max_samples = ltb→lt t.sample_idx t.max_samples e in
          rw e (record {
            counted = bump;
            stored =
                rw (n, i)
                  (take-set t.samples (length costs) cost (omega (arith, i, lt, c.room))
                    ∙ (ap (λ xs. xs ++ (cost ∷ []))
                          (c.stored ∙ take_all t.max_samples costs (omega (arith, i, lt)))
                        ∙ sym (
                            take_all t.max_samples (costs ++ (cost ∷ []))
                              (omega (arith, i, lt, n)))));
            room = length-set t.samples t.sample_idx cost ∙ c.room;
          })
      | inr e ↦
          let ge : t.max_samples ≤ t.sample_idx = ge_of_ltb t.sample_idx t.max_samples e in
          rw e (record {
            counted = bump;
            stored = rw n (
                take_all (length costs + 1) t.samples (omega (arith, i, ge, c.room))
                ∙ (sym (take_all (length costs) t.samples (omega (arith, i, ge, c.room)))
                    ∙ (c.stored
                        ∙ sym (take_more t.max_samples costs (cost ∷ []) (omega (arith, i, ge))))));
            room = c.room;
          })
    ]

complete_cases :
    (t : Tracker) (session_id seq_id now : ℕ)
    → (complete t session_id seq_id now ≡ (t, none))
      ⊎ ((cost : ℕ) × (complete t session_id seq_id now ≡ (store_sample t cost, some cost)))
unfolding complete
complete_cases t session_id seq_id now =
    let slot = slot_of t seq_id in
    elim (Bool-cases (slot.req_key == key_of session_id seq_id)) [
      | inr e ↦ inl (rw e)
      | inl e ↦ elim (Bool-cases (slot.send_time == 0)) [
        | inl f ↦ inl (rw (e, f))
        | inr f ↦ elim (Bool-cases (leb now slot.send_time)) [
          | inl g ↦ inl (rw (e, f, g))
          | inr g ↦ elim (Bool-cases (ltb max_rtt (now - slot.send_time))) [
            | inl h ↦ inl (rw (e, f, g, h))
            | inr h ↦ inr (now - slot.send_time, rw (e, f, g, h))
          ]
        ]
      ]
    ]

perform-Collects :
    (call : Call) (t : Tracker) (costs : List ℕ)
    → length costs + 1 < 2 ^ 32
    → Collects t costs
    → Collects (perform call t) (costs ++ measured call t)
unfolding perform measured record_send cost_list
perform-Collects (sends session_id seq_id now) t costs small c =
    rw (append-nil costs) (record { counted = c.counted; stored = c.stored; room = c.room })
perform-Collects (completes session_id seq_id now) t costs small c =
    elim (complete_cases t session_id seq_id now) [
      | inl e ↦ subst (λ r. Collects r.0 (costs ++ cost_list r.1)) (sym e) (rw (append-nil costs) c)
      | inr (cost, e) ↦
          subst (λ r. Collects r.0 (costs ++ cost_list r.1)) (sym e)
            (store_sample-Collects t costs cost small c)
    ]

cost_list-short : (o : Option ℕ) → length (cost_list o) ≤ 1
unfolding cost_list
cost_list-short none = omega arith
cost_list-short (some cost) = omega arith

measured-short : (call : Call) (t : Tracker) → length (measured call t) ≤ 1
unfolding measured
measured-short (sends session_id seq_id now) t = omega arith
measured-short (completes session_id seq_id now) t =
    cost_list-short (complete t session_id seq_id now).1

perform_all-Collects :
    (calls : List Call) (t : Tracker) (costs : List ℕ)
    → length costs + length calls < 2 ^ 32
    → Collects t costs
    → Collects (perform_all calls t).0 (costs ++ (perform_all calls t).1)
unfolding perform_all
perform_all-Collects [] t costs small c = rw (append-nil costs) c
perform_all-Collects (call ∷ calls) t costs small c =
    let n = length-append costs (measured call t) in
    let short = measured-short call t in
    let next = perform-Collects call t costs (omega arith) c in
    rw (sym (append_assoc costs (measured call t) (perform_all calls (perform call t)).1)) (
      perform_all-Collects calls (perform call t) (costs ++ measured call t)
        (omega (arith, n, short)) next)

take_none : (n : ℕ) → take n (let xs : List ℕ = [] in xs) ≡ []
take_none zero = refl
take_none (suc n) = refl

store_sample-max_samples :
    (t : Tracker) (cost : ℕ) → (store_sample t cost).max_samples ≡ t.max_samples
unfolding store_sample
store_sample-max_samples t cost = elim (Bool-cases (ltb t.sample_idx t.max_samples)) [
  | inl e ↦ rw e
  | inr e ↦ rw e
]

perform-max_samples : (call : Call) (t : Tracker) → (perform call t).max_samples ≡ t.max_samples
unfolding perform record_send
perform-max_samples (sends session_id seq_id now) t = refl
perform-max_samples (completes session_id seq_id now) t =
    elim (complete_cases t session_id seq_id now) [
      | inl e ↦ ap (λ r. r.0.max_samples) e
      | inr (cost, e) ↦ ap (λ r. r.0.max_samples) e ∙ store_sample-max_samples t cost
    ]

perform_all-max_samples :
    (calls : List Call) (t : Tracker) → (perform_all calls t).0.max_samples ≡ t.max_samples
unfolding perform_all
perform_all-max_samples [] t = refl
perform_all-max_samples (call ∷ calls) t =
    perform_all-max_samples calls (perform call t) ∙ perform-max_samples call t

collected :
    (t : Tracker) (costs : List ℕ)
    → Collects t costs
    → (get_and_reset_samples t).1 ≡ take t.max_samples costs
unfolding get_and_reset_samples
collected t costs c = elim (Bool-cases (ltb t.max_samples t.sample_idx)) [
  | inl e ↦
      let lt : t.max_samples < t.sample_idx = ltb→lt t.max_samples t.sample_idx e in
      let i = c.counted in
      rw e (
        take_all t.max_samples t.samples (omega (arith, c.room))
        ∙ (sym (take_all (length costs) t.samples (omega (arith, i, lt, c.room))) ∙ c.stored))
  | inr e ↦ rw (e, c.counted) c.stored
]

-- On a tracker with room for as many samples as its limit, and with fewer than `2 ^ 32` calls
-- between two resets, the samples are what `Complete` returned between them, in that order, cut off
-- at the limit; nothing of an earlier interval shows.
pub get_and_reset_samples-perform_all :
    (t : Tracker) (calls : List Call)
    → length t.samples ≡ t.max_samples
    → length calls < 2 ^ 32
    → (get_and_reset_samples (perform_all calls (get_and_reset_samples t).0).0).1
      ≡ take t.max_samples (perform_all calls (get_and_reset_samples t).0).1
unfolding get_and_reset_samples
get_and_reset_samples-perform_all t calls room small =
    let start : Tracker = record t { sample_idx = 0 } in
    let c : Collects start [] = record {
      counted = refl;
      stored = sym (take_none t.max_samples);
      room = room;
    } in
    let done = perform_all-Collects calls start [] (omega arith) c in
    collected (perform_all calls start).0 (perform_all calls start).1 done
    ∙ ap (λ n. take n (perform_all calls start).1) (perform_all-max_samples calls start)
