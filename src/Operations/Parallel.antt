-- ===== src/Operations/Parallel.antt =====
-- The goroutines of `ProcessOnce`: the order in which they finish does not matter.
use brevyn_cloud.Base.{
  ℕ, ◌≡◌, ◌≢◌, refl, ap, sym, ◌∙◌, Bool, true, false, List, [], ◌∷◌, inl, inr, Bool-cases, text_eq,
  text_eq_sound, update_where,
}
use brevyn_cloud.Operations.{Operation, has_public_id, succeed, fail, mark_succeeded, mark_failed}
use brevyn_cloud.Operations.Runner.{OperationRecord, Outcome, done, error, process_claimed}

-- Two updates of different rows commute.
update_where_comm :
    (p q : Operation → Bool) (f g : Operation → Operation) (rows : List Operation)
    → ((op : Operation) → p (g op) ≡ p op)
    → ((op : Operation) → q (f op) ≡ q op)
    → ((op : Operation) → p op ≡ true → q op ≡ false)
    → update_where p f (update_where q g rows) ≡ update_where q g (update_where p f rows)
unfolding update_where
update_where_comm p q f g [] pg qf apart = refl
update_where_comm p q f g (x ∷ rows) pg qf apart =
    let rest = update_where_comm p q f g rows pg qf apart in
    elim (Bool-cases (p x)) [
      | inl e ↦ cc (rest, e, apart x e, qf x)
      | inr e ↦ elim (Bool-cases (q x)) [ inl h ↦ cc (rest, e, h, pg x) | inr h ↦ cc (rest, e, h) ]
    ]

-- What a finished claim writes: an update of the rows with its public id, which keeps public ids.
record Write (r : OperationRecord) (act : List Operation → List Operation) : Type 0 where
  set : Operation → Operation
  keeps : (op : Operation) → (set op).public_id ≡ op.public_id
  is_update : (rows : List Operation) → act rows ≡ update_where (has_public_id r.public_id) set rows

process_claimed-Write :
    (r : OperationRecord) (outcome : Outcome) (clock now : ℕ)
    → Write r (process_claimed r outcome clock now)
unfolding process_claimed mark_succeeded mark_failed succeed fail
process_claimed-Write r (done result) clock now = record {
  set = succeed result now;
  keeps = λ op. refl;
  is_update = λ rows. refl;
}
process_claimed-Write r (error e) clock now = record {
  set = fail _ _ _ now;
  keeps = λ op. refl;
  is_update = λ rows. refl;
}

-- Two claims with different public ids may finish in either order: the table is the same.
pub process_claimed_comm :
    (r s : OperationRecord) (a b : Outcome) (clock clock' now now' : ℕ) (rows : List Operation)
    → r.public_id ≢ s.public_id
    → process_claimed r a clock now (process_claimed s b clock' now' rows)
      ≡ process_claimed s b clock' now' (process_claimed r a clock now rows)
process_claimed_comm r s a b clock clock' now now' rows apart =
    let first = process_claimed-Write r a clock now in
    let second = process_claimed-Write s b clock' now' in
    simp (first.is_update, second.is_update)
      (update_where_comm _ _ first.set second.set rows
        (λ op. ap (λ i. text_eq i r.public_id) (second.keeps op))
        (λ op. ap (λ i. text_eq i s.public_id) (first.keeps op))
        (λ op hit. elim (Bool-cases (text_eq op.public_id s.public_id)) [
          | inl both ↦ absurd (apart (sym (text_eq_sound _ _ hit) ∙ text_eq_sound _ _ both))
          | inr other ↦ other
        ]))
