-- ===== src/Documents/Rows.antt =====
-- One client's row of an id, and the others, through the updates of one row
-- (src/db/queries/clientDocuments.ts).
use mathlib.Core.Path.{subst}
use fiscal_mind_agent.Prelude.{
  ℕ, Bool, true, false, not, ◌&&◌, ◌≡◌, refl, ap, ◌∙◌, String, Option, none, some, List, [], ◌∷◌,
  keep, map, first, if◌then◌else◌, if-cases, Bool-cases, inl, inr, arith,
}
use fiscal_mind_agent.Documents.Table.{
  ClientDocument, DocumentStatus, pending, claimed, collected, Table, is_row, is_one_of,
  update_where,
}
use fiscal_mind_agent.Documents.Queries.{update_one, set_verification, is_listed, mark_collected}

-- The rows of an id; a key has at most one.
abbrev pub rows : String → String → Table → List ClientDocument
rows id client t = keep (is_row id client) t

-- All other rows.
abbrev pub others : String → String → Table → List ClientDocument
others id client t = keep (λ r. not (is_row id client r)) t

keep-keep : (p q : ClientDocument → Bool) (t : Table) → keep (λ r. p r && q r) t ≡ keep q (keep p t)
keep-keep p q [] = refl
keep-keep p q (r ∷ t) = ground (arith, keep-keep p q t)

update_where-hit :
    (test : ClientDocument → Bool) (set : ClientDocument → ClientDocument) (t : Table)
    → (update_where test set t).1 ≡ map set (keep test t)
unfolding update_where
update_where-hit test set [] = refl
update_where-hit test set (r ∷ t) = elim (Bool-cases (test r)) [
  | inl hit ↦ rw hit (ap (λ l. set r ∷ l) (update_where-hit test set t))
  | inr miss ↦ rw miss (update_where-hit test set t)
]

-- A test that the update does not change keeps the same rows, each updated where it is hit.
update_where-keep :
    (test p : ClientDocument → Bool) (set : ClientDocument → ClientDocument)
    → ((r : ClientDocument) → p (set r) ≡ p r)
    → (t : Table)
    → keep p (update_where test set t).0 ≡ map (λ r. if test r then set r else r) (keep p t)
unfolding update_where
update_where-keep test p set same [] = refl
update_where-keep test p set same (r ∷ t) = elim (Bool-cases (test r)) [
  | inl hit ↦ elim (Bool-cases (p r)) [
    | inl kept ↦
        rw (hit, same r, kept) (rw hit (ap (λ l. set r ∷ l) (update_where-keep test p set same t)))
    | inr gone ↦ rw (hit, same r, gone) (update_where-keep test p set same t)
  ]
  | inr miss ↦ elim (Bool-cases (p r)) [
    | inl kept ↦ rw (miss, kept) (rw miss (ap (λ l. r ∷ l) (update_where-keep test p set same t)))
    | inr gone ↦ rw (miss, gone) (update_where-keep test p set same t)
  ]
]

pub keep-head :
    (p : ClientDocument → Bool) (t : Table) (r : ClientDocument) {rs : List ClientDocument}
    → keep p t ≡ r ∷ rs
    → p r ≡ true
keep-head p [] r h = absurd (cc h)
keep-head p (x ∷ t) r {rs} h = elim (Bool-cases (p x)) [
  | inl kept ↦
      let same : x ≡ r = ap (λ l. head_or x l) (rw kept at h) in subst (λ y. p y ≡ true) same kept
  | inr gone ↦ keep-head p t r (rw gone at h)
]
  where
    head_or : ClientDocument → List ClientDocument → ClientDocument
    head_or d [] = d
    head_or d (y ∷ ys) = y

-- An update of the rows of an id leaves the others.
others-same :
    (id client : String) (test : ClientDocument → Bool) (set : ClientDocument → ClientDocument)
    (t : Table)
    → map (λ r. if is_row id client r && test r then set r else r) (others id client t)
      ≡ others id client t
others-same id client test set [] = refl
others-same id client test set (r ∷ t) = elim (Bool-cases (is_row id client r)) [
  | inl own ↦ rw own (others-same id client test set t)
  | inr other ↦ rw other (rw other (ap (λ l. r ∷ l) (others-same id client test set t)))
]

-- What an update of the one row of an id does.
abbrev IsUpdated :
    String
    → String
    → Table
    → Table × Option ClientDocument
    → ClientDocument
    → Option ClientDocument
    → Type 0
IsUpdated id client t out now_row answer =
    (rows id client out.0 ≡ now_row ∷ [])
    × (out.1 ≡ answer)
    × (others id client out.0 ≡ others id client t)

module _ (id client : String) (set : ClientDocument → ClientDocument)
    (same : (r : ClientDocument) → is_row id client (set r) ≡ is_row id client r) (t : Table)
    (r : ClientDocument) (one : rows id client t ≡ r ∷ []) where
  pub update_one-IsUpdated :
      (from : List DocumentStatus)
      → IsUpdated id client t
          (update_one id client from set t)
          (if is_one_of from r.status then set r else r)
          (if is_one_of from r.status then some (set r) else none)
  unfolding update_one
  update_one-IsUpdated from =
      let own = keep-head (is_row id client) t r one in
      (
        update_where-keep (λ x. is_row id client x && is_one_of from x.status) (is_row id client)
              set same t
            ∙ rw (one, own) refl,
        ap first (
              update_where-hit (λ x. is_row id client x && is_one_of from x.status) set t
              ∙ ap (map set) (
                  keep-keep (is_row id client) (λ x. is_one_of from x.status) t
                  ∙ ap (keep (λ x. is_one_of from x.status)) one))
            ∙ first_of (is_one_of from r.status),
        update_where-keep (λ x. is_row id client x && is_one_of from x.status)
              (λ x. not (is_row id client x)) set (λ x. ap not (same x)) t
            ∙ others-same id client (λ x. is_one_of from x.status) set t,
      )
    where
      first_of :
          (b : Bool)
          → first (map set (if b then r ∷ [] else [])) ≡ (if b then some (set r) else none)
      first_of true = refl
      first_of false = refl

-- Where the id has no row, nothing is updated.
update_one-none :
    (id client : String) (set : ClientDocument → ClientDocument) (from : List DocumentStatus)
    (t : Table)
    → rows id client t ≡ []
    → (update_one id client from set t).1 ≡ none
unfolding update_one
update_one-none id client set from t empty = ap first (
    update_where-hit (λ x. is_row id client x && is_one_of from x.status) set t
    ∙ ap (map set) (
        keep-keep (is_row id client) (λ x. is_one_of from x.status) t
        ∙ ap (keep (λ x. is_one_of from x.status)) empty))

-- `setVerification` on the one row of an id.
pub set_verification-IsUpdated :
    (now : ℕ) (id client verdict : String) (t : Table) (r : ClientDocument)
    → rows id client t ≡ r ∷ []
    → IsUpdated id client t
        (set_verification now id client verdict t)
        (record r { verification = some verdict; updated_at = now })
        (some (record r { verification = some verdict; updated_at = now }))
unfolding set_verification
set_verification-IsUpdated now id client verdict t r one =
    let set : ClientDocument → ClientDocument =
      λ x. record x { verification = some verdict; updated_at = now } in
    let own = keep-head (is_row id client) t r one in
    (
      update_where-keep (is_row id client) (is_row id client) set (λ x. refl) t
          ∙ rw (one, own) refl,
      ap first (update_where-hit (is_row id client) set t ∙ ap (map set) one),
      update_where-keep (is_row id client) (λ x. not (is_row id client x)) set (λ x. refl) t
          ∙ only_own t,
    )
  where
    only_own :
        (l : Table)
        → map
            (λ x.
              if is_row id client x
              then record x { verification = some verdict; updated_at = now }
              else x)
            (others id client l)
          ≡ others id client l
    only_own [] = refl
    only_own (x ∷ l) = elim (Bool-cases (is_row id client x)) [
      | inl own ↦ rw own (only_own l)
      | inr other ↦ rw other (rw other (ap (λ k. x ∷ k) (only_own l)))
    ]

-- `markCollected` on the one row of an id keeps the record of its checks.
pub mark_collected-rows :
    (now : ℕ) (client id : String) (t : Table) (r : ClientDocument)
    → rows id client t ≡ r ∷ []
    → (c : ClientDocument) × (rows id client (mark_collected now client (id ∷ []) t) ≡ c ∷ [])
      × (c.verification ≡ r.verification)
unfolding mark_collected
mark_collected-rows now client id t r one =
    let test : ClientDocument → Bool = is_listed client (id ∷ []) (pending ∷ claimed ∷ []) in
    let set : ClientDocument → ClientDocument =
      λ x. record x { status = collected; updated_at = now } in
    (
      if test r then set r else r,
      update_where-keep test (is_row id client) set (λ x. refl) t
          ∙ ap (map (λ x. if test x then set x else x)) one,
      if-cases (λ (c : ClientDocument). c.verification ≡ r.verification) (test r) (λ _. refl)
          (λ _. refl),
    )
