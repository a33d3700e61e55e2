-- ===== src/Decision/Result.antt =====
-- What the validators of src/agents/declarationOfCapital/decisionSchema.ts throw, one constructor for
-- each `throw`, and the chain of steps that may throw.
use fiscal_mind_agent.Prelude.{Bool, true, false, not, ◌≡◌, refl, String, Option, none, some}

pub data Rejection : Type 0 where
  no_evidence unknown_message quote_not_found : Rejection
  file_retires_nothing wrong_file_type not_one_instance : Rejection
  file_settles_nothing not_a_property_paper not_approved_file unknown_seller_kind : Rejection
  not_called_for_retirement not_called_for_addition : Rejection
  not_applicable target_twice not_resolvable already_not_required file_never_unneeded : Rejection
  approved_file_settles_nothing not_typed_row single_instance_only already_retired : Rejection
  no_instances bad_instance_name bad_paper too_many_instances : Rejection
  no_provider unknown_provider action_not_allowed keys_not_pending : Rejection
  two_messages freeform_outside_window template_hidden template_unknown : Rejection
  wrong_variable_count no_message : Rejection
  attestation_confirmed_before request_without_follow_up request_too_early : Rejection
  no_request_sent reply_predates_request : Rejection
  decline_with_extras collect_after_verification collect_without_tie collect_with_message :
      Rejection
  collect_with_fetch collect_with_request follow_up_with_tie bad_send_at : Rejection
  -- what the validators of the stated costs and vehicles throw
  bad_statement : String → Rejection

-- An answer is either accepted, with what it says, or the validator throws.
pub data Result {ℓ} (Said : Type ℓ) : Type ℓ where
  err : (why : Rejection) → Result Said
  ok : (said : Said) → Result Said

module _ {κ ℓ} {Later : Type κ} {Said : Type ℓ} where
  infixl 5 ◌>>=◌
  abbrev pub ◌>>=◌ : Result Said → (Said → Result Later) → Result Later
  err why >>= next = err why
  ok said >>= next = next said

module _ {κ} {Later : Type κ} where
  infixl 5 ◌>>◌
  abbrev pub ◌>>◌ : Result (Unit {0}) → Result Later → Result Later
  test >> next = test >>= λ _. next

-- `if (b) throw e`
abbrev pub reject_if : Bool → Rejection → Result (Unit {0})
reject_if true e = err e
reject_if false e = ok tt

-- A value that is looked up, or the error that it is missing.
abbrev pub found_or {ℓ} : {A : Type ℓ} → Option A → Rejection → Result A
found_or none e = err e
found_or (some a) e = ok a

-- A chain that succeeds: its first step said something, and the rest succeeds on it.
pub chain-ok {κ ℓ} :
    {Later : Type κ} {Said : Type ℓ} (step : Result Said) (next : Said → Result Later) {end : Later}
    → (step >>= next) ≡ ok end
    → (said : Said) × (next said ≡ ok end) × (step ≡ ok said)
chain-ok (err why) next done = cc
chain-ok (ok said) next done = (said, done, refl)

reject_if-eq-ok : (b : Bool) (e : Rejection) {u : Unit {0}} → reject_if b e ≡ ok u → b ≡ false
reject_if-eq-ok true e h = cc
reject_if-eq-ok false e h = refl

found_or-eq-ok {ℓ} :
    {A : Type ℓ} (o : Option A) (e : Rejection) {a : A} → found_or o e ≡ ok a → o ≡ some a
found_or-eq-ok none e h = cc
found_or-eq-ok (some x) e h = cc

pub ok-injective {ℓ} : {A : Type ℓ} {a b : A} → Result.ok a ≡ ok b → a ≡ b
ok-injective h = cc

-- What is left of a chain that succeeds, after a test that throws and after a lookup.
pub passed {ℓ} :
    {A : Type ℓ} (b : Bool) (e : Rejection) (m : Result A) {a : A}
    → (reject_if b e >> m) ≡ ok a
    → (b ≡ false) × (m ≡ ok a)
passed true e m h = absurd (cc h)
passed false e m h = (refl, h)

pub passed_not {ℓ} :
    {A : Type ℓ} (b : Bool) (e : Rejection) (m : Result A) {a : A}
    → (reject_if (not b) e >> m) ≡ ok a
    → (b ≡ true) × (m ≡ ok a)
passed_not true e m h = (refl, h)
passed_not false e m h = absurd (cc h)

pub looked_up {ℓ κ} :
    {A : Type ℓ} {B : Type κ} (o : Option A) (e : Rejection) (f : A → Result B) {b : B}
    → (found_or o e >>= f) ≡ ok b
    → (a : A) × (o ≡ some a) × (f a ≡ ok b)
looked_up none e f h = absurd (cc h)
looked_up (some a) e f h = (a, refl, h)
