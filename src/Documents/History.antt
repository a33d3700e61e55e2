-- ===== src/Documents/History.antt =====
-- What holds of the checklist after any run of the agent's queries.
use fiscal_mind_agent.Prelude.{ℕ, ◌≡◌, refl, ◌∙◌, ◌⊎◌, inl, inr, String, List, [], ◌∷◌, All}
use fiscal_mind_agent.Documents.Table.{
  DocumentStatus, approved, stated, retired, ClientDocument, Table,
}
use fiscal_mind_agent.Documents.Life.{
  dismiss, need, need_held, reconsider, reconsider_held, claim, receive, receive_claimed, approve,
  reopen, state, retire_pending, retire_claimed, retire_collected, ◌⟶◌, ◌⟶*◌, here, next, ⟶*-trans,
  retire_approved, Step, Step-⟶*, Follows, follow, IsBorn, Evolves,
}
use fiscal_mind_agent.Documents.Agent.{AgentOp, apply}
use fiscal_mind_agent.Documents.Runs.{apply-Evolves}

-- The queries of one client in order, each with its time.
unfoldable pub run : String → List (ℕ × AgentOp) → Table → Table
run client [] t = t
run client ((now, op) ∷ ops) t = run client ops (apply now client op t)

Follows-trans : {a b c : ClientDocument} → Follows Step a b → Follows ◌⟶*◌ b c → Follows ◌⟶*◌ a c
Follows-trans f g =
    follow (g.same_id ∙ f.same_id) (g.same_client ∙ f.same_client) (g.same_type ∙ f.same_type)
      (g.same_birth ∙ f.same_birth) (⟶*-trans (Step-⟶* f.moved) g.moved)

IsBorn-trans : {b c : ClientDocument} → IsBorn Step b → Follows ◌⟶*◌ b c → IsBorn ◌⟶*◌ c
IsBorn-trans (inl s) g = inl (⟶*-trans (Step-⟶* s) g.moved)
IsBorn-trans (inr s) g = inr (⟶*-trans (Step-⟶* s) g.moved)

IsBorn-Evolves :
    (new later : Table) → All (IsBorn Step) new → Evolves ◌⟶*◌ new later → All (IsBorn ◌⟶*◌) later
IsBorn-Evolves [] later born e = e
IsBorn-Evolves (b ∷ bs) [] born e = absurd e
IsBorn-Evolves (b ∷ bs) (c ∷ cs) born e = (IsBorn-trans born.0 e.0, IsBorn-Evolves bs cs born.1 e.1)

Evolves-trans : (t u v : Table) → Evolves Step t u → Evolves ◌⟶*◌ u v → Evolves ◌⟶*◌ t v
Evolves-trans [] u v e f = IsBorn-Evolves u v e f
Evolves-trans (a ∷ t) [] v e f = absurd e
Evolves-trans (a ∷ t) (b ∷ u) [] e f = absurd f
Evolves-trans (a ∷ t) (b ∷ u) (c ∷ v) e f = (Follows-trans e.0 f.0, Evolves-trans t u v e.1 f.1)

Evolves-refl : (t : Table) → Evolves ◌⟶*◌ t t
Evolves-refl [] = tt
Evolves-refl (r ∷ rs) = (follow refl refl refl refl here, Evolves-refl rs)

-- After any queries of the planner and the verification for a client that has been kicked off, every row that was there is still there, at its
-- place, with the same id, client, type and creation time, and its status has moved along the
-- graph `⟶`; every further row was born pending or claimed and has moved along the graph since.
pub run-Evolves :
    (client : String) (ops : List (ℕ × AgentOp)) (t : Table) → Evolves ◌⟶*◌ t (run client ops t)
unfolding run
run-Evolves client [] t = Evolves-refl t
run-Evolves client ((now, op) ∷ ops) t =
    Evolves-trans t (apply now client op t) (run client ops (apply now client op t))
      (apply-Evolves now client op t) (run-Evolves client ops (apply now client op t))

-- The statuses that no query of the agent leaves, but for the retirement of an approved row.
abbrev pub IsSettled : DocumentStatus → DocumentStatus → Type 0
IsSettled approved t = (t ≡ approved) ⊎ (t ≡ retired)
IsSettled stated t = t ≡ stated
IsSettled retired t = t ≡ retired
IsSettled _ t = Unit

-- Where an edge can lead from a settled status.
abbrev Exit : DocumentStatus → DocumentStatus → Type 0
Exit approved u = u ≡ retired
Exit stated u = ⊥
Exit retired u = ⊥
Exit _ u = Unit

⟶-Exit : {t u : DocumentStatus} → t ⟶ u → Exit t u
⟶-Exit dismiss = tt
⟶-Exit need = tt
⟶-Exit need_held = tt
⟶-Exit reconsider = tt
⟶-Exit reconsider_held = tt
⟶-Exit claim = tt
⟶-Exit receive = tt
⟶-Exit receive_claimed = tt
⟶-Exit approve = tt
⟶-Exit reopen = tt
⟶-Exit state = tt
⟶-Exit retire_pending = tt
⟶-Exit retire_claimed = tt
⟶-Exit retire_collected = tt
⟶-Exit retire_approved = refl

IsSettled-refl : (s : DocumentStatus) → IsSettled s s
IsSettled-refl approved = inl refl
IsSettled-refl stated = refl
IsSettled-refl retired = refl
IsSettled-refl _ = tt

IsSettled-next : (s t u : DocumentStatus) → IsSettled s t → Exit t u → IsSettled s u
IsSettled-next approved t u (inl e) x = inr (rw e at x)
IsSettled-next approved t u (inr e) x = absurd (rw e at x)
IsSettled-next stated t u h x = absurd (rw h at x)
IsSettled-next retired t u h x = absurd (rw h at x)
IsSettled-next _ t u h x = tt

⟶*-IsSettled : {s t : DocumentStatus} → s ⟶* t → IsSettled s t
⟶*-IsSettled (here {s}) = IsSettled-refl s
⟶*-IsSettled (next {s} {t} {u} p e) = IsSettled-next s t u (⟶*-IsSettled p) (⟶-Exit e)

Follows-IsSettled : {r r' : ClientDocument} → Follows ◌⟶*◌ r r' → Follows IsSettled r r'
Follows-IsSettled f = follow f.same_id f.same_client f.same_type f.same_birth (⟶*-IsSettled f.moved)

IsBorn-IsSettled : (t : Table) → All (IsBorn IsSettled) t
IsBorn-IsSettled [] = tt
IsBorn-IsSettled (r ∷ rs) = (inl tt, IsBorn-IsSettled rs)

Evolves-IsSettled : (t u : Table) → Evolves ◌⟶*◌ t u → Evolves IsSettled t u
Evolves-IsSettled [] u e = IsBorn-IsSettled u
Evolves-IsSettled (r ∷ t) [] e = absurd e
Evolves-IsSettled (r ∷ t) (r' ∷ u) e = (Follows-IsSettled e.0, Evolves-IsSettled t u e.1)

-- No run of the agent's queries changes the status of a stated or a retired row, and an approved
-- row stays approved or becomes retired.
pub run-IsSettled :
    (client : String) (ops : List (ℕ × AgentOp)) (t : Table)
    → Evolves IsSettled t (run client ops t)
run-IsSettled client ops t = Evolves-IsSettled t (run client ops t) (run-Evolves client ops t)
