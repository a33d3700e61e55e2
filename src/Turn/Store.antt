-- ===== src/Turn/Store.antt =====
-- The turn store of src/orchestration/inboundTurnCore.ts over the Redis calls that it uses. Redis is
-- not part of the repository: it is a record of operations with the laws of its documentation. A
-- key is a constructor for each of the three key texts, and a stored text is the number that it
-- prints, the only texts that are written.
use fiscal_mind_agent.Prelude.{
  ℕ, ◌≡◌, Bool, false, String, Option, none, some, is_some, or_else, str_eq, if◌then◌else◌,
}
use fiscal_mind_agent.Prelude.Int.{ℤ, pos, ◌+ℤ◌, ◌-ℤ◌, pos_part, leb_ℤ}

pub data Key : Type 0 where
  inflight_key last_key dirty_key : String → Key

abbrev pub same_key : Key → Key → Bool
same_key (inflight_key c) (inflight_key d) = str_eq c d
same_key (last_key c) (last_key d) = str_eq c d
same_key (dirty_key c) (dirty_key d) = str_eq c d
same_key _ _ = false

-- The number at a key, 0 if the key is not there.
abbrev pub counter : Option ℤ → ℤ
counter o = or_else o (pos 0)

pub record TurnRedis : Type 1 where
  pub Store : Type 0
  pub get : Key → Store → Option ℤ
  pub incr : Key → Store → ℤ × Store
  pub decr : Key → Store → ℤ × Store
  pub set_ex : Key → ℤ → ℕ → Store → Store
  pub expire : Key → ℕ → Store → Store
  pub del : Key → Store → Store
  -- The key's time to live runs out.
  pub lapse : Key → Store → Store
  pub incr_answer : (k : Key) (s : Store) → (incr k s).0 ≡ counter (get k s) +ℤ pos 1
  pub decr_answer : (k : Key) (s : Store) → (decr k s).0 ≡ counter (get k s) -ℤ pos 1
  pub get-incr :
      (j k : Key) (s : Store)
      → get j (incr k s).1 ≡ (if same_key j k then some (counter (get j s) +ℤ pos 1) else get j s)
  pub get-decr :
      (j k : Key) (s : Store)
      → get j (decr k s).1 ≡ (if same_key j k then some (counter (get j s) -ℤ pos 1) else get j s)
  pub get-set_ex :
      (j k : Key) (v : ℤ) (ttl : ℕ) (s : Store)
      → get j (set_ex k v ttl s) ≡ (if same_key j k then some v else get j s)
  pub get-expire : (j k : Key) (ttl : ℕ) (s : Store) → get j (expire k ttl s) ≡ get j s
  pub get-del : (j k : Key) (s : Store) → get j (del k s) ≡ (if same_key j k then none else get j s)
  pub get-lapse :
      (j k : Key) (s : Store) → get j (lapse k s) ≡ (if same_key j k then none else get j s)

pub record TurnReading : Type 0 where
  pub inflight : ℕ
  pub last_inbound_at : Option ℕ

-- The time that a stored number of ms stands for.
abbrev as_date : Option ℤ → Option ℕ
as_date none = none
as_date (some ms) = some (pos_part ms)

-- `createTurnStore(redis, ttlSeconds)`
module _ (redis : TurnRedis) (ttl : ℕ) where
  open redis use {Store, get, incr, decr, set_ex, expire, del}

  unfoldable pub mark_inbound_started : String → ℕ → Store → Store
  mark_inbound_started client now s =
      set_ex (last_key client) (pos now) ttl
        (expire (inflight_key client) ttl (incr (inflight_key client) s).1)

  unfoldable pub mark_inbound_finished : String → Store → Store
  mark_inbound_finished client s =
      let (n, s') = decr (inflight_key client) s in
      if leb_ℤ n (pos 0) then del (inflight_key client) s' else s'

  -- `Math.max(0, Number(inflight ?? '0') || 0)`
  unfoldable pub read : String → Store → TurnReading
  read client s = record {
    inflight = pos_part (counter (get (inflight_key client) s));
    last_inbound_at = as_date (get (last_key client) s);
  }

  unfoldable pub set_dirty : String → Store → Store
  set_dirty client s = set_ex (dirty_key client) (pos 1) ttl s

  unfoldable pub clear_dirty : String → Store → Store
  clear_dirty client s = del (dirty_key client) s

  unfoldable pub take_dirty : String → Store → Bool × Store
  take_dirty client s =
      let dirty = is_some (get (dirty_key client) s) in
      (dirty, if dirty then del (dirty_key client) s else s)
