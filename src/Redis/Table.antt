-- ===== src/Redis/Table.antt =====
-- A server in memory that meets the laws: the latest write of a key comes first.
use inite_auth_service.Common.{
  ℕ, String, List, [], ◌∷◌, Option, none, some, Bool, true, false, not, ◌≡◌, refl, ◌≤◌, ◌+◌, ◌*◌,
  ltb, ◌==◌, if◌then◌else◌, is_some, sym, ◌∙◌, ap, eq_iff, find_first, select, arith, eq_self,
  eq_false, Bool-cases, inl, inr,
}
use inite_auth_service.Redis.{Redis, RedisLaws}

pub record Entry : Type 0 where
  pub key : String
  pub value : String
  pub until : ℕ

abbrev pub Memory : Type 0
Memory = List Entry

abbrev at_key : String → Entry → Bool
at_key key e = e.key == key

abbrev live : ℕ → Option Entry → Option String
live now none = none
live now (some e) = if ltb now e.until then some e.value else none

abbrev table_get : ℕ → String → Memory → Option String
table_get now key s = live now (find_first (at_key key) s)

abbrev table_set : ℕ → String → String → ℕ → Memory → Memory
table_set now key value ttl s = record { key = key; value = value; until = now + ttl * 1000 } ∷ s

abbrev table_del : String → Memory → Memory
table_del key s = select (λ e. not (at_key key e)) s

abbrev pub table_redis : Redis Memory
table_redis = record {
  get = table_get;
  set = table_set;
  set_if_absent = λ now key value ttl s.
      if is_some (table_get now key s) then (s, false) else (table_set now key value ttl s, true);
  get_del = λ now key s. (table_del key s, table_get now key s);
  del = table_del;
}

find-del : (key : String) (s : Memory) → find_first (at_key key) (table_del key s) ≡ none
find-del key [] = refl
find-del key (e ∷ s) = elim (Bool-cases (at_key key e)) [
  | inl same ↦ rw same (find-del key s)
  | inr other ↦ rw other (rw other (find-del key s))
]

live-later :
    (now later : ℕ) (found : Option Entry)
    → now ≤ later
    → live now found ≡ none
    → live later found ≡ none
live-later now later none h e = refl
live-later now later (some entry) h e = ground arith

find-del-other :
    (key other : String) (s : Memory)
    → (key ≡ other → ⊥)
    → find_first (at_key other) (table_del key s) ≡ find_first (at_key other) s
find-del-other key other [] h = refl
find-del-other key other (e ∷ s) h = elim (Bool-cases (at_key key e)) [
  | inl same ↦
      rw (same, eq_false e.key other (λ k. h (sym ((eq_iff e.key key).0 same) ∙ k)))
        (find-del-other key other s h)
  | inr apart ↦ elim (Bool-cases (at_key other e)) [
    | inl named ↦ rw apart (rw named refl)
    | inr passed ↦ rw apart (rw passed (find-del-other key other s h))
  ]
]

pub table_redis_laws : RedisLaws table_redis
table_redis_laws = record {
  get-set = λ now later ttl key value s positive. rw (eq_self key) refl;
  get-set-other = λ now later ttl key other value s h. rw (eq_false key other h) refl;
  get-del = λ now key s. ap (live now) (find-del key s);
  get-del-other = λ now key other s h. ap (live now) (find-del-other key other s h);
  get-later = λ now later key s e h. live-later now later (find_first (at_key key) s) e h;
  set_if_absent-none = λ now ttl key value s h. rw h refl;
  set_if_absent-some = λ now ttl key value held s h. rw h refl;
  get_del_lem = λ now key s. refl;
}
