-- ===== src/Shadow/Snapshot.antt =====
-- `validSnapshot` of shadow.go.
use mathlib.Core.Path.{subst}
use egress_router.Common.{
  ◌↔◌, sym, ℕ, zero, suc, ◌+◌, ◌/◌, ◌≤◌, ◌<◌, Bool, true, false, ◌&&◌, not, Option, none, some,
  List, [], ◌∷◌, ◌≡◌, ◌≢◌, refl, arith, lit, ◌==◌, nat_eq, text_eq, text_beq_iff, if◌then◌else◌,
  leb, ltb, length, All, ℤ, pos, negsuc,
}
use egress_router.Manager.Settings.{second}
use egress_router.Shadow.Defs.{Node, Snapshot}

-- `Limit`
abbrev pub limit : ℕ
limit = 50

-- The whole seconds of a duration, where it has one at least.
abbrev pub seconds_of : ℤ → Option ℕ
seconds_of (negsuc _) = none
seconds_of (pos ns) = if ltb ns second then none else some (ns / second)

-- A time that is not <= 0.
abbrev pub positive_time : ℤ → Option ℕ
positive_time (pos (suc n)) = some (suc n)
positive_time (pos zero) = none
positive_time (negsuc _) = none

-- t <= 0 || t > now || t < now-age, refused
abbrev pub is_recent : ℕ → ℕ → Option ℕ → Bool
is_recent now age none = false
is_recent now age (some t) = leb t now && leb now (t + age)

-- The validity: ValidUntilUnix <= now || ValidUntilUnix <= CreatedAtUnix, refused
abbrev pub is_open : ℕ → Option ℕ → Option ℕ → Bool
is_open now none until = false
is_open now (some created) none = false
is_open now (some created) (some until) = ltb now until && ltb created until

abbrev pub is_valid_node : ℕ → ℕ → Option Node → Bool
is_valid_node now age none = false
is_valid_node now age (some node) =
    node.schema_version == 1
    && (not (node.uri == []) && is_recent now age (positive_time node.last_success))

unfoldable pub valid_nodes : ℕ → ℕ → List (Option Node) → Bool
valid_nodes now age [] = true
valid_nodes now age (node ∷ nodes) = is_valid_node now age node && valid_nodes now age nodes

unfoldable pub valid_at : ℕ → ℕ → Snapshot → Bool
valid_at now age s =
    not (s.id == [])
    && ((s.profile == lit "server")
        && (ltb 0 (length s.nodes)
            && (leb (length s.nodes) limit
                && (is_recent now age (positive_time s.created_at)
                    && (is_open now (positive_time s.created_at) (positive_time s.valid_until)
                        && valid_nodes now age s.nodes)))))

-- `validSnapshot`; the sums stand where the code subtracts, which is the same over the integers.
unfoldable pub valid_snapshot : Option Snapshot → ℤ → ℕ → Bool
valid_snapshot s max_age now = elim (seconds_of max_age) [
  | none ↦ false
  | some age ↦ elim s [ none ↦ false | some snapshot ↦ valid_at now age snapshot ]
]

-- What a snapshot is checked for: a time that is not in the future and not older than the age.
pub record IsRecent (now age : ℕ) (t : ℤ) : Type 0 where
  pub time : ℕ
  pub known : t ≡ pos time
  pub begun : 1 ≤ time
  pub past : time ≤ now
  pub young : now ≤ time + age

pub record IsValidNode (now age : ℕ) (o : Option Node) : Type 0 where
  pub node : Node
  pub there : o ≡ some node
  pub version : node.schema_version ≡ 1
  pub named : node.uri ≢ []
  pub recent : IsRecent now age node.last_success

pub record IsValid (now age : ℕ) (s : Snapshot) : Type 0 where
  pub identified : s.id ≢ []
  pub server : s.profile ≡ lit "server"
  pub some_nodes : 1 ≤ length s.nodes
  pub few_nodes : length s.nodes ≤ limit
  pub recent : IsRecent now age s.created_at
  pub until : ℕ
  pub bounded : s.valid_until ≡ pos until
  pub open_now : now < until
  pub valid_nodes : All (IsValidNode now age) s.nodes

is_recent-IsRecent :
    (now age : ℕ) (t : ℤ) → is_recent now age (positive_time t) ≡ true → IsRecent now age t
is_recent-IsRecent now age (negsuc n) h = ground arith
is_recent-IsRecent now age (pos zero) h = ground arith
is_recent-IsRecent now age (pos (suc n)) h = record {
  time = suc n;
  known = refl;
  begun = omega arith;
  past = ground arith;
  young = ground arith;
}

node-IsValidNode :
    (now age : ℕ) (o : Option Node) → is_valid_node now age o ≡ true → IsValidNode now age o
node-IsValidNode now age none h = ground arith
node-IsValidNode now age (some node) h = record {
  node = node;
  there = refl;
  version = ground arith;
  named = λ e. ground (arith, e, text_beq_iff node.uri []);
  recent = is_recent-IsRecent now age node.last_success (ground arith);
}

nodes-All :
    (now age : ℕ) (nodes : List (Option Node))
    → valid_nodes now age nodes ≡ true
    → All (IsValidNode now age) nodes
unfolding valid_nodes
nodes-All now age [] h = tt
nodes-All now age (o ∷ nodes) h =
    (node-IsValidNode now age o (ground (arith, h)), nodes-All now age nodes (ground (arith, h)))

open-until :
    (now : ℕ) (c : Option ℕ) (t : ℤ)
    → is_open now c (positive_time t) ≡ true
    → (until : ℕ) × (t ≡ pos until) × (now < until)
open-until now none t h = ground arith
open-until now (some c) (negsuc n) h = ground arith
open-until now (some c) (pos zero) h = ground arith
open-until now (some c) (pos (suc n)) h = (suc n, refl, ground arith)

-- What a test of seven parts has passed.
parts :
    (a b c d e f g : Bool)
    → (a && (b && (c && (d && (e && (f && g)))))) ≡ true
    → (a ≡ true) × (b ≡ true) × (c ≡ true) × (d ≡ true) × (e ≡ true) × (f ≡ true) × (g ≡ true)
parts a b c d e f g h = ground arith

valid_at-IsValid : (now age : ℕ) (s : Snapshot) → valid_at now age s ≡ true → IsValid now age s
unfolding valid_at
valid_at-IsValid now age s h =
    let (a, b, c, d, e, f, g) =
      parts (not (s.id == [])) (s.profile == lit "server") (ltb 0 (length s.nodes))
        (leb (length s.nodes) limit) (is_recent now age (positive_time s.created_at))
        (is_open now (positive_time s.created_at) (positive_time s.valid_until))
        (valid_nodes now age s.nodes) h in
    let (until, u, o) = open-until now (positive_time s.created_at) s.valid_until f in
    record {
      identified = λ q. ground (arith, a, q, text_beq_iff s.id []);
      server = (text_beq_iff s.profile (lit "server")).0 b;
      some_nodes = ground (arith, c);
      few_nodes = ground (arith, d);
      recent = is_recent-IsRecent now age s.created_at e;
      until = until;
      bounded = u;
      open_now = o;
      valid_nodes = nodes-All now age s.nodes g;
    }

snapshot-IsValid :
    (o : Option Snapshot) (max_age : ℤ) (now : ℕ)
    → valid_snapshot o max_age now ≡ true
    → (s : Snapshot) × (age : ℕ) × (o ≡ some s)
      × (seconds_of max_age ≡ some age)
      × IsValid now age s
unfolding valid_snapshot
snapshot-IsValid o max_age now = by_age (seconds_of max_age) refl
  where
    by_snapshot : (age : ℕ) (x : Option Snapshot) → Bool
    by_snapshot age x = elim x [ none ↦ false | some snapshot ↦ valid_at now age snapshot ]

    checked :
        (age : ℕ) (x : Option Snapshot)
        → o ≡ x
        → seconds_of max_age ≡ some age
        → by_snapshot age x ≡ true
        → (s : Snapshot) × (age : ℕ) × (o ≡ some s)
          × (seconds_of max_age ≡ some age)
          × IsValid now age s
    checked age none e f h = ground arith
    checked age (some s) e f h = (s, age, e, f, valid_at-IsValid now age s h)

    by_age :
        (a : Option ℕ)
        → seconds_of max_age ≡ a
        → elim a as (λ _. Bool) [ none ↦ false | some age ↦ by_snapshot age o ] ≡ true
        → (s : Snapshot) × (age : ℕ) × (o ≡ some s)
          × (seconds_of max_age ≡ some age)
          × IsValid now age s
    by_age none f h = ground arith
    by_age (some age) f h = checked age o refl f h

-- The other direction.
IsRecent-is_recent :
    (now age : ℕ) (t : ℤ) → IsRecent now age t → is_recent now age (positive_time t) ≡ true
IsRecent-is_recent now age t r =
    subst (λ x. is_recent now age (positive_time x) ≡ true) (sym r.known)
      (at r.time r.begun r.past r.young)
  where
    at :
        (n : ℕ) → 1 ≤ n → n ≤ now → now ≤ n + age → is_recent now age (positive_time (pos n)) ≡ true
    at zero b p y = absurd (omega (arith, b))
    at (suc n) b p y = ground (arith, p, y)

IsValidNode-node :
    (now age : ℕ) (o : Option Node) → IsValidNode now age o → is_valid_node now age o ≡ true
IsValidNode-node now age o v =
    subst (λ x. is_valid_node now age x ≡ true) (sym v.there)
      (ground (
        arith,
        v.version,
        v.named,
        text_beq_iff v.node.uri [],
        IsRecent-is_recent now age v.node.last_success v.recent,
      ))

All-nodes :
    (now age : ℕ) (nodes : List (Option Node))
    → All (IsValidNode now age) nodes
    → valid_nodes now age nodes ≡ true
unfolding valid_nodes
All-nodes now age [] h = refl
All-nodes now age (o ∷ nodes) (v, h) =
    ground (arith, IsValidNode-node now age o v, All-nodes now age nodes h)

until-open :
    (now age until : ℕ) (c : ℤ)
    → IsRecent now age c
    → now < until
    → is_open now (positive_time c) (positive_time (pos until)) ≡ true
until-open now age zero c r o = absurd (omega (arith, o))
until-open now age (suc n) c r o =
    subst (λ x. is_open now (positive_time x) (some (suc n)) ≡ true) (sym r.known)
      (at r.time r.begun r.past)
  where
    at : (t : ℕ) → 1 ≤ t → t ≤ now → is_open now (positive_time (pos t)) (some (suc n)) ≡ true
    at zero b p = absurd (omega (arith, b))
    at (suc t) b p = ground (arith, p, o)

IsValid-valid_at : (now age : ℕ) (s : Snapshot) → IsValid now age s → valid_at now age s ≡ true
unfolding valid_at
IsValid-valid_at now age s v =
    let opened =
      subst (λ u. is_open now (positive_time s.created_at) (positive_time u) ≡ true) (sym v.bounded)
        (until-open now age v.until s.created_at v.recent v.open_now) in
    all_parts (not (s.id == [])) (s.profile == lit "server") (ltb 0 (length s.nodes))
      (leb (length s.nodes) limit) (is_recent now age (positive_time s.created_at))
      (is_open now (positive_time s.created_at) (positive_time s.valid_until))
      (valid_nodes now age s.nodes) (ground (arith, v.identified, text_beq_iff s.id []))
      ((text_beq_iff s.profile (lit "server")).1 v.server) (ground (arith, v.some_nodes))
      (ground (arith, v.few_nodes)) (IsRecent-is_recent now age s.created_at v.recent) opened
      (All-nodes now age s.nodes v.valid_nodes)
  where
    all_parts :
        (a b c d e f g : Bool)
        → a ≡ true
        → b ≡ true
        → c ≡ true
        → d ≡ true
        → e ≡ true
        → f ≡ true
        → g ≡ true
        → (a && (b && (c && (d && (e && (f && g)))))) ≡ true
    all_parts a b c d e f g p q r s t u v = ground (arith, p, q, r, s, t, u, v)

-- A snapshot that is good enough for an age.
abbrev pub IsValidFor : Option Snapshot → ℤ → ℕ → Type 0
IsValidFor o max_age now =
    (s : Snapshot) × (age : ℕ) × (o ≡ some s) × (seconds_of max_age ≡ some age) × IsValid now age s

-- A snapshot is accepted exactly if the age is a second at least, the snapshot has a name, the
-- profile server, from 1 to 50 nodes and a validity that ends in the future, and its time and the
-- times of its nodes, each of version 1 and with a URI, are positive, not in the future and not
-- older than the age.
pub valid_snapshot-IsValid :
    (o : Option Snapshot) (max_age : ℤ) (now : ℕ)
    → (valid_snapshot o max_age now ≡ true) ↔ IsValidFor o max_age now
unfolding valid_snapshot
valid_snapshot-IsValid o max_age now = (
  snapshot-IsValid o max_age now,
  λ (s, age, here, bounded, v). rw (valid_snapshot, bounded, here) (IsValid-valid_at now age s v),
)
