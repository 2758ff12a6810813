-- ===== src/Eviction/Lru.antt =====
-- packages/eviction/src/LRU.ts: the doubly linked list of keys by recency, as a heap. A node is named by its
-- key, since the map holds at most one node for a key; `head` is the most recently used end.
pub mod Victim
use distributive_cache.Base.{
  ℕ, zero, suc, ◌+◌, ◌≡◌, Bool, true, false, ◌&&◌, Option, none, some, List, [], ◌∷◌, ◌++◌, ltb,
  leb, if◌then◌else◌, ite, length, includes, text_keyed, Text-discrete,
}
use distributive_cache.Base.Dict
use distributive_cache.Base.Dict.{Dict}
use distributive_cache.Shared.{CacheKey, CacheEntry}

pub record Node : Type 0 where
  pub prev : Option CacheKey
  pub next : Option CacheKey

pub record Lru : Type 0 where
  pub nodes : Dict CacheKey Node
  pub head : Option CacheKey
  pub tail : Option CacheKey

-- A map without nodes; `reset` gives it too.
abbrev pub empty_lru : Lru
empty_lru = record { nodes = []; head = none; tail = none }

abbrev pub fresh_node : Node
fresh_node = record { prev = none; next = none }

-- Writes to the fields of a node.
unfoldable pub set_next : CacheKey → Option CacheKey → Lru → Lru
set_next k v s = elim (Dict.get k s.nodes) [
  | none ↦ s
  | some n ↦ record s { nodes = Dict.set k (record n { next = v }) s.nodes }
]

unfoldable pub set_prev : CacheKey → Option CacheKey → Lru → Lru
set_prev k v s = elim (Dict.get k s.nodes) [
  | none ↦ s
  | some n ↦ record s { nodes = Dict.set k (record n { prev = v }) s.nodes }
]

-- `end === node`
unfoldable pub is_at : Option CacheKey → CacheKey → Bool
is_at none k = false
is_at (some j) k = ite (Text-discrete j k) true false

-- The two halves of `unlink`, for the node `n` of the key `k`.
unfoldable pub unlink_prev : CacheKey → Node → Lru → Lru
unlink_prev k n s = elim n.prev [
  | some p ↦ set_next p n.next s
  | none ↦ if is_at s.head k then record s { head = n.next } else s
]

unfoldable pub unlink_next : CacheKey → Node → Lru → Lru
unlink_next k n s = elim n.next [
  | some q ↦ set_prev q n.prev s
  | none ↦ if is_at s.tail k then record s { tail = n.prev } else s
]

unfoldable pub unlink : CacheKey → Node → Lru → Lru
unlink k n s = set_next k none (set_prev k none (unlink_next k n (unlink_prev k n s)))

-- The head's back pointer, in `pushFront`.
unfoldable pub link_head : CacheKey → Lru → Lru
link_head k s = elim s.head [ none ↦ s | some h ↦ set_prev h (some k) s ]

unfoldable pub push_front : CacheKey → Lru → Lru
push_front k s =
    let s' = link_head k (set_next k s.head (set_prev k none s)) in
    record s' { head = some k; tail = elim s'.tail [ none ↦ some k | some t ↦ some t ] }

unfoldable pub touch : CacheKey → Lru → Lru
touch k s = elim (Dict.get k s.nodes) [
  | some n ↦ push_front k (unlink k n s)
  | none ↦ push_front k (record s { nodes = Dict.set k fresh_node s.nodes })
]

unfoldable pub record_removal : CacheKey → Lru → Lru
record_removal k s = elim (Dict.get k s.nodes) [
  | none ↦ s
  | some n ↦ let s' = unlink k n s in record s' { nodes = Dict.delete k s'.nodes }
]

-- The walk of `leastRecentlyUsedCandidates` from the tail, `guard` nodes long at most.
unfoldable pub walk_back :
    Lru → List CacheKey → ℕ → ℕ → Option CacheKey → List CacheKey → List CacheKey
walk_back s candidates limit zero current result = result
walk_back s candidates limit (suc guard) current result = elim current [
  | none ↦ result
  | some k ↦ elim (ltb (length result) limit) [
    | false ↦ result
    | true ↦
        walk_back s candidates limit guard
          (elim (Dict.get k s.nodes) [ none ↦ none | some n ↦ n.prev ])
          (if includes k candidates then result ++ (k ∷ []) else result)
  ]
]

unfoldable pub least_recently_used : List CacheKey → ℕ → Lru → List CacheKey
least_recently_used candidates limit s =
    let walked = walk_back s candidates limit (length s.nodes + 1) s.tail [] in
    if leb limit 0 then [] else walked

unfoldable pub first_key : List CacheKey → Option CacheKey
first_key [] = none
first_key (k ∷ ks) = some k

unfoldable pub select_victim : List CacheKey → Lru → Option CacheKey
unfolding first_key
select_victim candidates s = first_key (least_recently_used candidates 1 s)

-- `entries.sort((a, b) => a.lastAccessedAt - b.lastAccessedAt)`, stable.
unfoldable pub insert_by_access :
    {V : Type 0} → CacheEntry V → List (CacheEntry V) → List (CacheEntry V)
insert_by_access e [] = e ∷ []
insert_by_access e (f ∷ fs) =
    if leb e.metadata.last_accessed_at f.metadata.last_accessed_at
    then e ∷ f ∷ fs
    else f ∷ insert_by_access e fs

unfoldable pub sort_by_access : {V : Type 0} → List (CacheEntry V) → List (CacheEntry V)
unfolding insert_by_access
sort_by_access [] = []
sort_by_access (e ∷ es) = insert_by_access e (sort_by_access es)

unfoldable pub touch_all : {V : Type 0} → List (CacheEntry V) → Lru → Lru
touch_all [] s = s
touch_all (e ∷ es) s = touch_all es (touch e.key s)

-- `seed` begins with a `reset`.
unfoldable pub seed : {V : Type 0} → List (CacheEntry V) → Lru
unfolding touch_all sort_by_access
seed entries = touch_all (sort_by_access entries) empty_lru

abbrev pub size : Lru → ℕ
size s = length s.nodes
