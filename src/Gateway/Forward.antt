-- ===== src/Gateway/Forward.antt =====
-- apps/gateway/src/routes/cacheRoutes.ts: a request is tried on the nodes of its key in ring order. The
-- request to a node is a function of the node: its answer, or what it throws.
use distributive_cache.Base.{
  ℕ, ◌≡◌, refl, ◌⊎◌, inl, inr, none, some, List, [], ◌∷◌, ◌++◌, arith, Bool, true, false,
  text_keyed, Bool-cases, Option-cases, All, if◌then◌else◌, ap, ◌∙◌,
}
use distributive_cache.Base.Dict
use distributive_cache.Shared.{
  CacheKey, NodeId, NodeInfo, NodeStatus, joining, healthy, suspect, dead, leaving,
}
use distributive_cache.Shared.Errors.{
  Result, ok, err, Thrown, flow, key_not_found, no_healthy_nodes,
}
use distributive_cache.Ring.{Ring, get_nodes_for_key}

abbrev pub is_dead : NodeStatus → Bool
is_dead dead = true
is_dead joining = false
is_dead healthy = false
is_dead suspect = false
is_dead leaving = false

-- The known nodes of some ids that are not dead, in order.
unfoldable pub usable_nodes : Ring → List NodeId → List NodeInfo
usable_nodes r [] = []
usable_nodes r (id ∷ ids) =
    let rest = usable_nodes r ids in
    elim (Dict.get id r.nodes) [
      | none ↦ rest
      | some info ↦ if is_dead info.status then rest else info ∷ rest
    ]

-- `err instanceof KeyNotFoundError`.
abbrev pub is_missing_key : Thrown → Bool
is_missing_key (flow (key_not_found _)) = true
is_missing_key _ = false

module _ {T : Type 0} (action : NodeInfo → Result T) where
  -- The loop over the candidates, with the last error; the nodes that were asked are the second part.
  unfoldable pub try_nodes : List NodeInfo → Thrown → Result T × List NodeInfo
  try_nodes [] last = (err last, [])
  try_nodes (n ∷ ns) last = elim (action n) [
    | ok body ↦ (ok body, n ∷ [])
    | err e ↦
        let rest = try_nodes ns e in
        if is_missing_key e then (err e, n ∷ []) else (rest.0, n ∷ rest.1)
  ]

  unfoldable pub forward_with_failover : Ring → ℕ → CacheKey → Result T × List NodeInfo
  forward_with_failover r replication_factor key =
      try_nodes (usable_nodes r (get_nodes_for_key r key replication_factor))
        (flow no_healthy_nodes)

  -- The request fails at the node in a way that lets the next one be tried.
  abbrev pub FailsOver : NodeInfo → Type 0
  FailsOver n = (e : Thrown) × (action n ≡ err e) × (is_missing_key e ≡ false)

  -- An answer, or the error that the key does not exist.
  abbrev pub is_final : Result T → Bool
  is_final (ok body) = true
  is_final (err e) = is_missing_key e

  -- The error of the last of some nodes, or an error that was there before.
  abbrev pub last_error : List NodeInfo → Thrown → Thrown
  last_error [] e = e
  last_error (n ∷ ns) e = elim (action n) [ ok body ↦ last_error ns e | err e' ↦ last_error ns e' ]

  try_one :
      (n : NodeInfo) (ns : List NodeInfo) (last : Thrown)
      → is_final (action n) ≡ true
      → try_nodes (n ∷ ns) last ≡ (action n, n ∷ [])
  unfolding try_nodes
  try_one n ns last f = ground arith

  try_next :
      (n : NodeInfo) (ns : List NodeInfo) (last e : Thrown)
      → action n ≡ err e
      → is_missing_key e ≡ false
      → try_nodes (n ∷ ns) last ≡ ((try_nodes ns e).0, n ∷ (try_nodes ns e).1)
  unfolding try_nodes
  try_next n ns last e a m = rw (a, m, try_nodes) refl

  try_nodes-first :
      (before : List NodeInfo) (n : NodeInfo) (after : List NodeInfo) (last : Thrown)
      → All FailsOver before
      → is_final (action n) ≡ true
      → try_nodes (before ++ (n ∷ after)) last ≡ (action n, before ++ (n ∷ []))
  try_nodes-first [] n after last f final = try_one n after last final
  try_nodes-first (b ∷ before) n after last ((e, a, m), f) final =
      try_next b (before ++ (n ∷ after)) last e a m
      ∙ ap (λ r. (r.0, b ∷ r.1)) (try_nodes-first before n after e f final)

  try_nodes-exhausted :
      (ns : List NodeInfo) (last : Thrown)
      → All FailsOver ns
      → try_nodes ns last ≡ (err (last_error ns last), ns)
  unfolding try_nodes
  try_nodes-exhausted [] last f = refl
  try_nodes-exhausted (n ∷ ns) last ((e, a, m), f) =
      try_next n ns last e a m
      ∙ ap (λ r. (r.0, n ∷ r.1)) (try_nodes-exhausted ns e f)
      ∙ rw (a, last_error) refl

  result_cases :
      (r : Result T)
      → (is_final r ≡ true) ⊎ ((e : Thrown) × (r ≡ err e) × (is_missing_key e ≡ false))
  result_cases (ok body) = inl refl
  result_cases (err e) = elim (Bool-cases (is_missing_key e)) [
    | inl m ↦ inl m
    | inr m ↦ inr (e, refl, m)
  ]

  try_nodes-asks :
      (P : NodeInfo → Type 0) (ns : List NodeInfo) (last : Thrown)
      → All P ns
      → All P (try_nodes ns last).1
  unfolding try_nodes
  try_nodes-asks P [] last a = tt
  try_nodes-asks P (n ∷ ns) last (p, a) = elim (result_cases (action n)) [
    | inl final ↦ rw (try_one n ns last final) (p, tt)
    | inr (e, h, m) ↦ rw (try_next n ns last e h m) (p, try_nodes-asks P ns e a)
  ]

  -- In the ring, and not dead.
  abbrev pub IsUsable : Ring → NodeInfo → Type 0
  IsUsable r n = (id : NodeId) × (Dict.get id r.nodes ≡ some n) × (is_dead n.status ≡ false)

  usable_nodes-IsUsable : (r : Ring) (ids : List NodeId) → All (IsUsable r) (usable_nodes r ids)
  unfolding usable_nodes
  usable_nodes-IsUsable r [] = tt
  usable_nodes-IsUsable r (id ∷ ids) = elim (Option-cases (Dict.get id r.nodes)) [
    | inl absent ↦ rw (absent, usable_nodes) (usable_nodes-IsUsable r ids)
    | inr (info, held) ↦ elim (Bool-cases (is_dead info.status)) [
      | inl d ↦ rw (held, d, usable_nodes) (usable_nodes-IsUsable r ids)
      | inr d ↦ rw (held, d, usable_nodes) ((id, held, d), usable_nodes-IsUsable r ids)
    ]
  ]

  -- Every node that is asked is one of the ring's, and is not dead.
  pub forward-IsUsable :
      (r : Ring) (replication_factor : ℕ) (key : CacheKey)
      → All (IsUsable r) (forward_with_failover r replication_factor key).1
  unfolding forward_with_failover
  forward-IsUsable r replication_factor key =
      let ns = usable_nodes r (get_nodes_for_key r key replication_factor) in
      try_nodes-asks (IsUsable r) ns (flow no_healthy_nodes)
        (usable_nodes-IsUsable r (get_nodes_for_key r key replication_factor))

  -- The first usable node of the key whose request ends with an answer, or with the error that the key does
  -- not exist, decides the outcome: the nodes before it, which all failed otherwise, are asked in the order
  -- of the ring, and no node after it is asked.
  pub forward-first :
      (r : Ring) (replication_factor : ℕ) (key : CacheKey) (before : List NodeInfo) (n : NodeInfo)
      (after : List NodeInfo)
      → usable_nodes r (get_nodes_for_key r key replication_factor) ≡ before ++ (n ∷ after)
      → All FailsOver before
      → is_final (action n) ≡ true
      → forward_with_failover r replication_factor key ≡ (action n, before ++ (n ∷ []))
  unfolding forward_with_failover
  forward-first r replication_factor key before n after split f final =
      ap (λ ns. try_nodes ns (flow no_healthy_nodes)) split
      ∙ try_nodes-first before n after (flow no_healthy_nodes) f final

  -- If the request fails at all usable nodes, each is asked once, in the order of the ring, and the error is
  -- that of the last; without a usable node it is that there are no healthy nodes.
  pub forward-exhausted :
      (r : Ring) (replication_factor : ℕ) (key : CacheKey)
      → All FailsOver (usable_nodes r (get_nodes_for_key r key replication_factor))
      → let ns = usable_nodes r (get_nodes_for_key r key replication_factor) in
        forward_with_failover r replication_factor key
        ≡ (err (last_error ns (flow no_healthy_nodes)), ns)
  unfolding forward_with_failover
  forward-exhausted r replication_factor key f =
      try_nodes-exhausted (usable_nodes r (get_nodes_for_key r key replication_factor))
        (flow no_healthy_nodes) f
