-- ===== src/Shared/Config/Services.antt =====
-- The configurations of the services, of packages/shared/src/config.ts: `env` is the environment and `number` is
-- `Number(text)`, `none` for NaN; `number_of` is the same with NaN as a number.
use distributive_cache.Base.{
  ◌≡◌, refl, ◌∙◌, sym, ap, arith, ℕ, Bool, true, Option, none, some, List, [], ◌∷◌, ◌++◌, Text,
}
use distributive_cache.Shared.Errors.{Result, ok, err, codes}
use distributive_cache.Shared.Numbers.{Numbers}
use distributive_cache.Shared.Config.{
  and_then, present, read_string, read_number, read_boolean, read_list, StaticNodeEntry,
  parse_static_nodes,
}

and_then-ok :
    {A B : Type 0} (r : Result A) (f : A → Result B) (b : B)
    → and_then r f ≡ ok b
    → (a : A) × (r ≡ ok a) × (f a ≡ ok b)
unfolding and_then
and_then-ok (ok a) f b h = (a, refl, h)
and_then-ok (err t) f b h = cc

pub record CacheNodeConfig (F : Type 0) : Type 0 where
  pub node_id : Text
  pub host : Text
  pub port : F
  pub weight : F
  pub max_memory_bytes : F
  pub default_ttl_ms : Option F
  pub virtual_node_count : F
  pub snapshot_interval_ms : F
  pub snapshot_directory : Text
  pub snapshot_compress : Bool
  pub kafka_brokers : List Text
  pub kafka_client_id : Text
  pub kafka_consumer_group : Text
  pub worker_pool_size : F
  pub gateway_url : Text
  pub seed_nodes : List Text
  pub static_nodes : List (StaticNodeEntry F)

pub record GatewayConfig (F : Type 0) : Type 0 where
  pub port : F
  pub host : Text
  pub virtual_node_count : F
  pub health_check_interval_ms : F
  pub health_check_timeout_ms : F
  pub suspect_after_misses : F
  pub dead_after_misses : F
  pub static_nodes : List (StaticNodeEntry F)

pub record BenchmarkConfig (F : Type 0) : Type 0 where
  pub target_base_url : Text
  pub duration_ms : F
  pub concurrency : F
  pub keyspace_size : F
  pub report_directory : Text

abbrev pub default_static_nodes : Text
default_static_nodes =
    codes "node-1:cache-node-1:4001:1,node-2:cache-node-2:4001:1,node-3:cache-node-3:4001:1"

module _ {F : Type 0} (n : Numbers F) (env : Text → Option Text) (number : Text → Option F)
    (number_of : Text → F) where
  abbrev pub text_or : Text → Text → Result Text
  text_or key fallback = read_string env key (some fallback)

  abbrev pub number_or : Text → ℕ → Result F
  number_or key fallback = read_number env number key (some (n.of_nat fallback))

  -- `process.env[key] ? readNumber(key) : null`
  unfoldable pub number_or_null : Text → Result (Option F)
  number_or_null key = elim (present (env key)) [
    | none ↦ ok none
    | some v ↦ and_then (read_number env number key none) (λ x. ok (some x))
  ]

  unfoldable pub read_static_nodes : Result (List (StaticNodeEntry F))
  read_static_nodes =
      and_then (text_or (codes "STATIC_NODES") default_static_nodes)
        (parse_static_nodes number_of (n.of_nat 1))

  unfoldable pub load_cache_node_config : Result (CacheNodeConfig F)
  load_cache_node_config = and_then (read_string env (codes "NODE_ID") none) (λ node_id.
      and_then (text_or (codes "HOST") (codes "0.0.0.0")) (λ host.
        and_then (number_or (codes "PORT") 4001) (λ port.
          and_then (number_or (codes "NODE_WEIGHT") 1) (λ weight.
            and_then (number_or (codes "MAX_MEMORY_BYTES") 134217728) (λ max_memory_bytes.
              and_then (number_or_null (codes "DEFAULT_TTL_MS")) (λ default_ttl_ms.
                and_then (number_or (codes "VIRTUAL_NODE_COUNT") 128) (λ virtual_node_count.
                  and_then (number_or (codes "SNAPSHOT_INTERVAL_MS") 60000) (λ interval_ms.
                    and_then (text_or (codes "SNAPSHOT_DIR") (codes "/data/snapshots/" ++ node_id))
                      (λ directory.
                        and_then (text_or (codes "KAFKA_CLIENT_ID") (codes "flowcache-" ++ node_id))
                          (λ client_id.
                            and_then
                              (text_or (codes "KAFKA_CONSUMER_GROUP")
                                (codes "flowcache-node-group"))
                              (λ consumer_group.
                                and_then (number_or (codes "WORKER_POOL_SIZE") 4)
                                  (λ worker_pool_size.
                                    and_then
                                      (text_or (codes "GATEWAY_URL") (codes "http://gateway:4000"))
                                      (λ gateway_url. and_then read_static_nodes (λ static_nodes.
                                        ok (record {
                                          node_id = node_id;
                                          host = host;
                                          port = port;
                                          weight = weight;
                                          max_memory_bytes = max_memory_bytes;
                                          default_ttl_ms = default_ttl_ms;
                                          virtual_node_count = virtual_node_count;
                                          snapshot_interval_ms = interval_ms;
                                          snapshot_directory = directory;
                                          snapshot_compress =
                                              read_boolean env (codes "SNAPSHOT_COMPRESS") true;
                                          kafka_brokers =
                                              read_list env (codes "KAFKA_BROKERS")
                                                (codes "localhost:9092" ∷ []);
                                          kafka_client_id = client_id;
                                          kafka_consumer_group = consumer_group;
                                          worker_pool_size = worker_pool_size;
                                          gateway_url = gateway_url;
                                          seed_nodes = read_list env (codes "SEED_NODES") [];
                                          static_nodes = static_nodes;
                                        })))))))))))))))

  unfoldable pub load_gateway_config : Result (GatewayConfig F)
  load_gateway_config = and_then read_static_nodes (λ static_nodes.
      and_then (number_or (codes "PORT") 4000) (λ port.
        and_then (text_or (codes "HOST") (codes "0.0.0.0")) (λ host.
          and_then (number_or (codes "VIRTUAL_NODE_COUNT") 128) (λ virtual_node_count.
            and_then (number_or (codes "HEALTH_CHECK_INTERVAL_MS") 5000) (λ interval_ms.
              and_then (number_or (codes "HEALTH_CHECK_TIMEOUT_MS") 2000) (λ timeout_ms.
                and_then (number_or (codes "SUSPECT_AFTER_MISSES") 2) (λ suspect_after.
                  and_then (number_or (codes "DEAD_AFTER_MISSES") 5) (λ dead_after. ok (record {
                    port = port;
                    host = host;
                    virtual_node_count = virtual_node_count;
                    health_check_interval_ms = interval_ms;
                    health_check_timeout_ms = timeout_ms;
                    suspect_after_misses = suspect_after;
                    dead_after_misses = dead_after;
                    static_nodes = static_nodes;
                  })))))))))

  unfoldable pub load_benchmark_config : Result (BenchmarkConfig F)
  load_benchmark_config =
      and_then (text_or (codes "BENCHMARK_TARGET_URL") (codes "http://localhost:4000"))
        (λ target_base_url.
          and_then (number_or (codes "BENCHMARK_DURATION_MS") 30000) (λ duration_ms.
            and_then (number_or (codes "BENCHMARK_CONCURRENCY") 16) (λ concurrency.
              and_then (number_or (codes "BENCHMARK_KEYSPACE_SIZE") 10000) (λ keyspace_size.
                and_then (text_or (codes "BENCHMARK_REPORT_DIR") (codes "./reports"))
                  (λ report_directory. ok (record {
                    target_base_url = target_base_url;
                    duration_ms = duration_ms;
                    concurrency = concurrency;
                    keyspace_size = keyspace_size;
                    report_directory = report_directory;
                  }))))))

  cache_node-static_nodes :
      (c : CacheNodeConfig F)
      → load_cache_node_config ≡ ok c
      → read_static_nodes ≡ ok c.static_nodes
  unfolding load_cache_node_config
  cache_node-static_nodes c h =
      let (a1, _, h1) = and_then-ok _ _ c h in
      let (a2, _, h2) = and_then-ok _ _ c h1 in
      let (a3, _, h3) = and_then-ok _ _ c h2 in
      let (a4, _, h4) = and_then-ok _ _ c h3 in
      let (a5, _, h5) = and_then-ok _ _ c h4 in
      let (a6, _, h6) = and_then-ok _ _ c h5 in
      let (a7, _, h7) = and_then-ok _ _ c h6 in
      let (a8, _, h8) = and_then-ok _ _ c h7 in
      let (a9, _, h9) = and_then-ok _ _ c h8 in
      let (a10, _, h10) = and_then-ok _ _ c h9 in
      let (a11, _, h11) = and_then-ok _ _ c h10 in
      let (a12, _, h12) = and_then-ok _ _ c h11 in
      let (a13, _, h13) = and_then-ok _ _ c h12 in
      let (nodes, read, h14) = and_then-ok _ _ c h13 in read ∙ ap ok (last nodes _ h14)
    where
      last :
          (nodes : List (StaticNodeEntry F)) (x : CacheNodeConfig F)
          → ok x ≡ ok c
          → x.static_nodes ≡ c.static_nodes
      last nodes x h = ground arith

  gateway-static_nodes :
      (g : GatewayConfig F) → load_gateway_config ≡ ok g → read_static_nodes ≡ ok g.static_nodes
  unfolding load_gateway_config
  gateway-static_nodes g h =
      let (nodes, read, h1) = and_then-ok _ _ g h in
      let (a2, _, h2) = and_then-ok _ _ g h1 in
      let (a3, _, h3) = and_then-ok _ _ g h2 in
      let (a4, _, h4) = and_then-ok _ _ g h3 in
      let (a5, _, h5) = and_then-ok _ _ g h4 in
      let (a6, _, h6) = and_then-ok _ _ g h5 in
      let (a7, _, h7) = and_then-ok _ _ g h6 in
      let (a8, _, h8) = and_then-ok _ _ g h7 in read ∙ ap ok (last _ h8)
    where
      last : (x : GatewayConfig F) → ok x ≡ ok g → x.static_nodes ≡ g.static_nodes
      last x h = ground arith

  -- In one environment a cache node and the gateway are configured with the same nodes, if both are configured.
  pub load_cache_node_config-load_gateway_config :
      (c : CacheNodeConfig F) (g : GatewayConfig F)
      → load_cache_node_config ≡ ok c
      → load_gateway_config ≡ ok g
      → c.static_nodes ≡ g.static_nodes
  load_cache_node_config-load_gateway_config c g h k =
      same _ _ (sym (cache_node-static_nodes c h) ∙ gateway-static_nodes g k)
    where
      same : (xs ys : List (StaticNodeEntry F)) → ok xs ≡ ok ys → xs ≡ ys
      same xs ys h = ground arith
