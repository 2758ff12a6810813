-- ===== src/Shared/Config/Tests.antt =====
-- Configurations that are read, and the theorem at an input that meets its conditions.
use distributive_cache.Base.{◌≡◌, refl, [], ◌∷◌, length}
use distributive_cache.Shared.Errors.{ok, codes}
use distributive_cache.Shared.Config.{parse_static_nodes}
use distributive_cache.Shared.Config.StaticNodes.{
  NodeTexts, IsPlainNode, print_nodes, node_of, parse_static_nodes-print_nodes,
}

abbrev node : NodeTexts
node = record {
  id_text = codes "n1";
  host_text = codes "h";
  port_text = codes "41";
  weight_text = codes "2";
}

node-IsPlainNode : IsPlainNode node
node-IsPlainNode = record {
  id_plain = ((λ e. cc), ((refl, refl, refl), ((refl, refl, refl), tt)));
  host_plain = ((λ e. cc), ((refl, refl, refl), tt));
  port_plain = ((λ e. cc), ((refl, refl, refl), ((refl, refl, refl), tt)));
  weight_plain = ((λ e. cc), ((refl, refl, refl), tt));
}

parse_static_nodes-print_nodes_example :
    parse_static_nodes length 1 (print_nodes (node ∷ node ∷ []))
    ≡ ok (node_of length 1 node ∷ node_of length 1 node ∷ [])
parse_static_nodes-print_nodes_example =
    parse_static_nodes-print_nodes length 1 (node ∷ node ∷ [])
      (node-IsPlainNode, (node-IsPlainNode, tt))
