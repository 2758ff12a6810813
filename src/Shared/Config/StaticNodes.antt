-- ===== src/Shared/Config/StaticNodes.antt =====
-- The list of nodes is read back as it was written.
use distributive_cache.Base.{
  ℕ, ◌≡◌, refl, ◌≢◌, ◌==◌, true, false, some, List, [], ◌∷◌, ◌++◌, map, select, arith, Text, All,
  All-append, All-map, ap, ◌∙◌,
}
use distributive_cache.Shared.Errors.{ok}
use distributive_cache.Shared.Config.{
  split, attach, is_space, trim_start, keep_unless_space, trim_end, trim, is_truthy, items, present,
  StaticNodeEntry, parse_entry, parse_entries, parse_static_nodes, and_then,
}

-- The texts of a node.
pub record NodeTexts : Type 0 where
  pub id_text : Text
  pub host_text : Text
  pub port_text : Text
  pub weight_text : Text

abbrev pub print_entry : NodeTexts → Text
print_entry e = e.id_text ++ (58 ∷ (e.host_text ++ (58 ∷ (e.port_text ++ (58 ∷ e.weight_text)))))

abbrev pub print_nodes : List NodeTexts → Text
print_nodes [] = []
print_nodes (e ∷ []) = print_entry e
print_nodes (e ∷ f ∷ es) = print_entry e ++ (44 ∷ print_nodes (f ∷ es))

-- A character that is no separator and no space.
abbrev pub IsPlainChar : ℕ → Type 0
IsPlainChar c = ((c == 44) ≡ false) × ((c == 58) ≡ false) × (is_space c ≡ false)

abbrev pub IsPlain : Text → Type 0
IsPlain t = (t ≢ []) × All IsPlainChar t

pub record IsPlainNode (e : NodeTexts) : Type 0 where
  pub id_plain : IsPlain e.id_text
  pub host_plain : IsPlain e.host_text
  pub port_plain : IsPlain e.port_text
  pub weight_plain : IsPlain e.weight_text

module _ (sep : ℕ) where
  abbrev IsWithout : Text → Type 0
  IsWithout = All (λ c. (c == sep) ≡ false)

  split_whole : (t : Text) → IsWithout t → split sep t ≡ t ∷ []
  unfolding split
  split_whole [] h = refl
  split_whole (c ∷ cs) h = rw (h.0, split) (ap (attach c) (split_whole cs h.1))

  split_first : (t u : Text) → IsWithout t → split sep (t ++ (sep ∷ u)) ≡ t ∷ split sep u
  unfolding split
  split_first [] u h = ground arith
  split_first (c ∷ cs) u h = rw (h.0, split) (ap (attach c) (split_first cs u h.1))

-- No comma and no space, as in a printed node.
abbrev IsItem : Text → Type 0
IsItem = All (λ c. ((c == 44) ≡ false) × (is_space c ≡ false))

trim_end_item : (t : Text) → IsItem t → trim_end t ≡ t
unfolding trim_end
trim_end_item [] h = refl
trim_end_item (c ∷ cs) h = ap (keep_unless_space c) (trim_end_item cs h.1) ∙ kept c cs h.0.1
  where
    kept : (c : ℕ) (cs : Text) → is_space c ≡ false → keep_unless_space c cs ≡ c ∷ cs
    kept c [] h = simp h
    kept c (d ∷ ds) h = refl

trim_start_item : (t : Text) → IsItem t → trim_start t ≡ t
unfolding trim_start
trim_start_item [] h = refl
trim_start_item (c ∷ cs) h = simp (h.0.1, trim_start)

trim_item : (t : Text) → IsItem t → trim t ≡ t
unfolding trim
trim_item t h = ap trim_end (trim_start_item t h) ∙ trim_end_item t h

plain-IsItem : (t : Text) → All IsPlainChar t → IsItem t
plain-IsItem t h = All-map _ _ t (λ c p. (p.0, p.2)) h

plain-IsWithout : (t : Text) → All IsPlainChar t → IsWithout 58 t
plain-IsWithout t h = All-map _ _ t (λ c p. p.1) h

print_entry-IsItem : (e : NodeTexts) → IsPlainNode e → IsItem (print_entry e)
print_entry-IsItem e p =
    let more = λ (t u : Text) (h : IsPlain t) (k : IsItem u).
      All-append _ t (58 ∷ u) (plain-IsItem t h.1) ((refl, refl), k) in
    more e.id_text _ p.id_plain (
      more e.host_text _ p.host_plain
        (more e.port_text _ p.port_plain (plain-IsItem e.weight_text p.weight_plain.1)))

append_truthy : (t u : Text) → t ≢ [] → is_truthy (t ++ u) ≡ true
append_truthy [] u h = absurd (h refl)
append_truthy (c ∷ cs) u h = refl

items_one : (t : Text) → IsItem t → is_truthy t ≡ true → items t ≡ t ∷ []
unfolding items select
items_one t h k =
    ap (λ ts. select is_truthy (map trim ts)) (split_whole 44 t (All-map _ _ t (λ c p. p.0) h))
    ∙ ap (λ x. select is_truthy (x ∷ [])) (trim_item t h)
    ∙ simp (k, select)

items_more : (t u : Text) → IsItem t → is_truthy t ≡ true → items (t ++ (44 ∷ u)) ≡ t ∷ items u
unfolding items select
items_more t u h k =
    ap (λ ts. select is_truthy (map trim ts)) (split_first 44 t u (All-map _ _ t (λ c p. p.0) h))
    ∙ ap (λ x. select is_truthy (x ∷ map trim (split 44 u))) (trim_item t h)
    ∙ simp (k, select)

print_entry_truthy : (e : NodeTexts) → IsPlainNode e → is_truthy (print_entry e) ≡ true
print_entry_truthy e p = append_truthy e.id_text _ p.id_plain.0

items-print_nodes :
    (es : List NodeTexts) → All IsPlainNode es → items (print_nodes es) ≡ map print_entry es
unfolding items split trim trim_start trim_end select
items-print_nodes [] h = refl
items-print_nodes (e ∷ []) h =
    items_one (print_entry e) (print_entry-IsItem e h.0) (print_entry_truthy e h.0)
items-print_nodes (e ∷ f ∷ es) h =
    items_more (print_entry e) (print_nodes (f ∷ es)) (print_entry-IsItem e h.0)
      (print_entry_truthy e h.0)
    ∙ ap (λ ts. print_entry e ∷ ts) (items-print_nodes (f ∷ es) h.1)

present_plain : (t : Text) → t ≢ [] → present (some t) ≡ some t
present_plain [] h = absurd (h refl)
present_plain (c ∷ cs) h = refl

split-print_entry :
    (e : NodeTexts)
    → IsPlainNode e
    → split 58 (print_entry e) ≡ e.id_text ∷ e.host_text ∷ e.port_text ∷ e.weight_text ∷ []
split-print_entry e p =
    split_first 58 e.id_text _ (plain-IsWithout e.id_text p.id_plain.1)
    ∙ ap (λ ts. e.id_text ∷ ts)
        (split_first 58 e.host_text _ (plain-IsWithout e.host_text p.host_plain.1)
          ∙ ap (λ ts. e.host_text ∷ ts)
              (split_first 58 e.port_text _ (plain-IsWithout e.port_text p.port_plain.1)
                ∙ ap (λ ts. e.port_text ∷ ts)
                    (split_whole 58 e.weight_text
                      (plain-IsWithout e.weight_text p.weight_plain.1))))

module _ {F : Type 0} (number_of : Text → F) (one : F) where
  -- The node that the texts stand for.
  abbrev pub node_of : NodeTexts → StaticNodeEntry F
  node_of e = record {
    node_id = e.id_text;
    host = e.host_text;
    port = number_of e.port_text;
    weight = number_of e.weight_text;
  }

  parse_entry-print_entry :
      (e : NodeTexts) → IsPlainNode e → parse_entry number_of one (print_entry e) ≡ ok (node_of e)
  unfolding parse_entry
  parse_entry-print_entry e p = simp (
    split-print_entry e p,
    present_plain e.id_text p.id_plain.0,
    present_plain e.host_text p.host_plain.0,
    present_plain e.port_text p.port_plain.0,
    present_plain e.weight_text p.weight_plain.0,
    parse_entry,
  )

  parse_entries-map :
      (es : List NodeTexts)
      → All IsPlainNode es
      → parse_entries number_of one (map print_entry es) ≡ ok (map node_of es)
  unfolding parse_entries and_then
  parse_entries-map [] h = refl
  parse_entries-map (e ∷ es) h =
      simp (parse_entry-print_entry e h.0, parse_entries-map es h.1, parse_entries, and_then)

  -- A list of nodes, written as `id:host:port:weight` with commas between, is read back as it was, if no part is
  -- empty and none has a comma, a colon or a space in it.
  pub parse_static_nodes-print_nodes :
      (es : List NodeTexts)
      → All IsPlainNode es
      → parse_static_nodes number_of one (print_nodes es) ≡ ok (map node_of es)
  unfolding parse_static_nodes
  parse_static_nodes-print_nodes es h =
      ap (parse_entries number_of one) (items-print_nodes es h) ∙ parse_entries-map es h
