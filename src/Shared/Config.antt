-- ===== src/Shared/Config.antt =====
-- packages/shared/src/config.ts: the configuration of a service from its environment. `Number(text)` is an
-- argument, which gives `none` for NaN.
pub mod StaticNodes
pub mod Services
mod Tests
use distributive_cache.Base.{
  ℕ, ◌+◌, ◌*◌, leb, ◌==◌, Bool, true, false, ◌&&◌, ◌||◌, not, Option, none, some, List, [], ◌∷◌,
  ◌++◌, map, select, get_elem?, ite, if◌then◌else◌, Text, Text-discrete, text_keyed,
}
use distributive_cache.Shared.Errors.{Result, ok, err, flow, configuration, codes}
use distributive_cache.Shared.Numbers.{Numbers}

unfoldable pub and_then : {A B : Type 0} → Result A → (A → Result B) → Result B
and_then (ok a) f = f a
and_then (err t) f = err t

abbrev pub attach : ℕ → List Text → List Text
attach c [] = (c ∷ []) ∷ []
attach c (w ∷ ws) = (c ∷ w) ∷ ws

-- `text.split(sep)` for a separator of one character.
unfoldable pub split : ℕ → Text → List Text
split sep [] = [] ∷ []
split sep (c ∷ cs) = let rest = split sep cs in if c == sep then [] ∷ rest else attach c rest

-- The characters that `trim` removes.
abbrev pub is_space : ℕ → Bool
is_space c =
    ((leb 9 c && leb c 13) || (c == 32 || c == 160))
    || ((c == 5760 || (leb 8192 c && leb c 8202))
        || ((c == 8232 || c == 8233) || (c == 8239 || (c == 8287 || (c == 12288 || c == 65279)))))

unfoldable pub trim_start : Text → Text
trim_start [] = []
trim_start (c ∷ cs) = let rest = trim_start cs in if is_space c then rest else c ∷ cs

abbrev pub keep_unless_space : ℕ → Text → Text
keep_unless_space c [] = if is_space c then [] else c ∷ []
keep_unless_space c (d ∷ ds) = c ∷ d ∷ ds

unfoldable pub trim_end : Text → Text
trim_end [] = []
trim_end (c ∷ cs) = keep_unless_space c (trim_end cs)

unfoldable pub trim : Text → Text
trim t = trim_end (trim_start t)

abbrev pub is_truthy : Text → Bool
is_truthy [] = false
is_truthy (c ∷ cs) = true

-- `v.split(',').map((s) => s.trim()).filter(Boolean)`
unfoldable pub items : Text → List Text
items v = select is_truthy (map trim (split 44 v))

-- The environment, without the variables that are empty.
abbrev pub present : Option Text → Option Text
present none = none
present (some []) = none
present (some (c ∷ cs)) = some (c ∷ cs)

abbrev pub missing : {A : Type 0} → Text → Option A → Result A
missing key (some fallback) = ok fallback
missing key none =
    err (flow (configuration (codes "Missing required environment variable: " ++ key)))

abbrev pub lower : ℕ → ℕ
lower c = if leb 65 c && leb c 90 then c + 32 else c

module _ (env : Text → Option Text) where
  unfoldable pub read_string : Text → Option Text → Result Text
  read_string key fallback = elim (present (env key)) [
    | none ↦ missing key fallback
    | some v ↦ ok v
  ]

  unfoldable pub read_number : {F : Type 0} → (Text → Option F) → Text → Option F → Result F
  read_number number key fallback = elim (present (env key)) [
    | none ↦ missing key fallback
    | some v ↦ elim (number v) [
      | some x ↦ ok x
      | none ↦ err (
          flow (
            configuration (
              codes "Environment variable "
              ++ (key ++ (codes " must be numeric, got \"" ++ (v ++ codes "\""))))))
    ]
  ]

  unfoldable pub read_boolean : Text → Bool → Bool
  read_boolean key fallback = elim (present (env key)) [
    | none ↦ fallback
    | some v ↦
        ite (Text-discrete (map lower v) (codes "true")) true
          (ite (Text-discrete v (codes "1")) true false)
  ]

  unfoldable pub read_list : Text → List Text → List Text
  read_list key fallback = elim (present (env key)) [ none ↦ fallback | some v ↦ items v ]

pub record StaticNodeEntry (F : Type 0) : Type 0 where
  pub node_id : Text
  pub host : Text
  pub port : F
  pub weight : F

-- A part of an entry that is there and not empty.
abbrev pub part : List Text → ℕ → Option Text
part parts i = present (get_elem? parts i)

module _ {F : Type 0} (number_of : Text → F) (one : F) where
  abbrev pub weight_or_one : Option Text → F
  weight_or_one none = one
  weight_or_one (some w) = number_of w

  unfoldable pub parse_entry : Text → Result (StaticNodeEntry F)
  parse_entry entry =
      let parts = split 58 entry in
      let malformed : Result (StaticNodeEntry F) = err (
        flow (configuration (codes "Malformed STATIC_NODES entry: \"" ++ (entry ++ codes "\"")))) in
      elim (part parts 0) [
        | none ↦ malformed
        | some node_id ↦ elim (part parts 1) [
          | none ↦ malformed
          | some host ↦ elim (part parts 2) [
            | none ↦ malformed
            | some port ↦ ok (record {
              node_id = node_id;
              host = host;
              port = number_of port;
              weight = weight_or_one (part parts 3);
            })
          ]
        ]
      ]

  -- The first malformed entry is thrown.
  unfoldable pub parse_entries : List Text → Result (List (StaticNodeEntry F))
  parse_entries [] = ok []
  parse_entries (e ∷ es) =
      let rest = parse_entries es in
      and_then (parse_entry e) (λ node. and_then rest (λ nodes. ok (node ∷ nodes)))

  unfoldable pub parse_static_nodes : Text → Result (List (StaticNodeEntry F))
  parse_static_nodes raw = parse_entries (items raw)
